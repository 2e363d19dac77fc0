-- ===== src/Ctrl/Tests.antt =====
-- The inverter's control at concrete states.
use deye_inverter_display_es.Common.{
  ◌<◌, ◌≡◌, ◌≢◌, ◌⊎◌, refl, ◌*◌, ◌≤◌, sub32, u32, inr, true, false, pos, negsuc, arith, [], ◌∷◌,
  to_u16, to_u8, tdiv_ℤ,
}
use deye_inverter_display_es.Ctrl.{
  normal, force_charge, force_discharge, World, initial, clamp_power, write_raw, write_verify,
  write_range, write_regs, fall_back_to_normal, write_pending, task_undo, task_round, start, apply,
  apply_clamped, set_throttled,
}
use deye_inverter_display_es.Bench.{bench, bench_laws, plugged, unplugged, booted}
use deye_inverter_display_es.Ctrl.Range.{IsValid, Op, run_ops, run_ops-IsValid}
use deye_inverter_display_es.Ctrl.Verify.{
  charge_confirmed, fall_back_confirmed, task_undo_outcome, throttle_keeps_mode,
}
use deye_inverter_display_es.Ctrl.Limit.{task_round_limits}
use deye_inverter_display_es.Ctrl.Restart.{restart_normal}

initial-IsValid : IsValid initial
initial-IsValid = ground arith

run_ops-IsValid_example :
    IsValid
      (run_ops bench
        (Op.start_op
          ∷ Op.task_op
          ∷ Op.auto_op force_charge (pos 90000) (pos 120) 90000
          ∷ Op.throttle_op (negsuc 4)
          ∷ Op.task_op
          ∷ [])
        booted).ctrl
run_ops-IsValid_example =
    run_ops-IsValid bench
      (Op.start_op
        ∷ Op.task_op
        ∷ Op.auto_op force_charge (pos 90000) (pos 120) 90000
        ∷ Op.throttle_op (negsuc 4)
        ∷ Op.task_op
        ∷ [])
      booted initial-IsValid

abbrev charged : World bench
charged = (write_regs bench force_charge (pos 5000) booted).1

charge_confirmed_example : (charged.env.reg 127 ≡ 99) × (charged.env.reg 128 ≡ to_u16 (pos 100))
unfolding write_regs write_raw write_verify write_range to_u16 to_u8 tdiv_ℤ
charge_confirmed_example = charge_confirmed bench bench_laws (pos 5000) booted refl

fall_back_confirmed_example :
    let (done, w') = fall_back_to_normal bench booted in
    ((done ≡ true) × (w'.ctrl.failed ≡ 0) × (w'.env.reg 142 ≡ 2) × (w'.env.reg 143 ≡ 20000))
    ⊎ ((done ≡ false) × (w'.ctrl.failed ≢ 0) × (w'.env.stored ≡ 2))
fall_back_confirmed_example = fall_back_confirmed bench bench_laws booted

task_undo_outcome_example :
    let w' = (task_undo bench (record { ctrl = initial; env = unplugged })).1 in
    ((w'.env.reg 142 ≡ 2) × (w'.env.reg 143 ≡ 20000) × (w'.ctrl.undo_pending ≡ false))
    ⊎ ((w'.env.stored ≡ 2) × ((w'.ctrl.undo_pending ≡ false) ⊎ (0 < 5)))
task_undo_outcome_example =
    task_undo_outcome bench bench_laws (record { ctrl = initial; env = unplugged }) (omega arith)

throttle_keeps_mode_example :
    let w' =
      (write_pending bench
        (set_throttled bench (pos 3000) (apply bench force_discharge (pos 9000) booted).1).1).1 in
    (w'.env.reg 142 ≡ 3)
    × (w'.env.reg 143 ≡ to_u16 (clamp_power (pos 1000) (pos 3000)))
    × (w'.ctrl.user_power_w ≡ clamp_power (pos 1000) (pos 9000))
    × (w'.ctrl.write_full ≡ false)
unfolding write_pending write_regs write_raw write_verify set_throttled apply apply_clamped to_u16
throttle_keeps_mode_example = throttle_keeps_mode bench bench_laws (pos 9000) (pos 3000) booted refl

task_round_limits_example :
    let c = (task_round bench booted).1.ctrl in
    let age = sub32 (u32 booted.env.now) 0 in
    ((booted.ctrl.undo_pending ≡ true) × (c.mode ≡ normal))
    ⊎ (((booted.ctrl.undo_pending ≡ false)
          × (booted.ctrl.mode ≢ normal)
          × (u32 (booted.ctrl.limit_s * 1000) < age)
          × (c.mode ≡ normal))
        ⊎ ((booted.ctrl.undo_pending ≡ false)
            × ((booted.ctrl.mode ≡ normal) ⊎ (age ≤ booted.ctrl.limit_s * 1000))
            × (c.mode ≡ normal)
            × (c.mode_ms ≡ 0)
            × (c.limit_s ≡ 7200)))
task_round_limits_example = task_round_limits bench booted

restart_normal_example :
    let w = (start bench (record { ctrl = initial; env = plugged })).1 in
    let w' = (task_round bench w).1 in
    ((plugged.stored ≡ 1 → w.ctrl.mode ≡ force_charge)
      × (plugged.stored ≡ 2 → w.ctrl.mode ≡ force_discharge))
    × (w'.ctrl.mode ≡ normal)
    × (((w'.env.reg 142 ≡ 2) × (w'.env.reg 143 ≡ 20000) × (w'.ctrl.undo_pending ≡ false))
        ⊎ ((w'.env.stored ≡ 2) × (w'.ctrl.undo_pending ≡ true) × (w'.ctrl.undo_tries ≡ 1)))
restart_normal_example = restart_normal bench bench_laws plugged (inr refl)

abbrev forced : World bench
forced = record booted { ctrl = record initial { mode = force_discharge; mode_ms = 90000 } }

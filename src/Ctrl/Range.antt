-- ===== src/Ctrl/Range.antt =====
-- The state of main/deye_ctrl.c stays in range under every operation.
use deye_inverter_display_es.Common.{
  ℕ, ◌+◌, ◌≤◌, ◌≡◌, ◌≢◌, false, ℤ, pos, ◌≤ℤ◌, arith, to_u8, u8, u32, List, [], ◌∷◌,
}
use deye_inverter_display_es.Ctrl.Rel.{write_regs-rel, write_power-rel, write_charge_power-rel}
use deye_inverter_display_es.Ctrl.{
  Mode, normal, count, Env, Ctrl, World, clamp_soc, clamp_limit, write_raw, write_verify,
  write_regs, write_power, write_charge_power, fall_back_to_normal, write_pending, task_undo,
  task_round, start, apply_clamped, apply, apply_sweep, apply_auto, retune, set_throttled,
  auto_max_s,
}

pub record IsValid (c : Ctrl) : Type 0 where
  pub known : c.mode ≢ count
  pub power_low : pos 250 ≤ℤ c.power_w
  pub power_high : c.power_w ≤ℤ pos 20000
  pub user_low : pos 250 ≤ℤ c.user_power_w
  pub user_high : c.user_power_w ≤ℤ pos 20000
  pub limited : c.limit_s ≤ auto_max_s
  pub soc_low : 10 ≤ c.charge_soc
  pub soc_high : c.charge_soc ≤ 100

-- What the register writes leave as it was.
pub record SameSettings (c d : Ctrl) : Type 0 where
  pub mode_eq : d.mode ≡ c.mode
  pub power_eq : d.power_w ≡ c.power_w
  pub user_eq : d.user_power_w ≡ c.user_power_w
  pub limit_eq : d.limit_s ≡ c.limit_s
  pub soc_eq : d.charge_soc ≡ c.charge_soc
  pub ms_eq : d.mode_ms ≡ c.mode_ms
  pub full_eq : d.write_full ≡ c.write_full
  pub tries_eq : d.undo_tries ≡ c.undo_tries
  pub pending_eq : d.undo_pending ≡ c.undo_pending

clamp_soc_range : (soc : ℤ) → (10 ≤ to_u8 (clamp_soc soc)) × (to_u8 (clamp_soc soc) ≤ 100)
unfolding to_u8
clamp_soc_range soc = ground arith

module _ (e : Env) where
  abbrev pub Kept : World e → World e → Type 0
  Kept v w = SameSettings v.ctrl w.ctrl

  Kept-trans : (u v w : World e) → Kept u v → Kept v w → Kept u w
  Kept-trans u v w p q = ground arith

  write_raw-Kept : (r v : ℕ) (w : World e) → Kept w (write_raw e r v w).1
  unfolding write_raw
  write_raw-Kept r v w = ground arith

  write_verify-Kept : (r v : ℕ) (w : World e) → Kept w (write_verify e r v w).1
  unfolding write_raw write_verify
  write_verify-Kept r v w = ground arith

  pub write_regs-Kept : (m : Mode) (p : ℤ) (w : World e) → Kept w (write_regs e m p w).1
  write_regs-Kept =
      write_regs-rel e Kept (λ w. ground arith) Kept-trans (λ w. ground arith) write_raw-Kept
        write_verify-Kept

  write_power-Kept : (p : ℤ) (w : World e) → Kept w (write_power e p w).1
  write_power-Kept =
      write_power-rel e Kept (λ w. ground arith) Kept-trans (λ w. ground arith) write_raw-Kept
        write_verify-Kept

  write_charge_power-Kept : (p : ℤ) (w : World e) → Kept w (write_charge_power e p w).1
  write_charge_power-Kept =
      write_charge_power-rel e Kept (λ w. ground arith) Kept-trans (λ w. ground arith)
        write_raw-Kept write_verify-Kept

  Kept-IsValid : (v w : World e) → Kept v w → IsValid v.ctrl → IsValid w.ctrl
  Kept-IsValid v w k h = ground arith

  pub write_pending-Kept :
      (w : World e)
      → let c = (write_pending e w).1.ctrl in
        (c.mode ≡ w.ctrl.mode) × (c.mode_ms ≡ w.ctrl.mode_ms) × (c.limit_s ≡ w.ctrl.limit_s)
  unfolding write_pending
  write_pending-Kept w =
      let w' : World e = record w { ctrl = record w.ctrl { write_full = false } } in
      ground (
        arith,
        write_regs-Kept w.ctrl.mode w.ctrl.power_w w',
        write_power-Kept w.ctrl.power_w w',
        write_charge_power-Kept w.ctrl.power_w w',
      )

  -- What the fallback leaves: Normal at the user's power, with the limits as they were.
  pub fall_back_settings :
      (w : World e)
      → let c = (fall_back_to_normal e w).1.ctrl in
        (c.mode ≡ normal)
        × (c.power_w ≡ w.ctrl.user_power_w)
        × (c.user_power_w ≡ w.ctrl.user_power_w)
        × (c.limit_s ≡ w.ctrl.limit_s)
        × (c.charge_soc ≡ w.ctrl.charge_soc)
  unfolding fall_back_to_normal
  fall_back_settings w = ground (
    arith,
    write_regs-Kept normal w.ctrl.user_power_w (record w {
      ctrl = record w.ctrl {
        mode = normal;
        power_w = w.ctrl.user_power_w;
        mode_ms = u32 (e.now_ms w.env);
      };
    }),
  )

  fall_back-IsValid : (w : World e) → IsValid w.ctrl → IsValid (fall_back_to_normal e w).1.ctrl
  fall_back-IsValid w h = ground (arith, fall_back_settings w)

  write_pending-IsValid : (w : World e) → IsValid w.ctrl → IsValid (write_pending e w).1.ctrl
  unfolding write_pending
  write_pending-IsValid w h =
      let w' : World e = record w { ctrl = record w.ctrl { write_full = false } } in
      let h' : IsValid w'.ctrl = ground arith in
      ground (
        arith,
        Kept-IsValid w' (write_regs e w.ctrl.mode w.ctrl.power_w w').1
            (write_regs-Kept w.ctrl.mode w.ctrl.power_w w') h',
        Kept-IsValid w' (write_power e w.ctrl.power_w w').1 (write_power-Kept w.ctrl.power_w w') h',
        Kept-IsValid w' (write_charge_power e w.ctrl.power_w w').1
            (write_charge_power-Kept w.ctrl.power_w w') h',
      )

  task_undo-IsValid : (w : World e) → IsValid w.ctrl → IsValid (task_undo e w).1.ctrl
  unfolding task_undo
  task_undo-IsValid w h = ground (
    arith,
    fall_back-IsValid
        (record w { ctrl = record w.ctrl { undo_tries = u8 (w.ctrl.undo_tries + 1) } }),
  )

  -- The operations that change the module's state, in the order in which callers and the task may
  -- take them.
  pub data Op : Type 0 where
    start_op : Op
    apply_op : Mode → ℤ → Op
    sweep_op : Mode → ℤ → Op
    auto_op : Mode → ℤ → ℤ → ℕ → Op
    retune_op : ℤ → Op
    throttle_op : ℤ → Op
    task_op : Op

  abbrev pub run_op : Op → World e → World e
  run_op start_op w = (start e w).1
  run_op (apply_op m p) w = (apply e m p w).1
  run_op (sweep_op m p) w = (apply_sweep e m p w).1
  run_op (auto_op m p soc limit) w = (apply_auto e m p soc limit w).1
  run_op (retune_op p) w = (retune e p w).1
  run_op (throttle_op p) w = (set_throttled e p w).1
  run_op task_op w = (task_round e w).1

  abbrev pub run_ops : List Op → World e → World e
  run_ops [] w = w
  run_ops (o ∷ os) w = run_ops os (run_op o w)

  apply_clamped-IsValid :
      (m : Mode) (p floor_w : ℤ) (soc limit : ℕ) (w : World e)
      → pos 250 ≤ℤ floor_w
      → floor_w ≤ℤ pos 20000
      → 10 ≤ soc
      → soc ≤ 100
      → limit ≤ auto_max_s
      → IsValid (apply_clamped e m p floor_w soc limit w).1.ctrl
  unfolding apply_clamped
  apply_clamped-IsValid m p floor_w soc limit w a b c d l = ground arith

  apply_auto-IsValid :
      (m : Mode) (p soc : ℤ) (limit : ℕ) (w : World e)
      → IsValid (apply_auto e m p soc limit w).1.ctrl
  unfolding apply_auto
  apply_auto-IsValid m p soc limit w =
      let (low, high) = clamp_soc_range soc in
      apply_clamped-IsValid m p (pos 250) (to_u8 (clamp_soc soc)) (clamp_limit limit) w
        (omega arith) (omega arith) low high (ground arith)

  run_op-IsValid : (o : Op) (w : World e) → IsValid w.ctrl → IsValid (run_op o w).ctrl
  unfolding start apply apply_sweep retune set_throttled task_round
  run_op-IsValid start_op w h = ground arith
  run_op-IsValid (apply_op m p) w h =
      apply_clamped-IsValid m p (pos 1000) 99 7200 w (omega arith) (omega arith) (omega arith)
        (omega arith) (omega arith)
  run_op-IsValid (sweep_op m p) w h =
      apply_clamped-IsValid m p (pos 250) 99 7200 w (omega arith) (omega arith) (omega arith)
        (omega arith) (omega arith)
  run_op-IsValid (auto_op m p soc limit) w h = apply_auto-IsValid m p soc limit w
  run_op-IsValid (retune_op p) w h = ground arith
  run_op-IsValid (throttle_op p) w h = ground arith
  run_op-IsValid task_op w h =
      let w' : World e = record w { ctrl = record w.ctrl { notified = false } } in
      let h' : IsValid w'.ctrl = ground arith in
      ground (arith, task_undo-IsValid w' h', fall_back-IsValid w' h', write_pending-IsValid w' h')

  -- Whatever is called, in whatever order, from a state in range: the mode is a real one, the
  -- applied and the user's power lie in 250..20000 W, no mode may last longer than twelve hours,
  -- and the charge target lies in 10..100 %.
  pub run_ops-IsValid : (os : List Op) (w : World e) → IsValid w.ctrl → IsValid (run_ops os w).ctrl
  run_ops-IsValid [] w h = h
  run_ops-IsValid (o ∷ os) w h = run_ops-IsValid os (run_op o w) (run_op-IsValid o w h)

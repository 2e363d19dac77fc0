-- ===== src/Ctrl/Verify.antt =====
-- What a confirmed write of main/deye_ctrl.c means for the inverter's registers.
use deye_inverter_display_es.Common.{
  ℕ, ◌+◌, ◌<◌, ◌≡◌, ◌≢◌, ◌⊎◌, refl, true, false, ℤ, pos, arith, u8, u32, to_u16, tdiv_ℤ, ◌∙◌,
}
use deye_inverter_display_es.Ctrl.{
  Mode, normal, force_charge, force_discharge, Env, EnvLaws, World, clamp_power, write_raw,
  write_verify, write_range, reset_tally, write_regs, fall_back_to_normal, write_pending, task_undo,
  apply, apply_clamped, set_throttled,
}
use deye_inverter_display_es.Ctrl.Rel.{write_range-rel, write_regs-rel}
use deye_inverter_display_es.Ctrl.Range.{write_regs-Kept}

module _ (e : Env) (laws : EnvLaws e) where
  open laws use {reg, read_reg, reg_read, reg_write, reg_set_mode, mode_read, mode_write}

  -- No register write counts as a failure or touches register `b` or the stored mode.
  record Beside (b : ℕ) (v w : World e) : Type 0 where
    same_failed : w.ctrl.failed ≡ v.ctrl.failed
    same_reg : reg w.env b ≡ reg v.env b

  Beside-trans : (b : ℕ) (u v w : World e) → Beside b u v → Beside b v w → Beside b u w
  Beside-trans b u v w p q = ground arith

  write_raw-Beside : (b r v : ℕ) (w : World e) → r ≢ b → Beside b w (write_raw e r v w).1
  unfolding write_raw
  write_raw-Beside b r v w ne = ground (arith, reg_write r b v w.env ne)

  write_range-Beside :
      (b n first val : ℕ) (w : World e) → b < first → Beside b w (write_range e n first val w).1
  write_range-Beside b n first val w below =
      write_range-rel e (Beside b) (λ w. record { same_failed = refl; same_reg = refl })
        (Beside-trans b) n first val (λ r h k w. write_raw-Beside b r val w (omega arith)) w

  -- A verified write either counts a failure, or leaves the register at the value.
  write_verify-Confirmed :
      (r v : ℕ) (w : World e)
      → let w' = (write_verify e r v w).1 in
        ((w'.ctrl.failed ≡ w.ctrl.failed) × (reg w'.env r ≡ v))
        ⊎ (w'.ctrl.failed ≡ u8 (w.ctrl.failed + 1))
  unfolding write_verify write_raw
  write_verify-Confirmed r v w =
      ground (arith, read_reg r (e.deye_write r v w.env).1, reg_read r r (e.deye_write r v w.env).1)

  write_verify-other :
      (b r v : ℕ) (w : World e) → r ≢ b → reg (write_verify e r v w).1.env b ≡ reg w.env b
  unfolding write_verify write_raw
  write_verify-other b r v w ne =
      ground (arith, reg_write r b v w.env ne, reg_read r b (e.deye_write r v w.env).1)

  -- Two verified writes with no failure in between and before.
  two_confirmed :
      (r q v u : ℕ) (w : World e)
      → q ≢ r
      → w.ctrl.failed ≡ 0
      → let w' = (write_verify e q u (write_verify e r v w).1).1 in
        w'.ctrl.failed ≡ 0 → (reg w'.env r ≡ v) × (reg w'.env q ≡ u)
  two_confirmed r q v u w ne start all = ground (
    arith,
    write_verify-Confirmed r v w,
    write_verify-Confirmed q u (write_verify e r v w).1,
    write_verify-other r q u (write_verify e r v w).1 ne,
  )

  tail_normal : World e → World e
  tail_normal w =
      (write_range e 6 172 0
        (write_range e 6 166 13
          (write_raw e 128 40 (write_raw e 127 10 (write_raw e 126 5000 w).1).1).1).1).1

  tail_normal-Beside : (b : ℕ) (w : World e) → 128 < b → b < 166 → Beside b w (tail_normal w)
  unfolding tail_normal
  tail_normal-Beside b w low high =
      Beside-trans b _ _ _ (write_raw-Beside b 126 5000 w (omega arith)) (
        Beside-trans b _ _ _ (write_raw-Beside b 127 10 _ (omega arith)) (
          Beside-trans b _ _ _ (write_raw-Beside b 128 40 _ (omega arith)) (
            Beside-trans b _ _ _ (write_range-Beside b 6 166 13 _ high)
              (write_range-Beside b 6 172 0 _ (omega arith)))))

  -- With no failure counted, the full Normal set leaves the inverter in Zero Export To CT at the
  -- full sell power.
  pub normal_confirmed :
      (p : ℤ) (w : World e)
      → let w' = (write_regs e normal p w).1 in
        w'.ctrl.failed ≡ 0 → (reg w'.env 142 ≡ 2) × (reg w'.env 143 ≡ 20000)
  unfolding write_regs tail_normal
  normal_confirmed p w none_failed =
      let w1 = (reset_tally e w).1 in
      let w3 = (write_verify e 143 20000 (write_verify e 142 2 w1).1).1 in
      ground (
        arith,
        two_confirmed 142 143 2 20000 w1 (omega arith) refl,
        tail_normal-Beside 142 w3 (omega arith) (omega arith),
        tail_normal-Beside 143 w3 (omega arith) (omega arith),
      )

  -- With no failure counted, the full discharge set leaves the inverter in Selling First at `p`.
  pub discharge_confirmed :
      (p : ℤ) (w : World e)
      → let w' = (write_regs e force_discharge p w).1 in
        w'.ctrl.failed ≡ 0 → (reg w'.env 142 ≡ 3) × (reg w'.env 143 ≡ to_u16 p)
  unfolding write_regs
  discharge_confirmed p w =
      two_confirmed 142 143 3 (to_u16 p) (reset_tally e w).1 (omega arith) refl

  -- With no failure counted, the full charge set leaves the charge target and the charge current.
  pub charge_confirmed :
      (p : ℤ) (w : World e)
      → let w' = (write_regs e force_charge p w).1 in
        w'.ctrl.failed ≡ 0
        → (reg w'.env 127 ≡ w.ctrl.charge_soc) × (reg w'.env 128 ≡ to_u16 (tdiv_ℤ p 50))
  unfolding write_regs write_raw
  charge_confirmed p w none_failed =
      let w2 = (write_raw e 126 (to_u16 p) (reset_tally e w).1).1 in
      let soc = w2.ctrl.charge_soc in
      let amps = to_u16 (tdiv_ℤ p 50) in
      let w4 = (write_verify e 128 amps (write_verify e 127 soc w2).1).1 in
      let w5 = (write_range e 6 166 soc w4).1 in
      ground (
        arith,
        two_confirmed 127 128 soc amps w2 (omega arith) refl,
        write_range-Beside 127 6 166 soc w4 (omega arith),
        write_range-Beside 128 6 166 soc w4 (omega arith),
        write_range-Beside 127 6 172 1 w5 (omega arith),
        write_range-Beside 128 6 172 1 w5 (omega arith),
      )

  -- The register writes leave the stored mode alone.
  abbrev SameStored : World e → World e → Type 0
  SameStored v w = e.get_mode w.env ≡ e.get_mode v.env

  write_raw-SameStored : (r v : ℕ) (w : World e) → SameStored w (write_raw e r v w).1
  unfolding write_raw
  write_raw-SameStored r v w = mode_write r v w.env

  write_verify-SameStored : (r v : ℕ) (w : World e) → SameStored w (write_verify e r v w).1
  unfolding write_verify write_raw
  write_verify-SameStored r v w =
      ground (arith, mode_write r v w.env, mode_read r (e.deye_write r v w.env).1)

  write_regs-SameStored : (m : Mode) (p : ℤ) (w : World e) → SameStored w (write_regs e m p w).1
  write_regs-SameStored =
      write_regs-rel e SameStored (λ w. refl) (λ u v w p q. q ∙ p) (λ w. refl) write_raw-SameStored
        write_verify-SameStored

  -- The fallback reports success exactly when no register failed; then the inverter is in Normal,
  -- and otherwise the stored mode is still what it was, so that the next start tries again.
  pub fall_back_confirmed :
      (w : World e)
      → let (done, w') = fall_back_to_normal e w in
        ((done ≡ true) × (w'.ctrl.failed ≡ 0) × (reg w'.env 142 ≡ 2) × (reg w'.env 143 ≡ 20000))
        ⊎ ((done ≡ false) × (w'.ctrl.failed ≢ 0) × (e.get_mode w'.env ≡ e.get_mode w.env))
  unfolding fall_back_to_normal
  fall_back_confirmed w =
      let w0 : World e = record w {
        ctrl = record w.ctrl {
          mode = normal;
          power_w = w.ctrl.user_power_w;
          mode_ms = u32 (e.now_ms w.env);
        };
      } in
      let w' = (write_regs e normal w.ctrl.user_power_w w0).1 in
      ground (
        arith,
        normal_confirmed w.ctrl.user_power_w w0,
        write_regs-SameStored normal w.ctrl.user_power_w w0,
        reg_set_mode 0 142 w'.env,
        reg_set_mode 0 143 w'.env,
      )

  pub fall_back_kept :
      (w : World e)
      → let c = (fall_back_to_normal e w).1.ctrl in
        (c.undo_tries ≡ w.ctrl.undo_tries) × (c.undo_pending ≡ w.ctrl.undo_pending)
  unfolding fall_back_to_normal
  fall_back_kept w =
      let w0 : World e = record w {
        ctrl = record w.ctrl {
          mode = normal;
          power_w = w.ctrl.user_power_w;
          mode_ms = u32 (e.now_ms w.env);
        };
      } in
      ground (arith, write_regs-Kept e normal w.ctrl.user_power_w w0)

  -- An undo round either gets Normal confirmed by the inverter and is done with the undo, or keeps
  -- the stored mode; it gives up after the sixth try at the latest.
  pub task_undo_outcome :
      (w : World e)
      → w.ctrl.undo_tries < 255
      → let w' = (task_undo e w).1 in
        ((reg w'.env 142 ≡ 2) × (reg w'.env 143 ≡ 20000) × (w'.ctrl.undo_pending ≡ false))
        ⊎ ((e.get_mode w'.env ≡ e.get_mode w.env)
            × ((w'.ctrl.undo_pending ≡ false) ⊎ (w.ctrl.undo_tries < 5)))
  unfolding task_undo
  task_undo_outcome w small =
      let w0 : World e = record w {
        ctrl = record w.ctrl { undo_tries = u8 (w.ctrl.undo_tries + 1) };
      } in
      ground (arith, fall_back_confirmed w0, fall_back_kept w0)

  -- A pending mode change outranks a throttle that arrives before the task has written it: with no
  -- failure counted, the inverter is in Selling First, at the throttled power.
  pub throttle_keeps_mode :
      (p q : ℤ) (w : World e)
      → let w' = (write_pending e (set_throttled e q (apply e force_discharge p w).1).1).1 in
        w'.ctrl.failed ≡ 0
        → (reg w'.env 142 ≡ 3)
          × (reg w'.env 143 ≡ to_u16 (clamp_power (pos 1000) q))
          × (w'.ctrl.user_power_w ≡ clamp_power (pos 1000) p)
          × (w'.ctrl.write_full ≡ false)
  unfolding write_pending set_throttled apply apply_clamped
  throttle_keeps_mode p q w none_failed =
      let w0 = (set_throttled e q (apply e force_discharge p w).1).1 in
      let w1 : World e = record w0 { ctrl = record w0.ctrl { write_full = false } } in
      ground (
        arith,
        discharge_confirmed (clamp_power (pos 1000) q) w1,
        write_regs-Kept e force_discharge (clamp_power (pos 1000) q) w1,
      )

-- ===== src/Force/Lifecycle.antt =====
-- A session of main/deye_force.c from its start to its end.
use deye_inverter_display_es.Common.{
  ℕ, ◌≡◌, ◌≢◌, ◌⊎◌, true, false, ℤ, pos, leb_ℤ, arith, ◌&&◌, Floats, ==ℤ_sound, ◌∙◌, ap,
}
use deye_inverter_display_es.Ctrl.{
  Mode, normal, force_charge, force_discharge, Env, World, apply, apply_clamped,
}
use deye_inverter_display_es.Force.{
  ForceMode, off, charge, discharge, ok, taken_over, time_up, Session, Live, is_ours, is_at_target,
  finish, begin, set, tick, clock_ok, ctrl_mode, same_mode,
}

pub same_mode_sound : (a b : Mode) → same_mode a b ≡ true → a ≡ b
same_mode_sound a b h = ground (arith, h)

module _ (e : Env) where
  -- What `deye_ctrl_apply` to Normal leaves.
  pub apply_normal : (p : ℤ) (w : World e) → (apply e normal p w).1.ctrl.mode ≡ normal
  unfolding apply apply_clamped
  apply_normal p w = ground arith

  -- A refused start changes nothing, neither here nor in the inverter's control.
  set_refused :
      (mode : ForceMode) (w minutes soc : ℕ) (now : ℤ) (s : Session e)
      → let (r, s') = set e mode w minutes soc now s in r ≢ ok → s' ≡ s
  unfolding set begin
  set_refused mode w minutes soc now s bad = ground arith

  in_mode :
      (s : Session e) (m : ForceMode)
      → s.force.mode ≡ m
      → is_ours e s ≡ true
      → s.world.ctrl.mode ≡ ctrl_mode m
  in_mode s m q ours =
      same_mode_sound s.world.ctrl.mode (ctrl_mode s.force.mode) (ground (arith, ours))
      ∙ ap ctrl_mode q

  module _ (f : Floats) where
    open f use {Float, le, is_finite, of_int}

    tick_guards :
        (now : ℤ) (live : Live Float) (s : Session e)
        → let s' = tick e f now live s in
          s'.force.mode ≢ off
          → (s' ≡ s)
            × (is_ours e s ≡ true)
            × ((leb_ℤ clock_ok now && leb_ℤ s.force.until now) ≡ false)
            × (is_at_target e f s.force live ≡ false)
    unfolding tick finish
    tick_guards now live s on = ground arith

    -- A session that a tick leaves on is as it was, the inverter's control still holds its mode and
    -- power, its time is not up (once the clock is set), and by a live and finite state of charge
    -- a charge is below its target and a discharge above it.
    pub tick_keeps :
        (now : ℤ) (live : Live Float) (s : Session e)
        → let s' = tick e f now live s in
          s'.force.mode ≢ off
          → (s' ≡ s)
            × (s.world.ctrl.user_power_w ≡ pos s.force.w)
            × (s.force.mode ≡ charge → s.world.ctrl.mode ≡ force_charge)
            × (s.force.mode ≡ discharge → s.world.ctrl.mode ≡ force_discharge)
            × ((leb_ℤ (pos 1700000000) now ≡ false) ⊎ (leb_ℤ s.force.until now ≡ false))
            × (live.valid ≡ true
                → live.online ≡ true
                → is_finite live.bat_soc ≡ true
                → (s.force.mode ≡ charge → le (of_int (pos s.force.soc)) live.bat_soc ≡ false)
                  × (s.force.mode ≡ discharge → le live.bat_soc (of_int (pos s.force.soc)) ≡ false))
    tick_keeps now live s on =
        let (same, ours, in_time, short) = tick_guards now live s on in
        (
          same,
          ==ℤ_sound s.world.ctrl.user_power_w (pos s.force.w) (ground (arith, ours)),
          λ q. in_mode s charge q ours,
          λ q. in_mode s discharge q ours,
          ground (arith, in_time),
          λ v o fin.
              (λ q. ground (arith, q, v, o, fin, short), λ q. ground (arith, q, v, o, fin, short)),
        )

    -- A tick that ends a session leaves a takeover alone, and puts the inverter's control back to
    -- Normal otherwise.
    pub tick_ends :
        (now : ℤ) (live : Live Float) (s : Session e)
        → s.force.mode ≢ off
        → let s' = tick e f now live s in
          s'.force.mode ≡ off
          → (s'.force.active ≡ false)
            × (((is_ours e s ≡ false)
                  × (s'.world ≡ s.world)
                  × ((s'.force.end_reason ≡ taken_over) ⊎ (s'.force.end_reason ≡ time_up)))
                ⊎ ((is_ours e s ≡ true) × (s'.world.ctrl.mode ≡ normal)))
    unfolding tick finish
    tick_ends now live s on done = ground (arith, apply_normal s.world.ctrl.user_power_w s.world)

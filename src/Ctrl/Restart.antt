-- ===== src/Ctrl/Restart.antt =====
-- main/deye_ctrl.c: what becomes of a forced mode that was in force when the device restarted.
use deye_inverter_display_es.Common.{◌+◌, ◌≡◌, ◌⊎◌, true, false, arith, u8, if_lem}
use deye_inverter_display_es.Ctrl.{
  normal, force_charge, force_discharge, Env, EnvLaws, World, initial, task_undo, task_round, start,
}
use deye_inverter_display_es.Ctrl.Range.{fall_back_settings}
use deye_inverter_display_es.Ctrl.Verify.{fall_back_confirmed, fall_back_kept}

module _ (e : Env) (laws : EnvLaws e) where
  open laws use {reg}

  -- The inverter confirmed Normal and the undo is done, or it goes on at the next round and at the
  -- next restart, since the stored mode is still there.
  abbrev pub Undone : World e → World e → Type 0
  Undone w w' =
      (w'.ctrl.mode ≡ normal)
      × (((reg w'.env 142 ≡ 2) × (reg w'.env 143 ≡ 20000) × (w'.ctrl.undo_pending ≡ false))
          ⊎ ((e.get_mode w'.env ≡ e.get_mode w.env)
              × (w'.ctrl.undo_pending ≡ true)
              × (w'.ctrl.undo_tries ≡ 1)))

  first_undo :
      (w : World e)
      → w.ctrl.undo_tries ≡ 0
      → w.ctrl.undo_pending ≡ true
      → Undone w (task_undo e w).1
  unfolding task_undo
  first_undo w none_yet due =
      let w0 : World e = record w {
        ctrl = record w.ctrl { undo_tries = u8 (w.ctrl.undo_tries + 1) };
      } in
      ground (
        arith,
        none_yet,
        due,
        fall_back_confirmed e laws w0,
        fall_back_kept e laws w0,
        fall_back_settings e w0,
      )

  first_round :
      (w : World e)
      → w.ctrl.undo_tries ≡ 0
      → w.ctrl.undo_pending ≡ true
      → Undone w (task_round e w).1
  unfolding task_round
  first_round w none_yet due =
      let w' : World e = record w { ctrl = record w.ctrl { notified = false } } in
      if_lem (λ x. Undone w x.1) w.ctrl.undo_pending (task_undo e w') _
        (λ q. first_undo w' none_yet due) (λ q. absurd (ground (arith, q, due)))

  -- A forced charge or discharge that was stored when the device restarted is in force at the
  -- start, and the first round of the task undoes it: Normal is the mode, and either the inverter
  -- has confirmed it and the undo is done, or the stored mode is kept and the undo, one try old, is
  -- still due.
  pub restart_normal :
      (s : e.State)
      → (e.get_mode s ≡ 1) ⊎ (e.get_mode s ≡ 2)
      → let w = (start e (record { ctrl = initial; env = s })).1 in
        let w' = (task_round e w).1 in
        ((e.get_mode s ≡ 1 → w.ctrl.mode ≡ force_charge)
          × (e.get_mode s ≡ 2 → w.ctrl.mode ≡ force_discharge))
        × (w'.ctrl.mode ≡ normal)
        × (((reg w'.env 142 ≡ 2) × (reg w'.env 143 ≡ 20000) × (w'.ctrl.undo_pending ≡ false))
            ⊎ ((e.get_mode w'.env ≡ e.get_mode s)
                × (w'.ctrl.undo_pending ≡ true)
                × (w'.ctrl.undo_tries ≡ 1)))
  unfolding start
  restart_normal s forced =
      let w = (start e (record { ctrl = initial; env = s })).1 in
      let u = first_round w (ground (arith, forced)) (ground (arith, forced)) in
      ((λ q. ground (arith, q), λ q. ground (arith, q)), u.0, ground (arith, forced, u))

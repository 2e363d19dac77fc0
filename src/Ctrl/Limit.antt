-- ===== src/Ctrl/Limit.antt =====
-- No forced mode of main/deye_ctrl.c outlives its limit.
use deye_inverter_display_es.Common.{
  ◌+◌, ◌*◌, ◌≤◌, ◌<◌, ◌≡◌, ◌≢◌, ◌⊎◌, true, false, arith, u8, u32, sub32,
}
use deye_inverter_display_es.Ctrl.{normal, Env, World, task_undo, task_round, status_times}
use deye_inverter_display_es.Ctrl.Range.{fall_back_settings, write_pending-Kept}

module _ (e : Env) where
  task_undo_normal : (w : World e) → (task_undo e w).1.ctrl.mode ≡ normal
  unfolding task_undo
  task_undo_normal w = ground (
    arith,
    fall_back_settings e
        (record w { ctrl = record w.ctrl { undo_tries = u8 (w.ctrl.undo_tries + 1) } }),
  )

  -- After a round of the task with an undo due the mode is Normal. With none due, a forced mode whose
  -- age in milliseconds is over a thousand times its limit has gone to Normal, and any other mode, its
  -- start and its limit are what they were.
  pub task_round_limits :
      (w : World e)
      → let c = (task_round e w).1.ctrl in
        let age = sub32 (u32 (e.now_ms w.env)) w.ctrl.mode_ms in
        ((w.ctrl.undo_pending ≡ true) × (c.mode ≡ normal))
        ⊎ (((w.ctrl.undo_pending ≡ false)
              × (w.ctrl.mode ≢ normal)
              × (u32 (w.ctrl.limit_s * 1000) < age)
              × (c.mode ≡ normal))
            ⊎ ((w.ctrl.undo_pending ≡ false)
                × ((w.ctrl.mode ≡ normal) ⊎ (age ≤ w.ctrl.limit_s * 1000))
                × (c.mode ≡ w.ctrl.mode)
                × (c.mode_ms ≡ w.ctrl.mode_ms)
                × (c.limit_s ≡ w.ctrl.limit_s)))
  unfolding task_round
  task_round_limits w =
      let w' : World e = record w { ctrl = record w.ctrl { notified = false } } in
      ground (arith, task_undo_normal w', fall_back_settings e w', write_pending-Kept e w')

  -- What the page shows as left is the limit less the age of a forced mode, and at 0 exactly in
  -- Normal or from the limit on.
  status_times_left :
      (w : World e)
      → let (age, left) = status_times e w in
        ((left ≡ 0) × ((w.ctrl.mode ≡ normal) ⊎ (w.ctrl.limit_s ≤ age)))
        ⊎ ((w.ctrl.mode ≢ normal) × (0 < left) × (age + left ≡ w.ctrl.limit_s))
  unfolding status_times
  status_times_left w = ground arith

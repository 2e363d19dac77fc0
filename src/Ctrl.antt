-- ===== src/Ctrl.antt =====
-- main/deye_ctrl.c and main/deye_ctrl.h: the mode that the inverter is put in, its register writes,
-- the fallback to Normal and the undo after a restart. The static variables are the record `Ctrl`.
mod State
pub use State.*
mod Rel
pub mod Range
pub mod Verify
pub mod Wear
pub mod Limit
pub mod Restart
mod Tests
use deye_inverter_display_es.Common.{
  ℕ, zero, suc, ◌+◌, ◌-◌, ◌*◌, ◌/◌, ◌<◌, ◌≡◌, ◌≢◌, Bool, true, false, ◌&&◌, ◌||◌, not, ℤ, pos,
  ltb_ℤ, tdiv_ℤ, to_u16, to_u8, ◌==ℤ◌, ltb, leb, ◌==◌, if◌then◌else◌, u8, u16, u32, sub32, St,
  ◌>>=◌, ◌>>◌, pure, when,
}

module _ (e : Env) where
  abbrev pub update : (Ctrl → Ctrl) → St (World e) (Unit {0})
  update f w = (tt, record w { ctrl = f w.ctrl })

  unfoldable pub write_raw : ℕ → ℕ → St (World e) ℤ
  write_raw reg val w =
      let (rc, s) = e.deye_write reg val w.env in
      (rc, record { ctrl = record w.ctrl { writes = u32 (w.ctrl.writes + 1) }; env = s })

  -- `s_checked++`, and `s_failed++` where the register is not confirmed.
  abbrev pub tally : Bool → Ctrl → Ctrl
  tally ok c = record c {
    checked = u8 (c.checked + 1);
    failed = if ok then c.failed else u8 (c.failed + 1);
  }

  unfoldable pub write_verify : ℕ → ℕ → St (World e) ℤ
  write_verify reg val w =
      let (rc, w') = write_raw reg val w in
      if not (rc ==ℤ pos 0)
      then (rc, record w' { ctrl = tally false w'.ctrl })
      else (let (rr, back, s) = e.deye_read reg w'.env in
          if not (rr ==ℤ pos 0)
          then (rr, record { ctrl = tally false w'.ctrl; env = s })
          else if not (back == val)
          then (ℤ.negsuc 0, record { ctrl = tally false w'.ctrl; env = s })
          else (pos 0, record { ctrl = tally true w'.ctrl; env = s }))

  -- `for (int reg = first; reg < first + n; reg++) write_raw(reg, val);`
  unfoldable pub write_range : ℕ → ℕ → ℕ → St (World e) (Unit {0})
  write_range zero first val w = (tt, w)
  write_range (suc n) first val w = write_range n (first + 1) val (write_raw first val w).1

  -- `s_checked = s_failed = 0;`
  abbrev pub reset_tally : St (World e) (Unit {0})
  reset_tally = update (λ c. record c { checked = 0; failed = 0 })

  abbrev pub get_charge_soc : St (World e) ℕ
  get_charge_soc w = (w.ctrl.charge_soc, w)

  unfoldable pub write_regs : Mode → ℤ → St (World e) (Unit {0})
  write_regs force_charge power_w = do
    reset_tally
    write_raw 126 (to_u16 power_w)
    soc ← get_charge_soc
    write_verify 127 soc
    write_verify 128 (to_u16 (tdiv_ℤ power_w 50))
    write_range 6 166 soc
    write_range 6 172 1
  write_regs force_discharge power_w = do
    reset_tally
    write_verify 142 3
    write_verify 143 (to_u16 power_w)
    pure tt
  write_regs normal power_w = do
    reset_tally
    write_verify 142 2
    write_verify 143 20000
    write_raw 126 5000
    write_raw 127 10
    write_raw 128 40
    write_range 6 166 13
    write_range 6 172 0
  write_regs count power_w = reset_tally

  unfoldable pub write_power : ℤ → St (World e) (Unit {0})
  write_power power_w = do reset_tally; write_verify 143 (to_u16 power_w); pure tt

  unfoldable pub write_charge_power : ℤ → St (World e) (Unit {0})
  write_charge_power power_w = do
    reset_tally
    write_raw 126 (to_u16 power_w)
    write_verify 128 (to_u16 (tdiv_ℤ power_w 50))
    pure tt

  -- True when the decisive registers came back confirmed.
  unfoldable pub fall_back_to_normal : St (World e) Bool
  fall_back_to_normal w =
      let c = w.ctrl in
      let w' =
        (write_regs normal c.user_power_w (record w {
          ctrl = record c {
            mode = normal;
            power_w = c.user_power_w;
            mode_ms = u32 (e.now_ms w.env);
          };
        })).1 in
      if w'.ctrl.failed == 0 then (true, record w' { env = e.set_mode 0 w'.env }) else (false, w')

  unfoldable pub write_pending : St (World e) (Unit {0})
  write_pending w =
      let c = w.ctrl in
      let w' = record w { ctrl = record c { write_full = false } } in
      if c.write_full || is_normal c.mode
      then write_regs c.mode c.power_w w'
      else if is_discharge c.mode
      then write_power c.power_w w'
      else write_charge_power c.power_w w'

  -- The undo of a forced mode that survived a restart.
  unfoldable pub task_undo : St (World e) (Unit {0})
  task_undo w =
      let w' = record w { ctrl = record w.ctrl { undo_tries = u8 (w.ctrl.undo_tries + 1) } } in
      let (done, w'') = fall_back_to_normal w' in
      if done || leb undo_tries_max w''.ctrl.undo_tries
      then (tt, record w'' { ctrl = record w''.ctrl { undo_pending = false } })
      else (tt, w'')

  -- The mode in force is older than its limit.
  abbrev pub is_overdue : World e → Bool
  is_overdue w =
      not (is_normal w.ctrl.mode)
      && ltb (u32 (w.ctrl.limit_s * 1000)) (sub32 (u32 (e.now_ms w.env)) w.ctrl.mode_ms)

  -- One round of the task's loop, woken by a notification or by the 10 s timeout.
  unfoldable pub task_round : St (World e) (Unit {0})
  task_round w =
      let requested = w.ctrl.notified in
      let w' = record w { ctrl = record w.ctrl { notified = false } } in
      if w.ctrl.undo_pending
      then task_undo w'
      else if is_overdue w
      then (tt, (fall_back_to_normal w').1)
      else when requested write_pending w'

  unfoldable pub start : St (World e) (Unit {0})
  start w =
      let c = w.ctrl in
      if c.has_task
      then (tt, w)
      else (let stored = e.get_mode w.env in
          let stored_pw = e.get_power w.env in
          let m = mode_of stored in
          let forced = not (is_normal m) && not (is_count m) in
          let keep = forced && (leb power_floor stored_pw && leb stored_pw power_max) in
          (
            tt,
            record w {
              ctrl = record c {
                has_task = true;
                mode_ms = u32 (e.now_ms w.env);
                undo_pending = forced || c.undo_pending;
                undo_mode = if forced then stored else c.undo_mode;
                mode = if forced then m else c.mode;
                power_w = if keep then pos stored_pw else c.power_w;
                user_power_w = if keep then pos stored_pw else c.user_power_w;
              };
            },
          ))

  -- `apply_clamped`, which always returns ESP_OK.
  unfoldable pub apply_clamped : Mode → ℤ → ℤ → ℕ → ℕ → St (World e) (Unit {0})
  apply_clamped mode power_w floor_w charge_soc limit_s w =
      let m = if is_count mode then normal else mode in
      let p = clamp_power floor_w power_w in
      let s = e.set_mode (mode_code m) w.env in
      (
        tt,
        record {
          ctrl = notify (record w.ctrl {
            charge_soc = charge_soc;
            limit_s = limit_s;
            mode = m;
            power_w = p;
            user_power_w = p;
            mode_ms = u32 (e.now_ms w.env);
            write_full = true;
          });
          env = if is_normal m then s else e.set_power (to_u16 p) s;
        },
      )

  unfoldable pub apply : Mode → ℤ → St (World e) (Unit {0})
  apply mode power_w = apply_clamped mode power_w (pos power_min) 99 force_max_s

  unfoldable pub apply_sweep : Mode → ℤ → St (World e) (Unit {0})
  apply_sweep mode power_w = apply_clamped mode power_w (pos power_floor) 99 force_max_s

  unfoldable pub apply_auto : Mode → ℤ → ℤ → ℕ → St (World e) (Unit {0})
  apply_auto mode power_w target_soc limit_s =
      apply_clamped mode power_w (pos power_floor) (to_u8 (clamp_soc target_soc))
        (clamp_limit limit_s)

  -- `ESP_ERR_INVALID_STATE` in Normal is the result `false`.
  unfoldable pub retune : ℤ → St (World e) Bool
  retune power_w w =
      if is_normal w.ctrl.mode
      then (false, w)
      else (let p = clamp_power (pos power_floor) power_w in
          (
            true,
            record {
              ctrl = notify (record w.ctrl { power_w = p; user_power_w = p });
              env = e.set_power (to_u16 p) w.env;
            },
          ))

  unfoldable pub set_throttled : ℤ → St (World e) (Unit {0})
  set_throttled power_w =
      update (λ c. notify (record c { power_w = clamp_power (pos power_min) power_w }))

  -- `age_s` and `left_s` of `deye_ctrl_get_status`; its other fields are the state's own.
  unfoldable pub status_times : World e → ℕ × ℕ
  status_times w =
      let age = sub32 (u32 (e.now_ms w.env)) w.ctrl.mode_ms / 1000 in
      (age, if is_normal w.ctrl.mode || leb w.ctrl.limit_s age then 0 else w.ctrl.limit_s - age)

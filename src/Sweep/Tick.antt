-- ===== src/Sweep/Tick.antt =====
-- main/eff_sweep.c: one second of a sweep, `step_tick` and `sweep_tick`.
use deye_inverter_display_es.Common.{
  ℕ, zero, suc, ◌+◌, ◌*◌, ◌/◌, Bool, true, false, ◌&&◌, ◌||◌, not, pos, to_u8, none, some, leb,
  ◌==◌, if◌then◌else◌, u16, u32, sub32, get_elem?, Floats,
}
use deye_inverter_display_es.Ctrl.{normal, is_normal, is_discharge, Env}
use deye_inverter_display_es.Sweep.{
  running, done, aborted, idle, pending, settle, measure, finished, skipped, complete, stopped,
  changed_outside, offline, unconfirmed, same_mode, Step, Live, Sweep, Setup,
}
use deye_inverter_display_es.Sweep.Moves.{
  pause_s, offline_s, put, is_pending, is_online, edit, skip_from_cur, finish, is_foreign,
}

module _ (e : Env) (f : Floats) (half : f.Float) where
  open f use {Float, lt, add, sub, neg, of_int, trunc}

  abbrev pub soc_of : Live Float → ℕ
  soc_of l = to_u8 (trunc (add l.bat_soc half))

  abbrev pub at_limit : Sweep Float → Step Float → Live Float → Bool
  at_limit s p l =
      if is_discharge p.mode then leb (soc_of l) s.req.soc_min else leb s.req.soc_max (soc_of l)

  -- STEP_PENDING: start the step, through Normal where the direction changes.
  unfoldable pub tick_pending : ℕ → Live Float → Bool → Step Float → Setup e Float → Setup e Float
  tick_pending now l online p b =
      let s = b.sweep in
      if not online
      then b
      else if at_limit s p l
      then record b { sweep = skip_from_cur p.mode s }
      else if s.applied && (not (is_normal s.exp_mode) && not (same_mode s.exp_mode p.mode))
      then (let b' = put e normal s.user_power0 b in
          record b' {
            sweep = record b'.sweep { paused = true; pause_until_ms = u32 (now + pause_s * 1000) };
          })
      else (let b' = put e p.mode (pos p.target_w) b in
          record b' {
            sweep = record (edit (record p { state = settle; soc0 = soc_of l }) b'.sweep) {
              step_t0_ms = now;
              step_s = 0;
            };
          })

  -- STEP_SETTLE; `failed` is whether a register of the last write was not confirmed.
  unfoldable pub tick_settle : ℕ → Live Float → Step Float → Setup e Float → Setup e Float
  tick_settle now l p b =
      let s = b.sweep in
      if at_limit s p l
      then record b { sweep = skip_from_cur p.mode (edit (record p { state = skipped }) s) }
      else if leb (s.req.settle_s * 1000) (sub32 now s.step_t0_ms)
      then if not (b.world.ctrl.failed == 0)
        then finish e aborted unconfirmed true b
        else record b {
          sweep = record (edit (record p { state = measure; soc0 = soc_of l }) s) {
            last_round = l.rounds;
          };
        }
      else b

  -- A round of the poll taken into a step's sums.
  unfoldable pub take_round : Live Float → Bool → Float → Step Float → Step Float
  take_round l grid_ok grid_w p =
      let dis = is_discharge p.mode in
      let dc = add l.bat_p l.pv_total in
      let ac = neg l.inv_total in
      let zero_w = of_int (pos 0) in
      let p' = record p { soc1 = soc_of l } in
      if l.eff_ok && (if dis then lt zero_w l.bat_p else lt l.bat_p zero_w)
      then record p' {
        in_sum = add p.in_sum (if dis then dc else neg ac);
        out_sum = add p.out_sum (if dis then (if lt zero_w ac then ac else zero_w) else neg dc);
        ac_sum = add p.ac_sum ac;
        pv_sum = add p.pv_sum l.pv_total;
        n = u16 (p.n + 1);
        grid_sum = if grid_ok then add p.grid_sum grid_w else p.grid_sum;
        ac_g_sum = if grid_ok then add p.ac_g_sum ac else p.ac_g_sum;
        n_grid = if grid_ok then u16 (p.n_grid + 1) else p.n_grid;
      }
      else p'

  -- STEP_MEASURE; true where the next step starts in the same second.
  unfoldable pub tick_measure :
      ℕ → Live Float → Bool → Bool → Float → Step Float → Sweep Float → Bool × Sweep Float
  tick_measure now l online grid_ok grid_w p s =
      let fresh = online && not (l.rounds == s.last_round) in
      let p' = if fresh then take_round l grid_ok grid_w p else p in
      let s' = record s { last_round = if fresh then l.rounds else s.last_round } in
      if at_limit s p l || leb (s.req.dwell_s * 1000) (sub32 now s.step_t0_ms)
      then (let t = record (edit (record p' { state = finished }) s') { cur = s.cur + 1 } in
          (true, if at_limit s p l then skip_from_cur p.mode t else t))
      else (false, edit p' s')

  unfoldable pub step_tick :
      ℕ → Live Float → Bool → Bool → Float → Step Float → Setup e Float → Bool × Setup e Float
  step_tick now l online grid_ok grid_w p b =
      let s = record b.sweep {
        step_s = if is_pending p.state then 0 else sub32 now b.sweep.step_t0_ms / 1000;
      } in
      let b' = record b { sweep = s } in
      elim p.state [
        | pending ↦ (false, tick_pending now l online p b')
        | settle ↦ (false, tick_settle now l p b')
        | measure ↦
            (let (more, t) = tick_measure now l online grid_ok grid_w p s in
              (more, record b { sweep = t }))
        | finished ↦ (true, record b { sweep = record s { cur = s.cur + 1 } })
        | skipped ↦ (true, record b { sweep = record s { cur = s.cur + 1 } })
      ]

  -- The passes of the loop at the end of `sweep_tick`.
  unfoldable pub passes : ℕ → ℕ → Live Float → Bool → Bool → Float → Setup e Float → Setup e Float
  passes zero now l online grid_ok grid_w b = b
  passes (suc k) now l online grid_ok grid_w b = elim (get_elem? b.sweep.steps b.sweep.cur) [
    | none ↦ finish e done complete true b
    | some p ↦
        (let (more, b') = step_tick now l online grid_ok grid_w p b in
          let rest = passes k now l online grid_ok grid_w b' in if more then rest else b')
  ]

  -- The end of `sweep_tick`, from the pause on. `(int32_t)(now - until) < 0` is the top bit.
  unfoldable pub tick_steps : ℕ → Live Float → Bool → Float → Setup e Float → Setup e Float
  tick_steps now l grid_ok grid_w b =
      if b.sweep.paused && leb 0x80000000 (sub32 now b.sweep.pause_until_ms)
      then b
      else passes 2 now l (is_online l) grid_ok grid_w
          (record b { sweep = record b.sweep { paused = false } })

  -- `sweep_tick` of a running sweep.
  unfoldable pub tick_running : ℕ → Live Float → Bool → Float → Setup e Float → Setup e Float
  tick_running now l grid_ok grid_w b =
      let s = record b.sweep {
        stop_req = false;
        elapsed_s = sub32 now b.sweep.t0_ms / 1000;
        writes = sub32 b.world.ctrl.writes b.sweep.writes0;
      } in
      let b' : Setup e Float = record b { sweep = s } in
      let seen : ℕ → Setup e Float = λ t. record b { sweep = record s { offline_ms = t } } in
      if b.sweep.stop_req
      then finish e aborted stopped true b'
      else if is_foreign e b
      then finish e aborted changed_outside false b'
      else if is_online l
      then tick_steps now l grid_ok grid_w (seen 0)
      else if s.offline_ms == 0
      then tick_steps now l grid_ok grid_w (seen (if now == 0 then 1 else now))
      else if leb (offline_s * 1000) (sub32 now s.offline_ms)
      then finish e aborted offline true b'
      else tick_steps now l grid_ok grid_w b'

  unfoldable pub tick : ℕ → Live Float → Bool → Float → Setup e Float → Setup e Float
  tick now l grid_ok grid_w b = elim b.sweep.state [
    | idle ↦ record b { sweep = record b.sweep { stop_req = false } }
    | done ↦ record b { sweep = record b.sweep { stop_req = false } }
    | aborted ↦ record b { sweep = record b.sweep { stop_req = false } }
    | running ↦ tick_running now l grid_ok grid_w b
  ]

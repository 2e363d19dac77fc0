-- ===== src/Sweep/Request.antt =====
-- main/eff_sweep.c: the start of a sweep, `sort_powers` and `eff_sweep_start`, its stop and the
-- estimate of what is left.
use deye_inverter_display_es.Common.{
  ℕ, ◌+◌, ◌-◌, ◌*◌, Bool, true, false, ◌&&◌, ◌||◌, not, pos, List, [], ◌∷◌, ◌++◌, ltb, ◌==◌,
  if◌then◌else◌, u32, bit_and, length, Floats,
}
use deye_inverter_display_es.Ctrl.{
  Mode, force_charge, force_discharge, is_normal, Env, power_floor, power_max,
}
use deye_inverter_display_es.Sweep.{
  running, going, pending, same_mode, is_running, is_finished, Req, Step, Live, Sweep, Setup,
}
use deye_inverter_display_es.Sweep.Moves.{is_online, is_pending, is_skipped, pause_s}

abbrev pub dir_dis : ℕ
dir_dis = 0x01

abbrev pub dir_chg : ℕ
dir_chg = 0x02

abbrev pub max_powers : ℕ
max_powers = 20

abbrev pub dir_max_s : ℕ
dir_max_s = 6600

-- The inner loop of `sort_powers`, on the sorted part from its end on: a larger power moves up.
unfoldable pub sink : ℕ → List ℕ → List ℕ
sink x [] = x ∷ []
sink x (y ∷ ys) = let rest = sink x ys in if ltb x y then y ∷ rest else x ∷ y ∷ ys

-- The outer loop; the result is the sorted array from its end on.
unfoldable pub sink_all : List ℕ → List ℕ → List ℕ
sink_all done [] = done
sink_all done (x ∷ xs) = sink_all (sink x done) xs

unfoldable pub turn_onto : List ℕ → List ℕ → List ℕ
turn_onto acc [] = acc
turn_onto acc (x ∷ xs) = turn_onto (x ∷ acc) xs

-- The last loop: a power that equals the one kept last is dropped.
unfoldable pub drop_equal : ℕ → List ℕ → List ℕ
drop_equal last [] = []
drop_equal last (p ∷ ps) =
    let same = drop_equal last ps in
    let other = drop_equal p ps in if last == p then same else p ∷ other

unfoldable pub drop_duplicates : List ℕ → List ℕ
drop_duplicates [] = []
drop_duplicates (p ∷ ps) = p ∷ drop_equal p ps

unfoldable pub sort_powers : List ℕ → List ℕ
sort_powers ps = drop_duplicates (turn_onto [] (sink_all [] ps))

-- The German text of a refusal, by its meaning.
pub data Refusal : Type 0 where
  no_direction bad_count bad_power bad_dwell bad_settle bad_soc too_long : Refusal
  not_answering already_running not_normal soc_at_limit : Refusal

pub data Outcome : Type 0 where
  started : Outcome
  refused : Refusal → Outcome

abbrev pub powers_ok : List ℕ → Bool
powers_ok [] = true
powers_ok (p ∷ ps) = not (ltb p power_floor || ltb power_max p) && powers_ok ps

-- The checks on the request alone, in their order; the request is sorted where they pass.
pub data Checked : Type 0 where
  bad_request : Refusal → Checked
  good_request : Req → Checked

unfoldable pub check_request : Req → Checked
check_request rq =
    let ps = sort_powers rq.powers in
    if bit_and rq.dirs (dir_dis + dir_chg) == 0
    then bad_request no_direction
    else if ltb (length rq.powers) 1 || ltb max_powers (length rq.powers)
    then bad_request bad_count
    else if not (powers_ok rq.powers)
    then bad_request bad_power
    else if ltb rq.dwell_s 30 || ltb 1800 rq.dwell_s
    then bad_request bad_dwell
    else if ltb rq.settle_s 10 || ltb rq.dwell_s (rq.settle_s + 20)
    then bad_request bad_settle
    else if ltb rq.soc_min 5 || (ltb 100 rq.soc_max || ltb rq.soc_max (rq.soc_min + 10))
    then bad_request bad_soc
    else if ltb dir_max_s (length ps * rq.dwell_s)
    then bad_request too_long
    else good_request (record rq { powers = ps })

module _ (e : Env) (f : Floats) where
  open f use {Float, lt, of_int}

  abbrev pub new_step : Mode → ℕ → Step Float
  new_step m w = record {
    mode = m;
    state = pending;
    target_w = w;
    soc0 = 0;
    soc1 = 0;
    n = 0;
    n_grid = 0;
    in_sum = of_int (pos 0);
    out_sum = of_int (pos 0);
    ac_sum = of_int (pos 0);
    pv_sum = of_int (pos 0);
    grid_sum = of_int (pos 0);
    ac_g_sum = of_int (pos 0);
  }

  unfoldable pub steps_of : Mode → List ℕ → List (Step Float)
  steps_of m [] = []
  steps_of m (w ∷ ws) = new_step m w ∷ steps_of m ws

  abbrev pub wants : Req → Mode → Bool
  wants rq m = not (bit_and rq.dirs (if same_mode m force_discharge then dir_dis else dir_chg) == 0)

  abbrev pub steps_in : Req → Mode → List (Step Float)
  steps_in rq m = if wants rq m then steps_of m rq.powers else []

  -- Both directions: the one with more room first.
  unfoldable pub plan : Req → Float → List (Step Float)
  plan rq soc =
      if lt soc (of_int (pos 50))
      then steps_in rq force_charge ++ steps_in rq force_discharge
      else steps_in rq force_discharge ++ steps_in rq force_charge

  abbrev pub can_start : Req → Float → Bool
  can_start rq soc =
      wants rq force_discharge && lt (of_int (pos rq.soc_min)) soc
      || wants rq force_charge && lt soc (of_int (pos rq.soc_max))

  unfoldable pub begin : Req → Float → ℕ → Setup e Float → Sweep Float
  begin rq soc unix b = record b.sweep {
    state = running;
    why = going;
    cur = 0;
    paused = false;
    req = rq;
    start_unix = if ltb 1700000000 unix then u32 unix else 0;
    elapsed_s = 0;
    step_s = 0;
    writes = 0;
    steps = plan rq soc;
    stop_req = false;
    t0_ms = u32 (e.now_ms b.world.env);
    offline_ms = 0;
    applied = false;
    user_power0 = b.world.ctrl.user_power_w;
    writes0 = b.world.ctrl.writes;
  }

  -- `eff_sweep_start` from the request's checks on; `unix` is the clock's time.
  unfoldable pub start_checked : Checked → Live Float → ℕ → Setup e Float → Outcome × Setup e Float
  start_checked (bad_request r) l unix b = (refused r, b)
  start_checked (good_request rq) l unix b =
      if not (is_online l)
      then (refused not_answering, b)
      else if is_running b.sweep.state
      then (refused already_running, b)
      else if not (is_normal b.world.ctrl.mode)
      then (refused not_normal, b)
      else if not (can_start rq l.bat_soc)
      then (refused soc_at_limit, b)
      else (started, record b { sweep = begin rq l.bat_soc unix b })

  abbrev pub start : Req → Live Float → ℕ → Setup e Float → Outcome × Setup e Float
  start rq l unix b = start_checked (check_request rq) l unix b

abbrev pub stop : {F : Type 0} → Sweep F → Sweep F
stop s = record s { stop_req = true }

module _ {F : Type 0} where
  -- The loop of `eff_sweep_get`, from the step `i` on, with the mode of the step before.
  unfoldable pub left_from : Sweep F → ℕ → Mode → List (Step F) → ℕ
  left_from s i before [] = 0
  left_from s i before (p ∷ ps) =
      let rest = left_from s (i + 1) p.mode ps in
      let step =
        if i == s.cur && not (is_pending p.state)
        then s.req.dwell_s - s.step_s
        else s.req.dwell_s in
      let turn = if ltb s.cur i && not (same_mode before p.mode) then pause_s else 0 in
      if ltb i s.cur || (is_skipped p.state || is_finished p.state)
      then rest
      else step + turn + rest

  -- `left_s` of `eff_sweep_get`.
  unfoldable pub left_s : Sweep F → ℕ
  left_s s = if is_running s.state then u32 (left_from s 0 Mode.normal s.steps) else 0

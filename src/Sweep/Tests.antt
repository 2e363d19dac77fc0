-- ===== src/Sweep/Tests.antt =====
-- A sweep over two powers in both directions, at concrete inputs.
use deye_inverter_display_es.Common.{
  ◌≡◌, ◌≢◌, ◌⊎◌, refl, sym, true, false, ℤ, pos, ◌+ℤ◌, to_u8, subst, [], ◌∷◌,
}
use deye_inverter_display_es.Ctrl.{normal, force_discharge, apply_sweep, apply_clamped, retune}
use deye_inverter_display_es.Bench.{bench, booted}
use deye_inverter_display_es.Whole.{watts}
use deye_inverter_display_es.Sweep.{running, aborted, idle, unset, Req, Live, Setup}
use deye_inverter_display_es.Sweep.Request.{
  start, start_checked, check_request, sort_powers, sink, sink_all, turn_onto, drop_equal,
  drop_duplicates, begin, plan, steps_of, stop,
}
use deye_inverter_display_es.Sweep.Moves.{
  is_foreign, put, finish, skip_mode, skipped_run, end_steps,
}
use deye_inverter_display_es.Sweep.Tick.{
  tick, tick_running, tick_steps, passes, step_tick, tick_pending,
}
use deye_inverter_display_es.Sweep.Expect.{AreForced}
use deye_inverter_display_es.Sweep.Ready.{IsReady, start-IsReady}
use deye_inverter_display_es.Sweep.Safety.{tick_finds_own, sweep_ends}

abbrev request : Req
request = record {
  dirs = 3;
  powers = 2000 ∷ 500 ∷ 2000 ∷ [];
  dwell_s = 60;
  settle_s = 20;
  soc_min = 10;
  soc_max = 90;
}

abbrev at_60 : Live ℤ
at_60 = record {
  valid = true;
  online = true;
  age_ms = 500;
  rounds = 7;
  bat_soc = pos 60;
  bat_p = pos 500;
  pv_total = pos 0;
  inv_total = pos 0;
  eff_ok = true;
}

abbrev at_rest : Setup bench ℤ
at_rest = record {
  sweep = record {
    state = idle;
    why = unset;
    cur = 0;
    paused = false;
    req = request;
    start_unix = 0;
    elapsed_s = 0;
    step_s = 0;
    writes = 0;
    steps = [];
    stop_req = false;
    t0_ms = 0;
    step_t0_ms = 0;
    pause_until_ms = 0;
    offline_ms = 0;
    applied = false;
    exp_mode = normal;
    exp_power = pos 0;
    user_power0 = pos 0;
    writes0 = 0;
    last_round = 0;
  };
  world = booted;
}

abbrev ready : Setup bench ℤ
ready = (start bench watts request at_60 0 at_rest).1

-- The first step in force.
abbrev under_way : Setup bench ℤ
under_way = tick bench watts (pos 0) 200000 at_60 false (pos 0) ready

abbrev told_to_stop : Setup bench ℤ
told_to_stop = record under_way { sweep = stop under_way.sweep }

start-IsReady_example : IsReady bench watts request at_60.bat_soc at_rest ready
unfolding start_checked check_request sort_powers sink sink_all turn_onto drop_equal drop_duplicates
start-IsReady_example = start-IsReady bench watts request at_60 0 at_rest refl

ready-AreForced : AreForced ready.sweep.steps
ready-AreForced = start-IsReady_example.4

runs : under_way.sweep.state ≡ running
unfolding start_checked check_request sort_powers sink sink_all turn_onto drop_equal drop_duplicates
    begin plan steps_of tick tick_running tick_steps passes step_tick tick_pending put apply_sweep
    apply_clamped is_foreign finish skip_mode skipped_run end_steps retune ◌+ℤ◌ to_u8
runs = refl

forces : under_way.world.ctrl.mode ≡ force_discharge
unfolding start_checked check_request sort_powers sink sink_all turn_onto drop_equal drop_duplicates
    begin plan steps_of tick tick_running tick_steps passes step_tick tick_pending put apply_sweep
    apply_clamped is_foreign finish skip_mode skipped_run end_steps retune ◌+ℤ◌ to_u8
forces = refl

ends : (tick bench watts (pos 0) 201000 at_60 false (pos 0) told_to_stop).sweep.state ≡ aborted
unfolding start_checked check_request sort_powers sink sink_all turn_onto drop_equal drop_duplicates
    begin plan steps_of tick tick_running tick_steps passes step_tick tick_pending put apply_sweep
    apply_clamped is_foreign finish skip_mode skipped_run end_steps retune ◌+ℤ◌ to_u8
ends = refl

tick_finds_own_example :
    (is_foreign bench under_way ≡ false)
    × AreForced under_way.sweep.steps
    × (under_way.sweep.applied ≡ false → under_way.world.ctrl.mode ≡ normal)
tick_finds_own_example =
    tick_finds_own bench watts (pos 0) 200000 at_60 false (pos 0) ready ready-AreForced
      (λ _. start-IsReady_example.2) runs

sweep_ends_example :
    let b' = tick bench watts (pos 0) 201000 at_60 false (pos 0) told_to_stop in
    (b'.sweep.applied ≡ false)
    × ((b'.world ≡ told_to_stop.world) ⊎ (b'.world.ctrl.mode ≡ normal))
    × (is_foreign bench told_to_stop ≡ false → b'.world.ctrl.mode ≡ normal)
    × (is_foreign bench told_to_stop ≡ true
        → told_to_stop.sweep.stop_req ≡ false
        → b'.world ≡ told_to_stop.world)
sweep_ends_example =
    sweep_ends bench watts (pos 0) 201000 at_60 false (pos 0) told_to_stop runs
      tick_finds_own_example.1 tick_finds_own_example.2
      (subst (λ x. x ≢ running) (sym ends) (λ (k : aborted ≡ running). cc))

-- ===== src/Sweep/Moves.antt =====
-- main/eff_sweep.c: what a tick is made of, `put`, `skip_mode` and `finish`.
use deye_inverter_display_es.Common.{
  ℕ, zero, suc, ◌+◌, Bool, true, false, ◌&&◌, ◌||◌, not, ℤ, pos, ◌==ℤ◌, List, [], ◌∷◌, ltb, ◌==◌,
  if◌then◌else◌, sub32, set, drop,
}
use deye_inverter_display_es.Ctrl.{
  Mode, normal, is_normal, Env, apply, apply_sweep, retune, clamp_power, power_min, power_floor,
}
use deye_inverter_display_es.Sweep.{
  SweepState, StepState, pending, settle, measure, finished, skipped, Why, same_mode, Step, Live,
  Sweep, Setup,
}

abbrev pub pause_s : ℕ
pause_s = 60

abbrev pub offline_s : ℕ
offline_s = 30

-- `put`: a mode or a power, and what the inverter's control is expected to hold then.
module _ (e : Env) {F : Type 0} where
  abbrev pub expect : Mode → ℤ → Sweep F → Sweep F
  expect mode p s = record s { applied = true; exp_mode = mode; exp_power = p }

  unfoldable pub put : Mode → ℤ → Setup e F → Setup e F
  put mode power_w b =
      if is_normal mode
      then (let p = clamp_power (pos power_min) power_w in
          record { sweep = expect mode p b.sweep; world = (apply e normal p b.world).1 })
      else (let p = clamp_power (pos power_floor) power_w in
          record {
            sweep = expect mode p b.sweep;
            world =
                if b.sweep.applied && same_mode b.world.ctrl.mode mode
                then (retune e p b.world).1
                else (apply_sweep e mode p b.world).1;
          })

abbrev pub is_pending : StepState → Bool
is_pending pending = true
is_pending _ = false

abbrev pub is_skipped : StepState → Bool
is_skipped skipped = true
is_skipped _ = false

module _ {F : Type 0} where
  abbrev pub is_online : Live F → Bool
  is_online l = l.valid && (l.online && ltb l.age_ms 10000)

  abbrev pub skip_pending : Step F → Step F
  skip_pending p = elim p.state [
    | pending ↦ record p { state = skipped }
    | settle ↦ p
    | measure ↦ p
    | finished ↦ p
    | skipped ↦ p
  ]

  -- `skip_mode`: the run of steps of the mode from an index on.
  unfoldable pub skip_mode : ℕ → Mode → List (Step F) → List (Step F)
  skip_mode i mode [] = []
  skip_mode zero mode (p ∷ ps) =
      let rest = skip_mode zero mode ps in
      if same_mode p.mode mode then skip_pending p ∷ rest else p ∷ ps
  skip_mode (suc i) mode (p ∷ ps) = p ∷ skip_mode i mode ps

  -- `while (cur < nsteps && step[cur].state == STEP_SKIPPED) cur++`: how often.
  unfoldable pub skipped_run : List (Step F) → ℕ
  skipped_run [] = 0
  skipped_run (p ∷ ps) = let rest = skipped_run ps in if is_skipped p.state then suc rest else 0

  abbrev pub pass_skipped : Sweep F → Sweep F
  pass_skipped s = record s { cur = s.cur + skipped_run (drop s.cur s.steps) }

  -- The loop of `finish`: a step with something measured is kept, one that is not done is not.
  abbrev pub end_step : Step F → Step F
  end_step p = elim p.state [
    | pending ↦ record p { state = skipped }
    | settle ↦ record p { state = skipped }
    | measure ↦ record p { state = if p.n == 0 then skipped else finished }
    | finished ↦ p
    | skipped ↦ record p { state = skipped }
  ]

  unfoldable pub end_steps : ℕ → List (Step F) → List (Step F)
  end_steps i [] = []
  end_steps zero (p ∷ ps) = end_step p ∷ end_steps zero ps
  end_steps (suc i) (p ∷ ps) = p ∷ end_steps i ps

  -- The current step of the list changed.
  abbrev pub edit : Step F → Sweep F → Sweep F
  edit p s = record s { steps = set s.steps s.cur p }

  abbrev pub skip_from_cur : Mode → Sweep F → Sweep F
  skip_from_cur mode s = pass_skipped (record s { steps = skip_mode s.cur mode s.steps })

module _ (e : Env) {F : Type 0} where
  unfoldable pub finish : SweepState → Why → Bool → Setup e F → Setup e F
  finish state why back b =
      let s = b.sweep in
      let w =
        if back && (s.applied && not (is_normal b.world.ctrl.mode))
        then (apply e normal s.user_power0 b.world).1
        else b.world in
      record {
        sweep = record s {
          steps = end_steps s.cur s.steps;
          writes = sub32 w.ctrl.writes s.writes0;
          applied = false;
          paused = false;
          state = state;
          step_s = 0;
          why = why;
        };
        world = w;
      }

  -- Someone else put another mode or power in force.
  unfoldable pub is_foreign : Setup e F → Bool
  is_foreign b =
      b.sweep.applied
      && (not (same_mode b.world.ctrl.mode b.sweep.exp_mode)
          || not (b.world.ctrl.user_power_w ==ℤ b.sweep.exp_power))

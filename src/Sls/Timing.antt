-- ===== src/Sls/Timing.antt =====
-- When the export guard of main/sls_guard.h writes, over every run of measurements.
use deye_inverter_display_es.Common.{
  ℕ, ◌≤◌, ◌≡◌, ◌⊎◌, ◌-ℤ◌, ◌==ℤ◌, true, false, ℤ, Option, none, some, List, [], ◌∷◌, if◌then◌else◌,
  arith, Floats, sub32,
}
use deye_inverter_display_es.Sls.{
  GuardState, Decision, clamp_target, round_step, settle, guard_decide, min_write_ms,
}

-- When the guard last wrote, if it ever did.
abbrev pub last_write : GuardState → Option ℕ
last_write st = if st.written then some st.write_ms else none

-- `now_ms` is at least the minimum gap after the write before it.
abbrev pub IsSpaced : Option ℕ → ℕ → Type 0
IsSpaced none now_ms = Unit
IsSpaced (some before) now_ms = min_write_ms ≤ sub32 now_ms before

module _ (f : Floats) where
  open f use {Float, lt, sub, trunc}

  -- One call of the guard: the measurement, the limit and what the caller reads beside them.
  pub record Sample : Type 0 where
    pub export_w : Float
    pub max_export_w : Float
    pub applied_w : ℤ
    pub user_w : ℤ
    pub now_ms : ℕ
    pub power_min_w : ℤ

  abbrev pub decide_on : Sample → GuardState → Decision Float × GuardState
  decide_on x st =
      guard_decide f x.export_w x.max_export_w x.applied_w x.user_w x.now_ms x.power_min_w st

  -- The decisions on a run of measurements, each with its time.
  pub run : GuardState → List Sample → List (ℕ × Decision Float)
  run st [] = []
  run st (x ∷ xs) = let (d, st') = decide_on x st in (x.now_ms, d) ∷ run st' xs

  -- Each write of a run that is not urgent keeps the gap to the write before it.
  abbrev pub AllSpaced : Option ℕ → List (ℕ × Decision Float) → Type 0
  AllSpaced before [] = Unit
  AllSpaced before ((now_ms, d) ∷ ds) =
      (d.write ≡ true → d.urgent ≡ false → IsSpaced before now_ms)
      × AllSpaced (if d.write then some now_ms else before) ds

  -- The state remembers exactly the last write.
  last_write-decide :
      (x : Sample) (st : GuardState)
      → let (d, st') = decide_on x st in
        last_write st' ≡ (if d.write then some x.now_ms else last_write st)
  unfolding guard_decide settle
  last_write-decide x st = ground arith

  decide-IsSpaced :
      (x : Sample) (st : GuardState)
      → let d = (decide_on x st).0 in
        d.write ≡ true → d.urgent ≡ false → IsSpaced (last_write st) x.now_ms
  unfolding guard_decide settle
  decide-IsSpaced x st w u = ground arith

  -- Over every run of measurements, from any state, a write that is not urgent comes at least ten
  -- seconds (on the wrapping clock) after the write before it, whichever kind that was.
  pub run-AllSpaced : (st : GuardState) (xs : List Sample) → AllSpaced (last_write st) (run st xs)
  unfolding run
  run-AllSpaced st [] = tt
  run-AllSpaced st (x ∷ xs) =
      (decide-IsSpaced x st, rw (← last_write-decide x st) (run-AllSpaced (decide_on x st).1 xs))

  -- The rate limit never holds the protective direction back: an excess above the urgent mark is
  -- written at once whatever the guard wrote before, unless the clamped step is the applied power.
  guard_decide_urgent :
      (x : Sample) (st : GuardState)
      → lt x.max_export_w x.export_w ≡ true
      → let (d, st') = decide_on x st in
        d.urgent ≡ true
        → ((d.write ≡ true) × (last_write st' ≡ some x.now_ms) × (st'.below_ms ≡ 0))
          ⊎ ((d.write ≡ false)
              × (clamp_target x.power_min_w x.user_w
                      (round_step (x.applied_w -ℤ trunc (sub x.export_w x.max_export_w)))
                    ==ℤ x.applied_w
                  ≡ true))
  unfolding guard_decide settle
  guard_decide_urgent x st over u = ground arith

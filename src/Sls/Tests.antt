-- ===== src/Sls/Tests.antt =====
-- The export guard at concrete measurements.
use deye_inverter_display_es.Common.{
  ◌≡◌, ◌⊎◌, refl, true, false, ℤ, pos, ◌≤ℤ◌, ◌-ℤ◌, ◌+ℤ◌, tmod_ℤ, [], ◌∷◌, arith,
}
use deye_inverter_display_es.Whole.{watts}
use deye_inverter_display_es.Sls.{
  GuardState, Decision, round_step, clamp_target, settle, guard_decide,
}
use deye_inverter_display_es.Sls.Bounds.{guard_decide_lowers}
use deye_inverter_display_es.Sls.Timing.{Sample, run, last_write, AllSpaced, run-AllSpaced}

abbrev idle : GuardState
idle = record { below_ms = 0; write_ms = 0; written = false }

abbrev waiting : GuardState
waiting = record { below_ms = 5000; write_ms = 5000; written = true }

-- 700 W over the limit at 9235 W.
abbrev over : Decision ℤ
over = (guard_decide watts (pos 10700) (pos 10000) (pos 9235) (pos 12000) 5000 (pos 1000) idle).0

over_lowers : over.target_w ≡ pos 8500
unfolding guard_decide settle round_step clamp_target ◌-ℤ◌ ◌+ℤ◌ tmod_ℤ
over_lowers = refl

guard_decide_lowers_example :
    (over.target_w +ℤ pos 1 ≤ℤ pos 9235)
    × ((over.target_w ≤ℤ pos 1000) ⊎ (over.target_w ≤ℤ pos 9235 -ℤ (pos 10700 -ℤ pos 10000)))
unfolding guard_decide settle round_step clamp_target ◌-ℤ◌ ◌+ℤ◌ tmod_ℤ
guard_decide_lowers_example =
    guard_decide_lowers watts (pos 10700) (pos 10000) (pos 9235) (pos 12000) 5000 (pos 1000) idle
      (λ _. omega arith) (omega arith) (omega arith) refl refl

-- Two minutes of headroom at 8500 W.
abbrev under : Decision ℤ
under =
    (guard_decide watts (pos 7000) (pos 10000) (pos 8500) (pos 12000) 125000 (pos 1000) waiting).0

abbrev sample : Sample watts
sample = record {
  export_w = pos 10700;
  max_export_w = pos 10000;
  applied_w = pos 9235;
  user_w = pos 12000;
  now_ms = 16000;
  power_min_w = pos 1000;
}

abbrev surge : Sample watts
surge = record sample { export_w = pos 14000; now_ms = 16500 }

run-AllSpaced_example :
    AllSpaced watts (last_write waiting) (run watts waiting (sample ∷ surge ∷ []))
run-AllSpaced_example = run-AllSpaced watts waiting (sample ∷ surge ∷ [])

-- ===== src/Sls.antt =====
-- main/sls_guard.h: the decision of the export guard as a function of the measurement, the state
-- and the clock. The state that the code updates in place is returned beside the decision.
pub mod Bounds
pub mod Timing
mod Tests
use deye_inverter_display_es.Common.{
  ℕ, ◌*◌, Bool, true, false, ◌&&◌, not, ℤ, pos, ◌-ℤ◌, ◌+ℤ◌, tmod_ℤ, ltb_ℤ, ◌==ℤ◌, ltb, ◌==◌,
  if◌then◌else◌, sub32, Floats,
}

abbrev pub step_w : ℕ
step_w = 500

abbrev pub hyst_w : ℕ
hyst_w = 1000

abbrev pub restore_hold_s : ℕ
restore_hold_s = 60

abbrev pub min_write_ms : ℕ
min_write_ms = 10000

abbrev pub urgent_w : ℕ
urgent_w = 2000

-- `sls_guard_state_t`
pub record GuardState : Type 0 where
  pub below_ms : ℕ
  pub write_ms : ℕ
  pub written : Bool

-- `sls_decision_t`
pub record Decision (F : Type 0) : Type 0 where
  pub write : Bool
  pub target_w : ℤ
  pub urgent : Bool
  pub excess_w : F

-- Down to a step, as `target -= target % SLS_STEP_W` rounds: toward zero.
unfoldable pub round_step : ℤ → ℤ
round_step t = t -ℤ tmod_ℤ t step_w

-- The two clamps, the user's setpoint last.
unfoldable pub clamp_target : ℤ → ℤ → ℤ → ℤ
clamp_target power_min_w user_w t =
    let t' = if ltb_ℤ t power_min_w then power_min_w else t in
    if ltb_ℤ user_w t' then user_w else t'

module _ (f : Floats) where
  open f use {Float, lt, sub, of_int, trunc}

  -- The end of the function, from the rounding on: `d` is the decision so far.
  unfoldable pub settle :
      Decision Float → ℤ → ℤ → ℤ → ℕ → ℤ → GuardState → Decision Float × GuardState
  settle d raw applied_w user_w now_ms power_min_w st =
      let target = clamp_target power_min_w user_w (round_step raw) in
      if target ==ℤ applied_w
      then (d, st)
      else if not d.urgent && (st.written && ltb (sub32 now_ms st.write_ms) min_write_ms)
      then (d, st)
      else (
        record d { write = true; target_w = target },
        record { below_ms = 0; write_ms = now_ms; written = true },
      )

  unfoldable pub guard_decide :
      Float → Float → ℤ → ℤ → ℕ → ℤ → GuardState → Decision Float × GuardState
  guard_decide export_w max_export_w applied_w user_w now_ms power_min_w st =
      let d : Decision Float = record {
        write = false;
        target_w = applied_w;
        urgent = false;
        excess_w = of_int (pos 0);
      } in
      if lt max_export_w export_w
      then (let excess = sub export_w max_export_w in
          settle (record d { excess_w = excess; urgent = lt (of_int (pos urgent_w)) excess })
            (applied_w -ℤ trunc excess) applied_w user_w now_ms power_min_w
            (record st { below_ms = 0 }))
      else if lt export_w (sub max_export_w (of_int (pos hyst_w))) && ltb_ℤ applied_w user_w
      then (let st' = record st { below_ms = if st.below_ms == 0 then now_ms else st.below_ms } in
          if ltb (sub32 now_ms st'.below_ms) (restore_hold_s * 1000)
          then (d, st')
          else settle d (applied_w +ℤ pos step_w) applied_w user_w now_ms power_min_w st')
      else (d, record st { below_ms = 0 })

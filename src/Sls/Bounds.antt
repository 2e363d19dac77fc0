-- ===== src/Sls/Bounds.antt =====
-- What power the export guard of main/sls_guard.h may order.
use deye_inverter_display_es.Common.{
  ℕ, ◌≤◌, ◌<◌, ◌≡◌, true, false, ℤ, pos, ◌≤ℤ◌, ◌⊎◌, inl, inr, ≤ℤ_total, ◌-ℤ◌, ◌+ℤ◌, tmod_ℤ, ltb_ℤ,
  -ℤ_parts, ◌==ℤ◌, arith, Floats, sub32, ◌^◌, ◌≢◌,
}
use deye_inverter_display_es.Sls.{
  GuardState, Decision, round_step, clamp_target, settle, guard_decide, step_w,
}

clamp_target_bounds :
    (lo hi t : ℤ) → lo ≤ℤ hi → (lo ≤ℤ clamp_target lo hi t) × (clamp_target lo hi t ≤ℤ hi)
unfolding clamp_target
clamp_target_bounds lo hi t h = ground arith

-- A clamp keeps what lies below a bound that is in the range.
clamp_target_le : (lo hi t m : ℤ) → lo ≤ℤ m → t ≤ℤ m → clamp_target lo hi t ≤ℤ m
unfolding clamp_target
clamp_target_le lo hi t m h k = ground arith

clamp_target_ge : (lo hi t m : ℤ) → m ≤ℤ hi → m ≤ℤ t → m ≤ℤ clamp_target lo hi t
unfolding clamp_target
clamp_target_ge lo hi t m h k = ground arith

-- Where a clamp leaves its argument: below the upper bound, and not below the lower one.
clamp_cases : (lo hi t : ℤ) → (clamp_target lo hi t ≤ℤ lo) ⊎ (clamp_target lo hi t ≤ℤ t)
unfolding clamp_target
clamp_cases lo hi t = ground arith

lt_of_le_ne : (a b : ℤ) → a ≤ℤ b → (a ==ℤ b) ≡ false → a +ℤ pos 1 ≤ℤ b
unfolding ◌+ℤ◌
lt_of_le_ne a b h k = ground arith

-- Rounding goes down from a power of at least 0, and by less than a step.
round_step_pos : (t : ℤ) → pos 0 ≤ℤ t → (round_step t ≤ℤ t) × (t ≤ℤ round_step t +ℤ pos 499)
unfolding round_step ◌-ℤ◌ ◌+ℤ◌ tmod_ℤ
round_step_pos t h = ground arith

-- From a negative power it lands at 0 at most.
round_step_neg : (t : ℤ) → t ≤ℤ pos 0 → round_step t ≤ℤ pos 0
unfolding round_step ◌-ℤ◌ tmod_ℤ
round_step_neg t h = ground arith

module _ (f : Floats) where
  open f use {Float, lt, sub, trunc}

  -- A write of the last part is the clamped step, and a change.
  settle_write :
      (d : Decision Float) (raw applied_w user_w : ℤ) (now_ms : ℕ) (power_min_w : ℤ)
      (st : GuardState)
      → d.write ≡ false
      → let r = (settle f d raw applied_w user_w now_ms power_min_w st).0 in
        r.write ≡ true
        → (r.target_w ≡ clamp_target power_min_w user_w (round_step raw))
          × ((r.target_w ==ℤ applied_w) ≡ false)
  unfolding settle
  settle_write d raw applied_w user_w now_ms power_min_w st h w = ground arith

  -- Any power that the guard orders lies between the inverter's minimum and the user's setpoint.
  guard_decide_bounds :
      (export_w max_export_w : Float) (applied_w user_w : ℤ) (now_ms : ℕ) (power_min_w : ℤ)
      (st : GuardState)
      → power_min_w ≤ℤ user_w
      → let d = (guard_decide f export_w max_export_w applied_w user_w now_ms power_min_w st).0 in
        d.write ≡ true → (power_min_w ≤ℤ d.target_w) × (d.target_w ≤ℤ user_w)
  unfolding guard_decide settle
  guard_decide_bounds export_w max_export_w applied_w user_w now_ms power_min_w st h w = ground (
    arith,
    clamp_target_bounds power_min_w user_w
        (round_step (applied_w -ℤ trunc (sub export_w max_export_w))) h,
    clamp_target_bounds power_min_w user_w (round_step (applied_w +ℤ pos step_w)) h,
  )

-- Lowering from the applied power: the clamped step is below it, and takes the whole excess off
-- unless the inverter's minimum stops it.
lowered :
    (lo hi applied e : ℤ)
    → pos 0 ≤ℤ lo
    → lo ≤ℤ applied
    → pos 0 ≤ℤ e
    → let t = clamp_target lo hi (round_step (applied -ℤ e)) in
      (t ≤ℤ applied) × ((t ≤ℤ lo) ⊎ (t ≤ℤ applied -ℤ e))
lowered lo hi applied e h k n = elim (≤ℤ_total (pos 0) (applied -ℤ e)) [
  | inl up ↦ ground (
    arith,
    -ℤ_parts applied e,
    round_step_pos (applied -ℤ e) up,
    clamp_target_le lo hi (round_step (applied -ℤ e)) applied k,
    clamp_cases lo hi (round_step (applied -ℤ e)),
  )
  | inr down ↦ ground (
    arith,
    -ℤ_parts applied e,
    round_step_neg (applied -ℤ e) down,
    clamp_target_le lo hi (round_step (applied -ℤ e)) lo,
  )
]

-- Raising by a step from a power under the user's setpoint.
raised :
    (lo hi applied : ℤ)
    → pos 0 ≤ℤ lo
    → lo ≤ℤ applied
    → ltb_ℤ applied hi ≡ true
    → let t = clamp_target lo hi (round_step (applied +ℤ pos step_w)) in
      (applied +ℤ pos 1 ≤ℤ t) × (t ≤ℤ applied +ℤ pos step_w) × (t ≤ℤ hi)
unfolding clamp_target round_step ◌-ℤ◌ ◌+ℤ◌ tmod_ℤ
raised lo hi applied h k u = ground arith

module _ (f : Floats) where
  open f use {Float, lt, sub, trunc}

  -- Over the limit a write always lowers the power, by the whole excess (in watts, cut off)
  -- unless the inverter's minimum stops it, if a positive difference has a cast of at least 0 and
  -- the applied power is at least the inverter's minimum.
  pub guard_decide_lowers :
      (export_w max_export_w : Float) (applied_w user_w : ℤ) (now_ms : ℕ) (power_min_w : ℤ)
      (st : GuardState)
      → (lt max_export_w export_w ≡ true → pos 0 ≤ℤ trunc (sub export_w max_export_w))
      → pos 0 ≤ℤ power_min_w
      → power_min_w ≤ℤ applied_w
      → lt max_export_w export_w ≡ true
      → let d = (guard_decide f export_w max_export_w applied_w user_w now_ms power_min_w st).0 in
        d.write ≡ true
        → (d.target_w +ℤ pos 1 ≤ℤ applied_w)
          × ((d.target_w ≤ℤ power_min_w)
              ⊎ (d.target_w ≤ℤ applied_w -ℤ trunc (sub export_w max_export_w)))
  unfolding guard_decide settle
  guard_decide_lowers export_w max_export_w applied_w user_w now_ms power_min_w st law h k over w =
      ground (
        arith,
        lt_of_le_ne
            (clamp_target power_min_w user_w
              (round_step (applied_w -ℤ trunc (sub export_w max_export_w))))
            applied_w,
        lowered power_min_w user_w applied_w (trunc (sub export_w max_export_w)) h k (law over),
      )

  -- At or under the limit a write raises the power by at most one step, never past the user's
  -- setpoint, and only when the export had headroom for the whole hold time, if the applied power
  -- is at least the inverter's minimum.
  guard_decide_raises :
      (export_w max_export_w : Float) (applied_w user_w : ℤ) (now_ms : ℕ) (power_min_w : ℤ)
      (st : GuardState)
      → pos 0 ≤ℤ power_min_w
      → power_min_w ≤ℤ applied_w
      → now_ms < 2 ^ 32
      → lt max_export_w export_w ≡ false
      → let d = (guard_decide f export_w max_export_w applied_w user_w now_ms power_min_w st).0 in
        d.write ≡ true
        → (applied_w +ℤ pos 1 ≤ℤ d.target_w)
          × (d.target_w ≤ℤ applied_w +ℤ pos step_w)
          × (d.target_w ≤ℤ user_w)
          × (st.below_ms ≢ 0)
          × (60000 ≤ sub32 now_ms st.below_ms)
          × (d.urgent ≡ false)
  unfolding guard_decide settle
  guard_decide_raises export_w max_export_w applied_w user_w now_ms power_min_w st h k n under w =
      ground (arith, raised power_min_w user_w applied_w h k)

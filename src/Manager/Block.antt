-- ===== src/Manager/Block.antt =====
-- main/energy_mgr.c: the block of a plan's slot.
use deye_inverter_display_es.Common.{
  none_not_some, some_inj, ℕ, zero, suc, ◌+◌, ◌-◌, ◌≤◌, ◌<◌, ◌≡◌, ◌≢◌, refl, sym, ◌∙◌, ap, true,
  false, some, List, [], ◌∷◌, length, get_elem?, arith, Bool-cases, inl, inr,
}
use deye_inverter_display_es.Manager.{
  Action, as_usual, hold, charge, SlotPlan, same_action, run_of, block_end,
}

same_sound : (a b : Action) → same_action a b ≡ true → a ≡ b
same_sound as_usual as_usual h = refl
same_sound as_usual hold h = absurd (ground (arith, h))
same_sound as_usual charge h = absurd (ground (arith, h))
same_sound hold as_usual h = absurd (ground (arith, h))
same_sound hold hold h = refl
same_sound hold charge h = absurd (ground (arith, h))
same_sound charge as_usual h = absurd (ground (arith, h))
same_sound charge hold h = absurd (ground (arith, h))
same_sound charge charge h = refl

same_refl : (a : Action) → same_action a a ≡ true
same_refl as_usual = refl
same_refl hold = refl
same_refl charge = refl

module _ {F : Type 0} where
  different : (x : SlotPlan F) (act : Action) → same_action x.act act ≡ false → x.act ≢ act
  different x act e q = ground (arith, e, ap (same_action x.act) (sym q), same_refl x.act)

  -- The slots of a run, with the one before it.
  inside :
      (x : SlotPlan F) (xs : List (SlotPlan F)) (n k : ℕ) (y : SlotPlan F)
      → ((j : ℕ) (z : SlotPlan F) → j < n → get_elem? xs j ≡ some z → z.act ≡ x.act)
      → k ≤ n
      → get_elem? (x ∷ xs) k ≡ some y
      → y.act ≡ x.act
  inside x xs n zero y h lt q = ap SlotPlan.act (sym (some_inj x y q))
  inside x xs n (suc k) y h lt q = h k y (omega (arith, lt)) q

  run_step :
      (act : Action) (x : SlotPlan F) (xs : List (SlotPlan F)) (n k : ℕ) (y : SlotPlan F)
      → x.act ≡ act
      → ((j : ℕ) (z : SlotPlan F) → j < n → get_elem? xs j ≡ some z → z.act ≡ act)
      → k < suc n
      → get_elem? (x ∷ xs) k ≡ some y
      → y.act ≡ act
  run_step act x xs n zero y e h lt q = ap SlotPlan.act (sym (some_inj x y q)) ∙ e
  run_step act x xs n (suc k) y e h lt q = h k y (omega (arith, lt)) q

  run_lem :
      (act : Action) (xs : List (SlotPlan F))
      → let n = run_of act xs in
        (n ≤ length xs)
        × ((k : ℕ) (y : SlotPlan F) → k < n → get_elem? xs k ≡ some y → y.act ≡ act)
        × ((y : SlotPlan F) → get_elem? xs n ≡ some y → y.act ≢ act)
  unfolding run_of
  run_lem act [] =
      (omega arith, λ k y lt. absurd (omega (arith, lt)), λ y e. absurd (none_not_some y e))
  run_lem act (x ∷ xs) =
      let (a, b, c) = run_lem act xs in
      elim (Bool-cases (same_action x.act act)) [
        | inl e ↦ rw e (
          omega (arith, a),
          λ k y lt q. run_step act x xs (run_of act xs) k y (same_sound x.act act e) b lt q,
          c,
        )
        | inr e ↦ rw e (
          omega arith,
          λ k y lt. absurd (omega (arith, lt)),
          λ y q same. different x act e (ap SlotPlan.act (some_inj x y q) ∙ same),
        )
      ]

  -- From the slot `x` at place `i`, whose block is asked for: the block ends at or behind it, inside
  -- the plan, all its slots have the action of `x`, and the slot behind it, if any, has another.
  block_end-run :
      (i : ℕ) (x : SlotPlan F) (xs : List (SlotPlan F))
      → let be = block_end i (x ∷ xs) in
        (i ≤ be)
        × (be ≤ i + length xs)
        × ((k : ℕ) (y : SlotPlan F) → k ≤ be - i → get_elem? (x ∷ xs) k ≡ some y → y.act ≡ x.act)
        × ((y : SlotPlan F) → get_elem? (x ∷ xs) (be - i + 1) ≡ some y → y.act ≢ x.act)
  unfolding block_end
  block_end-run i x xs =
      let (a, b, c) = run_lem x.act xs in
      let n = run_of x.act xs in
      let back : i + n - i ≡ n = omega arith in
      (
        omega arith,
        omega (arith, a),
        λ k y lt q. inside x xs n k y b (omega (arith, lt)) q,
        λ y q. c y (ap (get_elem? (x ∷ xs)) {x = suc n} {y = i + n - i + 1} (omega arith) ∙ q),
      )

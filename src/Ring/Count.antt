-- ===== src/Ring/Count.antt =====
-- main/em_hist.c and main/load_hist.c: the number of records in a part of the area, and how an
-- erase and a write change it.
use deye_inverter_display_es.Common.{
  ℕ, zero, suc, ◌+◌, ◌-◌, ◌≤◌, ◌<◌, ◌≡◌, refl, none, ◌⊎◌, inl, inr, arith,
}
use deye_inverter_display_es.Ring.{Kind, Area, one_if_valid, read_slot, valid_in}

module _ (k : Kind) (a : Area k.Rec) where
  open k use {Rec}
  open a use {State, slots}

  pub valid_in-split :
      (n m i t j : ℕ) (s : State)
      → t ≡ n + m
      → j ≡ i + n
      → valid_in k a t i s ≡ valid_in k a n i s + valid_in k a m j s
  unfolding valid_in
  valid_in-split zero m i t j s e d =
      let e' : t ≡ m = omega arith in let d' : j ≡ i = omega arith in rw (e', d') (omega arith)
  valid_in-split (suc n) m i zero j s e d = absurd (omega arith)
  valid_in-split (suc n) m i (suc t) j s e d =
      ground (arith, valid_in-split n m (i + 1) t j s (omega arith) (omega arith))

  pub valid_in-same :
      (n i : ℕ) (s t : State)
      → ((j : ℕ) → i ≤ j → j < i + n → read_slot k a j s ≡ read_slot k a j t)
      → valid_in k a n i s ≡ valid_in k a n i t
  unfolding valid_in
  valid_in-same zero i s t h = refl
  valid_in-same (suc n) i s t h =
      let here = h i (omega arith) (omega arith) in
      let rest = valid_in-same n (i + 1) s t (λ j p q. h j (omega arith) (omega arith)) in
      rw (here, rest) refl

  pub valid_in-none :
      (n i : ℕ) (s : State)
      → ((j : ℕ) → i ≤ j → j < i + n → read_slot k a j s ≡ none)
      → valid_in k a n i s ≡ 0
  unfolding valid_in
  valid_in-none zero i s h = refl
  valid_in-none (suc n) i s h =
      let here = h i (omega arith) (omega arith) in
      let rest = valid_in-none n (i + 1) s (λ j p q. h j (omega arith) (omega arith)) in
      rw (here, rest) refl

  pub valid_in-one : (i : ℕ) (s : State) → valid_in k a 1 i s ≡ one_if_valid k a (read_slot k a i s)
  unfolding valid_in
  valid_in-one i s = omega arith

  -- A change confined to `n` slots from `i` on moves the total by the change there.
  pub valid_in-local :
      (n i : ℕ) (s t : State)
      → i + n ≤ slots
      → ((j : ℕ) → (j < i) ⊎ (i + n ≤ j) → read_slot k a j s ≡ read_slot k a j t)
      → valid_in k a slots 0 s + valid_in k a n i t ≡ valid_in k a slots 0 t + valid_in k a n i s
  valid_in-local n i s t fits same =
      let rest = slots - (i + n) in
      omega (
        arith,
        valid_in-split i (n + rest) 0 slots i s (omega arith) (omega arith),
        valid_in-split n rest i (n + rest) (i + n) s refl refl,
        valid_in-split i (n + rest) 0 slots i t (omega arith) (omega arith),
        valid_in-split n rest i (n + rest) (i + n) t refl refl,
        valid_in-same i 0 s t (λ j p q. same j (inl (omega arith))),
        valid_in-same rest (i + n) s t (λ j p q. same j (inr p)),
      )

-- ===== src/LoadHist/Picked.antt =====
-- main/load_hist.c: the days that an average is of.
use deye_inverter_display_es.Common.{
  ℕ, zero, suc, ◌+◌, min, ◌≡◌, ◌≤◌, ◌<◌, inl, inr, refl, false, ℤ, pos, negsuc, ◌==ℤ◌, Option, none,
  some, List, [], ◌∷◌, ◌++◌, length, ltb, ◌==◌, ==_iff, arith, Bool-cases, length-append,
}
use deye_inverter_display_es.Ring.{Area, read_slot, slot_back}
use deye_inverter_display_es.LoadHist.{Rec, lh_kind}
use deye_inverter_display_es.LoadHist.Average.{
  weekend, has_day, take_day, pick, pick_from, lh_avg_wd,
}

==ℤ_sym : (a b : ℤ) → (a ==ℤ b) ≡ false → (b ==ℤ a) ≡ false
==ℤ_sym (pos a) (pos b) h = ground (arith, h)
==ℤ_sym (negsuc a) (negsuc b) h = ground (arith, h)
==ℤ_sym (pos a) (negsuc b) h = refl
==ℤ_sym (negsuc a) (pos b) h = refl

abbrev AllOf : (Rec → Type 0) → List Rec → Type 0
AllOf P [] = Unit
AllOf P (r ∷ rs) = P r × AllOf P rs

-- No two records of the list are of the same day.
abbrev Distinct : List Rec → Type 0
Distinct [] = Unit
Distinct (r ∷ rs) = (has_day rs r.day ≡ false) × Distinct rs

AllOf-append :
    (P : Rec → Type 0) (rs : List Rec) (r : Rec) → AllOf P rs → P r → AllOf P (rs ++ r ∷ [])
AllOf-append P [] r h p = (p, tt)
AllOf-append P (x ∷ xs) r (q, h) p = (q, AllOf-append P xs r h p)

has_day-append :
    (rs : List Rec) (r : Rec) (day : ℤ)
    → has_day rs day ≡ false
    → (r.day ==ℤ day) ≡ false
    → has_day (rs ++ r ∷ []) day ≡ false
has_day-append [] r day h e = ground (arith, e)
has_day-append (x ∷ xs) r day h e = ground (arith, h, has_day-append xs r day (ground (arith, h)) e)

Distinct-append :
    (rs : List Rec) (r : Rec) → Distinct rs → has_day rs r.day ≡ false → Distinct (rs ++ r ∷ [])
Distinct-append [] r h e = (refl, tt)
Distinct-append (x ∷ xs) r (q, h) e = (
  has_day-append xs r x.day q (==ℤ_sym x.day r.day (ground (arith, e))),
  Distinct-append xs r h (ground (arith, e)),
)

module _ (a : Area Rec) where
  open a use {State, slots}

  -- A record of a day of the type `we` that the ring holds.
  abbrev pub IsOf : ℕ → State → Rec → Type 0
  IsOf we s r = (weekend r ≡ we) × ((j : ℕ) × (read_slot lh_kind a j s ≡ some r))

  pub record IsPicked (we most : ℕ) (s : State) (rs : List Rec) : Type 0 where
    pub stored : AllOf (IsOf we s) rs
    pub distinct : Distinct rs
    pub few : length rs ≤ most

  take_day-IsPicked :
      (we most j : ℕ) (s : State) (c : Option Rec) (rs : List Rec)
      → read_slot lh_kind a j s ≡ c
      → length rs < most
      → IsPicked we most s rs
      → IsPicked we most s (take_day we c rs)
  unfolding take_day
  take_day-IsPicked we most j s none rs e lt h = h
  take_day-IsPicked we most j s (some r) rs e lt h = elim (Bool-cases (weekend r == we)) [
    | inr other ↦ rw other h
    | inl same ↦ elim (Bool-cases (has_day rs r.day)) [
      | inl dup ↦ rw (same, dup) h
      | inr new ↦
          rw (same, new)
            (record {
              stored =
                  AllOf-append (IsOf we s) rs r h.stored ((==_iff (weekend r) we).0 same, (j, e));
              distinct = Distinct-append rs r h.distinct new;
              few = omega (arith, lt, length-append rs (r ∷ []));
            })
    ]
  ]

  pick-IsPicked :
      (left newest back we most : ℕ) (s : State) (rs : List Rec)
      → IsPicked we most s rs
      → IsPicked we most s (pick a left newest back we most s rs)
  unfolding pick
  pick-IsPicked zero newest back we most s rs h = h
  pick-IsPicked (suc left) newest back we most s rs h =
      let j = slot_back lh_kind a newest back in
      elim (Bool-cases (ltb (length rs) most)) [
        | inl e ↦ rw e (
            pick-IsPicked left newest (back + 1) we most s _ (
              take_day-IsPicked we most j s (read_slot lh_kind a j s) rs refl (ground (arith, e))
                h))
        | inr e ↦ rw e h
      ]

  -- The days of an average are days that the ring holds, of the type asked for, each at most once,
  -- and no more than asked for or than 30.
  pick_from-IsPicked :
      (newest : Option ℕ) (we n : ℕ) (s : State)
      → IsPicked we (min n lh_avg_wd) s (pick_from a newest we (pos n) s)
  pick_from-IsPicked none we n s = record { stored = tt; distinct = tt; few = omega arith }
  pick_from-IsPicked (some m) we n s =
      pick-IsPicked (min slots 400) m 0 we (min n lh_avg_wd) s []
        (record { stored = tt; distinct = tt; few = omega arith })

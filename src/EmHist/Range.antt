-- ===== src/EmHist/Range.antt =====
-- main/em_hist.c: what a range read brings.
use deye_inverter_display_es.Common.{
  if_lem, none_not_some, some_inj, ℕ, zero, suc, ◌+◌, ◌-◌, ◌*◌, ◌/◌, ◌%◌, min, true, false, ◌≡◌,
  ◌⊎◌, ◌<◌, inl, inr, refl, sym, ◌∙◌, ap, subst, ℤ, pos, negsuc, ◌+ℤ◌, ◌-ℤ◌, ◌≤ℤ◌, pos_part, ltb_ℤ,
  tmod_ℤ, Option, none, some, List, [], ◌∷◌, ◌==◌, ==_iff, get_elem?, set, arith, Bool-cases,
  Option-cases, length, if◌then◌else◌, get_elem?-set_self, get_elem?-set_ne,
}
use deye_inverter_display_es.Ring.{Area, Ring, read_slot, slot_back}
use deye_inverter_display_es.EmHist.{Rec, em_kind, eh_per_sector}
use deye_inverter_display_es.EmHist.Acc.{slot_floor}
use deye_inverter_display_es.EmHist.Reals.{Reals}
use deye_inverter_display_es.EmHist.Window.{
  Slot, Out, unknown, decode, is_taken, visit, all_unknown, walk, em_hist_range_l,
}

slot_floor-pos : (t : ℕ) → slot_floor (pos t) ≡ pos (t - t % 900)
unfolding slot_floor tmod_ℤ ◌+ℤ◌ ◌-ℤ◌
slot_floor-pos t = ground arith

slot_floor-negsuc : (t : ℕ) → slot_floor (negsuc t) ≡ negsuc (t + (900 - suc t % 900) % 900)
unfolding slot_floor tmod_ℤ ◌+ℤ◌ ◌-ℤ◌
slot_floor-negsuc t = ground arith

-- The time `f` begins the quarter hour of `t`.
abbrev IsFloor : ℤ → ℤ → Type 0
IsFloor t f = (f ≤ℤ t) × (t +ℤ pos 1 ≤ℤ f +ℤ pos 900) × (tmod_ℤ f 900 ≡ pos 0)

-- A time is rounded down to its quarter hour, before 1970 as well.
slot_floor_lem : (t : ℤ) → IsFloor t (slot_floor t)
unfolding tmod_ℤ ◌+ℤ◌
slot_floor_lem (pos t) = subst (IsFloor (pos t)) (sym (slot_floor-pos t)) (ground arith)
slot_floor_lem (negsuc t) = subst (IsFloor (negsuc t)) (sym (slot_floor-negsuc t)) (ground arith)

module _ (F : Reals) where
  abbrev pub WhenGoing : (Out F → Type 0) → Option (Out F) → Type 0
  WhenGoing P none = Unit
  WhenGoing P (some o) = P o

  -- The end of the loop's body: `break`, or the rest of the loop.
  pub resume_lem :
      (P : Out F → Type 0) (o : Out F) (c : Option (Out F)) (f : Out F → Out F)
      → P o
      → ((o' : Out F) → P o' → P (f o'))
      → WhenGoing P c
      → P (elim c [ none ↦ o | some o' ↦ f o' ])
  resume_lem P o none f h step good = h
  resume_lem P o (some o') f h step good = step o' good

at_least_t0 : (t : ℕ) (t0 : ℤ) → ltb_ℤ (pos t) t0 ≡ false → t0 ≤ℤ pos t
at_least_t0 t t0 h = ground (arith, h)

-- A time `t` from `t0` on lies in the quarter hour of its index.
in_window :
    (t : ℕ) (t0 : ℤ)
    → t0 ≤ℤ pos t
    → let k = pos_part (pos t -ℤ t0) / 900 in
      (t0 +ℤ pos (k * 900) ≤ℤ pos t) × (pos (t + 1) ≤ℤ t0 +ℤ pos (k * 900 + 900))
unfolding ◌+ℤ◌ ◌-ℤ◌
in_window t (pos n) h = ground (arith, h)
in_window t (negsuc n) h = ground (arith, h)

module _ (F : Reals) where
  abbrev one_if : Slot F → ℕ
  one_if x = if x.valid then 1 else 0

  -- How many places of a range are filled.
  unfoldable pub filled : List (Slot F) → ℕ
  filled [] = 0
  filled (x ∷ xs) = one_if x + filled xs

  filled-set :
      (xs : List (Slot F)) (k : ℕ) (x : Slot F)
      → is_taken F (get_elem? xs k) ≡ false
      → x.valid ≡ true
      → filled (set xs k x) ≡ filled xs + 1
  unfolding filled
  filled-set [] k x h v = absurd (ground (arith, h))
  filled-set (y ∷ ys) zero x h v = ground (arith, h, v)
  filled-set (y ∷ ys) (suc k) x h v = omega (arith, filled-set ys k x h v)

  not_taken : (xs : List (Slot F)) (k : ℕ) → is_taken F (get_elem? xs k) ≡ false → k < length xs
  not_taken [] k h = absurd (ground (arith, h))
  not_taken (y ∷ ys) zero h = omega arith
  not_taken (y ∷ ys) (suc k) h = omega (arith, not_taken ys k h)

  unknown_filled : (n : ℕ) → filled (all_unknown F n) ≡ 0
  unfolding filled
  unknown_filled zero = refl
  unknown_filled (suc n) = omega (arith, unknown_filled n)

  unknown_at : (n k : ℕ) (x : Slot F) → get_elem? (all_unknown F n) k ≡ some x → x.valid ≡ false
  unknown_at zero k x e = absurd (none_not_some x e)
  unknown_at (suc n) zero x e = ap Slot.valid (sym (some_inj (unknown F) x e))
  unknown_at (suc n) (suc k) x e = unknown_at n k x e

  module _ (a : Area Rec) where
    open a use {State, slots}

    -- The place `k` of a range that begins at `t0` has what a stored record of that quarter hour
    -- says.
    abbrev pub IsFrom : ℤ → State → ℕ → Slot F → Type 0
    IsFrom t0 s k x =
        (j : ℕ) × (r : Rec) × (read_slot em_kind a j s ≡ some r)
        × (x ≡ decode F r)
        × (t0 +ℤ pos (k * 900) ≤ℤ pos r.t)
        × (pos (r.t + 1) ≤ℤ t0 +ℤ pos (k * 900 + 900))

    -- Every filled place of a range is from a record, and they are counted.
    pub record IsRange (t0 : ℤ) (s : State) (o : Out F) : Type 0 where
      pub places :
          (k : ℕ) (x : Slot F) → get_elem? o.slots k ≡ some x → (x.valid ≡ false) ⊎ IsFrom t0 s k x
      pub counted : o.found ≡ filled o.slots

    fill-IsRange :
        (t0 : ℤ) (s : State) (j : ℕ) (r : Rec) (o : Out F)
        → read_slot em_kind a j s ≡ some r
        → t0 ≤ℤ pos r.t
        → let k = pos_part (pos r.t -ℤ t0) / 900 in
          is_taken F (get_elem? o.slots k) ≡ false
          → IsRange t0 s o
          → IsRange t0 s (record { slots = set o.slots k (decode F r); found = o.found + 1 })
    fill-IsRange t0 s j r o e from free h =
        let k = pos_part (pos r.t -ℤ t0) / 900 in
        let (lo, hi) = in_window r.t t0 from in
        record {
          places = λ i x f. elim (Bool-cases (k == i)) [
            | inl same ↦
                (let is = (==_iff k i).0 same in
                  let eq = some_inj (decode F r) x (
                    sym (get_elem?-set_self o.slots k (decode F r) (not_taken o.slots k free))
                    ∙ ap (λ m. get_elem? (set o.slots k (decode F r)) m) is
                    ∙ f) in
                  subst (λ m. (x.valid ≡ false) ⊎ IsFrom t0 s m x) is
                    (inr (j, r, e, sym eq, lo, hi)))
            | inr other ↦ h.places i x (
                sym
                  (get_elem?-set_ne o.slots (decode F r) (λ (q : k ≡ i). ground (arith, q, other)))
                ∙ f)
          ];
          counted = omega (arith, h.counted, filled-set o.slots k (decode F r) free refl);
        }

    visit-IsRange :
        (t0 : ℤ) (s : State) (j : ℕ) (c : Option Rec) (o : Out F)
        → read_slot em_kind a j s ≡ c
        → IsRange t0 s o
        → WhenGoing F (IsRange t0 s) (visit F t0 c o)
    unfolding visit
    visit-IsRange t0 s j none o e h = h
    visit-IsRange t0 s j (some r) o e h =
        let P = WhenGoing F (IsRange t0 s) in
        let k = pos_part (pos r.t -ℤ t0) / 900 in
        if_lem P (ltb_ℤ (pos r.t) (t0 -ℤ pos 86400)) none _ (λ q. tt)
          (λ q.
            if_lem P (ltb_ℤ (pos r.t) t0) (some o) _ (λ q. h)
              (λ early.
                if_lem P (is_taken F (get_elem? o.slots k)) (some o) _ (λ q. h)
                  (λ free. fill-IsRange t0 s j r o e (at_least_t0 r.t t0 early) free h)))

    walk-IsRange :
        (left : ℕ) (t0 : ℤ) (newest back : ℕ) (s : State) (o : Out F)
        → IsRange t0 s o
        → IsRange t0 s (walk F a left t0 newest back s o)
    unfolding walk
    walk-IsRange zero t0 newest back s o h = h
    walk-IsRange (suc left) t0 newest back s o h =
        let j = slot_back em_kind a newest back in
        resume_lem F (IsRange t0 s) o (visit F t0 (read_slot em_kind a j s) o)
          (walk F a left t0 newest (back + 1) s) h (walk-IsRange left t0 newest (back + 1) s)
          (visit-IsRange t0 s j (read_slot em_kind a j s) o refl h)

    start-IsRange :
        (t0 : ℤ) (n : ℕ) (s : State) → IsRange t0 s (record { slots = all_unknown F n; found = 0 })
    start-IsRange t0 n s = record {
      places = λ k x e. inl (unknown_at n k x e);
      counted = sym (unknown_filled n);
    }

    -- A range read brings only what the ring holds: a place that is filled has the values of a
    -- stored record whose time lies in that quarter hour of the range, and the result counts the
    -- filled places.
    em_hist_range_l-IsRange :
        (t0 : ℤ) (n : ℕ) (g : Ring) (s : State)
        → IsRange (slot_floor t0) s (em_hist_range_l F a t0 n g s)
    unfolding em_hist_range_l
    em_hist_range_l-IsRange t0 n g s = elim (Option-cases g.newest) [
      | inl e ↦ rw e (start-IsRange (slot_floor t0) n s)
      | inr (m, e) ↦ rw e (
          walk-IsRange (min slots (2 * n + eh_per_sector)) (slot_floor t0) m 0 s
            (record { slots = all_unknown F n; found = 0 }) (start-IsRange (slot_floor t0) n s))
    ]

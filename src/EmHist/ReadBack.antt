-- ===== src/EmHist/ReadBack.antt =====
-- main/em_hist.c: a record that was put is what a range read shows for its quarter hour.
use deye_inverter_display_es.Common.{
  if_lem, ℕ, zero, suc, ◌+◌, ◌*◌, ◌/◌, ◌^◌, min, true, ◌≡◌, ◌≢◌, ◌<◌, refl, sym, ap, ◌∙◌, subst, ℤ,
  pos, negsuc, ◌-ℤ◌, ◌≤ℤ◌, pos_part, ltb_ℤ, Option, none, some, get_elem?, arith,
  get_elem?-set_self, get_elem?-set_ne, length,
}
use deye_inverter_display_es.Ring.{Area, Ring, ok, put, read_slot, slot_back}
use deye_inverter_display_es.Ring.Laws.{FlashLaws, Geometry}
use deye_inverter_display_es.Ring.Slots.{IsRing, slot_back_zero}
use deye_inverter_display_es.Ring.Step.{put-IsPut}
use deye_inverter_display_es.EmHist.{Rec, em_kind, eh_per_sector, seal}
use deye_inverter_display_es.EmHist.Sealed.{em_laws}
use deye_inverter_display_es.EmHist.Acc.{eh_slot_s, slot_floor}
use deye_inverter_display_es.EmHist.Reals.{Reals}
use deye_inverter_display_es.EmHist.Range.{WhenGoing, resume_lem}
use deye_inverter_display_es.EmHist.Window.{
  Slot, Out, decode, unknown, is_taken, visit, all_unknown, walk, walk_from, em_hist_range_l,
}

day_before : (t : ℕ) (t0 : ℤ) → t0 ≤ℤ pos t → ltb_ℤ (pos t) (t0 -ℤ pos 86400) ≢ true
unfolding ◌-ℤ◌
day_before t (pos n) h q = ground (arith, h, q)
day_before t (negsuc n) h q = ground (arith, h, q)

module _ (F : Reals) where
  -- The place `k` shows `x`, which is filled.
  abbrev Shows : ℕ → Slot F → Out F → Type 0
  Shows k x o = (get_elem? o.slots k ≡ some x) × (x.valid ≡ true)

  visit-Shows :
      (t0 : ℤ) (c : Option Rec) (k : ℕ) (x : Slot F) (o : Out F)
      → Shows k x o
      → WhenGoing F (Shows k x) (visit F t0 c o)
  unfolding visit
  visit-Shows t0 none k x o h = h
  visit-Shows t0 (some r) k x o h =
      let P = WhenGoing F (Shows k x) in
      let i = pos_part (pos r.t -ℤ t0) / eh_slot_s in
      if_lem P (ltb_ℤ (pos r.t) (t0 -ℤ pos 86400)) none _ (λ q. tt)
        (λ q.
          if_lem P (ltb_ℤ (pos r.t) t0) (some o) _ (λ q. h)
            (λ early.
              if_lem P (is_taken F (get_elem? o.slots i)) (some o) _ (λ q. h)
                (λ free. (
                  get_elem?-set_ne o.slots (decode F r) (λ (e : i ≡ k). ground (
                    arith,
                    free,
                    ap (λ m. is_taken F (get_elem? o.slots m)) e,
                    ap (is_taken F) h.0,
                    h.1,
                  ))
                      ∙ h.0,
                  h.1,
                ))))

  abbrev IsGoing : (Out F → Type 0) → Option (Out F) → Type 0
  IsGoing P none = ⊥
  IsGoing P (some o) = P o

  go_on :
      (P : Out F → Type 0) (o : Out F) (c : Option (Out F)) (f : Out F → Out F)
      → IsGoing P c
      → ((o' : Out F) → P o' → P (f o'))
      → P (elim c [ none ↦ o | some o' ↦ f o' ])
  go_on P o none f h step = absurd h
  go_on P o (some o') f h step = step o' h

  unknown_there : (n k : ℕ) → k < n → get_elem? (all_unknown F n) k ≡ some (unknown F)
  unknown_there zero k h = absurd (omega (arith, h))
  unknown_there (suc n) zero h = refl
  unknown_there (suc n) (suc k) h = unknown_there n k (omega (arith, h))

  length-unknown : (n : ℕ) → length (all_unknown F n) ≡ n
  length-unknown zero = refl
  length-unknown (suc n) = ap suc (length-unknown n)

  module _ (a : Area Rec) where
    open a use {State, slots}

    walk-Shows :
        (left : ℕ) (t0 : ℤ) (newest back : ℕ) (s : State) (k : ℕ) (x : Slot F) (o : Out F)
        → Shows k x o
        → Shows k x (walk F a left t0 newest back s o)
    unfolding walk
    walk-Shows zero t0 newest back s k x o h = h
    walk-Shows (suc left) t0 newest back s k x o h =
        resume_lem F (Shows k x) o
          (visit F t0 (read_slot em_kind a (slot_back em_kind a newest back) s) o)
          (walk F a left t0 newest (back + 1) s) h
          (λ o'. walk-Shows left t0 newest (back + 1) s k x o')
          (visit-Shows t0 (read_slot em_kind a (slot_back em_kind a newest back) s) k x o h)

    first-Shows :
        (t0 : ℤ) (n : ℕ) (r : Rec)
        → t0 ≤ℤ pos r.t
        → let k = pos_part (pos r.t -ℤ t0) / eh_slot_s in
          k < n
          → IsGoing
              (Shows k (decode F r))
              (visit F t0 (some r) (record { slots = all_unknown F n; found = 0 }))
    unfolding visit ◌-ℤ◌
    first-Shows t0 n r from lt =
        let k = pos_part (pos r.t -ℤ t0) / eh_slot_s in
        let P = IsGoing (Shows k (decode F r)) in
        let o : Out F = record { slots = all_unknown F n; found = 0 } in
        if_lem P (ltb_ℤ (pos r.t) (t0 -ℤ pos 86400)) none _ (λ q. day_before r.t t0 from q)
          (λ q.
            if_lem P (ltb_ℤ (pos r.t) t0) (some o) _ (λ early. absurd (ground (arith, early, from)))
              (λ early.
                if_lem P (is_taken F (get_elem? o.slots k)) (some o) _
                  (λ busy. absurd (ground (arith, busy, ap (is_taken F) (unknown_there n k lt))))
                  (λ free. (
                    get_elem?-set_self o.slots k (decode F r) (omega (arith, lt, length-unknown n)),
                    refl,
                  ))))

    walk_first :
        (left : ℕ) (t0 : ℤ) (newest n : ℕ) (s : State) (r : Rec)
        → 0 < left
        → slot_back em_kind a newest 0 ≡ newest
        → read_slot em_kind a newest s ≡ some r
        → (t0 ≤ℤ pos r.t) × (pos_part (pos r.t -ℤ t0) / eh_slot_s < n)
        → get_elem?
            (walk F a left t0 newest 0 s (record { slots = all_unknown F n; found = 0 })).slots
            (pos_part (pos r.t -ℤ t0) / eh_slot_s)
          ≡ some (decode F r)
    unfolding walk
    walk_first zero t0 newest n s r h b e w = absurd (omega (arith, h))
    walk_first (suc left) t0 newest n s r h b e (from, lt) =
        let k = pos_part (pos r.t -ℤ t0) / eh_slot_s in
        let o : Out F = record { slots = all_unknown F n; found = 0 } in
        let read : read_slot em_kind a (slot_back em_kind a newest 0) s ≡ some r =
          ap (λ i. read_slot em_kind a i s) b ∙ e in
        (go_on (Shows k (decode F r)) o
          (visit F t0 (read_slot em_kind a (slot_back em_kind a newest 0) s) o)
          (walk F a left t0 newest 1 s)
          (subst (λ c. IsGoing (Shows k (decode F r)) (visit F t0 c o)) (sym read)
            (first-Shows t0 n r from lt))
          (λ o'. walk-Shows left t0 newest 1 s k (decode F r) o')).0

    -- A record that was put is what a range read shows for its quarter hour, from the newest record
    -- on: a put that reports success, into a ring in its invariant and flash that behaves, and a
    -- range that has the record's quarter hour.
    pub put-range :
        (laws : FlashLaws em_kind a) (geo : Geometry eh_per_sector slots) (d : Rec) (g : Ring)
        (s : State) (t0 : ℤ) (n : ℕ)
        → IsRing em_kind a g s
        → g.seq + 1 < 2 ^ 32
        → (slot_floor t0 ≤ℤ pos d.t) × (pos_part (pos d.t -ℤ slot_floor t0) / eh_slot_s < n)
        → let (st, g', s') = put em_kind a d g s in
          st ≡ ok
          → get_elem?
              (em_hist_range_l F a t0 n g' s').slots
              (pos_part (pos d.t -ℤ slot_floor t0) / eh_slot_s)
            ≡ some (decode F (seal (g.seq + 1) d))
    unfolding em_hist_range_l
    put-range laws geo d g s t0 n h small w done =
        let is = put-IsPut em_kind a em_laws laws geo d g s h small done in
        let (m, new, e) = is.at in
        let m_lt : m < slots = (is.ring.covers.some_is m new).0 in
        let (st, g', s') = put em_kind a d g s in
        ap
          (λ newest.
            get_elem?
              (walk_from F a (slot_floor t0) n newest s'
                (record { slots = all_unknown F n; found = 0 })).slots
              (pos_part (pos d.t -ℤ slot_floor t0) / eh_slot_s))
          new
        ∙ walk_first (min slots (2 * n + eh_per_sector)) (slot_floor t0) m n s' (seal (g.seq + 1) d)
            (omega (arith, geo.two, geo.some_slots)) (slot_back_zero m slots m_lt) e w

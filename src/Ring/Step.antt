-- ===== src/Ring/Step.antt =====
-- main/em_hist.c and main/load_hist.c: the theorem on a put, from the state before it.
use deye_inverter_display_es.Common.{
  none_not_some, some_inj, ℕ, ◌+◌, ◌%◌, ◌^◌, ◌≤◌, ◌<◌, ◌≡◌, ◌⊎◌, inl, inr, sym, ◌∙◌, ap, subst,
  some, arith, u32, Bool-cases, Option-cases, ◌==◌, ==_iff,
}
use deye_inverter_display_es.Ring.{
  Kind, Area, Ring, Place, Status, ok, valid, read_slot, find_slot, first_slot, next_slot, put_at,
  put,
}
use deye_inverter_display_es.Ring.Laws.{KindLaws, FlashLaws, Geometry}
use deye_inverter_display_es.Ring.Find.{IsFound, IsAway, find-IsFound, first-IsFound}
use deye_inverter_display_es.Ring.Put.{put_at_ok, reads_back_sound, after_cases, after-IsRing}
use deye_inverter_display_es.Ring.Slots.{IsRing}

module _ (k : Kind) (a : Area k.Rec) (kl : KindLaws k) (laws : FlashLaws k a)
    (geo : Geometry k.per_sector a.slots) where
  open k use {Rec, seq, seal, per_sector}
  open a use {State, slots, write}

  -- What a put that reports success has done.
  pub record IsPut (d : Rec) (g g' : Ring) (s s' : State) : Type 0 where
    pub ring : IsRing k a g' s'
    pub at : (m : ℕ) × (g'.newest ≡ some m) × (read_slot k a m s' ≡ some (seal (g.seq + 1) d))
    -- A record is still there, or lay in the one sector that the new one begins.
    pub kept :
        (j : ℕ) (c : Rec)
        → read_slot k a j s ≡ some c
        → (read_slot k a j s' ≡ some c)
          ⊎ ((b : ℕ) × (g'.newest ≡ some b) × (b % per_sector ≡ 0) × (b ≤ j) × (j < b + per_sector))
    -- The newest record before is never lost.
    pub newest_kept : (m : ℕ) → g.newest ≡ some m → read_slot k a m s' ≡ read_slot k a m s

  abbrev place : Ring → State → Place k a
  place g s = find_slot k a per_sector (first_slot k a g.newest) s

  place-IsFound :
      (g : Ring) (s : State)
      → IsRing k a g s
      → IsFound k a laws geo s (place g s)
        × ((m : ℕ) → g.newest ≡ some m → IsAway k a laws geo m (place g s))
  place-IsFound g s h = elim (Option-cases g.newest) [
    | inl e ↦ rw e (first-IsFound k a laws geo s, λ m f. absurd (none_not_some m f))
    | inr (m, e) ↦
        (let (found, away) = find-IsFound k a laws geo m s (h.covers.some_is m e).0 in
          rw e (
            found,
            λ m' f.
                subst (λ x. IsAway k a laws geo x (find_slot k a per_sector (next_slot k a m) s))
                  (some_inj m m' f) away,
          ))
  ]

  put-eq : (d : Rec) (g : Ring) (s : State) → put k a d g s ≡ put_at k a d (place g s) g
  unfolding put
  put-eq d g s = ground (arith, geo.two)

  put_at-IsPut :
      (d : Rec) (g : Ring) (s : State) (p : Place k a)
      → IsFound k a laws geo s p
      → ((m : ℕ) → g.newest ≡ some m → IsAway k a laws geo m p)
      → IsRing k a g s
      → g.seq + 1 < 2 ^ 32
      → let (st, g', s') = put_at k a d p g in st ≡ ok → IsPut d g g' s s'
  put_at-IsPut d g s p found away h small done =
      let r = seal (u32 (g.seq + 1)) d in
      let (fine, back, is, new, top, count) = put_at_ok k a kl laws geo d p g done in
      let g' = (put_at k a d p g).1 in
      let s2 = (write p.slot r p.flash).1 in
      let number : u32 (g.seq + 1) ≡ g.seq + 1 = omega (arith, small) in
      let e = reads_back_sound k a kl laws geo r (read_slot k a p.slot s2) back in
      let cases = after_cases k a kl laws geo s p found fine r in
      let goal : IsPut d g g' s s2 = record {
        ring =
            after-IsRing k a kl laws geo s p found fine r g g' h e
              (kl.seal_seq (u32 (g.seq + 1)) d ∙ number) new top count;
        at = (p.slot, new, e ∙ ap (λ n. some (seal n d)) number);
        kept = λ j c f. elim (Bool-cases (j == p.slot)) [
          | inl same ↦
              (let here = (==_iff j p.slot).0 same in
                elim (Bool-cases p.erased) [
                  | inl w ↦ inr (
                    p.slot,
                    new,
                    (found.wiped w).0,
                    ground (arith, here),
                    ground (arith, here, geo.some_slots),
                  )
                  | inr w ↦ absurd (
                      none_not_some c (
                        sym (ap (valid k) (found.kept w).2)
                        ∙ ap (λ x. read_slot k a x s) (sym here)
                        ∙ f))
                ])
          | inr other ↦ elim (cases j (ground (arith, other))) [
            | inl eq ↦ inl (eq ∙ f)
            | inr (w, gone) ↦ inr (p.slot, new, (found.wiped w.0).0, w.1, w.2)
          ]
        ];
        newest_kept = λ m f.
            (let (apart, clear) = away m f in
              elim (cases m (λ q. apart (sym q))) [
                | inl eq ↦ eq
                | inr (w, gone) ↦ absurd (ground (arith, w, clear w.0))
              ]);
      } in
      subst (λ t. IsPut d g g' s t) (sym is) goal

  -- A put that reports success leaves the ring in its invariant, with the record readable as the
  -- newest one under the next number; every record before is still there, but for those of the one
  -- sector that the new record begins, and the newest one before is never among them. It needs a
  -- ring in its invariant, flash that behaves, whole sectors, and a number that does not wrap.
  pub put-IsPut :
      (d : Rec) (g : Ring) (s : State)
      → IsRing k a g s
      → g.seq + 1 < 2 ^ 32
      → let (st, g', s') = put k a d g s in st ≡ ok → IsPut d g g' s s'
  put-IsPut d g s h small =
      let (found, away) = place-IsFound g s h in
      subst (λ (x : Status × Ring × State). x.0 ≡ ok → IsPut d g x.1 s x.2) (sym (put-eq d g s))
        (put_at-IsPut d g s (place g s) found away h small)

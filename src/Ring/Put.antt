-- ===== src/Ring/Put.antt =====
-- main/em_hist.c and main/load_hist.c: a put that reports success leaves the record readable and
-- the ring in its invariant, and drops at most the sector that it enters.
use deye_inverter_display_es.Common.{
  none_not_some, some_inj, ℕ, ◌+◌, ◌≤◌, ◌<◌, ◌≡◌, ◌≢◌, ◌⊎◌, inl, inr, sym, ◌∙◌, ap, subst, true,
  Option, none, some, ℤ, pos, ◌+ℤ◌, ◌-ℤ◌, arith, u32, Bool-cases, ◌==◌, ==_iff,
}
use deye_inverter_display_es.Ring.{
  Kind, Area, Ring, Place, ok, valid, one_if_valid, read_slot, valid_in, reads_back, settle, put_at,
}
use deye_inverter_display_es.Ring.Laws.{KindLaws, FlashLaws, Geometry}
use deye_inverter_display_es.Ring.Find.{IsFound}
use deye_inverter_display_es.Ring.Count.{valid_in-local, valid_in-none, valid_in-one}
use deye_inverter_display_es.Ring.Slots.{IsRing}

-- Counting the records that a put drops and adds.
count_after :
    (c : ℤ) (all lost left : ℕ)
    → c ≡ pos all
    → all ≡ left + lost
    → (c -ℤ pos lost) +ℤ pos 1 ≡ pos (left + 1)
unfolding ◌+ℤ◌ ◌-ℤ◌
count_after c all lost left h e = ground (arith, h, e)

place_cases : (slot n j : ℕ) → ((j < slot) ⊎ (slot + n ≤ j)) ⊎ ((slot ≤ j) × (j < slot + n))
place_cases slot n j = ground arith

module _ (k : Kind) (a : Area k.Rec) (kl : KindLaws k) (laws : FlashLaws k a)
    (geo : Geometry k.per_sector a.slots) where
  open k use {Rec, seq, seal, per_sector}
  open a use {State, slots, read, write, erase}

  -- What the put of a record at a place has done where it reports success.
  pub put_at_ok :
      (d : Rec) (p : Place k a) (g : Ring)
      → (put_at k a d p g).0 ≡ ok
      → let r = seal (u32 (g.seq + 1)) d in
        let s2 = (write p.slot r p.flash).1 in
        let out = put_at k a d p g in
        (p.fine ≡ true)
        × (reads_back k a r (read_slot k a p.slot s2) ≡ true)
        × (out.2 ≡ s2)
        × (out.1.newest ≡ some p.slot)
        × (out.1.seq ≡ seq r)
        × (out.1.count ≡ (g.count -ℤ pos p.lost) +ℤ pos 1)
  unfolding put_at settle
  put_at_ok d p g h = ground (arith, h)

  pub reads_back_sound : (r : Rec) (c : Option Rec) → reads_back k a r c ≡ true → c ≡ some r
  reads_back_sound r none h = absurd (ground (arith, h))
  reads_back_sound r (some c) h = ap some (kl.same_eq c r h)

  -- What a slot other than the put's holds behind it.
  abbrev pub Wiped : Place k a → ℕ → Type 0
  Wiped p j = (p.erased ≡ true) × (p.slot ≤ j) × (j < p.slot + per_sector)

  module _ (s : State) (p : Place k a) (found : IsFound k a laws geo s p) (fine : p.fine ≡ true)
      (r : Rec) where
    open found use {inside, free, kept, wiped}

    abbrev after : State
    after = (write p.slot r p.flash).1

    slot_free : read_slot k a p.slot p.flash ≡ none
    slot_free = ap (valid k) (free fine)

    flash_outside :
        (j : ℕ)
        → (j < p.slot) ⊎ (p.slot + per_sector ≤ j)
        → read_slot k a j p.flash ≡ read_slot k a j s
    flash_outside j h = elim (Bool-cases p.erased) [
      | inl e ↦
          ap (λ t. read_slot k a j t) (wiped e).1 ∙ ap (valid k) (laws.erase_other p.slot j s h)
      | inr e ↦ ap (λ t. read_slot k a j t) (kept e).0
    ]

    flash_inside : (j : ℕ) → Wiped p j → read_slot k a j p.flash ≡ none
    flash_inside j (e, lo, hi) =
        ap (λ t. read_slot k a j t) (wiped e).1
        ∙ ap (valid k) (laws.erase_inside p.slot j s lo hi (sym (wiped e).2 ∙ fine))

    after_other : (j : ℕ) → j ≢ p.slot → read_slot k a j after ≡ read_slot k a j p.flash
    after_other j ne = ap (valid k) (laws.write_other p.slot j r p.flash (λ e. ne (sym e)))

    pub after_cases :
        (j : ℕ)
        → j ≢ p.slot
        → (read_slot k a j after ≡ read_slot k a j s) ⊎ (Wiped p j × (read_slot k a j after ≡ none))
    after_cases j ne = elim (place_cases p.slot per_sector j) [
      | inl out ↦ inl (after_other j ne ∙ flash_outside j out)
      | inr (lo, hi) ↦ elim (Bool-cases p.erased) [
        | inl e ↦ inr ((e, lo, hi), after_other j ne ∙ flash_inside j (e, lo, hi))
        | inr e ↦ inl (after_other j ne ∙ ap (λ t. read_slot k a j t) (kept e).0)
      ]
    ]

    total_flash : valid_in k a slots 0 s ≡ valid_in k a slots 0 p.flash + p.lost
    total_flash = elim (Bool-cases p.erased) [
      | inl e ↦ omega (
        arith,
        valid_in-local k a per_sector p.slot s p.flash (geo.sector_fits p.slot (wiped e).0 inside)
            (λ j h. sym (flash_outside j h)),
        valid_in-none k a per_sector p.slot p.flash (λ j lo hi. flash_inside j (e, lo, hi)),
        (wiped e).3,
      )
      | inr e ↦ omega (arith, ap (λ t. valid_in k a slots 0 t) (kept e).0, (kept e).1)
    ]

    total_after :
        read_slot k a p.slot after ≡ some r
        → valid_in k a slots 0 after ≡ valid_in k a slots 0 p.flash + 1
    total_after e =
        let apart : (j : ℕ) → (j < p.slot) ⊎ (p.slot + 1 ≤ j) → j ≢ p.slot =
          λ j h. ground (arith, h) in
        omega (
          arith,
          valid_in-local k a 1 p.slot p.flash after (omega (arith, inside))
              (λ j h. sym (after_other j (apart j h))),
          valid_in-one k a p.slot p.flash ∙ ap (one_if_valid k a) slot_free,
          valid_in-one k a p.slot after ∙ ap (one_if_valid k a) e,
        )

    -- The invariant behind the put.
    pub after-IsRing :
        (g g' : Ring)
        → IsRing k a g s
        → read_slot k a p.slot after ≡ some r
        → seq r ≡ g.seq + 1
        → g'.newest ≡ some p.slot
        → g'.seq ≡ seq r
        → g'.count ≡ (g.count -ℤ pos p.lost) +ℤ pos 1
        → IsRing k a g' after
    after-IsRing g g' h e num new top count =
        let old : (j : ℕ) (c : Rec)
            → j < slots
            → j ≢ p.slot
            → read_slot k a j after ≡ some c
            → seq c ≤ g.seq =
          λ j c lt ne f. elim (after_cases j ne) [
            | inl same ↦ h.covers.top j c lt (sym same ∙ f)
            | inr (w, gone) ↦ absurd (none_not_some c (sym gone ∙ f))
          ] in
        record {
          covers = record {
            count_is =
                count
                ∙ count_after g.count (valid_in k a slots 0 s) p.lost (valid_in k a slots 0 p.flash)
                    h.covers.count_is total_flash
                ∙ ap pos (sym (total_after e));
            none_is = λ n. absurd (none_not_some p.slot (sym n ∙ new));
            some_is = λ m eq.
                subst
                  (λ x.
                    (x < slots) × ((c : Rec) × (read_slot k a x after ≡ some c) × (seq c ≡ g'.seq)))
                  (some_inj p.slot m (sym new ∙ eq)) (inside, (r, e, sym top));
            top = λ j c lt f. elim (Bool-cases (j == p.slot)) [
              | inl at ↦
                  (let is : r ≡ c = some_inj r c (
                      sym e ∙ ap (λ x. read_slot k a x after) (sym ((==_iff j p.slot).0 at)) ∙ f) in
                    omega (arith, ap seq is, top))
              | inr away ↦ omega (arith, old j c lt (ground (arith, away)) f, top, num)
            ];
          };
          strict = λ j m c lt eq ne f.
              (let here = some_inj p.slot m (sym new ∙ eq) in
                omega (arith, old j c lt (λ q. ne (q ∙ here)) f, top, num));
        }

-- ===== src/Ring/Find.antt =====
-- main/em_hist.c and main/load_hist.c: where a put goes. The slot is in the area and free, and the
-- sector that is wiped is not the newest record's.
use deye_inverter_display_es.Common.{
  ℕ, zero, suc, ◌+◌, ◌%◌, ◌≤◌, ◌<◌, ◌≡◌, ◌≢◌, ◌⊎◌, inl, inr, refl, true, false, Option, none, some,
  arith, ◌==◌, ==_iff, Bool-cases,
}
use deye_inverter_display_es.Ring.{
  Kind, Area, Place, Cell, blank, holds, find_slot, next_slot, is_blank, valid_in,
}
use deye_inverter_display_es.Ring.Laws.{FlashLaws, Geometry}

module _ (k : Kind) (a : Area k.Rec) (laws : FlashLaws k a)
    (g : Geometry k.per_sector a.slots) where
  open k use {Rec, per_sector}
  open a use {State, slots, read, erase}
  open g use {some_slots, two, rem_lt, next_rem, last_rem, sector_fits, wrap}

  -- A slot that a put may try with its newest record at `m`.
  abbrev pub IsAhead : ℕ → ℕ → Type 0
  IsAhead m slot =
      (slot < slots)
      × (m < slots)
      × (((slot ≡ 0) × (per_sector ≤ m))
          ⊎ ((m < slot) × (slot % per_sector ≢ 0 → slot ≤ m + slot % per_sector)))

  next-IsAhead :
      (m slot : ℕ) → IsAhead m slot → slot % per_sector ≢ 0 → IsAhead m (next_slot k a slot)
  next-IsAhead m slot h r =
      ground (arith, next_rem slot r, wrap slot h.0, last_rem slot, two, g.starts)

  first-IsAhead : (m : ℕ) → m < slots → IsAhead m (next_slot k a m)
  first-IsAhead m h = ground (arith, wrap m h, last_rem m, two, rem_lt (m + 1), some_slots)

  -- The guard lasts until the next sector begins.
  abbrev pub IsEnough : ℕ → ℕ → Type 0
  IsEnough guard slot =
      ((slot % per_sector ≡ 0) × (1 ≤ guard)) ⊎ (per_sector + 1 ≤ slot % per_sector + guard)

  next-IsEnough :
      (m guard slot : ℕ)
      → IsAhead m slot
      → slot % per_sector ≢ 0
      → IsEnough (suc guard) slot
      → IsEnough guard (next_slot k a slot)
  next-IsEnough m guard slot h r e =
      ground (arith, next_rem slot r, wrap slot h.0, last_rem slot, g.starts, rem_lt slot)

  -- What a successful search leaves.
  pub record IsFound (s : State) (p : Place k a) : Type 0 where
    pub inside : p.slot < slots
    pub free : p.fine ≡ true → read p.slot p.flash ≡ some blank
    pub kept : p.erased ≡ false → (p.flash ≡ s) × (p.lost ≡ 0) × (read p.slot s ≡ some blank)
    pub wiped :
        p.erased ≡ true
        → (p.slot % per_sector ≡ 0)
          × (p.flash ≡ (erase p.slot s).1)
          × (p.fine ≡ (erase p.slot s).0)
          × (p.lost ≡ valid_in k a per_sector p.slot s)

  abbrev pub IsAway : ℕ → Place k a → Type 0
  IsAway m p = (p.slot ≢ m) × (p.erased ≡ true → (m < p.slot) ⊎ (p.slot + per_sector ≤ m))

  abbrev wipe : ℕ → State → Place k a
  wipe slot s = record {
    slot = slot;
    lost = valid_in k a per_sector slot s;
    erased = true;
    fine = (erase slot s).0;
    flash = (erase slot s).1;
  }

  wipe-IsFound :
      (slot : ℕ) (s : State) → slot < slots → slot % per_sector ≡ 0 → IsFound s (wipe slot s)
  wipe-IsFound slot s h r = record {
    inside = h;
    free = λ f. laws.erase_inside slot slot s (ground arith) (ground (arith, some_slots)) f;
    kept = λ e. absurd (ground (arith, e));
    wiped = λ e. (r, refl, refl, refl);
  }

  abbrev stay : ℕ → State → Place k a
  stay slot s = record { slot = slot; lost = 0; erased = false; fine = true; flash = s }

  is_blank_sound : (c : Option (Cell Rec)) → is_blank k a c ≡ true → c ≡ some blank
  is_blank_sound none h = absurd (ground (arith, h))
  is_blank_sound (some blank) h = refl
  is_blank_sound (some (holds r)) h = absurd (ground (arith, h))

  stay-IsFound :
      (slot : ℕ) (s : State)
      → slot < slots
      → is_blank k a (read slot s) ≡ true
      → IsFound s (stay slot s)
  stay-IsFound slot s h b =
      let is = is_blank_sound (read slot s) b in
      record {
        inside = h;
        free = λ _. is;
        kept = λ _. (refl, refl, is);
        wiped = λ e. absurd (ground (arith, e));
      }

  pub find_slot-IsFound :
      (m guard slot : ℕ) (s : State)
      → IsAhead m slot
      → IsEnough guard slot
      → IsFound s (find_slot k a guard slot s) × IsAway m (find_slot k a guard slot s)
  unfolding find_slot
  find_slot-IsFound m zero slot s h e = absurd (ground (arith, h, e, rem_lt slot))
  find_slot-IsFound m (suc guard) slot s h e = elim (Bool-cases (slot % per_sector == 0)) [
    | inl start ↦
        (let rem = (==_iff (slot % per_sector) 0).0 start in
          rw (start, find_slot) (wipe-IsFound slot s h.0 rem, ground (arith, h, some_slots)))
    | inr inner ↦
        (let rem : slot % per_sector ≢ 0 = ground (arith, inner) in
          elim (Bool-cases (is_blank k a (read slot s))) [
            | inl b ↦
                rw (inner, b, find_slot) (stay-IsFound slot s h.0 b, ground (arith, h, some_slots))
            | inr b ↦
                rw (inner, b, find_slot)
                  (find_slot-IsFound m guard (next_slot k a slot) s (next-IsAhead m slot h rem)
                    (next-IsEnough m guard slot h rem e))
          ])
  ]

  -- Where a put goes that has records before it.
  pub find-IsFound :
      (m : ℕ) (s : State)
      → m < slots
      → let p = find_slot k a per_sector (next_slot k a m) s in IsFound s p × IsAway m p
  find-IsFound m s h =
      find_slot-IsFound m per_sector (next_slot k a m) s (first-IsAhead m h)
        (ground (arith, some_slots))

  first_wipes : (guard : ℕ) (s : State) → 1 ≤ guard → find_slot k a guard 0 s ≡ wipe 0 s
  unfolding find_slot
  first_wipes zero s h = absurd (omega arith)
  first_wipes (suc guard) s h = rw ((==_iff (0 % per_sector) 0).1 g.starts, find_slot) refl

  -- The first put of an empty ring wipes the first sector.
  pub first-IsFound : (s : State) → IsFound s (find_slot k a per_sector 0 s)
  first-IsFound s =
      rw (first_wipes per_sector s (ground (arith, some_slots)))
        (wipe-IsFound 0 s (ground (arith, two, some_slots)) g.starts)

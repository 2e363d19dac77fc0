-- ===== src/Ring/Fresh.antt =====
-- main/em_hist.c and main/load_hist.c: a flash in RAM, as the host suites of test/ put behind the
-- hooks, and the ring in an area that holds no record.
use deye_inverter_display_es.Common.{
  none_not_some, ℕ, zero, suc, ◌+◌, ◌≡◌, refl, ap, sym, ◌∙◌, true, ◌&&◌, none, some, pos, leb, ltb,
  ◌==◌, arith, if◌then◌else◌,
}
use deye_inverter_display_es.Ring.{
  Kind, Cell, blank, holds, Area, empty, valid_in, read_slot, one_if_valid,
}
use deye_inverter_display_es.Ring.Laws.{FlashLaws}
use deye_inverter_display_es.Ring.Slots.{IsRing}

module _ (k : Kind) where
  open k use {Rec, per_sector}

  -- An area of `n` slots whose reads, writes and erases never fail.
  abbrev pub ram : ℕ → Area Rec
  ram n = record {
    State = ℕ → Cell Rec;
    slots = n;
    read = λ i s. some (s i);
    write = λ i r s. (true, λ j. if j == i then holds r else s j);
    erase = λ i s. (true, λ j. if leb i j && ltb j (i + per_sector) then blank else s j);
  }

  pub ram_laws : (n : ℕ) → FlashLaws k (ram n)
  ram_laws n = record {
    write_other = λ i j r s apart. ground (arith, apart);
    erase_other = λ i j s out. ground (arith, out);
    erase_inside = λ i j s lo hi done. ground (arith, lo, hi);
  }

  module _ (a : Area Rec) where
    open a use {State, slots}

    none_valid :
        (n i : ℕ) (s : State) → ((j : ℕ) → read_slot k a j s ≡ none) → valid_in k a n i s ≡ 0
    unfolding valid_in
    none_valid zero i s h = refl
    none_valid (suc n) i s h = omega (arith, ap (one_if_valid k a) (h i), none_valid n (i + 1) s h)

    pub fresh-IsRing : (s : State) → ((j : ℕ) → read_slot k a j s ≡ none) → IsRing k a (empty k) s
    fresh-IsRing s h = record {
      covers = record {
        count_is = ap pos (sym (none_valid slots 0 s h));
        none_is = λ e. (refl, λ j lt. h j);
        some_is = λ m e. absurd (none_not_some m e);
        top = λ j r lt e. absurd (none_not_some r (sym (h j) ∙ e));
      };
      strict = λ j m r lt e. absurd (none_not_some m e);
    }

-- ===== src/Ring/Slots.antt =====
-- main/em_hist.c and main/load_hist.c: the invariant of the ring, and that a scan at boot finds it.
use deye_inverter_display_es.Common.{
  none_not_some, some_inj, ℕ, zero, suc, ◌+◌, ◌%◌, ◌≤◌, ◌<◌, ◌≡◌, ◌≢◌, ◌⊎◌, ◌^◌, ◌-◌, inl, inr,
  refl, sym, subst, Bool-cases, ◌∙◌, ap, true, false, Option, none, some, ℤ, pos, ◌+ℤ◌, arith,
  Option-cases, ◌==◌, ==_iff,
}
use native.Mathlib.Nat.{add-mod_right, mod-eq_of_lt}
use deye_inverter_display_es.Ring.{
  Kind, Area, Ring, Scan, one_if_valid, read_slot, valid_in, scan, cells, init_from, init,
  take_cell, take_rec, is_newer, empty,
}
use deye_inverter_display_es.Ring.Count.{valid_in-split, valid_in-one}

pub slot_back_zero : (m n : ℕ) → m < n → (m + n - 0) % n ≡ m
slot_back_zero m n h =
    ap (λ x. x % n) {x = m + n - 0} {y = m + n} (omega arith) ∙ add-mod_right m n ∙ mod-eq_of_lt h

count_suc : (c : ℤ) (n m : ℕ) → c ≡ pos n → m ≡ n + 1 → c +ℤ pos 1 ≡ pos m
unfolding ◌+ℤ◌
count_suc c n m h e = ground (arith, h, e)

newer_true : (o : Option ℕ) (s t : ℕ) → is_newer o s t ≡ true → (o ≡ none) ⊎ (s < t)
newer_true none s t h = inl refl
newer_true (some i) s t h = inr (ground (arith, h))

newer_false : (o : Option ℕ) (s t : ℕ) → is_newer o s t ≡ false → (o ≢ none) × (t ≤ s)
newer_false none s t h = absurd (ground (arith, h))
newer_false (some i) s t h = (λ e. none_not_some i (sym e), ground (arith, h))

module _ (k : Kind) (a : Area k.Rec) where
  open k use {Rec, seq}
  open a use {State, slots, read}

  -- The slot `m` holds a record with the number `q`.
  abbrev pub IsAt : ℕ → ℕ → State → Type 0
  IsAt m q s = (r : Rec) × (read_slot k a m s ≡ some r) × (seq r ≡ q)

  -- The first `i` slots of the area against the variables: the newest record is among them, no
  -- other one has its number or a higher one, and the count is theirs. With `strict` left out,
  -- a number may repeat.
  pub record Covers (i : ℕ) (g : Ring) (s : State) : Type 0 where
    pub count_is : g.count ≡ pos (valid_in k a i 0 s)
    pub none_is : g.newest ≡ none → (g.seq ≡ 0) × ((j : ℕ) → j < i → read_slot k a j s ≡ none)
    pub some_is : (m : ℕ) → g.newest ≡ some m → (m < i) × IsAt m g.seq s
    pub top : (j : ℕ) (r : Rec) → j < i → read_slot k a j s ≡ some r → seq r ≤ g.seq

  -- The invariant between two calls.
  pub record IsRing (g : Ring) (s : State) : Type 0 where
    pub covers : Covers slots g s
    pub strict :
        (j m : ℕ) (r : Rec)
        → j < slots
        → g.newest ≡ some m
        → j ≢ m
        → read_slot k a j s ≡ some r
        → seq r < g.seq

  valid_in-suc :
      (i : ℕ) (s : State)
      → valid_in k a (i + 1) 0 s ≡ valid_in k a i 0 s + one_if_valid k a (read_slot k a i s)
  valid_in-suc i s =
      omega (arith, valid_in-split k a i 1 0 (i + 1) i s refl (omega arith), valid_in-one k a i s)

  below_suc : (i j : ℕ) → j < i + 1 → (j < i) ⊎ (j ≡ i)
  below_suc i j h = ground arith

  -- What holds below `i` and at `i` holds below `i + 1`.
  up_to_suc {κ} : (P : ℕ → Type κ) (i j : ℕ) → j < i + 1 → ((n : ℕ) → n < i → P n) → P i → P j
  up_to_suc P i j h below here = elim (below_suc i j h) [
    | inl lt ↦ below j lt
    | inr eq ↦ subst P (sym eq) here
  ]

  -- One more cell.
  none-Covers :
      (i : ℕ) (g : Ring) (s : State) → read_slot k a i s ≡ none → Covers i g s → Covers (i + 1) g s
  none-Covers i g s e h = record {
    count_is = h.count_is ∙ ap pos (sym (valid_in-suc i s ∙ rw e (omega arith)));
    none_is = λ n. (
      (h.none_is n).0,
      λ j lt. up_to_suc (λ x. read_slot k a x s ≡ none) i j lt (h.none_is n).1 e,
    );
    some_is = λ m eq. (let (lt, at) = h.some_is m eq in (omega (arith, lt), at));
    top = λ j r lt.
        up_to_suc (λ x. read_slot k a x s ≡ some r → seq r ≤ g.seq) i j lt (λ n l. h.top n r l)
          (λ f. absurd (none_not_some r (sym e ∙ f)));
  }

  some-Covers :
      (i : ℕ) (r : Rec) (x : Scan k) (s : State)
      → read_slot k a i s ≡ some r
      → Covers i x.ring s
      → Covers (i + 1) (take_rec k i r x).ring s
  some-Covers i r x s e h =
      let more : valid_in k a (i + 1) 0 s ≡ valid_in k a i 0 s + 1 = valid_in-suc i s ∙ rw e refl in
      let count =
        count_suc x.ring.count (valid_in k a i 0 s) (valid_in k a (i + 1) 0 s) h.count_is more in
      elim (Bool-cases (is_newer x.ring.newest x.ring.seq (seq r))) [
        | inl new ↦ simp new (record {
          count_is = count;
          none_is = λ n. absurd (none_not_some i (sym n));
          some_is = λ m eq.
              subst (λ y. (y < i + 1) × IsAt y (seq r) s) (some_inj i m eq)
                (omega arith, (r, e, refl));
          top = λ j c lt.
              up_to_suc (λ y. read_slot k a y s ≡ some c → seq c ≤ seq r) i j lt
                (λ n l f. elim (newer_true x.ring.newest x.ring.seq (seq r) new) [
                  | inl none_yet ↦ absurd (none_not_some c (sym ((h.none_is none_yet).1 n l) ∙ f))
                  | inr lower ↦ omega (arith, h.top n c l f, lower)
                ])
                (λ f. omega (arith, ap seq (some_inj r c (sym e ∙ f))));
        })
        | inr old ↦
            (let known = newer_false x.ring.newest x.ring.seq (seq r) old in
              simp old (record {
                count_is = count;
                none_is = λ n. absurd (known.0 n);
                some_is = λ m eq. (let (lt, at) = h.some_is m eq in (omega (arith, lt), at));
                top = λ j c lt.
                    up_to_suc (λ y. read_slot k a y s ≡ some c → seq c ≤ x.ring.seq) i j lt
                      (λ n l. h.top n c l)
                      (λ f. omega (arith, ap seq (some_inj r c (sym e ∙ f)), known.1));
              }))
      ]

  take_cell-Covers :
      (i : ℕ) (c : Option Rec) (x : Scan k) (s : State)
      → read_slot k a i s ≡ c
      → Covers i x.ring s
      → Covers (i + 1) (take_cell k i c x).ring s
  take_cell-Covers i none x s e h = none-Covers i x.ring s e h
  take_cell-Covers i (some r) x s e h = some-Covers i r x s e h

  scan-Covers :
      (n i : ℕ) (x : Scan k) (s : State)
      → Covers i x.ring s
      → Covers (i + n) (scan k i (cells k a n i s) x).ring s
  unfolding scan cells
  scan-Covers zero i x s h = subst (λ j. Covers j x.ring s) {x = i} {y = i + 0} (omega arith) h
  scan-Covers (suc n) i x s h =
      let step = take_cell-Covers i (read_slot k a i s) x s refl h in
      let y = take_cell k i (read_slot k a i s) x in
      subst (λ j. Covers j (scan k (i + 1) (cells k a n (i + 1) s) y).ring s) {x = i + 1 + n}
        {y = i + suc n} (omega arith) (scan-Covers n (i + 1) y s step)

  empty-Covers : (s : State) → Covers 0 (empty k) s
  unfolding valid_in
  empty-Covers s = record {
    count_is = refl;
    none_is = λ n. (refl, λ j lt. absurd (omega arith));
    some_is = λ m eq. absurd (none_not_some m eq);
    top = λ j r lt. absurd (omega arith);
  }

  -- The scan at boot covers the whole area.
  pub init-Covers : (s : State) → Covers slots (init k a s) s
  unfolding init_from
  init-Covers s =
      let start : Scan k = record { ring = empty k; oldest_seq = 2 ^ 32 - 1 } in
      subst (λ j. Covers j (scan k 0 (cells k a slots 0 s) start).ring s) {x = 0 + slots}
        {y = slots} (omega arith) (scan-Covers slots 0 start s (empty-Covers s))

  agree_at :
      (b g : Ring) (m m' : ℕ) (s : State)
      → Covers slots b s
      → IsRing g s
      → b.newest ≡ some m'
      → g.newest ≡ some m
      → (m' ≡ m) × (b.seq ≡ g.seq)
  agree_at b g m m' s c h e d =
      let (lt', at') = c.some_is m' e in
      let (r', read', is') = at' in
      let (lt, at) = h.covers.some_is m d in
      let (r, read, is) = at in
      elim (Bool-cases (m' == m)) [
        | inl same ↦
            (let eq = (==_iff m' m).0 same in
              let one : r' ≡ r =
                some_inj r' r (sym read' ∙ ap (λ j. read_slot k a j s) eq ∙ read) in
              (eq, omega (arith, is', is, ap seq one)))
        | inr other ↦ absurd (
            ground (
              arith,
              other,
              h.strict m' m r' lt' d (λ (q : m' ≡ m). ground (arith, q, other)) read',
              c.top m r lt read,
              is,
              is',
            ))
      ]

  -- A restart finds the ring's variables again: the slot of the newest record, its number, and the
  -- count of records.
  pub init_recovers :
      (g : Ring) (s : State)
      → IsRing g s
      → let b = init k a s in (b.newest ≡ g.newest) × (b.seq ≡ g.seq) × (b.count ≡ g.count)
  init_recovers g s h =
      let b = init k a s in
      let c = init-Covers s in
      let count = c.count_is ∙ sym h.covers.count_is in
      elim (Option-cases b.newest) [
        | inl e ↦ elim (Option-cases g.newest) [
          | inl d ↦ (e ∙ sym d, (c.none_is e).0 ∙ sym (h.covers.none_is d).0, count)
          | inr (m, d) ↦
              (let (lt, at) = h.covers.some_is m d in
                absurd (none_not_some at.0 (sym ((c.none_is e).1 m lt) ∙ at.1)))
        ]
        | inr (m', e) ↦ elim (Option-cases g.newest) [
          | inl d ↦
              (let (lt, at) = c.some_is m' e in
                absurd (none_not_some at.0 (sym ((h.covers.none_is d).1 m' lt) ∙ at.1)))
          | inr (m, d) ↦
              (let (eq, num) = agree_at b g m m' s c h e d in (e ∙ ap some eq ∙ sym d, num, count))
        ]
      ]

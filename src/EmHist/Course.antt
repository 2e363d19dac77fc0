-- ===== src/EmHist/Course.antt =====
-- main/em_hist.c: one record for a quarter hour, from its samples.
use deye_inverter_display_es.Common.{
  ==ℤ_refl, ℕ, zero, suc, ◌+◌, ◌≤◌, ◌<◌, ◌^◌, ◌≡◌, ◌≢◌, refl, ap, ◌∙◌, sym, subst, false, ℤ, pos,
  negsuc, ◌==ℤ◌, Option, some, List, [], ◌∷◌, get_or, arith, u16, ltb, Bool-cases, inl, inr,
}
use deye_inverter_display_es.Ring.{Area, put}
use deye_inverter_display_es.EmHist.{Rec, em_kind}
use deye_inverter_display_es.EmHist.Reals.{Reals}
use deye_inverter_display_es.EmHist.Acc.{
  slot_floor, better, best_act, Sample, Acc, Hist, eh_reset_acc, closing, add_sample, add_to,
  eh_close_slot, enter_slot, em_hist_tick_l,
}

up_to_3 : (P : ℕ → Type 0) → P 0 → P 1 → P 2 → P 3 → (k : ℕ) → k ≤ 3 → P k
up_to_3 P a b c d zero h = a
up_to_3 P a b c d (suc zero) h = b
up_to_3 P a b c d (suc (suc zero)) h = c
up_to_3 P a b c d (suc (suc (suc zero))) h = d
up_to_3 P a b c d (suc (suc (suc (suc k)))) h = absurd (omega (arith, h))

better_lem :
    (n : List ℕ) (best a : ℕ)
    → (get_or n best 0 ≤ get_or n (better n best a) 0)
      × (get_or n a 0 ≤ get_or n (better n best a) 0)
better_lem n best a = elim (Bool-cases (ltb (get_or n best 0) (get_or n a 0))) [
  | inl e ↦ rw e (ground (arith, e))
  | inr e ↦ rw e (ground (arith, e))
]

-- No action was planned more often than the one that is stored.
best_act-max : (n : List ℕ) (k : ℕ) → k ≤ 3 → get_or n k 0 ≤ get_or n (best_act n) 0
unfolding best_act
best_act-max n k h =
    let (a3, a0) = better_lem n 3 0 in
    let (b, a1) = better_lem n (better n 3 0) 1 in
    let (c, a2) = better_lem n (better n (better n 3 0) 1) 2 in
    up_to_3 (λ k. get_or n k 0 ≤ get_or n (better n (better n (better n 3 0) 1) 2) 0)
      (omega (arith, a0, b, c)) (omega (arith, a1, c)) a2 (omega (arith, a3, b, c)) k h

==ℤ_false : (a b : ℤ) → a ≢ b → (a ==ℤ b) ≡ false
==ℤ_false (pos n) (pos m) h = ground (arith, λ (e : n ≡ m). h (ap pos e))
==ℤ_false (negsuc n) (negsuc m) h = ground (arith, λ (e : n ≡ m). h (ap negsuc e))
==ℤ_false (pos n) (negsuc m) h = refl
==ℤ_false (negsuc n) (pos m) h = refl

module _ (F : Reals) where
  -- The samples of one quarter hour.
  unfoldable pub collect : List (Sample F) → Acc F → Acc F
  collect [] c = c
  collect (s ∷ ss) c = collect ss (add_sample F s c)

  unfoldable pub samples : List (Sample F) → ℕ
  samples [] = 0
  samples (s ∷ ss) = suc (samples ss)

  add_sample-cur : (s : Sample F) (c : Acc F) → (add_sample F s c).cur ≡ c.cur
  unfolding add_sample
  add_sample-cur s c = refl

  add_sample-ticks : (s : Sample F) (c : Acc F) → (add_sample F s c).ticks ≡ u16 (c.ticks + 1)
  unfolding add_sample
  add_sample-ticks s c = refl

  collect-cur : (ss : List (Sample F)) (c : Acc F) → (collect ss c).cur ≡ c.cur
  unfolding collect
  collect-cur [] c = refl
  collect-cur (s ∷ ss) c = collect-cur ss (add_sample F s c) ∙ add_sample-cur s c

  collect-ticks :
      (ss : List (Sample F)) (c : Acc F)
      → c.ticks + samples ss < 2 ^ 16
      → (collect ss c).ticks ≡ c.ticks + samples ss
  unfolding collect samples
  collect-ticks [] c h = omega arith
  collect-ticks (s ∷ ss) c h =
      let e = add_sample-ticks s c in
      omega (arith, e, collect-ticks ss (add_sample F s c) (omega (arith, e, h)))

  module _ (a : Area Rec) where
    -- A call of `em_hist_tick` with a sample, for each of the pairs.
    unfoldable pub ticks : List (ℤ × Sample F) → Hist F a → Hist F a
    ticks [] h = h
    ticks ((now, s) ∷ xs) h = ticks xs (em_hist_tick_l F a now (some s) h)

    abbrev pub sample_list : List (ℤ × Sample F) → List (Sample F)
    sample_list [] = []
    sample_list ((now, s) ∷ xs) = s ∷ sample_list xs

    -- All the times lie in the quarter hour that begins at `q`.
    abbrev pub AllIn : ℤ → List (ℤ × Sample F) → Type 0
    AllIn q [] = Unit
    AllIn q ((now, s) ∷ xs) = (slot_floor now ≡ q) × AllIn q xs

    tick_inside :
        (now : ℤ) (s : Option (Sample F)) (h : Hist F a)
        → slot_floor now ≡ h.acc.cur
        → em_hist_tick_l F a now s h ≡ record h { acc = add_to F s h.acc }
    unfolding em_hist_tick_l enter_slot
    tick_inside now s h e = rw (ap (λ x. x ==ℤ h.acc.cur) e ∙ ==ℤ_refl h.acc.cur) refl

    ticks_inside :
        (xs : List (ℤ × Sample F)) (h : Hist F a)
        → AllIn h.acc.cur xs
        → ticks xs h ≡ record h { acc = collect (sample_list xs) h.acc }
    unfolding ticks collect
    ticks_inside [] h q = refl
    ticks_inside ((now, s) ∷ xs) h (e, q) =
        let first = tick_inside now (some s) h e in
        let h1 : Hist F a = record h { acc = add_sample F s h.acc } in
        ap (ticks xs) first
        ∙ ticks_inside xs h1 (subst (λ c. AllIn c xs) (sym (add_sample-cur s h.acc)) q)

    close_now :
        (h : Hist F a)
        → h.acc.cur ≢ pos 0
        → h.acc.ticks ≢ 0
        → let (st, ring, flash) = put em_kind a (closing F h.acc) h.ring h.flash in
          eh_close_slot F a h ≡ record { acc = h.acc; ring = ring; flash = flash }
    unfolding eh_close_slot
    close_now h z n = rw (==ℤ_false h.acc.cur (pos 0) z) (ground (arith, n))

    tick_outside :
        (now : ℤ) (s : Option (Sample F)) (h : Hist F a)
        → slot_floor now ≢ h.acc.cur
        → h.acc.cur ≢ pos 0
        → h.acc.ticks ≢ 0
        → let (st, ring, flash) = put em_kind a (closing F h.acc) h.ring h.flash in
          em_hist_tick_l F a now s h ≡ record {
            acc = add_to F s (eh_reset_acc F (slot_floor now));
            ring = ring;
            flash = flash;
          }
    unfolding em_hist_tick_l enter_slot
    tick_outside now s h e z n = rw (==ℤ_false (slot_floor now) h.acc.cur e) (
        ap (λ (x : Hist F a). record x { acc = add_to F s (eh_reset_acc F (slot_floor now)) })
          (close_now h z n))

    -- A quarter hour becomes one record: calls inside it leave ring and flash alone, and the first
    -- call in another quarter hour puts the record of all its samples, whatever that call's sample,
    -- and starts anew. It needs a sample at least, fewer than fit the counters, and a known clock.
    pub quarter_hour :
        (q : ℤ) (xs : List (ℤ × Sample F)) (now : ℤ) (s : Option (Sample F)) (h : Hist F a)
        → h.acc ≡ eh_reset_acc F q
        → AllIn q xs
        → 0 < samples (sample_list xs)
        → samples (sample_list xs) < 2 ^ 16
        → q ≢ pos 0
        → slot_floor now ≢ q
        → let c = collect (sample_list xs) (eh_reset_acc F q) in
          let (st, ring, flash) = put em_kind a (closing F c) h.ring h.flash in
          (ticks xs h ≡ record h { acc = c })
          × (em_hist_tick_l F a now s (ticks xs h) ≡ record {
            acc = add_to F s (eh_reset_acc F (slot_floor now));
            ring = ring;
            flash = flash;
          })
    unfolding eh_reset_acc
    quarter_hour q xs now s h e all some_ones few clock apart =
        let c = collect (sample_list xs) (eh_reset_acc F q) in
        let cur : c.cur ≡ q = collect-cur (sample_list xs) (eh_reset_acc F q) in
        let n : c.ticks ≡ samples (sample_list xs) =
          omega (arith, collect-ticks (sample_list xs) (eh_reset_acc F q) (omega (arith, few))) in
        let inside : ticks xs h ≡ record h { acc = c } =
          ticks_inside xs h (subst (λ (d : Acc F). AllIn d.cur xs) (sym e) all)
          ∙ ap (λ d. record h { acc = collect (sample_list xs) d }) e in
        (
          inside,
          ap (em_hist_tick_l F a now s) inside
              ∙ tick_outside now s (record h { acc = c }) (λ f. apart (f ∙ cur))
                  (λ f. clock (sym cur ∙ f)) (λ f. ground (arith, f, n, some_ones)),
        )

-- ===== src/Meter/Answered.antt =====
-- main/fronius_meter.c: what a request is answered with, and that every request is counted once.
use deye_inverter_display_es.Common.{
  ℕ, zero, suc, ◌+◌, ◌*◌, ◌/◌, ◌%◌, ◌^◌, ◌≡◌, ◌≤◌, ◌<◌, ◌⊎◌, inl, inr, refl, sym, ap, ◌∙◌, subst,
  not, ◌&&◌, ◌||◌, Option, none, some, List, [], ◌∷◌, length, get_or, ltb, ◌==◌, if_lem, arith, u8,
  u16, u32, be16,
}
use deye_inverter_display_es.Meter.{Nums, Live, Meter, Values, snapshot}
use deye_inverter_display_es.Meter.Image.{reg_value}
use deye_inverter_display_es.Meter.Reply.{
  Counts, Answer, max_read_regs, with_value, registers, read_answer, read_request, answer_with,
  fronius_meter_answer,
}

module _ (F : Nums) where
  -- The word `k` of the bytes is the register behind `a` by `k`, high byte first.
  abbrev pub WordAt : ℕ → Values F → List ℕ → ℕ → Type 0
  WordAt a m bs k =
      (v : ℕ) × (reg_value F (u16 (a + k)) m ≡ some v)
      × (get_or bs (2 * k) 0 ≡ v / 2 ^ 8 % 2 ^ 8)
      × (get_or bs (2 * k + 1) 0 ≡ v % 2 ^ 8)

  -- The bytes `bs` are those of `n` registers from `a` on.
  abbrev pub Holds : ℕ → ℕ → Values F → List ℕ → Type 0
  Holds n a m bs = (length bs ≡ 2 * n) × ((k : ℕ) → k < n → WordAt a m bs k)

  -- One of `n` registers from `a` on is unknown.
  abbrev pub Unknown : ℕ → ℕ → Values F → Type 0
  Unknown n a m = (k : ℕ) × (k < n) × (reg_value F (u16 (a + k)) m ≡ none)

  abbrev Found : ℕ → ℕ → Values F → Option (List ℕ) → Type 0
  Found n a m none = Unknown n a m
  Found n a m (some bs) = Holds n a m bs

  at : (k b a : ℕ) (m : Values F) → a + k ≡ b → reg_value F (u16 (a + k)) m ≡ reg_value F (u16 b) m
  at k b a m e = ap (λ x. reg_value F (u16 x) m) e

  words :
      (n a : ℕ) (m : Values F) (v : ℕ) (bs : List ℕ)
      → reg_value F (u16 a) m ≡ some v
      → ((k : ℕ) → k < n → WordAt (a + 1) m bs k)
      → (k : ℕ) → k < suc n
      → WordAt a m (v / 2 ^ 8 % 2 ^ 8 ∷ v % 2 ^ 8 ∷ bs) k
  words n a m v bs e h zero lt = (v, at 0 a a m (omega arith) ∙ e, refl, refl)
  words n a m v bs e h (suc k) lt =
      let (x, is, hi, lo) = h k (omega (arith, lt)) in
      let all : List ℕ = v / 2 ^ 8 % 2 ^ 8 ∷ v % 2 ^ 8 ∷ bs in
      (
        x,
        at (suc k) (a + 1 + k) a m (omega arith) ∙ is,
        ap (λ j. get_or all j 0) {x = 2 * suc k} {y = suc (suc (2 * k))} (omega arith) ∙ hi,
        ap (λ j. get_or all j 0) {x = 2 * suc k + 1} {y = suc (suc (2 * k + 1))} (omega arith) ∙ lo,
      )

  step_found :
      (n a : ℕ) (m : Values F) (o : Option ℕ) (rest : Option (List ℕ))
      → reg_value F (u16 a) m ≡ o
      → Found n (a + 1) m rest
      → Found (suc n) a m (with_value o rest)
  step_found n a m none rest e h = (0, omega arith, at 0 a a m (omega arith) ∙ e)
  step_found n a m (some v) none e (k, lt, q) =
      (suc k, omega (arith, lt), at (suc k) (a + 1 + k) a m (omega arith) ∙ q)
  step_found n a m (some v) (some bs) e (len, h) = (omega (arith, len), words n a m v bs e h)

  registers_found : (n a : ℕ) (m : Values F) → Found n a m (registers F n a m)
  unfolding registers
  registers_found zero a m = (omega arith, λ k lt. absurd (omega (arith, lt)))
  registers_found (suc n) a m =
      step_found n a m (reg_value F (u16 a) m) (registers F n (a + 1) m) refl
        (registers_found n (a + 1) m)

  -- The answer to a read of `cnt` registers from `start` on.
  abbrev pub ReadOf : ℕ → ℕ → ℕ → Values F → Option (List ℕ) → Type 0
  ReadOf start cnt out_max m out =
      ((out ≡ some (131 ∷ 3 ∷ [])) × ((cnt ≡ 0) ⊎ (125 < cnt) ⊎ (out_max < 2 + 2 * cnt)))
      ⊎ (((1 ≤ cnt) × (cnt ≤ 125) × (2 + 2 * cnt ≤ out_max))
          × (((out ≡ some (131 ∷ 2 ∷ [])) × Unknown cnt start m)
              ⊎ ((bs : List ℕ) × (out ≡ some (3 ∷ 2 * cnt ∷ bs)) × Holds cnt start m bs)))

  found_read :
      (start cnt out_max : ℕ) (m : Values F) (o : Option (List ℕ)) (c : Counts)
      → 1 ≤ cnt
      → cnt ≤ 125
      → 2 + 2 * cnt ≤ out_max
      → Found cnt start m o
      → ReadOf start cnt out_max m (read_answer cnt o c).0
  found_read start cnt out_max m none c some_asked few room h =
      inr ((some_asked, few, room), inl (refl, h))
  found_read start cnt out_max m (some bs) c some_asked few room h = inr (
    (some_asked, few, room),
    inr (bs, ap (λ n. some (3 ∷ n ∷ bs)) {x = u8 (2 * cnt)} {y = 2 * cnt} (omega (arith, few)), h),
  )

  request_found :
      (pdu : List ℕ) (out_max : ℕ) (m : Values F) (c : Counts)
      → ReadOf
          (be16 (get_or pdu 1 0) (get_or pdu 2 0))
          (be16 (get_or pdu 3 0) (get_or pdu 4 0))
          out_max
          m
          (read_request F pdu out_max m c).0
  unfolding read_request
  request_found pdu out_max m c =
      let start = be16 (get_or pdu 1 0) (get_or pdu 2 0) in
      let cnt = be16 (get_or pdu 3 0) (get_or pdu 4 0) in
      if_lem (λ (r : Answer). ReadOf start cnt out_max m r.0)
        (ltb cnt 1 || (ltb max_read_regs cnt || ltb out_max (2 + 2 * cnt))) _ _
        (λ q. inl (refl, ground (arith, q)))
        (λ q.
          found_read start cnt out_max m (registers F cnt start m) c (ground (arith, q))
            (ground (arith, q)) (ground (arith, q)) (registers_found cnt start m))

  -- A read of fresh values is answered with exception 3 exactly where the count is 0, over 125, or
  -- the answer would not fit; otherwise with exception 2 exactly where one of the registers asked
  -- for is unknown, and else with those registers, each the one at its address, high byte first.
  pub read-ReadOf :
      (pdu : List ℕ) (out_max : ℕ) (l : Live F) (w : Meter F) (c : Counts) (m : Values F)
      → length pdu ≡ 5
      → get_or pdu 0 0 ≡ 3
      → snapshot F l w ≡ some m
      → ReadOf
          (be16 (get_or pdu 1 0) (get_or pdu 2 0))
          (be16 (get_or pdu 3 0) (get_or pdu 4 0))
          out_max
          m
          (fronius_meter_answer F pdu out_max l w c).0
  unfolding fronius_meter_answer answer_with
  read-ReadOf pdu out_max l w c m five read fresh =
      let start = be16 (get_or pdu 1 0) (get_or pdu 2 0) in
      let cnt = be16 (get_or pdu 3 0) (get_or pdu 4 0) in
      let P = λ (r : Answer). ReadOf start cnt out_max m r.0 in
      let fc = get_or pdu 0 0 in
      let c' : Counts = record c { requests = u32 (c.requests + 1) } in
      if_lem P (length pdu == 0 || (fc == 3 && not (length pdu == 5))) (none, c) _
        (λ q. absurd (ground (arith, q, five)))
        (λ q.
          subst (λ o. P (answer_with F fc pdu out_max o c')) (sym fresh)
            (if_lem P (not (fc == 3)) _ _ (λ r. absurd (ground (arith, r, read)))
              (λ r. request_found pdu out_max m c')))

  -- Every request that is counted is counted as answered, refused or left without an answer, once.
  abbrev pub IsCounted : Counts → Type 0
  IsCounted c = u32 (c.answered + c.exceptions + c.silent) ≡ u32 c.requests

  read_answer-IsCounted :
      (cnt : ℕ) (o : Option (List ℕ)) (c : Counts)
      → u32 (c.answered + c.exceptions + c.silent + 1) ≡ u32 c.requests
      → IsCounted (read_answer cnt o c).1
  read_answer-IsCounted cnt none c h = omega (arith, h)
  read_answer-IsCounted cnt (some bs) c h = omega (arith, h)

  answer_with-IsCounted :
      (fc : ℕ) (pdu : List ℕ) (out_max : ℕ) (o : Option (Values F)) (c : Counts)
      → u32 (c.answered + c.exceptions + c.silent + 1) ≡ u32 c.requests
      → IsCounted (answer_with F fc pdu out_max o c).1
  unfolding answer_with read_request
  answer_with-IsCounted fc pdu out_max none c h = omega (arith, h)
  answer_with-IsCounted fc pdu out_max (some m) c h =
      let start = be16 (get_or pdu 1 0) (get_or pdu 2 0) in
      let cnt = be16 (get_or pdu 3 0) (get_or pdu 4 0) in
      let P = λ (r : Answer). IsCounted r.1 in
      if_lem P (not (fc == 3)) _ _ (λ q. omega (arith, h))
        (λ q.
          if_lem P (ltb cnt 1 || (ltb max_read_regs cnt || ltb out_max (2 + 2 * cnt))) _ _
            (λ r. omega (arith, h)) (λ r. read_answer-IsCounted cnt (registers F cnt start m) c h))

  -- On every request, whatever its bytes and whether the values are fresh, the counters stay true
  -- to one another.
  fronius_meter_answer-IsCounted :
      (pdu : List ℕ) (out_max : ℕ) (l : Live F) (w : Meter F) (c : Counts)
      → IsCounted c
      → IsCounted (fronius_meter_answer F pdu out_max l w c).1
  unfolding fronius_meter_answer
  fronius_meter_answer-IsCounted pdu out_max l w c h =
      if_lem (λ (r : Answer). IsCounted r.1)
        (length pdu == 0 || (get_or pdu 0 0 == 3 && not (length pdu == 5))) (none, c) _ (λ q. h)
        (λ q.
          answer_with-IsCounted (get_or pdu 0 0) pdu out_max (snapshot F l w)
            (record c { requests = u32 (c.requests + 1) }) (omega (arith, h)))

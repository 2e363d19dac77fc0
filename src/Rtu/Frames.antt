-- ===== src/Rtu/Frames.antt =====
-- main/modbus_rtu.c: what a master reads and writes is what the slave answers.
use deye_inverter_display_es.Common.{
  ℕ, zero, suc, ◌+◌, ◌*◌, ◌<◌, ◌≤◌, ◌≡◌, refl, true, false, pos, List, [], ◌∷◌, ◌++◌, u8, u16, be16,
  bit_xor, length, get_or, take, arith, append_assoc, Bool-cases, inl, inr, ◌==◌, ltb, sym, ap, ◌∙◌,
  length-append, ==_iff,
}
use deye_inverter_display_es.Common.Bytes.{get_or-append_add}
use deye_inverter_display_es.Rtu.{
  Bytes, crc_bit, crc_bits, crc_from, crc16, hi, lo, with_crc, Uart, read_request, write_request,
  crc_ok, registers, read_answer, write_answer, rtu_read, rtu_write,
}

crc_bit_bound : (c : ℕ) → crc_bit c < 65536
unfolding crc_bit
crc_bit_bound c = ground arith

crc_bits_bound : (b c : ℕ) → c < 65536 → crc_bits b c < 65536
unfolding crc_bits
crc_bits_bound zero c h = h
crc_bits_bound (suc b) c h = crc_bits_bound b (crc_bit c) (crc_bit_bound c)

crc_from_bound : (c : ℕ) (m : Bytes) → c < 65536 → crc_from c m < 65536
unfolding crc_from
crc_from_bound c [] h = h
crc_from_bound c (p ∷ ps) h =
    crc_from_bound (crc_bits 8 (u16 (bit_xor c p))) ps
      (crc_bits_bound 8 (u16 (bit_xor c p)) (omega arith))

-- The two bytes of each register.
abbrev pub data_bytes : List ℕ → Bytes
data_bytes [] = []
data_bytes (v ∷ vs) = hi v ∷ lo v ∷ data_bytes vs

abbrev pub AreWords : List ℕ → Type 0
AreWords [] = Unit
AreWords (v ∷ vs) = (v < 65536) × AreWords vs

length-data_bytes : (vs : List ℕ) → length (data_bytes vs) ≡ length vs * 2
length-data_bytes [] = refl
length-data_bytes (v ∷ vs) = omega (arith, length-data_bytes vs)

word : (v : ℕ) → v < 65536 → be16 (hi v) (lo v) ≡ v
word v h = omega arith

ltb_260 : (n : ℕ) → n ≤ 260 → ltb 260 n ≡ false
ltb_260 n h = ground arith

-- What a slave answers to a read of its registers.
abbrev pub read_response : ℕ → List ℕ → Bytes
read_response slave vs = with_crc (slave ∷ 0x03 ∷ u8 (length vs * 2) ∷ data_bytes vs)

registers-data_bytes :
    (vs : List ℕ) (before after m : Bytes) (i : ℕ)
    → AreWords vs
    → m ≡ before ++ (data_bytes vs ++ after)
    → i ≡ length before
    → registers (length vs) i m ≡ vs
unfolding registers
registers-data_bytes [] before after m i w e k = refl
registers-data_bytes (v ∷ vs) before after m i w e k =
    let tail = data_bytes vs ++ after in
    let pair = hi v ∷ lo v ∷ [] in
    let high : get_or m i 0 ≡ hi v =
      rw e (get_or-append_add before (hi v ∷ lo v ∷ tail) i 0 (omega arith)) in
    let low : get_or m (i + 1) 0 ≡ lo v =
      rw e (get_or-append_add before (hi v ∷ lo v ∷ tail) (i + 1) 1 (omega arith)) in
    let rest =
      registers-data_bytes vs (before ++ pair) after m (i + 2) w.1
        (e ∙ sym (append_assoc before pair tail)) (omega (arith, length-append before pair)) in
    rw (high, low, rest, word v w.0) refl

take_all : (m r : Bytes) (n : ℕ) → n ≡ length m → take n (m ++ r) ≡ m
take_all [] r zero h = refl
take_all [] r (suc n) h = absurd (omega arith)
take_all (x ∷ m) r zero h = absurd (omega arith)
take_all (x ∷ m) r (suc n) h = ap (λ t. x ∷ t) (take_all m r n (omega arith))

crc_ok-with_crc : (m : Bytes) (n : ℕ) → n ≡ length m → crc_ok n (with_crc m) ≡ true
crc_ok-with_crc m n h =
    let c = crc16 m in
    let sum = lo c ∷ hi c ∷ [] in
    rw
      (
        get_or-append_add m sum (n + 1) 1 (omega arith),
        get_or-append_add m sum n 0 (omega arith),
        take_all m sum n h,
      )
      ((==_iff (be16 (hi c) (lo c)) c).1 (word c (crc_from_bound 0xFFFF m (omega arith))))

-- Reading what a slave answers gives exactly its registers.
read_answer-response :
    (slave : ℕ) (vs : List ℕ)
    → AreWords vs
    → read_answer slave (length vs) (read_response slave vs) ≡ (pos 0, vs)
unfolding read_answer
read_answer-response slave vs w =
    let head = slave ∷ 0x03 ∷ u8 (length vs * 2) ∷ [] in
    let c = crc16 (head ++ data_bytes vs) in
    let sound =
      crc_ok-with_crc (head ++ data_bytes vs) (3 + length vs * 2)
        (omega (arith, length-data_bytes vs)) in
    let values =
      registers-data_bytes vs head (lo c ∷ hi c ∷ []) (read_response slave vs) 3 w refl refl in
    rw ((==_iff slave slave).1 refl, sound, values) refl

length-read_response :
    (slave : ℕ) (vs : List ℕ) → length (read_response slave vs) ≡ 3 + length vs * 2 + 2
length-read_response slave vs =
    let m = slave ∷ 0x03 ∷ u8 (length vs * 2) ∷ data_bytes vs in
    omega (arith, length-append m (lo (crc16 m) ∷ hi (crc16 m) ∷ []), length-data_bytes vs)

-- The first six bytes of the echo of a write.
abbrev pub IsEcho : ℕ → ℕ → Bytes → Type 0
IsEcho slave addr resp =
    (get_or resp 0 0 ≡ slave)
    × (get_or resp 1 0 ≡ 0x10)
    × (get_or resp 2 0 ≡ hi addr)
    × (get_or resp 3 0 ≡ lo addr)
    × (get_or resp 4 0 ≡ 0)
    × (get_or resp 5 0 ≡ 1)

write_answer-IsEcho :
    (slave addr : ℕ) (resp : Bytes)
    → write_answer slave addr resp ≡ pos 0
    → IsEcho slave addr resp × (crc_ok 6 resp ≡ true)
unfolding write_answer
write_answer-IsEcho slave addr resp h = ground (arith, h)

module _ (u : Uart) where
  open u use {State, write_bytes, read_bytes}

  -- A read of up to 127 registers from a slave that answers the request with the frame of the
  -- Modbus protocol for its registers succeeds, and returns exactly those.
  pub rtu_read-response :
      (slave addr : ℕ) (vs : List ℕ) (s s' : State)
      → AreWords vs
      → length vs ≤ 127
      → read_bytes (3 + length vs * 2 + 2) (write_bytes (read_request slave addr (length vs)) s)
        ≡ (read_response slave vs, s')
      → rtu_read u slave addr (length vs) s ≡ ((pos 0, vs), s')
  unfolding rtu_read
  rtu_read-response slave addr vs s s' w few answer =
      let len = length-read_response slave vs in
      rw
        (
          ltb_260 (3 + length vs * 2 + 2) (omega arith),
          answer,
          (==_iff (length (read_response slave vs)) (3 + length vs * 2 + 2)).1 len,
          read_answer-response slave vs w,
        )
        refl

  -- A write reports success only on an echo of eight bytes with the right checksum that names the
  -- slave, the function, the very register and one register written.
  rtu_write-IsEcho :
      (slave addr val : ℕ) (s : State)
      → (rtu_write u slave addr val s).0 ≡ pos 0
      → let (resp, s') = read_bytes 8 (write_bytes (write_request slave addr val) s) in
        (length resp ≡ 8)
        × IsEcho slave addr resp
        × (crc_ok 6 resp ≡ true)
        × ((rtu_write u slave addr val s).1 ≡ s')
  unfolding rtu_write
  rtu_write-IsEcho slave addr val s done =
      let (resp, s') = read_bytes 8 (write_bytes (write_request slave addr val) s) in
      let sound = write_answer-IsEcho slave addr resp in
      elim (Bool-cases (length resp == 8)) [
        | inl k ↦ ground (arith, k, sound, done)
        | inr k ↦ absurd (ground (arith, k, done))
      ]

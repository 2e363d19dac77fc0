-- ===== src/Rtu.antt =====
-- main/modbus_rtu.c: the frames of an RS485 bus on which the device is the master, their checksum,
-- and the backoff of the optional live blocks. The UART is an interface.
pub mod Frames
pub mod Backoff
mod Tests
use deye_inverter_display_es.Common.{
  ℕ, zero, suc, ◌+◌, ◌*◌, ◌/◌, ◌==ℤ◌, Option, none, some, Bool, true, false, ◌&&◌, ◌||◌, not, ℤ,
  pos, negsuc, ltb_ℤ, ◌-ℤ◌, List, [], ◌∷◌, ◌++◌, ltb, leb, ◌==◌, if◌then◌else◌, u8, u16, be16,
  bit_and, bit_xor, length, get_or, take,
}

abbrev pub Bytes : Type 0
Bytes = List ℕ

unfoldable pub crc_bit : ℕ → ℕ
crc_bit c = if bit_and c 1 == 0 then u16 (c / 2) else u16 (bit_xor (c / 2) 0xA001)

unfoldable pub crc_bits : ℕ → ℕ → ℕ
crc_bits zero c = c
crc_bits (suc b) c = crc_bits b (crc_bit c)

unfoldable pub crc_from : ℕ → Bytes → ℕ
crc_from c [] = c
crc_from c (p ∷ ps) = crc_from (crc_bits 8 (u16 (bit_xor c p))) ps

abbrev pub crc16 : Bytes → ℕ
crc16 ps = crc_from 0xFFFF ps

abbrev pub hi : ℕ → ℕ
hi x = u8 (x / 256)

abbrev pub lo : ℕ → ℕ
lo x = u8 x

-- A frame with its checksum, the low byte first.
abbrev pub with_crc : Bytes → Bytes
with_crc m = m ++ (lo (crc16 m) ∷ hi (crc16 m) ∷ [])

-- The UART: `write_bytes` flushes the input and writes, `read_bytes n` waits for up to `n` bytes.
pub record Uart : Type 1 where
  pub State : Type 0
  pub write_bytes : Bytes → State → State
  pub read_bytes : ℕ → State → Bytes × State

abbrev pub read_request : ℕ → ℕ → ℕ → Bytes
read_request slave addr cnt = with_crc (slave ∷ 0x03 ∷ hi addr ∷ lo addr ∷ hi cnt ∷ lo cnt ∷ [])

abbrev pub write_request : ℕ → ℕ → ℕ → Bytes
write_request slave addr val =
    with_crc (slave ∷ 0x10 ∷ hi addr ∷ lo addr ∷ 0 ∷ 1 ∷ 2 ∷ hi val ∷ lo val ∷ [])

-- Whether the two bytes at `n` are the checksum of the `n` bytes before them.
abbrev pub crc_ok : ℕ → Bytes → Bool
crc_ok n resp = be16 (get_or resp (n + 1) 0) (get_or resp n 0) == crc16 (take n resp)

-- The registers of a response from byte `i` on.
unfoldable pub registers : ℕ → ℕ → Bytes → List ℕ
registers zero i resp = []
registers (suc n) i resp = be16 (get_or resp i 0) (get_or resp (i + 1) 0) ∷ registers n (i + 2) resp

-- The checks on a response to a read of `cnt` registers, and its values.
unfoldable pub read_answer : ℕ → ℕ → Bytes → ℤ × List ℕ
read_answer slave cnt resp =
    if not (get_or resp 0 0 == slave) || not (get_or resp 1 0 == 0x03)
    then (negsuc 1, [])
    else if not (crc_ok (3 + cnt * 2) resp)
    then (negsuc 2, [])
    else (pos 0, registers cnt 3 resp)

-- The checks on the echo of a write.
unfoldable pub write_answer : ℕ → ℕ → Bytes → ℤ
write_answer slave addr resp =
    if not (get_or resp 0 0 == slave) || not (get_or resp 1 0 == 0x10)
    then negsuc 1
    else if not (crc_ok 6 resp)
    then negsuc 2
    else if not (get_or resp 2 0 == hi addr)
        || (not (get_or resp 3 0 == lo addr)
            || (not (get_or resp 4 0 == 0) || not (get_or resp 5 0 == 1)))
    then negsuc 3
    else pos 0

module _ (u : Uart) where
  open u use {State, write_bytes, read_bytes}

  -- `rtu_drain`: reads of up to 64 bytes until one brings nothing.
  unfoldable pub drain_from : ℕ → State → State
  drain_from zero s = s
  drain_from (suc k) s =
      let (junk, s') = read_bytes 64 s in
      let rest = drain_from k s' in if length junk == 0 then s' else rest

  abbrev pub rtu_drain : State → State
  rtu_drain s = drain_from 10 s

  -- `rtu_read`; the result -1 is a short answer or one that has no room.
  unfoldable pub rtu_read : ℕ → ℕ → ℕ → State → (ℤ × List ℕ) × State
  rtu_read slave addr cnt s =
      let s1 = write_bytes (read_request slave addr cnt) s in
      let len = 3 + cnt * 2 + 2 in
      if ltb 260 len
      then ((negsuc 0, []), s1)
      else (let (resp, s2) = read_bytes len s1 in
          if not (length resp == len)
          then ((negsuc 0, []), rtu_drain s2)
          else (read_answer slave cnt resp, s2))

  unfoldable pub rtu_write : ℕ → ℕ → ℕ → State → ℤ × State
  rtu_write slave addr val s =
      let (resp, s1) = read_bytes 8 (write_bytes (write_request slave addr val) s) in
      if not (length resp == 8)
      then (negsuc 0, rtu_drain s1)
      else (write_answer slave addr resp, s1)

abbrev pub grid_sp_max_w : ℤ
grid_sp_max_w = pos 30000

-- The clamp of the setpoint that shifts what the inverter is told of the grid.
abbrev pub clamp_grid_sp : ℤ → ℤ
clamp_grid_sp w =
    if ltb_ℤ grid_sp_max_w w
    then grid_sp_max_w
    else if ltb_ℤ w (pos 0 -ℤ grid_sp_max_w)
    then pos 0 -ℤ grid_sp_max_w
    else w

-- `s_blk_fail` and `s_blk_retry_us` of one live block; times in microseconds.
pub record Block : Type 0 where
  pub fails : ℕ
  pub retry_us : ℕ

abbrev pub blk_fails : ℕ
blk_fails = 5

abbrev pub blk_retry_ms : ℕ
blk_retry_ms = 30000

abbrev pub live_blk_due : ℕ → Block → Bool
live_blk_due now b = ltb b.fails blk_fails || leb b.retry_us now

abbrev pub live_blk_done : ℕ → Bool → Block → Block
live_blk_done now ok b = if ok then record b { fails = 0 } else record {
  fails = if ltb b.fails 255 then b.fails + 1 else b.fails;
  retry_us = now + blk_retry_ms * 1000;
}

-- `live_read`, at `now` before and at `later` after the read. The result is `none` where nothing
-- fresh was read; a skip for a waiter is no miss.
unfoldable pub live_read :
    (u : Uart) → Bool → ℕ → ℕ → ℕ → ℕ → ℕ → Block → u.State → Option (List ℕ) × Block × u.State
live_read u waiter now later slave addr cnt b s =
    let ((rc, values), s') = rtu_read u slave addr cnt s in
    if waiter || not (live_blk_due now b)
    then (none, b, s)
    else if rc ==ℤ pos 0
    then (some values, live_blk_done later true b, s')
    else (none, live_blk_done later false b, s')

-- ===== src/Rtu/Backoff.antt =====
-- main/modbus_rtu.c: a live block that the inverter does not have costs little of the bus's time.
use deye_inverter_display_es.Common.{
  ℕ, ◌+◌, ◌*◌, ◌≤◌, ◌<◌, ◌≡◌, false, List, [], ◌∷◌, ◌-◌, ltb, if◌then◌else◌, arith,
}
use deye_inverter_display_es.Rtu.{Block, live_blk_due, live_blk_done}

-- Poll rounds at the given times of a block that never answers: how often it is asked, and the
-- state of its backoff.
unfoldable pub misses : List ℕ → Block → ℕ × Block
misses [] b = (0, b)
misses (now ∷ times) b =
    let asked = misses times (live_blk_done now false b) in
    let passed = misses times b in if live_blk_due now b then (asked.0 + 1, asked.1) else passed

-- Every time lies before an end.
abbrev pub AreBefore : ℕ → List ℕ → Type 0
AreBefore end [] = Unit
AreBefore end (t ∷ ts) = (t < end) × AreBefore end ts

-- After five misses nothing is asked before the retry time.
misses_wait :
    (times : List ℕ) (b : Block)
    → 5 ≤ b.fails
    → AreBefore b.retry_us times
    → misses times b ≡ (0, b)
unfolding misses
misses_wait [] b h k = ground arith
misses_wait (t ∷ ts) b h k = ground (arith, misses_wait ts b)

abbrev pub AreFrom : ℕ → List ℕ → Type 0
AreFrom start [] = Unit
AreFrom start (t ∷ ts) = (start ≤ t) × AreFrom start ts

-- The misses that a block has left before it is left alone.
abbrev pub tries_left : Block → ℕ
tries_left b = if ltb b.fails 5 then 5 - b.fails else 1

AreBefore-weaken : (a c : ℕ) (ts : List ℕ) → a ≤ c → AreBefore a ts → AreBefore c ts
AreBefore-weaken a c [] h k = ground arith
AreBefore-weaken a c (t ∷ ts) h k = ground (arith, AreBefore-weaken a c ts)

-- A block that never answers is asked at most five times within 30 seconds, however often the bus
-- is polled, and at most once if it was left alone before.
misses_bounded :
    (times : List ℕ) (b : Block) (start : ℕ)
    → AreFrom start times
    → AreBefore (start + 30000 * 1000) times
    → (misses times b).0 ≤ tries_left b
unfolding misses
misses_bounded [] b start k h = ground arith
misses_bounded (t ∷ ts) b start k h =
    let b' = live_blk_done t false b in
    ground (
      arith,
      misses_bounded ts b' start k.1 h.1,
      misses_bounded ts b start k.1 h.1,
      misses_wait ts b',
      AreBefore-weaken (start + 30000 * 1000) (t + 30000 * 1000) ts (omega arith) h.1,
    )

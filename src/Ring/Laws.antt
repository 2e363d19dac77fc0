-- ===== src/Ring/Laws.antt =====
-- What the ring of main/em_hist.c and main/load_hist.c relies on: NOR flash, a sealed record and
-- whole sectors.
use deye_inverter_display_es.Common.{ℕ, ◌+◌, ◌*◌, ◌%◌, ◌≤◌, ◌<◌, ◌≡◌, ◌≢◌, ◌⊎◌, true, some}
use deye_inverter_display_es.Ring.{Kind, Area, blank}

-- A sealed record passes its checks and has its number; `memcmp` is equality.
pub record KindLaws (k : Kind) : Type 0 where
  pub seal_ok : (n : ℕ) (r : k.Rec) → k.rec_ok (k.seal n r) ≡ true
  pub seal_seq : (n : ℕ) (r : k.Rec) → k.seq (k.seal n r) ≡ n
  pub same_eq : (a b : k.Rec) → k.same a b ≡ true → a ≡ b

-- A write touches no other slot; an erase touches no slot outside its sector, and one that
-- succeeds leaves nothing in it.
pub record FlashLaws (k : Kind) (a : Area k.Rec) : Type 0 where
  pub write_other :
      (i j : ℕ) (r : k.Rec) (s : a.State) → i ≢ j → a.read j (a.write i r s).1 ≡ a.read j s
  pub erase_other :
      (i j : ℕ) (s : a.State)
      → (j < i) ⊎ (i + k.per_sector ≤ j)
      → a.read j (a.erase i s).1 ≡ a.read j s
  pub erase_inside :
      (i j : ℕ) (s : a.State)
      → i ≤ j
      → j < i + k.per_sector
      → (a.erase i s).0 ≡ true
      → a.read j (a.erase i s).1 ≡ some blank

-- Sectors of `p` slots, and an area of `n` slots that holds whole ones, two at least.
pub record Geometry (p n : ℕ) : Type 0 where
  pub some_slots : 0 < p
  pub two : p * 2 ≤ n
  pub starts : 0 % p ≡ 0
  pub rem_lt : (s : ℕ) → s % p < p
  pub next_rem : (s : ℕ) → s % p ≢ 0 → ((s + 1) % p ≡ 0) ⊎ ((s + 1) % p ≡ s % p + 1)
  pub last_rem : (s : ℕ) → s + 1 ≡ n → s % p + 1 ≡ p
  pub sector_fits : (s : ℕ) → s % p ≡ 0 → s < n → s + p ≤ n
  pub wrap : (s : ℕ) → s < n → ((s + 1) % n ≡ s + 1) ⊎ ((s + 1 ≡ n) × ((s + 1) % n ≡ 0))

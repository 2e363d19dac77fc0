-- ===== src/Ring/Seal.antt =====
-- main/em_hist.c and main/load_hist.c: the bytes of a record in memory and their FNV-1a checksum.
use deye_inverter_display_es.Common.{ℕ, ◌*◌, ◌/◌, ◌%◌, ◌^◌, bit_xor, List, [], ◌∷◌}

-- Little-endian, as the processor keeps a `uint16_t` and a `uint32_t`.
abbrev pub le16 : ℕ → List ℕ → List ℕ
le16 v bs = v % 2 ^ 8 ∷ v / 2 ^ 8 % 2 ^ 8 ∷ bs

abbrev pub le32 : ℕ → List ℕ → List ℕ
le32 v bs = le16 (v % 2 ^ 16) (le16 (v / 2 ^ 16) bs)

unfoldable pub fnv : ℕ → List ℕ → ℕ
fnv h [] = h
fnv h (b ∷ bs) = fnv (bit_xor h b * 16777619 % 2 ^ 32) bs

abbrev pub fnv_start : ℕ
fnv_start = 2166136261

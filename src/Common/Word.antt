-- ===== src/Common/Word.antt =====
-- Arithmetic of `uint8_t`, `uint16_t` and `uint32_t`, and the floats of C behind an interface.
use Prim.Native.Nat.{ℕ, ◌+◌, ◌-◌, ◌*◌, ◌%◌, ◌^◌}
use mathlib.Core.Bool.{Bool}
use deye_inverter_display_es.Common.Int.{ℤ}

abbrev pub u8 : ℕ → ℕ
u8 n = n % 2 ^ 8

abbrev pub u16 : ℕ → ℕ
u16 n = n % 2 ^ 16

abbrev pub u32 : ℕ → ℕ
u32 n = n % 2 ^ 32

-- `(uint32_t)(a - b)`, the age of `b` at `a` on a wrapping millisecond clock.
abbrev pub sub32 : ℕ → ℕ → ℕ
sub32 a b = (a + 2 ^ 32 - b) % 2 ^ 32

-- `(b1 << 8) | b0` of two bytes.
abbrev pub be16 : ℕ → ℕ → ℕ
be16 hi lo = hi * 256 + lo

-- The `float` of C: what the program does with measured values. `lt` is `<`, `le` is `<=`, `add`,
-- `sub` and `neg` are `+` and `-`, `of_int` the conversion of an `int`, `trunc` the cast `(int)x`.
pub record Floats : Type 1 where
  pub Float : Type 0
  pub lt : Float → Float → Bool
  pub le : Float → Float → Bool
  pub is_finite : Float → Bool
  pub add : Float → Float → Float
  pub sub : Float → Float → Float
  pub neg : Float → Float
  pub of_int : ℤ → Float
  pub trunc : Float → ℤ

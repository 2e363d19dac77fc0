-- ===== src/Login/Bits.antt =====
-- The exclusive or and the or of bytes, for main/webauth.c.
use Prim.Native.Nat.{digits, differ, bit_xor, bit_or, bit_xor-bitwise, bit_or-bitwise}
use deye_inverter_display_es.Common.{ℕ, zero, suc, ◌/◌, ◌%◌, max, ◌≤◌, ◌≡◌, refl, sym, ◌∙◌, arith}

differ_zero : (x y : ℕ) → differ x y ≡ 0 → x ≡ y
differ_zero zero y h = sym h
differ_zero (suc x) zero h = absurd (ground (arith, h))
differ_zero (suc x) (suc y) h = omega (arith, differ_zero x y h)

differ_self : (x : ℕ) → differ x x ≡ 0
differ_self zero = refl
differ_self (suc x) = differ_self x

digits_zero : (n a b : ℕ) → a ≤ n → digits (λ b. b) differ n a b ≡ 0 → a ≡ b
digits_zero zero a b h e = omega (arith, h, e)
digits_zero (suc n) zero b h e = sym e
digits_zero (suc n) (suc a) b h e =
    let high = digits_zero n (suc a / 2) (b / 2) (omega (arith, h)) (omega (arith, e)) in
    let low = differ_zero (suc a % 2) (b % 2) (omega (arith, e)) in omega (arith, high, low)

digits_self : (n a : ℕ) → a ≤ n → digits (λ b. b) differ n a a ≡ 0
digits_self zero a h = omega (arith, h)
digits_self (suc n) zero h = refl
digits_self (suc n) (suc a) h =
    omega (arith, digits_self n (suc a / 2) (omega (arith, h)), differ_self (suc a % 2))

digits_or : (n a b : ℕ) → a ≤ n → digits (λ b. b) max n a b ≡ 0 → (a ≡ 0) × (b ≡ 0)
digits_or zero a b h e = (omega (arith, h), e)
digits_or (suc n) zero b h e = (refl, e)
digits_or (suc n) (suc a) b h e =
    let (high, low) = digits_or n (suc a / 2) (b / 2) (omega (arith, h)) (omega (arith, e)) in
    omega (arith, e, high, low)

pub bit_xor-zero : (a b : ℕ) → bit_xor a b ≡ 0 → a ≡ b
bit_xor-zero a b h = digits_zero a a b (omega arith) (sym (bit_xor-bitwise a b) ∙ h)

pub bit_xor_self : (a : ℕ) → bit_xor a a ≡ 0
bit_xor_self a = bit_xor-bitwise a a ∙ digits_self a a (omega arith)

pub bit_or-zero : (a b : ℕ) → bit_or a b ≡ 0 → (a ≡ 0) × (b ≡ 0)
bit_or-zero a b h = digits_or a a b (omega arith) (sym (bit_or-bitwise a b) ∙ h)

-- ===== src/Login/Gate.antt =====
-- main/webauth.c: who passes the gate.
use deye_inverter_display_es.Common.{
  ℕ, ◌≡◌, ◌↔◌, refl, sym, ◌∙◌, ap, subst, Bool, true, Option, none, some, List, [], ◌∷◌, length,
  drop, ◌==◌, ==_iff, arith, bit_xor, bit_or, if◌then◌else◌, none_not_some, some_inj, Bool-cases,
  ◌⊎◌, inl, inr,
}
use deye_inverter_display_es.Login.{
  Nvs, Auth, is_empty, diff_from, pw_equal, has_prefix, basic, skip_spaces, c_string, after_colon,
  is_password, load, in_decoded, in_header, web_auth_ok,
}
use deye_inverter_display_es.Login.Bits.{bit_xor-zero, bit_xor_self, bit_or-zero}

diff_zero :
    (diff : ℕ) (a b : List ℕ) → length a ≡ length b → diff_from diff a b ≡ 0 → (diff ≡ 0) × (a ≡ b)
unfolding diff_from
diff_zero diff [] [] e h = (h, refl)
diff_zero diff [] (y ∷ b) e h = absurd (omega (arith, e))
diff_zero diff (x ∷ a) [] e h = absurd (omega (arith, e))
diff_zero diff (x ∷ a) (y ∷ b) e h =
    let (step, rest) = diff_zero (bit_or diff (bit_xor x y)) a b (omega (arith, e)) h in
    let (before, same) = bit_or-zero diff (bit_xor x y) step in
    (before, ap (λ c. c ∷ a) (bit_xor-zero x y same) ∙ ap (λ c. y ∷ c) rest)

diff_self : (a : List ℕ) → diff_from 0 a a ≡ 0
unfolding diff_from
diff_self [] = refl
diff_self (x ∷ a) = ap (λ d. diff_from d a a) (ap (bit_or 0) (bit_xor_self x)) ∙ diff_self a

equal_diff : (a b : List ℕ) → pw_equal a b ≡ true → diff_from 0 a b ≡ 0
unfolding pw_equal
equal_diff a b h = ground (arith, h)

equal_self : (a : List ℕ) → pw_equal a a ≡ true
unfolding pw_equal
equal_self a = ground (arith, diff_self a)

either_true : (a b : Bool) → b ≡ true → (if a then true else b) ≡ true
either_true a b h = ground (arith, h)

-- The comparison that takes the same time for all strings of one length is equality.
pub pw_equal_lem : (a b : List ℕ) → (pw_equal a b ≡ true) ↔ (a ≡ b)
unfolding pw_equal
pw_equal_lem a b = (
  λ h. elim (Bool-cases (length a == length b)) [
    | inl e ↦
        (let len = (==_iff (length a) (length b)).0 e in (diff_zero 0 a b len (equal_diff a b h)).1)
    | inr e ↦ absurd (ground (arith, h, e))
  ],
  λ h. subst (λ c. pw_equal a c ≡ true) h (equal_self a),
)

-- What lets a request in: a Basic header whose decoded text has the password behind its first
-- colon.
abbrev pub Names : (List ℕ → Option (List ℕ)) → List ℕ → Option (List ℕ) → Type 0
Names decode pw header =
    (hdr : List ℕ) × (dec : List ℕ) × (header ≡ some hdr)
    × (has_prefix basic hdr ≡ true)
    × (decode (skip_spaces (drop 6 hdr)) ≡ some dec)
    × (after_colon (c_string dec) ≡ some pw)

is_password_lem : (pw : List ℕ) (o : Option (List ℕ)) → (is_password pw o ≡ true) ↔ (o ≡ some pw)
is_password_lem pw none = (λ h. absurd (ground (arith, h)), λ h. absurd (none_not_some pw h))
is_password_lem pw (some given) = (
  λ h. ap some ((pw_equal_lem given pw).0 h),
  λ h. (pw_equal_lem given pw).1 (some_inj given pw h),
)

is_empty_lem : (pw : List ℕ) → (is_empty pw ≡ true) ↔ (pw ≡ [])
is_empty_lem [] = (λ h. refl, λ h. refl)
is_empty_lem (c ∷ cs) = (λ h. absurd (ground (arith, h)), λ h. ap is_empty h)

module _ (decode : List ℕ → Option (List ℕ)) where
  decoded_lem :
      (pw : List ℕ) (o : Option (List ℕ))
      → in_decoded decode pw o ≡ true
      → (dec : List ℕ) × (o ≡ some dec) × (after_colon (c_string dec) ≡ some pw)
  decoded_lem pw none h = absurd (ground (arith, h))
  decoded_lem pw (some dec) h = (dec, refl, (is_password_lem pw (after_colon (c_string dec))).0 h)

  named :
      (pw hdr h dec : List ℕ)
      → hdr ≡ h
      → has_prefix basic h ≡ true
      → decode (skip_spaces (drop 6 h)) ≡ some dec
      → after_colon (c_string dec) ≡ some pw
      → in_header decode pw (some hdr) ≡ true
  named pw hdr h dec e basic_is is found =
      let good : in_decoded decode pw (decode (skip_spaces (drop 6 h))) ≡ true =
        ap (in_decoded decode pw) is ∙ (is_password_lem pw (after_colon (c_string dec))).1 found in
      subst (λ x. in_header decode pw (some x) ≡ true) (sym e) (ground (arith, basic_is, good))

  header_lem :
      (pw : List ℕ) (header : Option (List ℕ))
      → (in_header decode pw header ≡ true) ↔ Names decode pw header
  header_lem pw none = (λ h. absurd (ground (arith, h)), λ n. absurd (none_not_some n.0 n.2))
  header_lem pw (some hdr) = (
    λ h.
        (let (dec, is, found) =
            decoded_lem pw (decode (skip_spaces (drop 6 hdr))) (ground (arith, h)) in
          (hdr, dec, refl, ground (arith, h), is, found)),
    λ (h, dec, at, basic_is, is, found). named pw hdr h dec (some_inj hdr h at) basic_is is found,
  )

  -- A request passes exactly where no password is set, or where it names the password: whatever the
  -- header holds and whatever the decoder makes of it.
  pub web_auth_ok_lem :
      {n : Nvs} (header : Option (List ℕ)) (s : Auth n)
      → ((web_auth_ok decode header s).0 ≡ true)
        ↔ (((load s).pw ≡ []) ⊎ Names decode (load s).pw header)
  unfolding web_auth_ok
  web_auth_ok_lem header s =
      let pw = (load s).pw in
      (
        λ h. elim (Bool-cases (is_empty pw)) [
          | inl e ↦ inl ((is_empty_lem pw).0 e)
          | inr e ↦ inr ((header_lem pw header).0 (ground (arith, h, e)))
        ],
        λ h. elim h [
          | inl e ↦ ground (arith, (is_empty_lem pw).1 e)
          | inr names ↦
              either_true (is_empty pw) (in_header decode pw header)
                ((header_lem pw header).1 names)
        ],
      )

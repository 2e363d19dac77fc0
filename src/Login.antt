-- ===== src/Login.antt =====
-- main/webauth.c: the password of the writing web endpoints. Strings are C strings, lists of their
-- bytes in front of the closing 0.
pub mod Bits
pub mod Gate
mod Tests
use deye_inverter_display_es.Common.{
  ℕ, ◌+◌, ◌-◌, Bool, true, false, not, ◌&&◌, ◌||◌, Option, none, some, List, [], ◌∷◌, length, take,
  drop, ltb, leb, ◌==◌, if◌then◌else◌, bit_xor, bit_or,
}

-- `nvs_store_get_web_pw`, with `none` for its failure, and `nvs_store_set_web_pw`, which reports
-- success.
pub record Nvs : Type 1 where
  pub State : Type 0
  pub get : State → Option (List ℕ)
  pub set : List ℕ → State → Bool × State

-- `s_pw`, `s_loaded` and the flash behind them.
pub record Auth (n : Nvs) : Type 0 where
  pub pw : List ℕ
  pub loaded : Bool
  pub flash : n.State

-- `WEB_AUTH_PW_MAX - 1`
abbrev pub pw_room : ℕ
pw_room = 31

abbrev pub is_empty : List ℕ → Bool
is_empty [] = true
is_empty (c ∷ cs) = false

-- What `s_pw` has room for of the stored string; `[]` where there is none.
abbrev pub or_none : Option (List ℕ) → List ℕ
or_none none = []
or_none (some pw) = pw

-- The differences of two strings of one length, as `diff`.
unfoldable pub diff_from : ℕ → List ℕ → List ℕ → ℕ
diff_from diff [] bs = diff
diff_from diff (a ∷ rest) [] = diff
diff_from diff (a ∷ rest) (b ∷ bs) = diff_from (bit_or diff (bit_xor a b)) rest bs

unfoldable pub pw_equal : List ℕ → List ℕ → Bool
pw_equal a b = if not (length a == length b) then false else diff_from 0 a b == 0

abbrev pub lower : ℕ → ℕ
lower c = if leb 65 c && leb c 90 then c + 32 else c

-- `strncasecmp(s, prefix, strlen(prefix)) == 0`
unfoldable pub has_prefix : List ℕ → List ℕ → Bool
has_prefix [] s = true
has_prefix (p ∷ ps) [] = false
has_prefix (p ∷ ps) (c ∷ cs) = lower p == lower c && has_prefix ps cs

-- "Basic "
abbrev pub basic : List ℕ
basic = 66 ∷ 97 ∷ 115 ∷ 105 ∷ 99 ∷ 32 ∷ []

unfoldable pub skip_spaces : List ℕ → List ℕ
skip_spaces [] = []
skip_spaces (c ∷ cs) = if c == 32 then skip_spaces cs else c ∷ cs

-- What follows the first colon of the string that the bytes begin with, up to its closing 0.
unfoldable pub c_string : List ℕ → List ℕ
c_string [] = []
c_string (c ∷ cs) = if c == 0 then [] else c ∷ c_string cs

unfoldable pub after_colon : List ℕ → Option (List ℕ)
after_colon [] = none
after_colon (c ∷ cs) = if c == 58 then some cs else after_colon cs

abbrev pub is_password : List ℕ → Option (List ℕ) → Bool
is_password pw none = false
is_password pw (some given) = pw_equal given pw

module _ {n : Nvs} where
  unfoldable pub load : Auth n → Auth n
  load s = if s.loaded then s else record s { pw = or_none (n.get s.flash); loaded = true }

  abbrev pub web_auth_enabled : Auth n → Bool × Auth n
  web_auth_enabled s = (not (is_empty (load s).pw), load s)

  -- `none` is ESP_ERR_INVALID_ARG; `cap` bytes of room.
  abbrev pub web_auth_get : ℕ → Auth n → Option (List ℕ) × Auth n
  web_auth_get cap s = if cap == 0 then (none, s) else (some (take (cap - 1) (load s).pw), load s)

  unfoldable pub web_auth_set : List ℕ → Auth n → Bool × Auth n
  web_auth_set pw s =
      let (saved, t) = n.set pw s.flash in
      if saved
      then (true, record { pw = take pw_room pw; loaded = true; flash = t })
      else (false, record s { flash = t })

-- `header` is the request's Authorization header, `none` where there is none or it does not fit 127
-- bytes; `decode` is mbedtls_base64_decode into 95 bytes. A denied request gets 401.
module _ (decode : List ℕ → Option (List ℕ)) where
  abbrev pub in_decoded : List ℕ → Option (List ℕ) → Bool
  in_decoded pw none = false
  in_decoded pw (some dec) = is_password pw (after_colon (c_string dec))

  abbrev pub in_header : List ℕ → Option (List ℕ) → Bool
  in_header pw none = false
  in_header pw (some hdr) =
      has_prefix basic hdr && in_decoded pw (decode (skip_spaces (drop 6 hdr)))

  unfoldable pub web_auth_ok : {n : Nvs} → Option (List ℕ) → Auth n → Bool × Auth n
  web_auth_ok header s =
      let s' = load s in (if is_empty s'.pw then true else in_header s'.pw header, s')

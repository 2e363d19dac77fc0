-- ===== src/Login/Tests.antt =====
-- The gate of the web endpoints, with a decoder that takes text as it is.
use deye_inverter_display_es.Common.{
  ℕ, ◌≡◌, ◌↔◌, ◌⊎◌, refl, true, false, Option, some, List, [], ◌∷◌,
}
use deye_inverter_display_es.Login.{
  Nvs, Auth, load, web_auth_ok, has_prefix, after_colon, c_string, skip_spaces, pw_equal, diff_from,
}
use deye_inverter_display_es.Login.Gate.{Names, web_auth_ok_lem}

abbrev nvs : Nvs
nvs = record { State = Option (List ℕ); get = λ s. s; set = λ pw s. (true, some pw) }

-- "pw"
abbrev stored : Auth nvs
stored = record { pw = []; loaded = false; flash = some (112 ∷ 119 ∷ []) }

-- "basic  x:pw"
abbrev header : Option (List ℕ)
header = some (98 ∷ 97 ∷ 115 ∷ 105 ∷ 99 ∷ 32 ∷ 32 ∷ 120 ∷ 58 ∷ 112 ∷ 119 ∷ [])

abbrev as_it_is : List ℕ → Option (List ℕ)
as_it_is text = some text

web_auth_ok_lem_example :
    ((web_auth_ok as_it_is header stored).0 ≡ true)
    ↔ (((load stored).pw ≡ []) ⊎ Names as_it_is (load stored).pw header)
web_auth_ok_lem_example = web_auth_ok_lem as_it_is header stored

named_passes : (web_auth_ok as_it_is header stored).0 ≡ true
unfolding web_auth_ok load has_prefix after_colon c_string skip_spaces pw_equal diff_from
named_passes = refl

-- ===== src/Settings/Store.antt =====
-- main/em_cfg.c: how the settings are loaded, replaced and stored.
use deye_inverter_display_es.Common.{
  Bool, not, ◌≡◌, true, Option, none, some, List, take, if◌then◌else◌, length, ◌==◌, Floats, ℕ,
}
use deye_inverter_display_es.Settings.{
  Config, Refusal, bad_token, not_stored, Checked, bad, good, token_ok, defaults, check,
}

-- `nvs_store_get_em_cfg` and `nvs_store_set_em_cfg`, which reports success.
pub record Nvs (F : Type 0) : Type 1 where
  pub State : Type 0
  pub get : State → Option (Config F)
  pub set : Config F → State → Bool × State

-- What was stored with success is what a later boot reads.
pub record NvsLaws {F : Type 0} (n : Nvs F) : Type 0 where
  pub get_set : (c : Config F) (s : n.State) → (n.set c s).0 ≡ true → n.get (n.set c s).1 ≡ some c

-- `s_cfg` and the flash behind it.
pub record Store {F : Type 0} (n : Nvs F) : Type 0 where
  pub cfg : Config F
  pub flash : n.State

pub data Answer : Type 0 where
  ok : Answer
  refused : Refusal → Answer

abbrev pub has_token : {F : Type 0} {n : Nvs F} → Store n → Bool
has_token s = not (length s.cfg.tibber_token == 0)

module _ {F : Type 0} {n : Nvs F} where
  unfoldable pub store : Config F → Store n → Answer × Store n
  store c s =
      let (saved, t) = n.set c s.flash in
      if not saved
      then (refused not_stored, record s { flash = t })
      else (ok, record { cfg = c; flash = t })

  unfoldable pub set_token : List ℕ → Store n → Answer × Store n
  set_token tok s =
      if not (token_ok tok)
      then (refused bad_token, s)
      else store (record s.cfg { tibber_token = tok }) s

module _ (f : Floats) (tenth quarter : f.Float) {n : Nvs f.Float} where
  open f use {Float}

  -- `em_cfg_set` behind the check: the token keeps its value.
  unfoldable pub take_checked : Checked (Config Float) → Store n → Answer × Store n
  take_checked (bad r) s = (refused r, s)
  take_checked (good c) s = store (record c { tibber_token = s.cfg.tibber_token }) s

  abbrev pub set : Config Float → Store n → Answer × Store n
  set c s = take_checked (check f tenth quarter (defaults f tenth quarter c)) s

  -- `em_cfg_init` behind the check: an invalid record is ignored.
  unfoldable pub load_checked : Checked (Config Float) → Store n → Store n
  load_checked (bad r) s = s
  load_checked (good c) s = if token_ok c.tibber_token then record s { cfg = c } else s

  unfoldable pub load : Option (Config Float) → Store n → Store n
  load none s = s
  load (some c0) s =
      let c = defaults f tenth quarter c0 in
      load_checked (check f tenth quarter (record c { tibber_token = take 95 c.tibber_token })) s

  abbrev pub init : Store n → Store n
  init s = load (n.get s.flash) s

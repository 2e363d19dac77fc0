-- ===== src/Settings.antt =====
-- main/em_cfg.c and main/em_cfg.h: the energy manager's settings, their checks and how they are
-- stored. Strings are the bytes before their terminator; the reserved bytes are left out.
pub mod Store
pub mod Checks
pub mod Taken
pub mod Kept
mod Tests
use deye_inverter_display_es.Common.{
  ℕ, zero, suc, ◌+◌, Bool, true, false, ◌&&◌, ◌||◌, not, ℤ, pos, negsuc, leb_ℤ, ltb_ℤ, ◌==ℤ◌,
  Option, none, some, List, [], ◌∷◌, map, ltb, leb, ◌==◌, if◌then◌else◌, length, take, Floats,
}

-- `em_plane_t`
pub record Plane (F : Type 0) : Type 0 where
  pub name : List ℕ
  pub kwp : F
  pub tilt : ℤ
  pub azimuth : ℤ
  pub meter : ℤ
  pub ac_w : ℕ

-- `em_cfg_t`; `planes` is the whole array of six.
pub record Config (F : Type 0) : Type 0 where
  pub ver : ℕ
  pub nplanes : ℕ
  pub lat : F
  pub lon : F
  pub planes : List (Plane F)
  pub deye_kwh : F
  pub byd_kwh : F
  pub byd_reserve_pct : ℕ
  pub byd_max_soc : ℕ
  pub tibber_token : List ℕ
  pub charge_kw : F
  pub min_spread_ct : F
  pub cycle_cost_ct : F
  pub soc_min_pct : ℕ
  pub soc_max_pct : ℕ
  pub mode : ℕ
  pub byd_ctrl : ℕ

-- The German text of a refusal, by its meaning.
pub data Refusal : Type 0 where
  too_many_planes bad_location bad_kwp bad_tilt bad_azimuth bad_meter bad_ac : Refusal
  bad_storage bad_reserve bad_byd_max bad_charge bad_cost bad_soc bad_mode : Refusal
  bad_token not_stored : Refusal

pub data Checked (A : Type 0) : Type 0 where
  bad : Refusal → Checked A
  good : A → Checked A

abbrev pub max_planes : ℕ
max_planes = 6

abbrev pub cfg_ver : ℕ
cfg_ver = 1

abbrev pub token_max : ℕ
token_max = 96

abbrev pub meter_deye : ℤ
meter_deye = pos 99

abbrev pub meter_none : ℤ
meter_none = negsuc 0

-- A control character, `"` or `\` in a name becomes a blank.
abbrev pub clean_char : ℕ → ℕ
clean_char ch = if ltb ch 0x20 || (ch == 0x22 || ch == 0x5C) then 0x20 else ch

abbrev pub clean_name : List ℕ → List ℕ
clean_name s = map clean_char (take 15 s)

abbrev pub is_meter : ℤ → Bool
is_meter m = m ==ℤ meter_none || (m ==ℤ meter_deye || leb_ℤ (pos 0) m && ltb_ℤ m (pos 8))

abbrev pub token_char : ℕ → Bool
token_char ch =
    leb 65 ch && leb ch 90
    || (leb 97 ch && leb ch 122 || (leb 48 ch && leb ch 57 || (ch == 45 || (ch == 95 || ch == 46))))

unfoldable pub token_chars : List ℕ → Bool
token_chars [] = true
token_chars (ch ∷ t) = token_char ch && token_chars t

unfoldable pub token_ok : List ℕ → Bool
token_ok t = not (leb token_max (length t)) && token_chars t

module _ {A : Type 0} where
  abbrev pub on_fault : Option Refusal → A → Checked A
  on_fault none a = good a
  on_fault (some r) a = bad r

  abbrev pub and_rest : A → Checked (List A) → Checked (List A)
  and_rest p (bad r) = bad r
  and_rest p (good ps) = good (p ∷ ps)

  abbrev pub then_rest : Checked A → Checked (List A) → Checked (List A)
  then_rest (bad r) rest = bad r
  then_rest (good p) rest = and_rest p rest

abbrev pub to_flag : ℕ → ℕ
to_flag x = if x == 0 then 0 else 1

abbrev pub tidy_max_soc : ℕ → ℕ
tidy_max_soc soc = if leb 100 soc then 0 else soc

abbrev pub or_95 : ℕ → ℕ
or_95 x = if x == 0 then 95 else x

-- `tenth` and `quarter` are the constants 0.1f and 0.25f.
module _ (f : Floats) (tenth quarter : f.Float) where
  open f use {Float, le, is_finite, of_int}

  abbrev pub num : ℕ → Float
  num n = of_int (pos n)

  abbrev pub minus : ℕ → Float
  minus n = of_int (negsuc n)

  -- `x == y` of C; `minus n` is -(n + 1).
  abbrev pub equals : Float → Float → Bool
  equals x y = le x y && le y x

  abbrev pub in_range : Float → Float → Float → Bool
  in_range v lo hi = is_finite v && (le lo v && le v hi)

  abbrev pub or_three : Float → Float
  or_three x = if equals x (num 0) then num 3 else x

  unfoldable pub defaults : Config Float → Config Float
  defaults c = record c {
    charge_kw = or_three c.charge_kw;
    min_spread_ct = or_three c.min_spread_ct;
    soc_max_pct = or_95 c.soc_max_pct;
  }

  abbrev pub blank : Plane Float
  blank = record { name = []; kwp = num 0; tilt = pos 0; azimuth = pos 0; meter = pos 0; ac_w = 0 }

  -- The checks of one plane; its name cannot be wrong.
  unfoldable pub plane_fault : Float → ℤ → ℤ → ℤ → ℕ → Option Refusal
  plane_fault kwp tilt azimuth meter ac_w =
      if not (in_range kwp tenth (num 100))
      then some bad_kwp
      else if ltb_ℤ tilt (pos 0) || ltb_ℤ (pos 90) tilt
      then some bad_tilt
      else if ltb_ℤ azimuth (pos 0) || ltb_ℤ (pos 359) azimuth
      then some bad_azimuth
      else if not (is_meter meter)
      then some bad_meter
      else if ltb 60000 ac_w
      then some bad_ac
      else none

  abbrev pub check_plane : Plane Float → Checked (Plane Float)
  check_plane p =
      on_fault (plane_fault p.kwp p.tilt p.azimuth p.meter p.ac_w)
        (record p { name = clean_name p.name })

  -- The two loops over the planes: the first `n` are checked, the others cleared.
  unfoldable pub check_planes : ℕ → List (Plane Float) → Checked (List (Plane Float))
  check_planes n [] = good []
  check_planes zero (p ∷ ps) = and_rest blank (check_planes zero ps)
  check_planes (suc n) (p ∷ ps) = then_rest (check_plane p) (check_planes n ps)

  -- The checks of the storage, the planner's numbers and the mode.
  unfoldable pub rest_fault :
      Float → Float → ℕ → ℕ → Float → Float → Float → ℕ → ℕ → ℕ → Option Refusal
  rest_fault deye_kwh byd_kwh reserve max_soc charge_kw min_spread cycle_cost soc_max soc_min mode =
      if not (in_range deye_kwh (num 0) (num 500)) || not (in_range byd_kwh (num 0) (num 500))
      then some bad_storage
      else if ltb 100 reserve
      then some bad_reserve
      else if not (max_soc == 0) && ltb max_soc 50
      then some bad_byd_max
      else if not (in_range charge_kw quarter (num 20))
      then some bad_charge
      else if not (in_range min_spread (num 0) (num 100))
          || not (in_range cycle_cost (num 0) (num 100))
      then some bad_cost
      else if ltb 100 soc_max || ltb soc_max (soc_min + 10)
      then some bad_soc
      else if ltb 2 mode
      then some bad_mode
      else none

  abbrev pub rest_fault_of : Config Float → Option Refusal
  rest_fault_of c =
      rest_fault c.deye_kwh c.byd_kwh c.byd_reserve_pct (tidy_max_soc c.byd_max_soc) c.charge_kw
        c.min_spread_ct c.cycle_cost_ct c.soc_max_pct c.soc_min_pct c.mode

  -- `check` from the storage on.
  abbrev pub check_rest : Config Float → Checked (Config Float)
  check_rest c = on_fault (rest_fault_of c) (record c {
    byd_max_soc = tidy_max_soc c.byd_max_soc;
    byd_ctrl = to_flag c.byd_ctrl;
    ver = cfg_ver;
  })

  unfoldable pub bad_place : Float → Float → Bool
  bad_place lat lon =
      not (equals lat (num 0) && equals lon (num 0))
      && (not (in_range lat (minus 89) (num 90)) || not (in_range lon (minus 179) (num 180)))

  abbrev pub with_planes : Config Float → Checked (List (Plane Float)) → Checked (Config Float)
  with_planes c (bad r) = bad r
  with_planes c (good ps) = check_rest (record c { planes = ps })

  abbrev pub check : Config Float → Checked (Config Float)
  check c =
      if ltb max_planes c.nplanes
      then bad too_many_planes
      else if bad_place c.lat c.lon
      then bad bad_location
      else with_planes c (check_planes c.nplanes c.planes)

-- ===== src/Settings/Tests.antt =====
-- Settings with one plane, at concrete inputs, and a flash that always stores.
use deye_inverter_display_es.Common.{◌≡◌, refl, true, ℤ, pos, [], ◌∷◌, Option, none, some}
use deye_inverter_display_es.Whole.{watts}
use deye_inverter_display_es.Settings.{
  Plane, Config, defaults, check_planes, plane_fault, rest_fault, bad_place, token_ok, token_chars,
}
use deye_inverter_display_es.Settings.Store.{
  Nvs, NvsLaws, Store, ok, store, take_checked, set, init,
}
use deye_inverter_display_es.Settings.Kept.{load-set}

abbrev chip : Nvs ℤ
chip = record { State = Option (Config ℤ); get = λ s. s; set = λ c s. (true, some c) }

abbrev chip_laws : NvsLaws chip
chip_laws = record { get_set = λ c s h. refl }

abbrev empty_plane : Plane ℤ
empty_plane = record {
  name = [];
  kwp = pos 0;
  tilt = pos 0;
  azimuth = pos 0;
  meter = pos 0;
  ac_w = 0;
}

abbrev south : Plane ℤ
south = record empty_plane { name = 83 ∷ 7 ∷ []; kwp = pos 9; tilt = pos 30; azimuth = pos 180 }

abbrev wanted : Config ℤ
wanted = record {
  ver = 1;
  nplanes = 1;
  lat = pos 48;
  lon = pos 11;
  planes = south ∷ empty_plane ∷ empty_plane ∷ empty_plane ∷ empty_plane ∷ empty_plane ∷ [];
  deye_kwh = pos 30;
  byd_kwh = pos 11;
  byd_reserve_pct = 20;
  byd_max_soc = 100;
  tibber_token = [];
  charge_kw = pos 0;
  min_spread_ct = pos 0;
  cycle_cost_ct = pos 2;
  soc_min_pct = 15;
  soc_max_pct = 0;
  mode = 2;
  byd_ctrl = 5;
}

-- The settings in force before, with a token.
abbrev before : Store chip
before = record { cfg = record wanted { tibber_token = 65 ∷ 45 ∷ [] }; flash = none }

abbrev after : Store chip
after = (set watts (pos 0) (pos 0) wanted before).1

accepted : (set watts (pos 0) (pos 0) wanted before).0 ≡ ok
unfolding defaults check_planes plane_fault rest_fault bad_place take_checked store
accepted = refl

load-set_example :
    (init watts (pos 0) (pos 0) (record before { flash = after.flash })).cfg ≡ after.cfg
unfolding token_ok token_chars
load-set_example =
    load-set watts (pos 0) (pos 0) wanted before (record before { flash = after.flash }) chip_laws
      refl refl accepted refl

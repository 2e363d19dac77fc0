-- ===== src/Settings/Taken.antt =====
-- main/em_cfg.c: what settings that were accepted look like beside the ones asked for.
use deye_inverter_display_es.Common.{
  ℕ, zero, suc, ◌+◌, ◌≤◌, ◌<◌, ◌≡◌, ◌≢◌, ◌⊎◌, inl, inr, refl, subst, sym, true, false, ℤ, pos,
  negsuc, leb_ℤ, ltb_ℤ, ◌==ℤ◌, ==ℤ_sound, List, [], ◌∷◌, none, arith, Bool-cases, Floats,
}
use deye_inverter_display_es.Settings.{
  Plane, Config, good, check_planes, check_plane, plane_fault, blank, clean_name, is_meter,
  in_range, bad_place, rest_fault, or_three,
}
use deye_inverter_display_es.Settings.Checks.{on_fault_good, and_rest_good, then_rest_good}

-- No meter, the Deye's, or one of the eight of the Modbus-TCP list.
abbrev pub IsMeter : ℤ → Type 0
IsMeter m = (m ≡ negsuc 0) ⊎ ((m ≡ pos 99) ⊎ ((leb_ℤ (pos 0) m ≡ true) × (ltb_ℤ m (pos 8) ≡ true)))

is_meter-IsMeter : (m : ℤ) → is_meter m ≡ true → IsMeter m
is_meter-IsMeter m h = elim (Bool-cases (m ==ℤ negsuc 0)) [
  | inl absent ↦ inl (==ℤ_sound m (negsuc 0) absent)
  | inr present ↦ elim (Bool-cases (m ==ℤ pos 99)) [
    | inl deye ↦ inr (inl (==ℤ_sound m (pos 99) deye))
    | inr listed ↦ inr (inr (ground (arith, h, present, listed)))
  ]
]

-- A field that stands for a default where it is 0.
abbrev pub OrDefault : ℕ → ℕ → ℕ → Type 0
OrDefault standard x y = ((x ≡ 0) × (y ≡ standard)) ⊎ ((x ≢ 0) × (y ≡ x))

module _ (f : Floats) (tenth quarter : f.Float) where
  open f use {Float, le, is_finite, of_int}

  abbrev pub InRange : Float → Float → Float → Type 0
  InRange v lo hi = (is_finite v ≡ true) × (le lo v ≡ true) × (le v hi ≡ true)

  abbrev pub IsZero : Float → Type 0
  IsZero x = (le x (of_int (pos 0)) ≡ true) × (le (of_int (pos 0)) x ≡ true)

  in_range-InRange : (v lo hi : Float) → in_range f tenth quarter v lo hi ≡ true → InRange v lo hi
  in_range-InRange v lo hi h = ground (arith, h)

  -- The plane `q` is `p` with its name cleaned, in range.
  pub record TakenPlane (p q : Plane Float) : Type 0 where
    pub same : q ≡ record p { name = clean_name p.name }
    pub kwp_range : InRange q.kwp tenth (of_int (pos 100))
    pub tilt_range : (ltb_ℤ q.tilt (pos 0) ≡ false) × (ltb_ℤ (pos 90) q.tilt ≡ false)
    pub azimuth_range : (ltb_ℤ q.azimuth (pos 0) ≡ false) × (ltb_ℤ (pos 359) q.azimuth ≡ false)
    pub meter_known : IsMeter q.meter
    pub ac_range : q.ac_w ≤ 60000

  -- The planes in use are taken, those behind them cleared.
  pub data TakenPlanes : ℕ → List (Plane Float) → List (Plane Float) → Type 0 where
    no_planes : {n : ℕ} → TakenPlanes n [] []
    cleared :
        {p : Plane Float} {ps qs : List (Plane Float)}
        → TakenPlanes zero ps qs
        → TakenPlanes zero (p ∷ ps) (blank f tenth quarter ∷ qs)
    taken :
        {n : ℕ} {p q : Plane Float} {ps qs : List (Plane Float)}
        → TakenPlane p q
        → TakenPlanes n ps qs
        → TakenPlanes (suc n) (p ∷ ps) (q ∷ qs)

  plane_fault_range :
      (kwp : Float) (tilt azimuth meter : ℤ) (ac_w : ℕ)
      → plane_fault f tenth quarter kwp tilt azimuth meter ac_w ≡ none
      → (in_range f tenth quarter kwp tenth (of_int (pos 100)) ≡ true)
        × ((ltb_ℤ tilt (pos 0) ≡ false) × (ltb_ℤ (pos 90) tilt ≡ false))
        × ((ltb_ℤ azimuth (pos 0) ≡ false) × (ltb_ℤ (pos 359) azimuth ≡ false))
        × (is_meter meter ≡ true)
        × (ac_w ≤ 60000)
  unfolding plane_fault
  plane_fault_range kwp tilt azimuth meter ac_w h = ground (arith, h)

  check_plane-TakenPlane :
      (p q : Plane Float) → check_plane f tenth quarter p ≡ good q → TakenPlane p q
  check_plane-TakenPlane p q h =
      let fault = plane_fault f tenth quarter p.kwp p.tilt p.azimuth p.meter p.ac_w in
      let (sound, is) = on_fault_good fault (record p { name = clean_name p.name }) q h in
      let (kwp, tilt, azimuth, meter, ac) =
        plane_fault_range p.kwp p.tilt p.azimuth p.meter p.ac_w sound in
      subst (TakenPlane p) (sym is) (record {
        same = refl;
        kwp_range = in_range-InRange p.kwp tenth (of_int (pos 100)) kwp;
        tilt_range = tilt;
        azimuth_range = azimuth;
        meter_known = is_meter-IsMeter p.meter meter;
        ac_range = ac;
      })

  pub check_planes-TakenPlanes :
      (n : ℕ) (ps qs : List (Plane Float))
      → check_planes f tenth quarter n ps ≡ good qs
      → TakenPlanes n ps qs
  unfolding check_planes
  check_planes-TakenPlanes n [] qs h =
      subst (TakenPlanes n []) (sym (on_fault_good none [] qs h).1) no_planes
  check_planes-TakenPlanes zero (p ∷ ps) qs h =
      let (rest, e, k) =
        and_rest_good (blank f tenth quarter) (check_planes f tenth quarter zero ps) qs h in
      subst (TakenPlanes zero (p ∷ ps)) (sym k) (cleared (check_planes-TakenPlanes zero ps rest e))
  check_planes-TakenPlanes (suc n) (p ∷ ps) qs h =
      let (q, rest, c, e, k) =
        then_rest_good (check_plane f tenth quarter p) (check_planes f tenth quarter n ps) qs h in
      subst (TakenPlanes (suc n) (p ∷ ps)) (sym k)
        (taken (check_plane-TakenPlane p q c) (check_planes-TakenPlanes n ps rest e))

  -- Latitude and longitude are both 0, for not set, or on the globe.
  abbrev pub InPlace : Float → Float → Type 0
  InPlace lat lon =
      (IsZero lat × IsZero lon)
      ⊎ (InRange lat (of_int (negsuc 89)) (of_int (pos 90))
          × InRange lon (of_int (negsuc 179)) (of_int (pos 180)))

  pub bad_place-InPlace :
      (lat lon : Float) → bad_place f tenth quarter lat lon ≡ false → InPlace lat lon
  unfolding bad_place
  bad_place-InPlace lat lon h = ground (arith, h)

  -- A field that is 3 where it was 0.
  abbrev pub OrThree : Float → Float → Type 0
  OrThree x y = (IsZero x × (y ≡ of_int (pos 3))) ⊎ (y ≡ x)

  pub or_three-OrThree : (x : Float) → OrThree x (or_three f tenth quarter x)
  or_three-OrThree x = ground arith

  pub rest_fault_range :
      (d b : Float) (r m : ℕ) (ch sp cy : Float) (hi lo mode : ℕ)
      → rest_fault f tenth quarter d b r m ch sp cy hi lo mode ≡ none
      → InRange d (of_int (pos 0)) (of_int (pos 500))
        × InRange b (of_int (pos 0)) (of_int (pos 500))
        × (r ≤ 100)
        × ((m ≡ 0) ⊎ (50 ≤ m))
        × InRange ch quarter (of_int (pos 20))
        × InRange sp (of_int (pos 0)) (of_int (pos 100))
        × InRange cy (of_int (pos 0)) (of_int (pos 100))
        × (hi ≤ 100)
        × (lo + 10 ≤ hi)
        × (mode ≤ 2)
  unfolding rest_fault
  rest_fault_range d b r m ch sp cy hi lo mode h = ground (arith, h)

  -- The settings `d` are the ones asked for, `c`, but for the token, the defaults and what is
  -- tidied, and in range.
  pub record IsTaken (c : Config Float) (token : List ℕ) (d : Config Float) : Type 0 where
    pub same : d ≡ record c {
      ver = 1;
      planes = d.planes;
      byd_max_soc = d.byd_max_soc;
      tibber_token = token;
      charge_kw = d.charge_kw;
      min_spread_ct = d.min_spread_ct;
      soc_max_pct = d.soc_max_pct;
      byd_ctrl = d.byd_ctrl;
    }
    pub few_planes : d.nplanes ≤ 6
    pub planes_taken : TakenPlanes c.nplanes c.planes d.planes
    pub in_place : InPlace d.lat d.lon
    pub deye_range : InRange d.deye_kwh (of_int (pos 0)) (of_int (pos 500))
    pub byd_range : InRange d.byd_kwh (of_int (pos 0)) (of_int (pos 500))
    pub reserve_range : d.byd_reserve_pct ≤ 100
    pub max_soc_tidy :
        ((100 ≤ c.byd_max_soc) × (d.byd_max_soc ≡ 0))
        ⊎ ((c.byd_max_soc < 100) × (d.byd_max_soc ≡ c.byd_max_soc))
    pub max_soc_range : (d.byd_max_soc ≡ 0) ⊎ (50 ≤ d.byd_max_soc)
    pub charge_default : OrThree c.charge_kw d.charge_kw
    pub charge_range : InRange d.charge_kw quarter (of_int (pos 20))
    pub spread_default : OrThree c.min_spread_ct d.min_spread_ct
    pub spread_range : InRange d.min_spread_ct (of_int (pos 0)) (of_int (pos 100))
    pub cost_range : InRange d.cycle_cost_ct (of_int (pos 0)) (of_int (pos 100))
    pub soc_default : OrDefault 95 c.soc_max_pct d.soc_max_pct
    pub soc_range : (d.soc_max_pct ≤ 100) × (d.soc_min_pct + 10 ≤ d.soc_max_pct)
    pub mode_range : d.mode ≤ 2
    pub flag_tidy : ((c.byd_ctrl ≡ 0) × (d.byd_ctrl ≡ 0)) ⊎ ((c.byd_ctrl ≢ 0) × (d.byd_ctrl ≡ 1))

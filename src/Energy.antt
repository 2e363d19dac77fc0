-- ===== src/Energy.antt =====
-- main/energy_ctr.h and main/byd_energy.c: the counters of energy, with the plausibility check of a
-- meter's readings, and the sums for the BYD battery that are integrated and stored.
pub mod Counter
pub mod Sums
mod Tests
use deye_inverter_display_es.Common.{
  ℕ, ◌+◌, ◌-◌, ◌*◌, Bool, true, false, not, ◌&&◌, ◌||◌, ℤ, pos, ltb_ℤ, leb_ℤ, ◌==ℤ◌, ltb, leb, ◌==◌,
  u8, sub32, if◌then◌else◌, Option, none, some,
}

-- The `double` arithmetic of the counters; `widen` is the conversion of a `float`, `tenth` is 0.1,
-- and `same` the comparison of the bytes by `memcmp`.
pub record Doubles : Type 1 where
  pub Float : Type 0
  pub Double : Type 0
  pub widen : Float → Double
  pub of_nat : ℕ → Double
  pub tenth : Double
  pub add : Double → Double → Double
  pub sub : Double → Double → Double
  pub mul : Double → Double → Double
  pub div : Double → Double → Double
  pub lt : Double → Double → Bool
  pub le : Double → Double → Bool
  pub same : Double → Double → Bool

abbrev pub max_w : ℕ
max_w = 100000

abbrev pub max_rejects : ℕ
max_rejects = 3

-- `energy_ctr_t`
pub record Ctr : Type 0 where
  pub valid : Bool
  pub val : ℕ
  pub ms : ℕ
  pub rejects : ℕ

module _ (d : Doubles) where
  open d use {Float, Double, widen, of_nat, tenth, add, sub, mul, div, lt, le, same}

  abbrev pub max_step : ℕ → Double → Double
  max_step dt_ms units_per_kwh =
      mul (add (div (mul (div (of_nat max_w) (of_nat 1000)) (of_nat dt_ms)) (of_nat 3600000)) tenth)
        units_per_kwh

  unfoldable pub energy_ctr_step_ok : ℕ → ℕ → ℕ → Double → Bool
  energy_ctr_step_ok prev now dt_ms units_per_kwh =
      leb prev now && le (of_nat (now - prev)) (max_step dt_ms units_per_kwh)

  unfoldable pub energy_ctr_feed : ℕ → ℕ → Double → Ctr → Bool × Ctr
  energy_ctr_feed raw now_ms units_per_kwh c =
      if not c.valid
        || (energy_ctr_step_ok c.val raw (sub32 now_ms c.ms) units_per_kwh
            || leb max_rejects (c.rejects + 1))
      then (true, record { valid = true; val = raw; ms = now_ms; rejects = 0 })
      else (false, record c { rejects = u8 (c.rejects + 1) })

  -- `byd_e_rec_t`
  pub record Sum : Type 0 where
    pub chg_wh : Double
    pub dis_wh : Double

  abbrev zero_wh : Double
  zero_wh = of_nat 0

  unfoldable pub energy_integrate : Float → ℕ → Sum → Sum
  energy_integrate w dt_ms s =
      let wh = div (mul (widen w) (of_nat dt_ms)) (of_nat 3600000) in
      if lt zero_wh wh
      then record s { dis_wh = add s.dis_wh wh }
      else record s { chg_wh = sub s.chg_wh wh }

  -- `nvs_store_get_byd_energy` and `nvs_store_set_byd_energy`, which reports success.
  pub record Nvs : Type 1 where
    pub State : Type 0
    pub get : State → Option Sum
    pub set : Sum → State → Bool × State

  -- `BYD_ENERGY_SAVE_MS`
  abbrev save_ms : ℕ
  save_ms = 900000

  module _ (n : Nvs) where
    -- The static variables and the flash behind them.
    pub record Byd : Type 0 where
      pub sum : Sum
      pub saved : Sum
      pub have : Bool
      pub slot : ℤ
      pub last_ms : ℕ
      pub saved_ms : ℕ
      pub flash : n.State

    abbrev pub same_sum : Sum → Sum → Bool
    same_sum a b = same a.chg_wh b.chg_wh && same a.dis_wh b.dis_wh

    unfoldable pub save : Bool → ℕ → Byd → Byd
    save force now_ms b =
        let (done, s) = n.set b.sum b.flash in
        if same_sum b.sum b.saved
        then b
        else if not force && ltb (sub32 now_ms b.saved_ms) save_ms
        then b
        else if done
        then record b { saved = b.sum; saved_ms = now_ms; flash = s }
        else record b { flash = s }

    abbrev pub take_stored : Option Sum → Byd → Byd
    take_stored none b = b
    take_stored (some r) b =
        if le zero_wh r.chg_wh && le zero_wh r.dis_wh
        then record b { sum = r; saved = r; have = true }
        else b

    unfoldable pub byd_energy_init : Byd → Byd
    byd_energy_init b = take_stored (n.get b.flash) b

    -- Another slot is being counted and has not gone quiet.
    abbrev pub is_other : ℤ → ℕ → ℕ → Byd → Bool
    is_other slot now_ms max_gap_ms b =
        not (b.slot ==ℤ slot)
        && (leb_ℤ (pos 0) b.slot
            && (not (b.last_ms == 0) && leb (sub32 now_ms b.last_ms) max_gap_ms))

    abbrev pub turn_to : ℤ → Byd → Byd
    turn_to slot b = if b.slot ==ℤ slot then b else record b { slot = slot; last_ms = 0 }

    abbrev pub count : Float → ℕ → ℕ → Byd → Byd
    count w now_ms max_gap_ms b =
        let dt = sub32 now_ms b.last_ms in
        record b {
          sum =
              if not (b.last_ms == 0) && leb dt max_gap_ms
              then energy_integrate w dt b.sum
              else b.sum;
          last_ms = if now_ms == 0 then 1 else now_ms;
          have = true;
        }

    unfoldable pub byd_energy_sample : ℤ → Float → ℕ → ℕ → Byd → Byd
    byd_energy_sample slot w now_ms max_gap_ms b =
        if is_other slot now_ms max_gap_ms b
        then b
        else save false now_ms (count w now_ms max_gap_ms (turn_to slot b))

    abbrev pub byd_energy_get : Byd → Bool × Double × Double
    byd_energy_get b = (b.have, div b.sum.chg_wh (of_nat 1000), div b.sum.dis_wh (of_nat 1000))

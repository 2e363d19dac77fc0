-- ===== src/EmHist/Window.antt =====
-- main/em_hist.c: the read of a range of quarter hours, `em_hist_range_l`, and `em_hist_count`.
use deye_inverter_display_es.Common.{
  ℕ, zero, suc, ◌+◌, ◌*◌, ◌/◌, min, Bool, true, false, ℤ, pos, ◌-ℤ◌, ◌==ℤ◌, pos_part, ltb_ℤ, Option,
  none, some, List, [], ◌∷◌, ◌==◌, if◌then◌else◌, get_elem?, set,
}
use deye_inverter_display_es.Ring.{Area, Ring, read_slot, slot_back}
use deye_inverter_display_es.EmHist.{Rec, em_kind, eh_per_sector}
use deye_inverter_display_es.EmHist.Acc.{eh_slot_s, slot_floor, eh_u16_none, eh_i16_none}
use deye_inverter_display_es.EmHist.Reals.{Reals}

module _ (F : Reals) where
  open F use {Float, nan, of_int, div}

  -- `eh_slot_t`
  pub record Slot : Type 0 where
    pub valid : Bool
    pub act : ℕ
    pub mode : ℕ
    pub flags : ℕ
    pub deye_soc : Float
    pub byd_soc : Float
    pub deye_bat_w : Float
    pub grid_w : Float
    pub pv_w : Float
    pub house_w : Float
    pub price_ct : Float

  abbrev pub dec_soc : ℕ → Float
  dec_soc v = if v == eh_u16_none then nan else div (of_int (pos v)) (of_int (pos 10))

  abbrev pub dec_i16 : ℤ → ℕ → Float
  dec_i16 v scale = if v ==ℤ eh_i16_none then nan else div (of_int v) (of_int (pos scale))

  -- A quarter hour with nothing recorded.
  abbrev pub unknown : Slot
  unknown = record {
    valid = false;
    act = 255;
    mode = 0;
    flags = 0;
    deye_soc = nan;
    byd_soc = nan;
    deye_bat_w = nan;
    grid_w = nan;
    pv_w = nan;
    house_w = nan;
    price_ct = nan;
  }

  abbrev pub decode : Rec → Slot
  decode r = record {
    valid = true;
    act = r.act;
    mode = r.mode;
    flags = r.flags;
    deye_soc = dec_soc r.deye_soc;
    byd_soc = dec_soc r.byd_soc;
    deye_bat_w = dec_i16 r.deye_bat_w 1;
    grid_w = dec_i16 r.grid_w 1;
    pv_w = dec_i16 r.pv_w 1;
    house_w = dec_i16 r.house_w 1;
    price_ct = dec_i16 r.price 100;
  }

  pub record Out : Type 0 where
    pub slots : List Slot
    pub found : ℕ

  -- `k >= n || out[k].valid`
  abbrev pub is_taken : Option Slot → Bool
  is_taken none = true
  is_taken (some x) = x.valid

  -- The body of the loop at one record: `none` is `break`.
  unfoldable pub visit : ℤ → Option Rec → Out → Option Out
  visit t0 none o = some o
  visit t0 (some r) o =
      let k = pos_part (pos r.t -ℤ t0) / eh_slot_s in
      if ltb_ℤ (pos r.t) (t0 -ℤ pos 86400)
      then none
      else if ltb_ℤ (pos r.t) t0
      then some o
      else if is_taken (get_elem? o.slots k)
      then some o
      else some (record { slots = set o.slots k (decode r); found = o.found + 1 })

  abbrev pub all_unknown : ℕ → List Slot
  all_unknown zero = []
  all_unknown (suc n) = unknown ∷ all_unknown n

  module _ (a : Area Rec) where
    open a use {State, slots}

    unfoldable pub walk : ℕ → ℤ → ℕ → ℕ → State → Out → Out
    walk zero t0 newest back s o = o
    walk (suc left) t0 newest back s o =
        elim (visit t0 (read_slot em_kind a (slot_back em_kind a newest back) s) o) [
          | none ↦ o
          | some o' ↦ walk left t0 newest (back + 1) s o'
        ]

    abbrev pub walk_from : ℤ → ℕ → Option ℕ → State → Out → Out
    walk_from t0 n none s o = o
    walk_from t0 n (some newest) s o = walk (min slots (2 * n + eh_per_sector)) t0 newest 0 s o

    -- `out` has `n` places; `s_eh_io` is there.
    unfoldable pub em_hist_range_l : ℤ → ℕ → Ring → State → Out
    em_hist_range_l t0 n g s =
        walk_from (slot_floor t0) n g.newest s (record { slots = all_unknown n; found = 0 })

-- `em_hist_count`, under its lock
abbrev pub em_hist_count : Ring → ℤ × ℤ
em_hist_count g = (g.count, if g.count ==ℤ pos 0 then pos 0 else g.oldest)

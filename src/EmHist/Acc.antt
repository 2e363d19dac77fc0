-- ===== src/EmHist/Acc.antt =====
-- main/em_hist.c: the quarter hour that is being collected, `em_hist_tick_l` and what it calls.
use deye_inverter_display_es.Common.{
  ℕ, ◌+◌, ◌*◌, Bool, not, ◌||◌, ℤ, pos, negsuc, ◌+ℤ◌, ◌-ℤ◌, tmod_ℤ, ◌==ℤ◌, Option, none, some, List,
  [], ◌∷◌, u8, u16, to_u16, to_u32, ltb, leb, ◌==◌, if◌then◌else◌, get_or, set,
}
use deye_inverter_display_es.Ring.{Area, Ring, put}
use deye_inverter_display_es.EmHist.{Rec, em_kind}
use deye_inverter_display_es.EmHist.Reals.{Reals}

abbrev pub eh_slot_s : ℕ
eh_slot_s = 900

-- `t - (((t % EH_SLOT_S) + EH_SLOT_S) % EH_SLOT_S)`
unfoldable pub slot_floor : ℤ → ℤ
slot_floor t = t -ℤ tmod_ℤ (tmod_ℤ t eh_slot_s +ℤ pos eh_slot_s) eh_slot_s

abbrev pub eh_u16_none : ℕ
eh_u16_none = 65535

abbrev pub eh_i16_none : ℤ
eh_i16_none = negsuc 32767

-- The conversion of a whole number to `int16_t`.
unfoldable pub to_i16 : ℤ → ℤ
to_i16 z = if ltb (to_u16 z) 32768 then pos (to_u16 z) else pos (to_u16 z) -ℤ pos 65536

-- EM_ACT_NORMAL, EM_ACT_HOLD, EM_ACT_CHARGE and any other value, an index of `s_act_n`.
abbrev pub act_index : ℕ → ℕ
act_index act = if leb act 2 then act else 3

abbrev pub better : List ℕ → ℕ → ℕ → ℕ
better n best a = if ltb (get_or n best 0) (get_or n a 0) then a else best

-- The action that was planned for most of the slot, 3 for none.
unfoldable pub best_act : List ℕ → ℕ
best_act n = better n (better n (better n 3 0) 1) 2

module _ (F : Reals) where
  open F use {
    Float, Double, nan, is_finite, lt, of_int, mul, lrintf, widen, d_is_finite, d_lt, d_of_int,
    d_add, d_mul, d_div, lrint,
  }

  -- `eh_sample_t`
  pub record Sample : Type 0 where
    pub deye_soc : Float
    pub byd_soc : Float
    pub deye_bat_w : Float
    pub grid_w : Float
    pub pv_w : Float
    pub house_w : Float
    pub price_ct : Float
    pub act : ℕ
    pub mode : ℕ
    pub acting : Bool
    pub paused : Bool

  -- One entry of `s_sum` with that of `s_cnt`.
  pub record Mean : Type 0 where
    pub sum : Double
    pub cnt : ℕ

  -- The static variables of the running quarter hour.
  pub record Acc : Type 0 where
    pub cur : ℤ
    pub deye_bat : Mean
    pub grid : Mean
    pub pv : Mean
    pub house : Mean
    pub soc_deye : Float
    pub soc_byd : Float
    pub price : Float
    pub act_n : List ℕ
    pub ticks : ℕ
    pub acting_n : ℕ
    pub paused_n : ℕ
    pub mode : ℕ

  unfoldable pub enc_soc : Float → ℕ
  enc_soc v =
      if not (is_finite v) || lt v (of_int (pos 0)) || lt (of_int (pos 100)) v
      then eh_u16_none
      else to_u16 (lrintf (mul v (of_int (pos 10))))

  abbrev pub at_most : ℤ → Double → Double
  at_most b v = if d_lt (d_of_int b) v then d_of_int b else v

  abbrev pub at_least : ℤ → Double → Double
  at_least b v = if d_lt v (d_of_int b) then d_of_int b else v

  unfoldable pub enc_i16 : Double → ℤ
  enc_i16 v =
      if not (d_is_finite v)
      then eh_i16_none
      else to_i16 (lrint (at_least (negsuc 31999) (at_most (pos 32000) v)))

  abbrev pub no_mean : Mean
  no_mean = record { sum = d_of_int (pos 0); cnt = 0 }

  unfoldable pub eh_reset_acc : ℤ → Acc
  eh_reset_acc slot = record {
    cur = slot;
    deye_bat = no_mean;
    grid = no_mean;
    pv = no_mean;
    house = no_mean;
    soc_deye = nan;
    soc_byd = nan;
    price = nan;
    act_n = 0 ∷ 0 ∷ 0 ∷ 0 ∷ [];
    ticks = 0;
    acting_n = 0;
    paused_n = 0;
    mode = 0;
  }

  abbrev pub mean_w : Mean → ℤ
  mean_w m = if m.cnt == 0 then eh_i16_none else enc_i16 (d_div m.sum (d_of_int (pos m.cnt)))

  abbrev pub stored_act : ℕ → ℕ
  stored_act best = if best == 3 then 255 else u8 best

  abbrev pub majority : ℕ → ℕ → ℕ → ℕ
  majority n of flag = if ltb of (n * 2) then flag else 0

  -- The record of the quarter hour, with its header still empty.
  unfoldable pub closing : Acc → Rec
  closing c = record {
    magic = 0;
    ver = 0;
    flags = majority c.acting_n c.ticks 1 + majority c.paused_n c.ticks 2;
    seq = 0;
    t = to_u32 c.cur;
    deye_soc = enc_soc c.soc_deye;
    byd_soc = enc_soc c.soc_byd;
    deye_bat_w = mean_w c.deye_bat;
    grid_w = mean_w c.grid;
    pv_w = mean_w c.pv;
    house_w = mean_w c.house;
    price =
        enc_i16
          (if is_finite c.price then d_mul (widen c.price) (d_of_int (pos 100)) else widen nan);
    act = stored_act (best_act c.act_n);
    mode = c.mode;
    sum = 0;
  }

  unfoldable pub add_power : Float → Mean → Mean
  add_power p m =
      if is_finite p then record { sum = d_add m.sum (widen p); cnt = u16 (m.cnt + 1) } else m

  abbrev pub keep_last : Float → Float → Float
  keep_last v old = if is_finite v then v else old

  abbrev pub plus_if : Bool → ℕ → ℕ
  plus_if b n = if b then u16 (n + 1) else n

  unfoldable pub add_sample : Sample → Acc → Acc
  add_sample s c = record {
    cur = c.cur;
    deye_bat = add_power s.deye_bat_w c.deye_bat;
    grid = add_power s.grid_w c.grid;
    pv = add_power s.pv_w c.pv;
    house = add_power s.house_w c.house;
    soc_deye = keep_last s.deye_soc c.soc_deye;
    soc_byd = keep_last s.byd_soc c.soc_byd;
    price = keep_last s.price_ct c.price;
    act_n = set c.act_n (act_index s.act) (u16 (get_or c.act_n (act_index s.act) 0 + 1));
    ticks = u16 (c.ticks + 1);
    acting_n = plus_if s.acting c.acting_n;
    paused_n = plus_if s.paused c.paused_n;
    mode = s.mode;
  }

  abbrev pub add_to : Option Sample → Acc → Acc
  add_to none c = c
  add_to (some s) c = add_sample s c

  module _ (a : Area Rec) where
    open a use {State}

    pub record Hist : Type 0 where
      pub acc : Acc
      pub ring : Ring
      pub flash : State

    -- A record that could not be stored is lost: the status of the put is only logged.
    unfoldable pub eh_close_slot : Hist → Hist
    eh_close_slot h =
        let (st, ring, flash) = put em_kind a (closing h.acc) h.ring h.flash in
        if (h.acc.cur ==ℤ pos 0) || (h.acc.ticks == 0)
        then h
        else record { acc = h.acc; ring = ring; flash = flash }

    unfoldable pub enter_slot : ℤ → Hist → Hist
    enter_slot slot h =
        if slot ==ℤ h.acc.cur then h else record (eh_close_slot h) { acc = eh_reset_acc slot }

    unfoldable pub em_hist_tick_l : ℤ → Option Sample → Hist → Hist
    em_hist_tick_l now s h =
        let h' = enter_slot (slot_floor now) h in record h' { acc = add_to s h'.acc }

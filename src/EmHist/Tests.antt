-- ===== src/EmHist/Tests.antt =====
-- The history of quarter hours, at a flash in RAM.
use deye_inverter_display_es.Common.{
  ℕ, ◌≡◌, ◌<◌, refl, arith, true, false, ℤ, pos, negsuc, ◌+ℤ◌, ◌-ℤ◌, ◌≤ℤ◌, ◌/◌, pos_part, tmod_ℤ,
  ltb_ℤ, none, some, List, [], ◌∷◌, get_elem?, to_u16,
}
use deye_inverter_display_es.Ring.{
  Ring, Area, Cell, blank, empty, put, put_at, find_slot, settle, init, Status, ok,
}
use deye_inverter_display_es.Ring.Laws.{FlashLaws}
use deye_inverter_display_es.Ring.Seal.{fnv}
use deye_inverter_display_es.Ring.Fresh.{ram, ram_laws, fresh-IsRing}
use deye_inverter_display_es.Ring.Slots.{IsRing, init_recovers}
use deye_inverter_display_es.Ring.Step.{IsPut, put-IsPut}
use deye_inverter_display_es.EmHist.{Rec, em_kind, seal, eh_rec_sum, bytes}
use deye_inverter_display_es.EmHist.Sealed.{em_laws, em_geometry}
use deye_inverter_display_es.EmHist.Reals.{Reals}
use deye_inverter_display_es.EmHist.Acc.{
  slot_floor, Sample, Hist, eh_reset_acc, closing, em_hist_tick_l,
}
use deye_inverter_display_es.EmHist.Course.{collect, ticks, samples, quarter_hour}
use deye_inverter_display_es.EmHist.Window.{decode, em_hist_range_l}
use deye_inverter_display_es.EmHist.ReadBack.{put-range}

-- Whole numbers in the place of `float` and `double`.
abbrev whole : Reals
whole = record {
  Float = ℤ;
  Double = ℤ;
  nan = negsuc 99999;
  is_finite = λ a. true;
  lt = ltb_ℤ;
  of_int = λ a. a;
  mul = λ a b. a;
  div = λ a b. a;
  lrintf = λ a. a;
  widen = λ a. a;
  d_is_finite = λ a. true;
  d_lt = ltb_ℤ;
  d_of_int = λ a. a;
  d_add = λ a b. a +ℤ b;
  d_mul = λ a b. a;
  d_div = λ a b. a;
  lrint = λ a. a;
}

abbrev flash : Area Rec
flash = ram em_kind 32768

abbrev laws : FlashLaws em_kind flash
laws = ram_laws em_kind 32768

abbrev wiped : ℕ → Cell Rec
wiped j = blank

abbrev noon : Rec
noon = record {
  magic = 0;
  ver = 0;
  flags = 1;
  seq = 0;
  t = 1700049600;
  deye_soc = 505;
  byd_soc = 800;
  deye_bat_w = pos 1200;
  grid_w = negsuc 99;
  pv_w = pos 4000;
  house_w = pos 700;
  price = pos 1420;
  act = 1;
  mode = 2;
  sum = 0;
}

abbrev after_noon : Status × Ring × (ℕ → Cell Rec)
after_noon = put em_kind flash noon (empty em_kind) wiped

wiped-IsRing : IsRing em_kind flash (empty em_kind) wiped
wiped-IsRing = fresh-IsRing em_kind flash wiped (λ j. refl)

noon_ok : after_noon.0 ≡ ok
unfolding put put_at find_slot settle eh_rec_sum fnv bytes to_u16
noon_ok = refl

noon-IsPut :
    IsPut em_kind flash em_laws laws em_geometry noon
      (empty em_kind)
      after_noon.1
      wiped
      after_noon.2
noon-IsPut =
    put-IsPut em_kind flash em_laws laws em_geometry noon (empty em_kind) wiped wiped-IsRing
      (omega arith) noon_ok

put-IsPut_example :
    IsPut em_kind flash em_laws laws em_geometry noon
      (empty em_kind)
      after_noon.1
      wiped
      after_noon.2
put-IsPut_example =
    put-IsPut em_kind flash em_laws laws em_geometry noon (empty em_kind) wiped wiped-IsRing
      (omega arith) noon_ok

init_recovers_example :
    let b = init em_kind flash after_noon.2 in
    (b.newest ≡ after_noon.1.newest) × (b.seq ≡ after_noon.1.seq) × (b.count ≡ after_noon.1.count)
init_recovers_example = init_recovers em_kind flash after_noon.1 after_noon.2 noon-IsPut.ring

in_first :
    (slot_floor (pos 1700049700) ≤ℤ pos 1700049600)
    × (pos_part (pos 1700049600 -ℤ slot_floor (pos 1700049700)) / 900 < 4)
unfolding slot_floor tmod_ℤ ◌+ℤ◌ ◌-ℤ◌
in_first = omega arith

put-range_example :
    get_elem?
      (em_hist_range_l whole flash (pos 1700049700) 4 after_noon.1 after_noon.2).slots
      (pos_part (pos 1700049600 -ℤ slot_floor (pos 1700049700)) / 900)
    ≡ some (decode whole (seal 1 noon))
put-range_example =
    put-range whole flash laws em_geometry noon (empty em_kind) wiped (pos 1700049700) 4
      wiped-IsRing (omega arith) in_first noon_ok

abbrev calm : Sample whole
calm = record {
  deye_soc = pos 50;
  byd_soc = pos 80;
  deye_bat_w = pos 300;
  grid_w = negsuc 49;
  pv_w = pos 900;
  house_w = pos 550;
  price_ct = pos 31;
  act = 0;
  mode = 2;
  acting = true;
  paused = false;
}

abbrev started : Hist whole flash
started = record { acc = eh_reset_acc whole (pos 1700049600); ring = empty em_kind; flash = wiped }

abbrev three : List (ℤ × Sample whole)
three = (pos 1700049600, calm) ∷ (pos 1700049610, calm) ∷ (pos 1700050499, calm) ∷ []

quarter_hour_example :
    let c = collect whole (calm ∷ calm ∷ calm ∷ []) (eh_reset_acc whole (pos 1700049600)) in
    let (st, ring, flash') = put em_kind flash (closing whole c) (empty em_kind) wiped in
    (ticks whole flash three started ≡ record started { acc = c })
    × (em_hist_tick_l whole flash (pos 1700050500) none (ticks whole flash three started) ≡ record {
      acc = eh_reset_acc whole (slot_floor (pos 1700050500));
      ring = ring;
      flash = flash';
    })
unfolding slot_floor tmod_ℤ ◌+ℤ◌ ◌-ℤ◌ samples
quarter_hour_example =
    quarter_hour whole flash (pos 1700049600) three (pos 1700050500) none started refl
      (refl, (refl, (refl, tt))) (omega arith) (omega arith) (λ e. ground (arith, e))
      (λ e. ground (arith, e))

-- ===== src/Meter/Tests.antt =====
-- The meter at a read of two registers, with whole numbers in the place of floats.
use deye_inverter_display_es.Common.{
  ℕ, ◌≡◌, refl, true, ℤ, pos, ◌+ℤ◌, ◌-ℤ◌, ltb_ℤ, some, List, [], ◌∷◌, if◌then◌else◌,
}
use deye_inverter_display_es.Meter.{Nums, Measured, Live, Meter, values_of, snapshot}
use deye_inverter_display_es.Meter.Reply.{Counts, fronius_meter_answer}
use deye_inverter_display_es.Meter.Answered.{ReadOf, read-ReadOf}

abbrev larger : ℤ → ℤ → ℤ
larger a b = if ltb_ℤ a b then b else a

abbrev smaller : ℤ → ℤ → ℤ
smaller a b = if ltb_ℤ a b then a else b

abbrev whole : Nums
whole = record {
  Float = ℤ;
  Double = ℤ;
  of_int = λ a. a;
  add = λ a b. a +ℤ b;
  sub = λ a b. a -ℤ b;
  mul = λ a b. a;
  div = λ a b. a;
  abs = λ a. a;
  fmax = larger;
  sqrt = λ a. a;
  hypot = larger;
  lt = ltb_ℤ;
  widen = λ a. a;
  d_of_int = λ a. a;
  d_sub = λ a b. a -ℤ b;
  d_mul = λ a b. a;
  d_div = λ a b. a;
  floor = λ a. a;
  d_fmin = smaller;
  d_fmax = larger;
  d_is_finite = λ a. true;
  llround = λ a. a;
}

abbrev line : Measured whole
line = record { inv_v = pos 231; grid_v = pos 230; inv_p = pos 500; inv_i = pos 2 }

abbrev now : Live whole
now = record {
  valid = true;
  online = true;
  has_out = true;
  age_ms = 400;
  phases = record { l1 = line; l2 = line; l3 = line };
  inv_freq = pos 50;
  grid_freq = pos 50;
}

abbrev stored : Meter whole
stored = record {
  imp_wh = pos 12345;
  exp_wh = pos 0;
  serial = 829686239;
  serial_txt = 49 ∷ 53 ∷ 56 ∷ 48 ∷ 50 ∷ 55 ∷ 85 ∷ [];
}

abbrev none_yet : Counts
none_yet = record { requests = 0; answered = 0; exceptions = 0; silent = 0 }

-- Registers 770 and 771.
abbrev request : List ℕ
request = 3 ∷ 3 ∷ 2 ∷ 0 ∷ 2 ∷ []

fresh : snapshot whole now stored ≡ some (values_of whole now stored)
unfolding snapshot
fresh = refl

read-ReadOf_example :
    ReadOf whole 770 2 260
      (values_of whole now stored)
      (fronius_meter_answer whole request 260 now stored none_yet).0
read-ReadOf_example =
    read-ReadOf whole request 260 now stored none_yet (values_of whole now stored) refl refl fresh

-- ===== src/Whole.antt =====
-- Whole numbers in the place of C's floats, for runs at concrete measurements.
use deye_inverter_display_es.Common.{true, ℤ, ltb_ℤ, leb_ℤ, pos, ◌+ℤ◌, ◌-ℤ◌, Floats}

abbrev pub watts : Floats
watts = record {
  Float = ℤ;
  lt = ltb_ℤ;
  le = leb_ℤ;
  is_finite = λ a. true;
  add = λ a b. a +ℤ b;
  sub = λ a b. a -ℤ b;
  neg = λ a. pos 0 -ℤ a;
  of_int = λ a. a;
  trunc = λ a. a;
}

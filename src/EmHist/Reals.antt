-- ===== src/EmHist/Reals.antt =====
-- The `float` and `double` arithmetic of main/em_hist.c, as an interface.
use deye_inverter_display_es.Common.{ℤ, Bool}

-- `widen` is the conversion of a `float` to `double`, with `lrintf` and `lrint` for the nearest
-- whole numbers.
pub record Reals : Type 1 where
  pub Float : Type 0
  pub Double : Type 0
  pub nan : Float
  pub is_finite : Float → Bool
  pub lt : Float → Float → Bool
  pub of_int : ℤ → Float
  pub mul : Float → Float → Float
  pub div : Float → Float → Float
  pub lrintf : Float → ℤ
  pub widen : Float → Double
  pub d_is_finite : Double → Bool
  pub d_lt : Double → Double → Bool
  pub d_of_int : ℤ → Double
  pub d_add : Double → Double → Double
  pub d_mul : Double → Double → Double
  pub d_div : Double → Double → Double
  pub lrint : Double → ℤ

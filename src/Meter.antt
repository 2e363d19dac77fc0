-- ===== src/Meter.antt =====
-- main/fronius_meter.c: the meter that is shown to the Fronius inverter: its values from the Deye's
-- own measurement, and its registers.
pub mod Image
pub mod Reply
pub mod Answered
mod Tests
use deye_inverter_display_es.Common.{
  ℕ, ◌+◌, ◌*◌, ◌/◌, ◌%◌, ◌^◌, Bool, true, false, not, ◌&&◌, ◌||◌, ℤ, pos, negsuc, List, leb, ltb,
  ◌==◌, if◌then◌else◌, Option, none, some,
}

-- C's `float` and `double`: `lt` is `<`, `widen` the conversion to `double`, `llround` the nearest
-- whole number.
pub record Nums : Type 1 where
  pub Float : Type 0
  pub Double : Type 0
  pub of_int : ℤ → Float
  pub add : Float → Float → Float
  pub sub : Float → Float → Float
  pub mul : Float → Float → Float
  pub div : Float → Float → Float
  pub abs : Float → Float
  pub fmax : Float → Float → Float
  pub sqrt : Float → Float
  pub hypot : Float → Float → Float
  pub lt : Float → Float → Bool
  pub widen : Float → Double
  pub d_of_int : ℤ → Double
  pub d_sub : Double → Double → Double
  pub d_mul : Double → Double → Double
  pub d_div : Double → Double → Double
  pub floor : Double → Double
  pub d_fmin : Double → Double → Double
  pub d_fmax : Double → Double → Double
  pub d_is_finite : Double → Bool
  pub llround : Double → ℤ

-- `quantity_t`
pub data Quantity : Type 0 where
  q_u_avg q_u_ll_avg q_p_tot q_s_tot q_q_tot q_pf_tot q_zero q_freq : Quantity
  q_u_ll q_u q_i q_p q_s q_q q_pf : Quantity
  q_imp_kwh q_imp_wh q_exp_kwh q_exp_wh : Quantity

-- A value for each of the three phases.
pub record Three (A : Type 0) : Type 0 where
  pub l1 : A
  pub l2 : A
  pub l3 : A

abbrev pub phase : {A : Type 0} → ℕ → Three A → A
phase k t = if k == 0 then t.l1 else if k == 1 then t.l2 else t.l3

abbrev pub each : {A B : Type 0} → (A → B) → Three A → Three B
each f t = record { l1 = f t.l1; l2 = f t.l2; l3 = f t.l3 }

-- `FRM_STALE_MS`
abbrev stale_ms : ℕ
stale_ms = 10000

module _ (F : Nums) where
  open F use {
    Float, Double, of_int, add, sub, mul, div, abs, fmax, sqrt, hypot, lt, widen, d_of_int, d_sub,
    d_mul, d_div, floor, d_fmin,
  }

  -- One phase of the Deye's measurement, of its inverter side and its grid side.
  pub record Measured : Type 0 where
    pub inv_v : Float
    pub grid_v : Float
    pub inv_p : Float
    pub inv_i : Float

  -- What `modbus_rtu_get_deye_live` reports; `has_out` is the bit MB_DEYE_BLK_OUT of `blocks`.
  pub record Live : Type 0 where
    pub valid : Bool
    pub online : Bool
    pub has_out : Bool
    pub age_ms : ℕ
    pub phases : Three Measured
    pub inv_freq : Float
    pub grid_freq : Float

  pub record Phase : Type 0 where
    pub u : Float
    pub i : Float
    pub p : Float
    pub s : Float
    pub q : Float
    pub pf : Float

  -- `frm_values_t`
  pub record Values : Type 0 where
    pub phases : Three Phase
    pub u_ll : Three Float
    pub p_tot : Float
    pub s_tot : Float
    pub q_tot : Float
    pub pf_tot : Float
    pub freq : Float
    pub imp_kwh : Double
    pub exp_kwh : Double
    pub serial : ℕ
    pub serial_txt : List ℕ

  -- `s_e`, with the serial number and its text of the configuration.
  pub record Meter : Type 0 where
    pub imp_wh : Double
    pub exp_wh : Double
    pub serial : ℕ
    pub serial_txt : List ℕ

  abbrev one : Float
  one = of_int (pos 1)

  abbrev less_one : Float
  less_one = of_int (negsuc 0)

  unfoldable pub pf_of : Float → Float → Float
  pf_of p s =
      let pf = div p s in
      if lt s one then one else if lt one pf then one else if lt pf less_one then less_one else pf

  abbrev pub ll_of : Float → Float → Float
  ll_of ua ub = sqrt (add (add (mul ua ua) (mul ub ub)) (mul ua ub))

  unfoldable pub phase_of : Measured → Phase
  phase_of l =
      let u = if lt (of_int (pos 50)) l.inv_v then l.inv_v else l.grid_v in
      let p = l.inv_p in
      let i = abs l.inv_i in
      let s = fmax (mul u i) (abs p) in
      record {
        u = u;
        i = if lt p (of_int (pos 0)) then sub (of_int (pos 0)) i else i;
        p = p;
        s = s;
        q = sqrt (fmax (of_int (pos 0)) (sub (mul s s) (mul p p)));
        pf = pf_of p s;
      }

  abbrev pub sum_of : Three Float → Float
  sum_of t = add (add (add (of_int (pos 0)) t.l1) t.l2) t.l3

  abbrev pub is_fresh : Live → Bool
  is_fresh l = l.valid && (l.online && (l.has_out && leb l.age_ms stale_ms))

  unfoldable pub values_of : Live → Meter → Values
  values_of l m =
      let t = each phase_of l.phases in
      let p = sum_of (each (λ (x : Phase). x.p) t) in
      let q = sum_of (each (λ (x : Phase). x.q) t) in
      record {
        phases = t;
        u_ll = record {
          l1 = ll_of t.l1.u t.l2.u;
          l2 = ll_of t.l2.u t.l3.u;
          l3 = ll_of t.l3.u t.l1.u;
        };
        p_tot = p;
        s_tot = sum_of (each (λ (x : Phase). x.s) t);
        q_tot = q;
        pf_tot = pf_of p (hypot p q);
        freq = if lt (of_int (pos 40)) l.inv_freq then l.inv_freq else l.grid_freq;
        imp_kwh = d_div m.imp_wh (d_of_int (pos 1000));
        exp_kwh = d_div m.exp_wh (d_of_int (pos 1000));
        serial = m.serial;
        serial_txt = m.serial_txt;
      }

  unfoldable pub snapshot : Live → Meter → Option Values
  snapshot l m = if is_fresh l then some (values_of l m) else none

  -- `(a + b + c) / 3.0`, with the sum as a `float`.
  abbrev pub mean3 : Three Float → Double
  mean3 t = d_div (widen (add (add t.l1 t.l2) t.l3)) (d_of_int (pos 3))

  -- The whole watt-hours behind the kilowatt-hours.
  abbrev pub rest_wh : Double → Double
  rest_wh kwh =
      d_fmin (d_of_int (pos 999)) (floor (d_mul (d_sub kwh (floor kwh)) (d_of_int (pos 1000))))

  unfoldable pub qty : Quantity → ℕ → Values → Double
  qty q_u_avg k m = mean3 (each (λ (x : Phase). x.u) m.phases)
  qty q_u_ll_avg k m = mean3 m.u_ll
  qty q_p_tot k m = widen m.p_tot
  qty q_s_tot k m = widen m.s_tot
  qty q_q_tot k m = widen m.q_tot
  qty q_pf_tot k m = widen m.pf_tot
  qty q_zero k m = d_of_int (pos 0)
  qty q_freq k m = widen m.freq
  qty q_u_ll k m = widen (phase k m.u_ll)
  qty q_u k m = widen (phase k m.phases).u
  qty q_i k m = widen (phase k m.phases).i
  qty q_p k m = widen (phase k m.phases).p
  qty q_s k m = widen (phase k m.phases).s
  qty q_q k m = widen (phase k m.phases).q
  qty q_pf k m = widen (phase k m.phases).pf
  qty q_imp_kwh k m = floor m.imp_kwh
  qty q_imp_wh k m = rest_wh m.imp_kwh
  qty q_exp_kwh k m = floor m.exp_kwh
  qty q_exp_wh k m = rest_wh m.exp_kwh

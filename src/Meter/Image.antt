-- ===== src/Meter/Image.antt =====
-- main/fronius_meter.c: the registers of the meter.
use deye_inverter_display_es.Common.{
  ℕ, ◌+◌, ◌-◌, ◌/◌, ◌%◌, ◌^◌, ◌&&◌, pos, negsuc, to_u32, Option, none, some, List, [], ◌∷◌, leb,
  ltb, ◌==◌, get_or, if◌then◌else◌,
}
use deye_inverter_display_es.Meter.{
  Nums, Values, Quantity, q_u_avg, q_u_ll_avg, q_p_tot, q_s_tot, q_q_tot, q_pf_tot, q_zero, q_freq,
  q_u_ll, q_u, q_i, q_p, q_s, q_q, q_pf, q_imp_kwh, q_imp_wh, q_exp_kwh, q_exp_wh, qty,
}

-- `int32_reg_t`; a quantity of no phase has phase 0, as `qty` takes it.
pub record Int32Reg : Type 0 where
  pub addr : ℕ
  pub q : Quantity
  pub ph : ℕ
  pub factor : ℕ

abbrev reg : ℕ → Quantity → ℕ → ℕ → Int32Reg
reg addr q ph factor = record { addr = addr; q = q; ph = ph; factor = factor }

-- `INT32_REGS`
unfoldable pub int32_regs : List Int32Reg
int32_regs =
    reg 0 q_u 0 10
    ∷ reg 258 q_u_avg 0 10
    ∷ reg 260 q_u_ll_avg 0 10
    ∷ reg 262 q_p_tot 0 10
    ∷ reg 264 q_s_tot 0 10
    ∷ reg 266 q_q_tot 0 10
    ∷ reg 268 q_pf_tot 0 1000
    ∷ reg 270 q_zero 0 1
    ∷ reg 272 q_freq 0 10
    ∷ reg 286 q_u_ll 0 10
    ∷ reg 288 q_u 0 10
    ∷ reg 290 q_i 0 1000
    ∷ reg 292 q_p 0 10
    ∷ reg 294 q_s 0 10
    ∷ reg 296 q_q 0 10
    ∷ reg 298 q_pf 0 1000
    ∷ reg 300 q_u_ll 1 10
    ∷ reg 302 q_u 1 10
    ∷ reg 304 q_i 1 1000
    ∷ reg 306 q_p 1 10
    ∷ reg 308 q_s 1 10
    ∷ reg 310 q_q 1 10
    ∷ reg 312 q_pf 1 1000
    ∷ reg 314 q_u_ll 2 10
    ∷ reg 316 q_u 2 10
    ∷ reg 318 q_i 2 1000
    ∷ reg 320 q_p 2 10
    ∷ reg 322 q_s 2 10
    ∷ reg 324 q_q 2 10
    ∷ reg 326 q_pf 2 1000
    ∷ reg 1024 q_imp_kwh 0 1
    ∷ reg 1026 q_imp_wh 0 1
    ∷ reg 1028 q_zero 0 1
    ∷ reg 1030 q_zero 0 1
    ∷ reg 1032 q_exp_kwh 0 1
    ∷ reg 1034 q_exp_wh 0 1
    ∷ reg 1036 q_zero 0 1
    ∷ reg 1038 q_zero 0 1
    ∷ []

-- `FIXED_REGS`
unfoldable pub fixed_regs : List (ℕ × ℕ)
fixed_regs =
    (11, 731)
    ∷ (770, 1)
    ∷ (771, 3)
    ∷ (4098, 0)
    ∷ (4355, 1)
    ∷ (4356, 0)
    ∷ (4357, 14)
    ∷ (20496, 2020)
    ∷ []

abbrev serial_txt_reg : ℕ
serial_txt_reg = 20480

abbrev serial_txt_len : ℕ
serial_txt_len = 7

abbrev serial_hi_reg : ℕ
serial_hi_reg = 20487

abbrev serial_lo_reg : ℕ
serial_lo_reg = 20488

unfoldable pub find_fixed : List (ℕ × ℕ) → ℕ → Option ℕ
find_fixed [] a = none
find_fixed ((addr, v) ∷ rs) a = if addr == a then some v else find_fixed rs a

abbrev or_fixed : Option ℕ → ℕ → Option ℕ
or_fixed none a = find_fixed fixed_regs a
or_fixed (some v) a = some v

module _ (F : Nums) where
  open F use {Double, d_of_int, d_mul, d_fmin, d_fmax, d_is_finite, llround}

  -- The 32 bits of a register pair.
  unfoldable pub raw_of : Int32Reg → Values F → ℕ
  raw_of r m =
      let x = d_mul (qty F r.q r.ph m) (d_of_int (pos r.factor)) in
      let y = if d_is_finite x then x else d_of_int (pos 0) in
      to_u32
        (llround (d_fmax (d_of_int (negsuc 2147483647)) (d_fmin (d_of_int (pos 2147483647)) y)))

  unfoldable pub find_int32 : List Int32Reg → ℕ → Values F → Option ℕ
  find_int32 [] a m = none
  find_int32 (r ∷ rs) a m =
      let raw = raw_of r m in
      let rest = find_int32 rs a m in
      if a == r.addr
      then some (raw % 2 ^ 16)
      else if a == r.addr + 1
      then some (raw / 2 ^ 16)
      else rest

  unfoldable pub reg_value : ℕ → Values F → Option ℕ
  reg_value a m =
      if leb serial_txt_reg a && ltb a (serial_txt_reg + serial_txt_len)
      then some (get_or m.serial_txt (a - serial_txt_reg) 0)
      else if a == serial_hi_reg
      then some (m.serial / 2 ^ 16 % 2 ^ 16)
      else if a == serial_lo_reg
      then some (m.serial % 2 ^ 16)
      else or_fixed (find_int32 int32_regs a m) a

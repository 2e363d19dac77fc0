-- ===== src/Ctrl/Wear.antt =====
-- How many register writes, each an EEPROM cycle of the inverter, the operations of
-- main/deye_ctrl.c cost.
use deye_inverter_display_es.Common.{
  ℕ, zero, suc, ◌+◌, ◌≡◌, false, ℤ, arith, u32, if◌then◌else◌, to_u16, tdiv_ℤ,
}
use deye_inverter_display_es.Ctrl.{
  Mode, normal, force_charge, force_discharge, count, Env, World, write_raw, write_verify,
  write_range, reset_tally, write_regs, write_power, write_charge_power, write_pending,
}

-- The registers of each full set.
abbrev pub cost : Mode → ℕ
cost normal = 17
cost force_charge = 15
cost force_discharge = 2
cost count = 0

-- What a round writes where only the power changed.
abbrev pub power_cost : Mode → ℕ
power_cost normal = 17
power_cost force_charge = 2
power_cost force_discharge = 1
power_cost count = 2

module _ (e : Env) where
  -- `n` more writes on the wrapping counter.
  abbrev More : ℕ → World e → World e → Type 0
  More n v w = u32 w.ctrl.writes ≡ u32 (v.ctrl.writes + n)

  More-trans : (a b : ℕ) (u v w : World e) → More a u v → More b v w → More (a + b) u w
  More-trans a b u v w p q = omega arith

  write_raw-More : (r v : ℕ) (w : World e) → More 1 w (write_raw e r v w).1
  unfolding write_raw
  write_raw-More r v w = omega arith

  write_verify-More : (r v : ℕ) (w : World e) → More 1 w (write_verify e r v w).1
  unfolding write_verify write_raw
  write_verify-More r v w = ground arith

  write_range-More : (n r v : ℕ) (w : World e) → More n w (write_range e n r v w).1
  unfolding write_range
  write_range-More zero r v w = omega arith
  write_range-More (suc n) r v w =
      omega (arith, write_raw-More r v w, write_range-More n (r + 1) v (write_raw e r v w).1)

  -- A full set writes its registers once each: 17 for Normal, 15 for a charge, 2 for a discharge.
  pub write_regs-More : (m : Mode) (p : ℤ) (w : World e) → More (cost m) w (write_regs e m p w).1
  unfolding write_regs
  write_regs-More force_charge p w =
      let w2 = (write_raw e 126 (to_u16 p) (reset_tally e w).1).1 in
      let w3 = (write_verify e 127 w2.ctrl.charge_soc w2).1 in
      let w4 = (write_verify e 128 (to_u16 (tdiv_ℤ p 50)) w3).1 in
      omega (
        arith,
        write_raw-More 126 (to_u16 p) (reset_tally e w).1,
        write_verify-More 127 w2.ctrl.charge_soc w2,
        write_verify-More 128 (to_u16 (tdiv_ℤ p 50)) w3,
        write_range-More 6 166 w2.ctrl.charge_soc w4,
        write_range-More 6 172 1 (write_range e 6 166 w2.ctrl.charge_soc w4).1,
      )
  write_regs-More force_discharge p w =
      let w1 = (reset_tally e w).1 in
      omega (
        arith,
        write_verify-More 142 3 w1,
        write_verify-More 143 (to_u16 p) (write_verify e 142 3 w1).1,
      )
  write_regs-More normal p w =
      let w1 = (reset_tally e w).1 in
      let w2 = (write_verify e 142 2 w1).1 in
      let w3 = (write_verify e 143 20000 w2).1 in
      let w4 = (write_raw e 126 5000 w3).1 in
      let w5 = (write_raw e 127 10 w4).1 in
      let w6 = (write_raw e 128 40 w5).1 in
      omega (
        arith,
        write_verify-More 142 2 w1,
        write_verify-More 143 20000 w2,
        write_raw-More 126 5000 w3,
        write_raw-More 127 10 w4,
        write_raw-More 128 40 w5,
        write_range-More 6 166 13 w6,
        write_range-More 6 172 0 (write_range e 6 166 13 w6).1,
      )
  write_regs-More count p w = omega arith

  -- A round of the task costs the full set where a mode change is pending or Normal is in force;
  -- where only the power changed it costs one register in a discharge and two in a charge.
  write_pending-More :
      (w : World e)
      → More
          (if w.ctrl.write_full then cost w.ctrl.mode else power_cost w.ctrl.mode)
          w
          (write_pending e w).1
  unfolding write_pending write_power write_charge_power
  write_pending-More w =
      let w0 : World e = record w { ctrl = record w.ctrl { write_full = false } } in
      let w1 = (reset_tally e w0).1 in
      let p = w.ctrl.power_w in
      ground (
        arith,
        write_regs-More w.ctrl.mode p w0,
        write_verify-More 143 (to_u16 p) w1,
        write_raw-More 126 (to_u16 p) w1,
        write_verify-More 128 (to_u16 (tdiv_ℤ p 50)) (write_raw e 126 (to_u16 p) w1).1,
      )

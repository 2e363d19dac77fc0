-- ===== src/Ctrl/Rel.antt =====
-- Any reflexive and transitive relation that the single register writes of main/deye_ctrl.c keep
-- holds of its longer writes.
use deye_inverter_display_es.Common.{ℕ, zero, suc, ◌+◌, ◌≤◌, ◌<◌, ℤ, arith}
use deye_inverter_display_es.Ctrl.{
  Mode, normal, force_charge, force_discharge, count, Env, World, reset_tally, write_raw,
  write_verify, write_range, write_regs, write_power, write_charge_power,
}

module _ (e : Env) (R : World e → World e → Type 0) (R_refl : (w : World e) → R w w)
    (R_trans : (u v w : World e) → R u v → R v w → R u w) where
  infixr 20 ◌⊙◌
  ◌⊙◌ : {u v w : World e} → R u v → R v w → R u w
  p ⊙ q = R_trans _ _ _ p q

  abbrev pub Holds {ℓ} : {A : Type ℓ} → (World e → A × World e) → Type 0
  Holds m = (w : World e) → R w (m w).1

  pub write_range-rel :
      (n first val : ℕ)
      → ((r : ℕ) → first ≤ r → r < first + n → Holds (write_raw e r val))
      → Holds (write_range e n first val)
  unfolding write_range
  write_range-rel zero first val raw w = R_refl w
  write_range-rel (suc n) first val raw w =
      R_trans w (write_raw e first val w).1 _ (raw first (omega arith) (omega arith) w) (
        write_range-rel n (first + 1) val (λ r h k. raw r (omega arith) (omega arith))
          (write_raw e first val w).1)

  module _ (reset : Holds (reset_tally e)) (raw : (r v : ℕ) → Holds (write_raw e r v))
      (verify : (r v : ℕ) → Holds (write_verify e r v)) where
    range : (n first val : ℕ) → Holds (write_range e n first val)
    range n first val = write_range-rel n first val (λ r _ _. raw r val)

    pub write_regs-rel : (m : Mode) (p : ℤ) → Holds (write_regs e m p)
    unfolding write_regs
    write_regs-rel force_charge p w =
        reset w ⊙ raw _ _ _ ⊙ verify _ _ _ ⊙ verify _ _ _ ⊙ range _ _ _ _ ⊙ range _ _ _ _
    write_regs-rel force_discharge p w = reset w ⊙ verify _ _ _ ⊙ verify _ _ _
    write_regs-rel normal p w =
        reset w
        ⊙ verify _ _ _
        ⊙ verify _ _ _
        ⊙ raw _ _ _
        ⊙ raw _ _ _
        ⊙ raw _ _ _
        ⊙ range _ _ _ _
        ⊙ range _ _ _ _
    write_regs-rel count p w = reset w

    pub write_power-rel : (p : ℤ) → Holds (write_power e p)
    unfolding write_power
    write_power-rel p w = reset w ⊙ verify _ _ _

    pub write_charge_power-rel : (p : ℤ) → Holds (write_charge_power e p)
    unfolding write_charge_power
    write_charge_power-rel p w = reset w ⊙ raw _ _ _ ⊙ verify _ _ _

-- ===== src/Sweep/Expect.antt =====
-- main/eff_sweep.c: what the sweep expects of the inverter's control, and what it leaves there.
use deye_inverter_display_es.Common.{
  ℕ, zero, suc, ◌≡◌, ◌≢◌, ◌⊎◌, Bool, true, false, ℤ, pos, ◌≤ℤ◌, ◌∷◌, [], List, some, get_elem?, set,
  arith,
}
use deye_inverter_display_es.Ctrl.{
  normal, force_charge, force_discharge, count, Mode, Env, World, apply, apply_sweep, apply_clamped,
  retune, clamp_power, power_min, power_floor, power_max,
}
use deye_inverter_display_es.Sweep.{Step, Sweep, Setup, SweepState, Why}
use deye_inverter_display_es.Sweep.Moves.{put, finish, skip_pending, skip_mode, edit}

-- Every step is a charge or a discharge.
abbrev pub AreForced : {F : Type 0} → List (Step F) → Type 0
AreForced [] = Unit
AreForced (p ∷ ps) = ((p.mode ≡ force_charge) ⊎ (p.mode ≡ force_discharge)) × AreForced ps

module _ {F : Type 0} where
  pub get-AreForced :
      (ps : List (Step F)) (i : ℕ) (p : Step F)
      → AreForced ps
      → get_elem? ps i ≡ some p
      → (p.mode ≡ force_charge) ⊎ (p.mode ≡ force_discharge)
  get-AreForced [] i p a h = ground arith
  get-AreForced (q ∷ ps) zero p a h = ground arith
  get-AreForced (q ∷ ps) (suc i) p a h = ground (arith, get-AreForced ps i p)

  set-AreForced :
      (ps : List (Step F)) (i : ℕ) (p : Step F)
      → AreForced ps
      → (p.mode ≡ force_charge) ⊎ (p.mode ≡ force_discharge)
      → AreForced (set ps i p)
  set-AreForced [] i p a h = a
  set-AreForced (q ∷ ps) zero p a h = (h, a.1)
  set-AreForced (q ∷ ps) (suc i) p a h = (a.0, set-AreForced ps i p a.1 h)

  skip_pending_mode : (p : Step F) → (skip_pending p).mode ≡ p.mode
  skip_pending_mode p = ground arith

  pub skip_mode-AreForced :
      (i : ℕ) (m : Mode) (ps : List (Step F)) → AreForced ps → AreForced (skip_mode i m ps)
  unfolding skip_mode
  skip_mode-AreForced i m [] a = a
  skip_mode-AreForced zero m (p ∷ ps) a =
      ground (arith, skip_mode-AreForced zero m ps, skip_pending_mode p)
  skip_mode-AreForced (suc i) m (p ∷ ps) a = (a.0, skip_mode-AreForced i m ps a.1)

  pub edit-AreForced :
      (q : Step F) (s : Sweep F) (p : Step F)
      → AreForced s.steps
      → get_elem? s.steps s.cur ≡ some p
      → q.mode ≡ p.mode
      → AreForced (edit q s).steps
  edit-AreForced q s p a h k =
      set-AreForced s.steps s.cur q a (rw k (get-AreForced s.steps s.cur p a h))

clamp_range :
    (a p : ℤ) → a ≤ℤ pos power_max → (a ≤ℤ clamp_power a p) × (clamp_power a p ≤ℤ pos power_max)
clamp_range a p h = ground arith

clamp_in_range : (a p : ℤ) → a ≤ℤ p → p ≤ℤ pos power_max → clamp_power a p ≡ p
clamp_in_range a p h k = ground arith

clamp_twice : (a p : ℤ) → a ≤ℤ pos power_max → clamp_power a (clamp_power a p) ≡ clamp_power a p
clamp_twice a p h = clamp_in_range a (clamp_power a p) (clamp_range a p h).0 (clamp_range a p h).1

module _ (e : Env) where
  apply_leaves :
      (m : Mode) (p : ℤ) (w : World e)
      → m ≢ count
      → let c = (apply e m p w).1.ctrl in
        (c.mode ≡ m) × (c.user_power_w ≡ clamp_power (pos power_min) p)
  unfolding apply apply_clamped
  apply_leaves m p w h = ground arith

  apply_sweep_leaves :
      (m : Mode) (p : ℤ) (w : World e)
      → m ≢ count
      → let c = (apply_sweep e m p w).1.ctrl in
        (c.mode ≡ m) × (c.user_power_w ≡ clamp_power (pos power_floor) p)
  unfolding apply_sweep apply_clamped
  apply_sweep_leaves m p w h = ground arith

  retune_leaves :
      (p : ℤ) (w : World e)
      → w.ctrl.mode ≢ normal
      → let c = (retune e p w).1.ctrl in
        (c.mode ≡ w.ctrl.mode) × (c.user_power_w ≡ clamp_power (pos power_floor) p)
  unfolding retune
  retune_leaves p w h = ground arith

module _ (e : Env) {F : Type 0} where
  -- What a sweep puts in force is what it expects to find.
  pub put_expected :
      (m : Mode) (p : ℤ) (b : Setup e F)
      → m ≢ count
      → let b' = put e m p b in
        (b'.world.ctrl.mode ≡ m)
        × (b'.sweep.exp_mode ≡ m)
        × (b'.sweep.applied ≡ true)
        × (b'.world.ctrl.user_power_w ≡ b'.sweep.exp_power)
        × (b'.sweep.steps ≡ b.sweep.steps)
        × (b'.sweep.state ≡ b.sweep.state)
        × (b'.sweep.cur ≡ b.sweep.cur)
  unfolding put
  put_expected m p b h = ground (
    arith,
    apply_leaves e normal (clamp_power (pos power_min) p) b.world,
    apply_sweep_leaves e m (clamp_power (pos power_floor) p) b.world h,
    retune_leaves e (clamp_power (pos power_floor) p) b.world,
    clamp_twice (pos power_min) p (omega arith),
    clamp_twice (pos power_floor) p (omega arith),
  )

  pub finish_ends :
      (st : SweepState) (y : Why) (back : Bool) (b : Setup e F)
      → let b' = finish e st y back b in
        (b'.sweep.state ≡ st)
        × (b'.sweep.applied ≡ false)
        × ((b'.world ≡ b.world) ⊎ (b'.world.ctrl.mode ≡ normal))
        × (back ≡ true → b.sweep.applied ≡ true → b'.world.ctrl.mode ≡ normal)
        × (back ≡ false → b'.world ≡ b.world)
  unfolding finish
  finish_ends st y back b = ground (arith, apply_leaves e normal b.sweep.user_power0 b.world)

-- ===== src/Manager/Ended.antt =====
-- main/energy_mgr.c: a charge that the manager put in force ends when it stops acting.
use deye_inverter_display_es.Common.{
  ◌≡◌, refl, sym, subst, ◌∙◌, ap, Bool, true, false, not, ◌&&◌, ◌||◌, ℤ, ◌==ℤ◌, ==ℤ_refl, ltb_ℤ,
  Option, none, some, arith, if_lem, Floats,
}
use deye_inverter_display_es.Ctrl.{Env, normal, force_charge, is_normal, apply}
use deye_inverter_display_es.Force.{off}
use deye_inverter_display_es.Force.Lifecycle.{apply_normal}
use deye_inverter_display_es.Manager.{Plan, Site, index_now}
use deye_inverter_display_es.Manager.Act.{
  Options, Order, order_of, is_auto, is_ours, is_taken, with_world, release, drop_charge, drop_hold,
  drop_byd, yield_to_user, act_on, act,
}

module _ {e : Env} where
  -- The manager put a charge in force, and it is still there: no session of the operator, and the
  -- charge with its power.
  abbrev pub InCharge : Site e → Type 0
  InCharge s =
      (s.own_charge ≡ true)
      × (s.session.force.mode ≡ off)
      × (s.session.world.ctrl.mode ≡ force_charge)
      × (s.session.world.ctrl.user_power_w ≡ s.own_power)

  abbrev pub IsNormal : Site e → Type 0
  IsNormal s = s.session.world.ctrl.mode ≡ normal

  InCharge-ours : (s : Site e) → InCharge s → is_ours s ≡ true
  InCharge-ours s (own, free, mode, power) =
      ground (arith, mode, ap (λ p. p ==ℤ s.own_power) power ∙ ==ℤ_refl s.own_power)

  drop_charge_ends : (s : Site e) → InCharge s → IsNormal (drop_charge s)
  drop_charge_ends s h =
      let w = s.session.world in
      if_lem (λ (x : Site e). IsNormal (record x { own_charge = false }))
        (s.own_charge && is_ours s) (with_world (apply e normal w.ctrl.user_power_w w).1 s) s
        (λ q. apply_normal e w.ctrl.user_power_w w)
        (λ q. absurd (ground (arith, q, h.0, InCharge-ours s h)))

  drops_keep : (s : Site e) → (drop_byd (drop_hold s)).session ≡ s.session
  drops_keep s = ground arith

  pub release_ends : (s : Site e) → InCharge s → IsNormal (release s)
  unfolding release
  release_ends s h = ap (λ x. x.world.ctrl.mode) (drops_keep (drop_charge s)) ∙ drop_charge_ends s h

  pub yield_keeps : (now : ℤ) (s : Site e) → InCharge s → yield_to_user now s ≡ s
  unfolding yield_to_user
  yield_keeps now s h =
      if_lem (λ (x : Site e). x ≡ s) (is_taken s) _ s
        (λ q. absurd (ground (arith, q, h.1, InCharge-ours s h))) (λ q. refl)

  act_on_ends :
      (now : ℤ) (auto_on : Bool) (c : Options) (o : Option Order) (s : Site e)
      → InCharge s
      → (act_on now auto_on c o s).acting ≡ false
      → IsNormal (act_on now auto_on c o s)
  unfolding act_on
  act_on_ends now auto_on c none s h = λ _. release_ends s h
  act_on_ends now auto_on c (some o) s h =
      let paused = ltb_ℤ now s.paused_until in
      let P = λ (x : Site e). x.acting ≡ false → IsNormal x in
      if_lem P (not auto_on || paused) _ _ (λ q _. release_ends s h)
        (λ q.
          if_lem P (not s.own_charge && not (is_normal s.session.world.ctrl.mode)) _ _
            (λ r _. release_ends s h) (λ r t. absurd (ground (arith, t))))

module _ (f : Floats) (to_watts to_percent : f.Float → ℤ) {e : Env} where
  pub act_ends :
      (now : ℤ) (sweeping : Bool) (c : Options) (p : Plan f.Float) (s : Site e)
      → InCharge s
      → (act f to_watts to_percent now sweeping c p s).acting ≡ false
      → IsNormal (act f to_watts to_percent now sweeping c p s)
  unfolding act
  act_ends now sweeping c p s h =
      let o = order_of f to_watts to_percent p (index_now now p) in
      subst
        (λ (x : Site e).
          (act_on now (is_auto c sweeping) c o x).acting ≡ false
          → IsNormal (act_on now (is_auto c sweeping) c o x))
        (sym (yield_keeps now s h)) (act_on_ends now (is_auto c sweeping) c o s h)

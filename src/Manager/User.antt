-- ===== src/Manager/User.antt =====
-- main/energy_mgr.c: the operator's own modes are left alone.
use deye_inverter_display_es.Common.{
  ◌≡◌, ◌⊎◌, inl, inr, refl, sym, ◌∙◌, subst, Bool, true, false, not, ◌&&◌, ◌||◌, ℤ, pos, ◌+ℤ◌,
  ltb_ℤ, Option, none, some, arith, if_lem, Floats,
}
use deye_inverter_display_es.Ctrl.{Env, is_normal}
use deye_inverter_display_es.Manager.{Plan, Site, index_now}
use deye_inverter_display_es.Manager.Act.{
  Options, Order, order_of, is_auto, is_taken, shown, release, yield_to_user, act_on, act,
}

later : (now : ℤ) → ltb_ℤ now (now +ℤ pos 3600) ≡ true
unfolding ◌+ℤ◌
later (pos n) = ground arith
later (ℤ.negsuc n) = ground arith

module _ {e : Env} where
  -- Without a charge of its own, to release leaves the inverter's modes as they are.
  release_session : (s : Site e) → s.own_charge ≡ false → (release s).session ≡ s.session
  unfolding release
  release_session s h = ground (arith, h)

  release_charge : (s : Site e) → (release s).own_charge ≡ false
  unfolding release
  release_charge s = ground arith

  -- Between two states, the operator's modes are left alone and nothing is acted on.
  abbrev pub LeftAlone : Site e → Site e → Type 0
  LeftAlone s s' = (s'.session ≡ s.session) × (s'.acting ≡ false) × (s'.own_charge ≡ false)

  stop_alone :
      (p : Bool) (s : Site e) → s.own_charge ≡ false → LeftAlone s (shown false p (release s))
  stop_alone p s h = (release_session s h, refl, release_charge s)

  act_on_alone :
      (now : ℤ) (auto_on : Bool) (c : Options) (o : Option Order) (s : Site e)
      → s.own_charge ≡ false
      → (ltb_ℤ now s.paused_until ≡ true) ⊎ (is_normal s.session.world.ctrl.mode ≡ false)
      → LeftAlone s (act_on now auto_on c o s)
  unfolding act_on
  act_on_alone now auto_on c none s h m = stop_alone (ltb_ℤ now s.paused_until) s h
  act_on_alone now auto_on c (some o) s h m =
      let paused = ltb_ℤ now s.paused_until in
      if_lem (LeftAlone s) (not auto_on || paused) _ _ (λ q. stop_alone paused s h)
        (λ q.
          if_lem (LeftAlone s) (not s.own_charge && not (is_normal s.session.world.ctrl.mode)) _ _
            (λ r. stop_alone true s h) (λ r. absurd (ground (arith, q, r, h, m))))

  -- `yield_to_user` where the operator took over, and where not.
  yield_taken :
      (now : ℤ) (s : Site e)
      → is_taken s ≡ true
      → let s' = yield_to_user now s in
        (s'.own_charge ≡ false) × (s'.session ≡ s.session) × (ltb_ℤ now s'.paused_until ≡ true)
  unfolding yield_to_user
  yield_taken now s h =
      if_lem
        (λ (x : Site e).
          (x.own_charge ≡ false) × (x.session ≡ s.session) × (ltb_ℤ now x.paused_until ≡ true))
        (is_taken s) _ s
        (λ q. (
          refl,
          refl,
          if_lem (λ t. ltb_ℤ now t ≡ true) (ltb_ℤ now s.block_end) _ _ (λ r. r) (λ r. later now),
        ))
        (λ q. absurd (ground (arith, q, h)))

  yield_not : (now : ℤ) (s : Site e) → is_taken s ≡ false → yield_to_user now s ≡ s
  unfolding yield_to_user
  yield_not now s h =
      if_lem (λ (x : Site e). x ≡ s) (is_taken s) _ s (λ q. absurd (ground (arith, q, h)))
        (λ q. refl)

  not_taken : (s : Site e) → s.own_charge ≡ false → is_taken s ≡ false
  not_taken s h = ground (arith, h)

module _ (f : Floats) (to_watts to_percent : f.Float → ℤ) {e : Env} where
  -- The operator always wins. Where a forced mode or another mode or power has taken the place of
  -- the manager's charge, or a forced mode runs without one, a step leaves the inverter's modes and
  -- the operator's session exactly as they are, does not act, and owns no charge any more.
  pub user_wins :
      (now : ℤ) (sweeping : Bool) (c : Options) (p : Plan f.Float) (s : Site e)
      → (is_taken s ≡ true)
        ⊎ ((s.own_charge ≡ false) × (is_normal s.session.world.ctrl.mode ≡ false))
      → LeftAlone s (act f to_watts to_percent now sweeping c p s)
  unfolding act
  user_wins now sweeping c p s (inl taken) =
      let (own, same, later) = yield_taken now s taken in
      let o = order_of f to_watts to_percent p (index_now now p) in
      let (a, b, d) =
        act_on_alone now (is_auto c sweeping) c o (yield_to_user now s) own (inl later) in
      (a ∙ same, b, d)
  user_wins now sweeping c p s (inr (own, forced)) =
      let o = order_of f to_watts to_percent p (index_now now p) in
      subst (λ x. LeftAlone s (act_on now (is_auto c sweeping) c o x))
        (sym (yield_not now s (not_taken s own)))
        (act_on_alone now (is_auto c sweeping) c o s own (inr forced))

-- ===== src/Manager/Follow.antt =====
-- main/energy_mgr.c: a step that acts puts in force what the plan says.
use deye_inverter_display_es.Common.{
  ==ℤ_sound, ℕ, negsuc, ◌≤◌, ◌<◌, ◌⊎◌, inl, inr, ap, u32, to_u8, ◌≡◌, refl, sym, ◌∙◌, subst, Bool,
  true, false, not, ◌&&◌, ◌||◌, ℤ, pos, ◌+ℤ◌, ◌-ℤ◌, ◌==ℤ◌, ltb_ℤ, to_u32, some, arith, if_lem,
  if◌then◌else◌, Floats,
}
use deye_inverter_display_es.Ctrl.{
  Env, force_charge, is_normal, apply_auto, apply_clamped, clamp_power, clamp_soc, clamp_limit,
}
use deye_inverter_display_es.Force.Lifecycle.{same_mode_sound}
use deye_inverter_display_es.Lock.{hold_end}
use deye_inverter_display_es.Manager.Ended.{InCharge, IsNormal, release_ends, yield_keeps}
use deye_inverter_display_es.Manager.{
  Action, as_usual, hold, charge, Plan, Site, Byd, block_discharge, index_now,
}
use deye_inverter_display_es.Manager.Act.{
  Options, Order, order_of, is_auto, is_taken, is_usual, shown, release, drop_hold, yield_to_user,
  serve, serve_charge, serve_hold, serve_byd, act_on, act,
}
use deye_inverter_display_es.Manager.Owner.{
  IsOwn, drop_hold-IsOwn, release-IsReleased, serve-IsOwn, yield-IsOwn, freed-IsOwn, unblocked,
}

blocked : (b : Byd) (n : ℕ) → (block_discharge true n b).on ≡ true
unfolding block_discharge
blocked b n = ground arith

-- `y` is `x` kept from `lo` to `hi`.
abbrev pub Clamped : ℤ → ℤ → ℤ → ℤ → Type 0
Clamped lo hi x y =
    ((ltb_ℤ x lo ≡ true) × (y ≡ lo))
    ⊎ (((ltb_ℤ x lo ≡ false) × (ltb_ℤ hi x ≡ true) × (y ≡ hi))
        ⊎ ((ltb_ℤ x lo ≡ false) × (ltb_ℤ hi x ≡ false) × (y ≡ x)))

-- The limit `y` is `x` kept from a minute to twelve hours.
abbrev pub Limited : ℕ → ℕ → Type 0
Limited x y =
    ((x < 60) × (y ≡ 60)) ⊎ (((43200 < x) × (y ≡ 43200)) ⊎ ((60 ≤ x) × (x ≤ 43200) × (y ≡ x)))

clamp_power-Clamped : (x : ℤ) → Clamped (pos 250) (pos 20000) x (clamp_power (pos 250) x)
clamp_power-Clamped x = ground arith

clamp_soc-Clamped : (x : ℤ) → Clamped (pos 10) (pos 100) x (pos (to_u8 (clamp_soc x)))
unfolding to_u8
clamp_soc-Clamped (pos n) = ground arith
clamp_soc-Clamped (negsuc n) = ground arith

clamp_limit-Limited : (x : ℕ) → Limited x (clamp_limit x)
clamp_limit-Limited x = ground arith

module _ {e : Env} where
  -- The charge that the order asks for, put in force at `now`: its power, the state of charge to
  -- charge to, at most `m`, and its limit, ten minutes more than the block has left.
  abbrev pub Begun : ℤ → ℕ → Order → Site e → Type 0
  Begun now m o s' =
      let c = s'.session.world.ctrl in
      (s'.block_end ≡ o.until)
      × (c.write_full ≡ true)
      × Clamped (pos 250) (pos 20000) o.w c.user_power_w
      × Clamped (pos 10) (pos 100) (if ltb_ℤ (pos m) o.soc then pos m else o.soc) (pos c.charge_soc)
      × Limited (to_u32 ((o.until -ℤ now) +ℤ pos 600)) c.limit_s

  -- After a step from `s` to `s'` what is in force is what the order asks for.
  abbrev pub FollowsAs : Action → ℤ → ℕ → Order → Site e → Site e → Type 0
  FollowsAs charge now m o s s' =
      let c = s'.session.world.ctrl in
      ((s'.own_charge ≡ true) × (c.mode ≡ force_charge) × (c.user_power_w ≡ s'.own_power))
      × ((s'.own_hold ≡ false) × (s'.hold_until ≡ 0))
      × (((s.own_charge ≡ true) × (s.block_end ≡ o.until) × (s'.session ≡ s.session))
          ⊎ Begun now m o s')
  FollowsAs hold now m o s s' =
      ((s'.own_charge ≡ false) × (InCharge s → IsNormal s'))
      × ((s'.own_hold ≡ true)
          × (s'.hold_until ≡ hold_end 120 (u32 (e.now_ms s'.session.world.env))))
  FollowsAs as_usual now m o s s' =
      ((s'.own_charge ≡ false) × (InCharge s → IsNormal s'))
      × ((s'.own_hold ≡ false) × (s'.hold_until ≡ 0))

  own_of : (s : Site e) (b : Bool) → not s.own_charge || b ≡ false → s.own_charge ≡ true
  own_of s b q = ground (arith, q)

  same_end :
      (s : Site e) (o : Order)
      → not s.own_charge || not (s.block_end ==ℤ o.until) ≡ false
      → s.block_end ≡ o.until
  same_end s o q = ==ℤ_sound s.block_end o.until (ground (arith, q))

  hold_dropped :
      (s : Site e)
      → ((drop_hold s).session ≡ s.session)
        × ((drop_hold s).own_charge ≡ s.own_charge)
        × ((drop_hold s).own_power ≡ s.own_power)
        × ((drop_hold s).block_end ≡ s.block_end)
  hold_dropped s = ground arith

  still_mode :
      (s : Site e)
      → s.own_charge ≡ true
      → is_taken s ≡ false
      → s.session.world.ctrl.mode ≡ force_charge
  still_mode s own kept =
      same_mode_sound s.session.world.ctrl.mode force_charge (ground (arith, own, kept))

  still_power :
      (s : Site e)
      → s.own_charge ≡ true
      → is_taken s ≡ false
      → s.session.world.ctrl.user_power_w ≡ s.own_power
  still_power s own kept =
      ==ℤ_sound s.session.world.ctrl.user_power_w s.own_power (ground (arith, own, kept))

  charge_follows :
      (now : ℤ) (m : ℕ) (o : Order) (s : Site e)
      → IsOwn s
      → is_taken s ≡ false
      → FollowsAs charge now m o s (serve_charge now m o s)
  unfolding serve_charge apply_auto apply_clamped
  charge_follows now m o s h kept =
      let (k, none_own) = drop_hold-IsOwn s h in
      let (session, own, power, ends) = hold_dropped s in
      let s' = drop_hold s in
      let soc = if ltb_ℤ (pos m) o.soc then pos m else o.soc in
      let lim = to_u32 ((o.until -ℤ now) +ℤ pos 600) in
      if_lem (FollowsAs charge now m o s) (not s'.own_charge || not (s'.block_end ==ℤ o.until)) _ s'
        (λ q. (
          (refl, refl, refl),
          (none_own, k.hold_is none_own),
          inr (refl, refl, clamp_power-Clamped o.w, clamp_soc-Clamped soc, clamp_limit-Limited lim),
        ))
        (λ q.
          let mine = sym own ∙ own_of s' _ q in
          (
            (
              own_of s' _ q,
              ap (λ x. x.world.ctrl.mode) session ∙ still_mode s mine kept,
              ap (λ x. x.world.ctrl.user_power_w) session ∙ still_power s mine kept ∙ sym power,
            ),
            (none_own, k.hold_is none_own),
            inl (mine, sym ends ∙ same_end s' o q, session),
          ))

  hold_follows :
      (now : ℤ) (m : ℕ) (o : Order) (s : Site e)
      → IsOwn s
      → FollowsAs hold now m o s (serve_hold o s)
  unfolding serve_hold
  hold_follows now m o s h = (
    (
      (freed-IsOwn s h).1,
      λ c.
          if_lem IsNormal s.own_charge (release s) s (λ q. release_ends s c)
            (λ q. absurd (ground (arith, q, c.0))),
    ),
    (refl, refl),
  )

  serve_follows :
      (now : ℤ) (m : ℕ) (o : Order) (a : Action) (s : Site e)
      → IsOwn s
      → is_taken s ≡ false
      → FollowsAs a now m o s (serve now m o a s)
  serve_follows now m o as_usual s h kept =
      let r = release-IsReleased s h in ((r.0, λ c. release_ends s c), (r.1, r.3))
  serve_follows now m o hold s h kept = hold_follows now m o s h
  serve_follows now m o charge s h kept = charge_follows now m o s h kept

  serve_byd-on :
      (c : Bool) (a : Action) (s : Site e)
      → (s.own_byd ≡ false → s.byd.on ≡ false)
      → (serve_byd c a s).byd.on ≡ c && not (is_usual a)
  unfolding serve_byd
  serve_byd-on c a s h =
      if_lem (λ (x : Site e). x.byd.on ≡ c && not (is_usual a)) (c && not (is_usual a)) _ _
        (λ q. blocked s.byd 1800 ∙ sym q)
        (λ q.
          if_lem (λ (x : Site e). x.byd.on ≡ c && not (is_usual a)) s.own_byd _ s
            (λ r. unblocked s.byd 0 ∙ sym q) (λ r. h r ∙ sym q))

  byd_lem :
      (c : Bool) (a : Action) (P : Site e → Type 0) (s : Site e)
      → P s
      → ((d : Bool) (b : Byd) → P (record s { own_byd = d; byd = b }))
      → P (serve_byd c a s)
  unfolding serve_byd
  byd_lem c a P s h k =
      if_lem P (c && not (is_usual a)) _ _ (λ q. k true (block_discharge true 1800 s.byd))
        (λ q. if_lem P s.own_byd _ s (λ r. k false (block_discharge false 0 s.byd)) (λ r. h))

  -- What the Fronius task is asked, and what is shown, is apart from the inverter.
  serve_byd_keeps :
      (c : Bool) (a b : Action) (now : ℤ) (m : ℕ) (o : Order) (s s' : Site e)
      → FollowsAs b now m o s s'
      → FollowsAs b now m o s (serve_byd c a s')
  serve_byd_keeps c a as_usual now m o s s' h =
      byd_lem c a (FollowsAs as_usual now m o s) s' h (λ d b. h)
  serve_byd_keeps c a hold now m o s s' h = byd_lem c a (FollowsAs hold now m o s) s' h (λ d b. h)
  serve_byd_keeps c a charge now m o s s' h =
      byd_lem c a (FollowsAs charge now m o s) s' h (λ d b. h)

  shown_keeps :
      (p q : Bool) (b : Action) (now : ℤ) (m : ℕ) (o : Order) (s s' : Site e)
      → FollowsAs b now m o s s'
      → FollowsAs b now m o s (shown p q s')
  shown_keeps p q as_usual now m o s s' h = h
  shown_keeps p q hold now m o s s' h = h
  shown_keeps p q charge now m o s s' h = h

  -- A step from `s` to `s'` that acts has done what the order says, with the Fronius battery.
  abbrev pub Done : ℤ → Options → Order → Site e → Site e → Type 0
  Done now c o s s' =
      s'.acting ≡ true
      → FollowsAs o.act now c.soc_max_pct o s s' × (s'.byd.on ≡ c.byd_ctrl && not (is_usual o.act))

  idle-Done :
      (now : ℤ) (c : Options) (o : Order) (p : Bool) (s s' : Site e)
      → Done now c o s (shown false p s')
  idle-Done now c o p s s' q = absurd (ground (arith, q))

  act_on-Done :
      (now : ℤ) (auto_on : Bool) (c : Options) (o : Order) (s : Site e)
      → IsOwn s
      → is_taken s ≡ false
      → Done now c o s (act_on now auto_on c (some o) s)
  unfolding act_on
  act_on-Done now auto_on c o s h kept =
      let paused = ltb_ℤ now s.paused_until in
      let served = serve now c.soc_max_pct o o.act s in
      if_lem (Done now c o s) (not auto_on || paused) _ _
        (λ q. idle-Done now c o paused s (release s))
        (λ q.
          if_lem (Done now c o s) (not s.own_charge && not (is_normal s.session.world.ctrl.mode)) _
            _ (λ r. idle-Done now c o true s (release s))
            (λ r t. (
              shown_keeps true false o.act now c.soc_max_pct o s _ (
                  serve_byd_keeps c.byd_ctrl o.act o.act now c.soc_max_pct o s served
                    (serve_follows now c.soc_max_pct o o.act s h kept)),
              serve_byd-on c.byd_ctrl o.act served
                  (serve-IsOwn now c.soc_max_pct o o.act s h).byd_is,
            )))

  yield_kept : (now : ℤ) (s : Site e) → is_taken (yield_to_user now s) ≡ false
  unfolding yield_to_user
  yield_kept now s =
      if_lem (λ (x : Site e). is_taken x ≡ false) (is_taken s) _ s (λ q. refl) (λ q. q)

  yield_back :
      (now : ℤ) (s : Site e)
      → let y = yield_to_user now s in
        ((y.own_charge ≡ true → s.own_charge ≡ true) × (y.block_end ≡ s.block_end))
        × (y.session ≡ s.session)
  unfolding yield_to_user
  yield_back now s = ground arith

  -- What holds from the state after the operator is heard holds from the state before.
  from_before :
      (now t : ℤ) (m : ℕ) (o : Order) (a : Action) (s s' : Site e)
      → FollowsAs a t m o (yield_to_user now s) s'
      → FollowsAs a t m o s s'
  from_before now t m o as_usual s s' h =
      ((h.0.0, λ c. h.0.1 (subst InCharge (sym (yield_keeps now s c)) c)), h.1)
  from_before now t m o hold s s' h =
      ((h.0.0, λ c. h.0.1 (subst InCharge (sym (yield_keeps now s c)) c)), h.1)
  from_before now t m o charge s s' (a, b, inr begun) = (a, b, inr begun)
  from_before now t m o charge s s' (a, b, inl (own, ends, same)) =
      let ((mine, block), session) = yield_back now s in
      (a, b, inl (mine own, sym block ∙ ends, same ∙ session))

module _ (f : Floats) (to_watts to_percent : f.Float → ℤ) {e : Env} where
  -- A step that acts has in force what the plan says for now. In a charge block that is a forced
  -- charge of its own and no hold: the charge that it had for this block, untouched, or a new one
  -- with the power, the target and the time of the plan, each kept in its range. In a hold block it
  -- is a hold for two minutes from now on; there, and where the plan asks for nothing, a charge that
  -- it had in force has ended in Normal, and without a hold block there is no hold. The Fronius
  -- battery is blocked exactly in a charge or hold block, where the settings allow it.
  pub acts_as_planned :
      (now : ℤ) (sweeping : Bool) (c : Options) (p : Plan f.Float) (s : Site e) (o : Order)
      → IsOwn s
      → order_of f to_watts to_percent p (index_now now p) ≡ some o
      → Done now c o s (act f to_watts to_percent now sweeping c p s)
  unfolding act
  acts_as_planned now sweeping c p s o h is =
      subst (λ x. Done now c o s (act_on now (is_auto c sweeping) c x (yield_to_user now s)))
        (sym is)
        (λ t.
          let d =
            act_on-Done now (is_auto c sweeping) c o (yield_to_user now s) (yield-IsOwn now s h)
              (yield_kept now s) t in
          (from_before now now c.soc_max_pct o o.act s _ d.0, d.1))

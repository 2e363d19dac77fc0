-- ===== src/Manager/Owner.antt =====
-- main/energy_mgr.c: what the manager has in force is its own, and goes when it stops acting.
use deye_inverter_display_es.Common.{
  ℕ, ◌≡◌, inl, inr, if_lem, if◌then◌else◌, refl, Bool, true, false, not, ℤ, ◌==ℤ◌, ltb_ℤ, ◌&&◌,
  ◌||◌, Option, none, some, arith, Bool-cases, Floats,
}
use deye_inverter_display_es.Ctrl.{Env, is_normal}
use deye_inverter_display_es.Lock.{lock_end}
use deye_inverter_display_es.Manager.{
  Action, as_usual, hold, charge, Plan, Site, Byd, block_discharge, index_now,
}
use deye_inverter_display_es.Manager.Act.{
  Options, Order, order_of, is_auto, is_taken, is_usual, shown, release, drop_hold, drop_byd,
  yield_to_user, serve, serve_charge, serve_hold, serve_byd, act_on, act,
}

pub unblocked : (b : Byd) (n : ℕ) → (block_discharge false n b).on ≡ false
unfolding block_discharge
unblocked b n = ground arith

no_hold : (now : ℕ) → lock_end 0 now ≡ 0
unfolding lock_end
no_hold now = refl

module _ {e : Env} where
  -- A charge and a hold are never both its own; without a hold of its own `modbus_rtu` has none,
  -- and without a block of its own the Fronius task is asked for none.
  pub record IsOwn (s : Site e) : Type 0 where
    pub exclusive : s.own_charge ≡ true → s.own_hold ≡ false
    pub hold_is : s.own_hold ≡ false → s.hold_until ≡ 0
    pub byd_is : s.own_byd ≡ false → s.byd.on ≡ false

  abbrev pub IsReleased : Site e → Type 0
  IsReleased s =
      (s.own_charge ≡ false)
      × (s.own_hold ≡ false)
      × (s.own_byd ≡ false)
      × (s.hold_until ≡ 0)
      × (s.byd.on ≡ false)

  pub release-IsReleased : (s : Site e) → IsOwn s → IsReleased (release s)
  unfolding release lock_end
  release-IsReleased s h = ground (arith, h.hold_is, h.byd_is, unblocked s.byd 0)

  pub drop_hold-IsOwn :
      (s : Site e) → IsOwn s → IsOwn (drop_hold s) × ((drop_hold s).own_hold ≡ false)
  unfolding lock_end
  drop_hold-IsOwn s h = elim (Bool-cases s.own_hold) [
    | inl e ↦ rw e (record { exclusive = λ q. refl; hold_is = λ q. refl; byd_is = h.byd_is }, refl)
    | inr e ↦
        rw e (record { exclusive = λ q. refl; hold_is = λ q. h.hold_is e; byd_is = h.byd_is }, refl)
  ]

  pub released-IsOwn : (s : Site e) → IsReleased s → IsOwn s
  released-IsOwn s (a, b, c, d, f) = record {
    exclusive = λ q. b;
    hold_is = λ q. d;
    byd_is = λ q. f;
  }

  pub yield-IsOwn : (now : ℤ) (s : Site e) → IsOwn s → IsOwn (yield_to_user now s)
  unfolding yield_to_user
  yield-IsOwn now s h = elim (Bool-cases (is_taken s)) [
    | inl e ↦ rw e (record {
      exclusive = λ q. absurd (ground (arith, q));
      hold_is = h.hold_is;
      byd_is = h.byd_is;
    })
    | inr e ↦ rw e h
  ]

  pub freed-IsOwn :
      (s : Site e)
      → IsOwn s
      → let s' = if s.own_charge then release s else s in IsOwn s' × (s'.own_charge ≡ false)
  freed-IsOwn s h =
      let r = release-IsReleased s h in
      if_lem (λ (x : Site e). IsOwn x × (x.own_charge ≡ false)) s.own_charge (release s) s
        (λ q. (released-IsOwn (release s) r, r.0)) (λ q. (h, q))

  pub serve-IsOwn :
      (now : ℤ) (m : ℕ) (o : Order) (a : Action) (s : Site e) → IsOwn s → IsOwn (serve now m o a s)
  unfolding serve_charge serve_hold
  serve-IsOwn now m o as_usual s h = released-IsOwn (release s) (release-IsReleased s h)
  serve-IsOwn now m o hold s h =
      let (k, gone) = freed-IsOwn s h in
      record {
        exclusive = λ q. absurd (ground (arith, q, gone));
        hold_is = λ q. absurd (ground (arith, q));
        byd_is = k.byd_is;
      }
  serve-IsOwn now m o charge s h =
      let (k, none_own) = drop_hold-IsOwn s h in
      let s' = drop_hold s in
      if_lem IsOwn (not s'.own_charge || not (s'.block_end ==ℤ o.until)) _ s'
        (λ q. record { exclusive = λ q. none_own; hold_is = k.hold_is; byd_is = k.byd_is }) (λ q. k)

  drop_byd-IsOwn : (s : Site e) → IsOwn s → IsOwn (drop_byd s)
  drop_byd-IsOwn s h = elim (Bool-cases s.own_byd) [
    | inl e ↦
        rw e
          (record { exclusive = h.exclusive; hold_is = h.hold_is; byd_is = λ q. unblocked s.byd 0 })
    | inr e ↦
        rw e (record { exclusive = h.exclusive; hold_is = h.hold_is; byd_is = λ q. h.byd_is e })
  ]

  serve_byd-IsOwn : (c : Bool) (a : Action) (s : Site e) → IsOwn s → IsOwn (serve_byd c a s)
  unfolding serve_byd
  serve_byd-IsOwn c a s h =
      if_lem IsOwn (c && not (is_usual a)) _ (drop_byd s)
        (λ q. record {
          exclusive = h.exclusive;
          hold_is = h.hold_is;
          byd_is = λ f. absurd (ground (arith, f));
        })
        (λ q. drop_byd-IsOwn s h)

  shown-IsOwn : (b p : Bool) (s : Site e) → IsOwn s → IsOwn (shown b p s)
  shown-IsOwn b p s h = record { exclusive = h.exclusive; hold_is = h.hold_is; byd_is = h.byd_is }

  -- It owns what is in force, and where it is not acting there is nothing.
  abbrev pub IsKept : Site e → Type 0
  IsKept s = IsOwn s × (s.acting ≡ false → IsReleased s)

  stop-IsKept : (p : Bool) (s : Site e) → IsOwn s → IsKept (shown false p (release s))
  stop-IsKept p s h =
      let r = release-IsReleased s h in
      (shown-IsOwn false p (release s) (released-IsOwn (release s) r), λ q. r)

  act_on-IsKept :
      (now : ℤ) (auto_on : Bool) (c : Options) (o : Option Order) (s : Site e)
      → IsOwn s
      → IsKept (act_on now auto_on c o s)
  unfolding act_on
  act_on-IsKept now auto_on c none s h = stop-IsKept (ltb_ℤ now s.paused_until) s h
  act_on-IsKept now auto_on c (some o) s h =
      let paused = ltb_ℤ now s.paused_until in
      let served = serve-IsOwn now c.soc_max_pct o o.act s h in
      if_lem IsKept (not auto_on || paused) _ _ (λ q. stop-IsKept paused s h)
        (λ q.
          if_lem IsKept (not s.own_charge && not (is_normal s.session.world.ctrl.mode)) _ _
            (λ m. stop-IsKept true s h)
            (λ m. (
              shown-IsOwn true false _ (serve_byd-IsOwn c.byd_ctrl o.act _ served),
              λ f. absurd (ground (arith, f)),
            )))

module _ (f : Floats) (to_watts to_percent : f.Float → ℤ) {e : Env} where
  -- Whatever is planned, set or done by hand, a step leaves the manager with a charge or a hold of
  -- its own but never both, and where it does not act it has nothing in force any more: no charge,
  -- no hold in the meter emulation, no block of the Fronius battery.
  pub act-IsKept :
      (now : ℤ) (sweeping : Bool) (c : Options) (p : Plan f.Float) (s : Site e)
      → IsOwn s
      → IsKept (act f to_watts to_percent now sweeping c p s)
  unfolding act
  act-IsKept now sweeping c p s h =
      act_on-IsKept now (is_auto c sweeping) c (order_of f to_watts to_percent p (index_now now p))
        (yield_to_user now s) (yield-IsOwn now s h)

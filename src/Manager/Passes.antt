-- ===== src/Manager/Passes.antt =====
-- main/energy_mgr.c: the manager over any course of passes, requests and acts of the operator.
use deye_inverter_display_es.Common.{
  ==ℤ_sound, sym, subst, ◌≡◌, ◌≢◌, ◌⊎◌, inl, inr, refl, true, false, ℤ, ◌==◌, Option, none, some,
  [], if_lem, arith, Floats,
}
use deye_inverter_display_es.Ctrl.{Env, normal}
use deye_inverter_display_es.Force.{Session}
use deye_inverter_display_es.EmHist.Acc.{slot_floor}
use deye_inverter_display_es.Manager.{Plan}
use deye_inverter_display_es.Manager.Act.{release}
use deye_inverter_display_es.Manager.Owner.{
  IsOwn, IsReleased, IsKept, act-IsKept, release-IsReleased, released-IsOwn,
}
use deye_inverter_display_es.Manager.Ended.{InCharge, IsNormal, release_ends, act_ends}
use deye_inverter_display_es.Manager.Requests.{
  What, em_mgr_request, Task, Found, em_mgr_want_fronius, plans_anew, plan_now, replan, pass_off,
  pass, mode_off,
}

-- The plan after `plan_now`.
abbrev pub made_plan : {F : Type 0} → Plan F → Option (Plan F) → Plan F
made_plan old none = record { t0 = old.t0; slots = [] }
made_plan old (some p) = p

module _ (f : Floats) (to_watts to_percent : f.Float → ℤ) {e : Env} where
  open f use {Float}

  -- What happens to the task: a pass, a request, the page with the Fronius card, or anything that
  -- others do with the inverter and the operator's session.
  pub data Step : Task Float e → Task Float e → Type 0 where
    passes : {t : Task Float e} (x : Found Float) → Step t (pass f to_watts to_percent x t)
    requested : {t : Task Float e} (w : What) → Step t (record t { req = em_mgr_request w t.req })
    looked_at : {t : Task Float e} (now : ℤ) → Step t (em_mgr_want_fronius now t)
    by_hand :
        {t : Task Float e} (s : Session e)
        → Step t (record t { site = record t.site { session = s } })

  pub data Reach : Task Float e → Task Float e → Type 0 where
    here : {t : Task Float e} → Reach t t
    then_step : {t u v : Task Float e} → Reach t u → Step u v → Reach t v

  plan_now-IsOwn :
      (x : Found Float) (o : Option (Plan Float)) (t : Task Float e)
      → IsOwn t.site
      → IsOwn (plan_now x o t).site
  plan_now-IsOwn x none t h = h
  plan_now-IsOwn x (some p) t h = h

  plan_now_site :
      (x : Found Float) (o : Option (Plan Float)) (t : Task Float e)
      → (plan_now x o t).site ≡ t.site
  plan_now_site x none t = refl
  plan_now_site x (some p) t = refl

  replan-IsOwn : (x : Found Float) (t : Task Float e) → IsOwn t.site → IsOwn (replan x t).site
  replan-IsOwn x t h =
      if_lem (λ (u : Task Float e). IsOwn u.site) (plans_anew x t) _ t
        (λ q. plan_now-IsOwn x x.made t h) (λ q. h)

  off-IsKept : (t : Task Float e) → IsReleased (release t.site) → IsKept (pass_off t).site
  unfolding pass_off
  off-IsKept t r =
      let own = released-IsOwn (release t.site) r in
      (record { exclusive = own.exclusive; hold_is = own.hold_is; byd_is = own.byd_is }, λ q. r)

  pass-IsKept :
      (x : Found Float) (t : Task Float e)
      → IsOwn t.site
      → IsKept (pass f to_watts to_percent x t).site
  unfolding pass pass_off
  pass-IsKept x t h =
      let t' = replan x t in
      let r = release-IsReleased t.site h in
      if_lem (λ (u : Task Float e). IsKept u.site) (x.options.mode == mode_off) (pass_off t) _
        (λ q. off-IsKept t r)
        (λ q.
          act-IsKept f to_watts to_percent x.now x.sweeping x.options t'.plan t'.site
            (replan-IsOwn x t h))

  step-IsKept : (t u : Task Float e) → Step t u → IsKept t.site → IsKept u.site
  unfolding em_mgr_want_fronius
  step-IsKept t u (passes x) (h, k) = pass-IsKept x t h
  step-IsKept t u (requested w) h = h
  step-IsKept t u (looked_at now) h = h
  step-IsKept t u (by_hand s) (h, k) =
      (record { exclusive = h.exclusive; hold_is = h.hold_is; byd_is = h.byd_is }, k)

  reached-IsKept : (t u : Task Float e) → IsReleased t.site → Reach t u → IsKept u.site
  reached-IsKept t u h here = (released-IsOwn t.site h, λ q. h)
  reached-IsKept t u h (then_step {u = v} r s) = step-IsKept v u s (reached-IsKept t v h r)

  replan_site : (x : Found Float) (t : Task Float e) → (replan x t).site ≡ t.site
  replan_site x t =
      if_lem (λ (u : Task Float e). u.site ≡ t.site) (plans_anew x t) _ t
        (λ q. plan_now_site x x.made t) (λ q. refl)

  pass_ends :
      (x : Found Float) (t : Task Float e)
      → InCharge t.site
      → (pass f to_watts to_percent x t).site.acting ≡ false
      → IsNormal (pass f to_watts to_percent x t).site
  unfolding pass pass_off
  pass_ends x t h =
      let t' = replan x t in
      if_lem (λ (u : Task Float e). u.site.acting ≡ false → IsNormal u.site)
        (x.options.mode == mode_off) (pass_off t) _ (λ q _. release_ends t.site h)
        (λ q.
          act_ends f to_watts to_percent x.now x.sweeping x.options t'.plan t'.site
            (subst InCharge (sym (replan_site x t)) h))

  -- In any course of passes, requests and acts of others, from a state in which the manager has
  -- nothing in force: it never has both a charge and a hold of its own, without a hold of its own
  -- there is none in the meter emulation, and whenever it is not acting all is released: the charge,
  -- the hold and the block of the Fronius battery are no longer its own, the last two are off, and
  -- a pass that finds its charge in force and stops acting puts the inverter's control to Normal.
  pub Reach-IsKept :
      (t u : Task Float e)
      → IsReleased t.site
      → Reach t u
      → IsKept u.site
        × ((x : Found Float)
            → let s = (pass f to_watts to_percent x u).site in
              InCharge u.site → s.acting ≡ false → s.session.world.ctrl.mode ≡ normal)
  Reach-IsKept t u h r = (reached-IsKept t u h r, λ x in_charge idle. pass_ends x u in_charge idle)

  abbrev pub Planned : Found Float → Task Float e → Task Float e → Type 0
  Planned x t u =
      (u.last_slot ≡ slot_floor x.now)
      × (((plans_anew x t ≡ true) × (u.plan ≡ made_plan t.plan x.made))
          ⊎ ((plans_anew x t ≡ false) × (u.plan ≡ t.plan)))

  plan_now_plan :
      (x : Found Float) (o : Option (Plan Float)) (t : Task Float e)
      → (plan_now x o t).plan ≡ made_plan t.plan o
  plan_now_plan x none t = refl
  plan_now_plan x (some p) t = refl

  replan-Planned : (x : Found Float) (t : Task Float e) → Planned x t (replan x t)
  replan-Planned x t =
      if_lem (Planned x t) (plans_anew x t) _ t (λ q. (refl, inl (q, plan_now_plan x x.made t)))
        (λ q. (sym (==ℤ_sound (slot_floor x.now) t.last_slot (ground (arith, q))), inr (q, refl)))

  -- After a pass in any mode but OFF the plan is the one of the current quarter hour, and newly made
  -- where one was asked for, the quarter hour is a new one, or a feed has brought new data; without
  -- its inputs there is no plan.
  pass_plans :
      (x : Found Float) (t : Task Float e)
      → x.options.mode ≢ mode_off
      → Planned x t (pass f to_watts to_percent x t)
  unfolding pass
  pass_plans x t h =
      if_lem (Planned x t) (x.options.mode == mode_off) (pass_off t) _
        (λ q. absurd (ground (arith, q, h))) (λ q. replan-Planned x t)

-- ===== src/Manager/Requests.antt =====
-- main/energy_mgr.c: the requests from outside and the passes of `em_task` with a clock that is set.
use deye_inverter_display_es.Common.{
  ℕ, Bool, true, false, not, ◌&&◌, ◌||◌, ℤ, pos, ◌+ℤ◌, ltb_ℤ, ◌==ℤ◌, ◌==◌, Option, none, some, [],
  if◌then◌else◌, Floats,
}
use deye_inverter_display_es.Ctrl.{Env}
use deye_inverter_display_es.EmHist.Acc.{slot_floor}
use deye_inverter_display_es.Manager.{Plan, Site}
use deye_inverter_display_es.Manager.Act.{Options, mode_auto, release, act}

-- The bits of `s_req`.
pub record Req : Type 0 where
  pub prices : Bool
  pub forecast : Bool
  pub plan : Bool

-- The word of `em_mgr_request`; `unknown` is any other one.
pub data What : Type 0 where
  prices forecast plan all unknown : What

unfoldable pub em_mgr_request : What → Req → Req
em_mgr_request prices r = record r { prices = true; plan = true }
em_mgr_request forecast r = record r { forecast = true; plan = true }
em_mgr_request plan r = record r { plan = true }
em_mgr_request all r = record { prices = true; forecast = true; plan = true }
em_mgr_request unknown r = r

abbrev pub no_req : Req
no_req = record { prices = false; forecast = false; plan = false }

-- `EM_MODE_OFF`
abbrev pub mode_off : ℕ
mode_off = 0

-- The static variables of the task; `site` has those of acting.
pub record Task (F : Type 0) (e : Env) : Type 0 where
  pub site : Site e
  pub plan : Plan F
  pub last_slot : ℤ
  pub price_seen : ℤ
  pub pv_seen : ℤ
  pub wanted : ℤ
  pub req : Req

-- What a pass finds: the time, the settings, whether a sweep runs, the stamps of the feeds, and
-- what `plan_now` would bring, `none` where its inputs are not there.
pub record Found (F : Type 0) : Type 0 where
  pub now : ℤ
  pub options : Options
  pub sweeping : Bool
  pub price_fetched : ℤ
  pub pv_fetched : ℤ
  pub made : Option (Plan F)

module _ {F : Type 0} {e : Env} where
  -- `em_mgr_want_fronius`
  unfoldable pub em_mgr_want_fronius : ℤ → Task F e → Task F e
  em_mgr_want_fronius now t = record t { wanted = now +ℤ pos 120 }

  -- The condition of `fronius_storage_tick`; `owed` is `fronius_storage_owed()`.
  abbrev pub talks_to_fronius : Bool → Found F → Task F e → Bool
  talks_to_fronius owed x t =
      (x.options.byd_ctrl && x.options.mode == mode_auto)
      || (t.site.own_byd || (ltb_ℤ x.now t.wanted || owed))

  -- The condition of a new plan.
  abbrev pub plans_anew : Found F → Task F e → Bool
  plans_anew x t =
      not (slot_floor x.now ==ℤ t.last_slot)
      || (t.req.plan
          || (not (x.price_fetched ==ℤ t.price_seen) || not (x.pv_fetched ==ℤ t.pv_seen)))

  -- `plan_now`
  abbrev pub plan_now : Found F → Option (Plan F) → Task F e → Task F e
  plan_now x none t = record t { plan = record { t0 = t.plan.t0; slots = [] } }
  plan_now x (some p) t = record t {
    plan = p;
    price_seen = x.price_fetched;
    pv_seen = x.pv_fetched;
  }

  abbrev pub replan : Found F → Task F e → Task F e
  replan x t =
      if plans_anew x t then record (plan_now x x.made t) { last_slot = slot_floor x.now } else t

  unfoldable pub pass_off : Task F e → Task F e
  pass_off t = record t {
    site = record (release t.site) { acting = false };
    plan = record { t0 = t.plan.t0; slots = [] };
    req = no_req;
  }

module _ (f : Floats) (to_watts to_percent : f.Float → ℤ) {e : Env} where
  open f use {Float}

  unfoldable pub pass : Found Float → Task Float e → Task Float e
  pass x t =
      let t' = replan x t in
      if x.options.mode == mode_off then pass_off t else record t' {
        site = act f to_watts to_percent x.now x.sweeping x.options t'.plan t'.site;
        req = no_req;
      }

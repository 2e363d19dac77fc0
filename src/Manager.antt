-- ===== src/Manager.antt =====
-- main/energy_mgr.c and main/energy_mgr.h: the energy manager carries out a plan with forced
-- charges (main/deye_ctrl.c), the hold of main/modbus_rtu.c and the discharge block of
-- main/fronius_storage.c. This file has its state, and what it reads from a plan.
pub mod Act
pub mod Block
pub mod Owner
pub mod User
pub mod Ended
pub mod Follow
pub mod Requests
pub mod Passes
mod Tests
use deye_inverter_display_es.Common.{
  ℕ, zero, suc, ◌+◌, ◌*◌, ◌/◌, ◌<◌, Bool, true, false, ◌&&◌, ◌||◌, not, ℤ, pos, ◌+ℤ◌, ◌-ℤ◌,
  pos_part, ltb_ℤ, leb_ℤ, ltb, leb, ◌==◌, if◌then◌else◌, Option, none, some, List, [], ◌∷◌, drop,
  length, Floats, u32,
}
use deye_inverter_display_es.Ctrl.{Env, World}
use deye_inverter_display_es.Force.{Session}
use deye_inverter_display_es.Lock.{hold_end}

-- EM_ACT_NORMAL, EM_ACT_HOLD and EM_ACT_CHARGE; the planner writes no other action.
pub data Action : Type 0 where
  as_usual hold charge : Action

abbrev pub action_code : Action → ℕ
action_code as_usual = 0
action_code hold = 1
action_code charge = 2

abbrev pub same_action : Action → Action → Bool
same_action a b = action_code a == action_code b

-- The fields of `em_slot_plan_t` that are acted on.
pub record SlotPlan (F : Type 0) : Type 0 where
  pub act : Action
  pub charge_kw : F
  pub soc_end : F

-- `em_plan_t`: the list is `s[0]` to `s[n - 1]`.
pub record Plan (F : Type 0) : Type 0 where
  pub t0 : ℤ
  pub slots : List (SlotPlan F)

abbrev pub em_slot_s : ℕ
em_slot_s = 900

-- The slot that `now` lies in.
unfoldable pub index_now : {F : Type 0} → ℤ → Plan F → Option ℕ
index_now now p =
    let i = pos_part (now -ℤ p.t0) / em_slot_s in
    if length p.slots == 0 || ltb_ℤ now p.t0
    then none
    else if leb (length p.slots) i
    then none
    else some i

-- How many of the slots on the list go on with the action.
unfoldable pub run_of : {F : Type 0} → Action → List (SlotPlan F) → ℕ
run_of act [] = 0
run_of act (x ∷ xs) = let rest = run_of act xs in if same_action x.act act then suc rest else 0

-- `block_end`, from the slots behind the one at `i`.
unfoldable pub block_end : {F : Type 0} → ℕ → List (SlotPlan F) → ℕ
block_end i [] = i
block_end i (x ∷ xs) = i + run_of x.act xs

module _ (f : Floats) where
  open f use {Float, lt}

  -- The highest `soc_end` of the next `n` slots.
  unfoldable pub highest : ℕ → List (SlotPlan Float) → Float → Float
  highest zero xs best = best
  highest (suc n) [] best = best
  highest (suc n) (x ∷ xs) best = highest n xs (if lt best x.soc_end then x.soc_end else best)

-- The request to the Fronius task: `s_req_on`, `s_req_rvrt` and `s_req_seq`.
pub record Byd : Type 0 where
  pub on : Bool
  pub rvrt : ℕ
  pub seq : ℕ

abbrev pub clamp_rvrt : ℕ → ℕ
clamp_rvrt s =
    let r = if s == 0 then 1800 else s in
    let m = if ltb r 120 then 120 else r in if ltb 7200 m then 7200 else m

abbrev pub same_flag : Bool → Bool → Bool
same_flag true b = b
same_flag false b = not b

-- `fronius_storage_block_discharge`
unfoldable pub block_discharge : Bool → ℕ → Byd → Byd
block_discharge on revert_s b =
    let r = clamp_rvrt revert_s in
    if not (same_flag b.on on) || (on && not (b.rvrt == r))
    then record { on = on; rvrt = if on then r else 0; seq = u32 (b.seq + 1) }
    else b

-- The static variables that acting changes, with the parts that it drives; `hold_until` is
-- `s_hold_until_ms` of main/modbus_rtu.c.
pub record Site (e : Env) : Type 0 where
  pub own_charge : Bool
  pub own_power : ℤ
  pub block_end : ℤ
  pub own_hold : Bool
  pub own_byd : Bool
  pub paused_until : ℤ
  pub acting : Bool
  pub paused : Bool
  pub hold_until : ℕ
  pub byd : Byd
  pub session : Session e

module _ {e : Env} where
  -- `modbus_rtu_set_hold`
  abbrev pub set_hold : ℕ → Site e → Site e
  set_hold for_s s = record s { hold_until = hold_end for_s (u32 (e.now_ms s.session.world.env)) }

-- ===== src/Force.antt =====
-- main/deye_force.c and main/deye_force.h: the operator's forced charge or discharge with a power,
-- a time and a state of charge at which it ends. It runs on `Ctrl` (main/deye_ctrl.c).
pub mod Lifecycle
mod Tests
use deye_inverter_display_es.Common.{
  ℕ, ◌*◌, Bool, true, false, ◌&&◌, ◌||◌, not, ℤ, pos, ◌+ℤ◌, ◌-ℤ◌, ltb_ℤ, leb_ℤ, ◌==ℤ◌, ltb, leb,
  ◌==◌, if◌then◌else◌, Floats,
}
use deye_inverter_display_es.Ctrl.{
  Mode, normal, force_charge, force_discharge, mode_code, Env, World, apply, apply_auto, power_max,
}

-- `deye_force_mode_t`; `other` is any further value of the type.
pub data ForceMode : Type 0 where
  off charge discharge other : ForceMode

abbrev pub is_off : ForceMode → Bool
is_off off = true
is_off _ = false

abbrev pub is_charge : ForceMode → Bool
is_charge charge = true
is_charge _ = false

abbrev pub is_discharge : ForceMode → Bool
is_discharge discharge = true
is_discharge _ = false

abbrev pub force_code : ForceMode → ℕ
force_code off = 0
force_code charge = 1
force_code discharge = 2
force_code other = 3

-- The German text in `end`, by its meaning; `no_reason` is the empty one.
pub data EndReason : Type 0 where
  no_reason by_hand time_up taken_over soc_reached : EndReason

pub data Status : Type 0 where
  ok invalid_arg invalid_state : Status

-- `deye_force_t`
pub record Force : Type 0 where
  pub mode : ForceMode
  pub w : ℕ
  pub until : ℤ
  pub soc : ℕ
  pub active : Bool
  pub end_reason : EndReason

abbrev pub clock_ok : ℤ
clock_ok = pos 1700000000

abbrev pub min_w : ℕ
min_w = 250

abbrev pub max_min : ℕ
max_min = 720

abbrev pub ctrl_mode : ForceMode → Mode
ctrl_mode m = if is_charge m then force_charge else force_discharge

abbrev pub same_mode : Mode → Mode → Bool
same_mode a b = mode_code a == mode_code b

-- `s_f`, and `deye_ctrl`'s state.
pub record Session (e : Env) : Type 0 where
  pub force : Force
  pub world : World e

-- What `modbus_rtu_get_deye_live` reports of the battery.
pub record Live (F : Type 0) : Type 0 where
  pub valid : Bool
  pub online : Bool
  pub bat_soc : F

module _ (e : Env) where
  -- `seen` is the caller's copy of the session: a newer one is left alone.
  unfoldable pub finish : Force → EndReason → Bool → Session e → Session e
  finish seen why to_normal s =
      let c = s.world.ctrl in
      record {
        force =
            if (force_code s.force.mode == force_code seen.mode) && (s.force.until ==ℤ seen.until)
            then record s.force { mode = off; active = false; end_reason = why }
            else s.force;
        world =
            if to_normal && same_mode c.mode (ctrl_mode seen.mode)
            then (apply e normal c.user_power_w s.world).1
            else s.world;
      }

  -- From the range checks on; `deye_ctrl_apply_auto` always returns ESP_OK.
  unfoldable pub begin : ForceMode → ℕ → ℕ → ℕ → ℤ → Session e → Status × Session e
  begin mode w minutes soc now s =
      if ltb w min_w || ltb power_max w
      then (invalid_arg, s)
      else (let m = if minutes == 0 then 60 else minutes in
          if ltb max_min m
          then (invalid_arg, s)
          else if ltb soc 10 || ltb 100 soc
          then (invalid_arg, s)
          else if ltb_ℤ now clock_ok
          then (invalid_state, s)
          else (
            ok,
            record {
              force = record {
                mode = mode;
                w = w;
                until = now +ℤ pos (m * 60);
                soc = soc;
                active = true;
                end_reason = no_reason;
              };
              world =
                  (apply_auto e (ctrl_mode mode) (pos w)
                    (if is_charge mode then pos soc else pos 100) (m * 60) s.world).1;
            },
          ))

  unfoldable pub set : ForceMode → ℕ → ℕ → ℕ → ℤ → Session e → Status × Session e
  set mode w minutes soc now s =
      if is_off mode
      then (ok, if is_off s.force.mode then s else finish s.force by_hand true s)
      else if not (is_charge mode) && not (is_discharge mode)
      then (invalid_arg, s)
      else begin mode w minutes soc now s

  -- `deye_ctrl` still runs what the session put there.
  abbrev pub is_ours : Session e → Bool
  is_ours s =
      same_mode s.world.ctrl.mode (ctrl_mode s.force.mode)
      && (s.world.ctrl.user_power_w ==ℤ pos s.force.w)

  module _ (f : Floats) where
    open f use {Float, le, is_finite, of_int}

    -- The charge target is reached, or the discharge floor.
    abbrev pub is_at_target : Force → Live Float → Bool
    is_at_target g l =
        (l.valid && (l.online && is_finite l.bat_soc))
        && ((is_charge g.mode && le (of_int (pos g.soc)) l.bat_soc)
            || (is_discharge g.mode && le l.bat_soc (of_int (pos g.soc))))

    unfoldable pub tick : ℤ → Live Float → Session e → Session e
    tick now live s =
        let g = s.force in
        if is_off g.mode
        then s
        else if not (is_ours s)
        then finish g
            (if leb_ℤ clock_ok now && leb_ℤ (g.until -ℤ pos 15) now then time_up else taken_over)
            false s
        else if leb_ℤ clock_ok now && leb_ℤ g.until now
        then finish g time_up true s
        else if is_at_target g live
        then finish g soc_reached true s
        else s

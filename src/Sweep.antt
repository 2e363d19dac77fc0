-- ===== src/Sweep.antt =====
-- main/eff_sweep.c and main/eff_sweep.h: a series of forced charges and discharges that measures
-- the inverter's efficiency. It drives `Ctrl` (main/deye_ctrl.c); this file holds its state.
pub mod Request
pub mod Moves
pub mod Tick
pub mod Sort
pub mod Ready
mod Expect
pub mod Course
mod Round
pub mod Safety
mod Tests
use deye_inverter_display_es.Common.{ℕ, Bool, true, false, ℤ, List, ◌==◌}
use deye_inverter_display_es.Ctrl.{Mode, mode_code, Env, World}

-- `eff_sweep_state_t`
pub data SweepState : Type 0 where
  idle running done aborted : SweepState

-- `eff_sweep_step_state_t`
pub data StepState : Type 0 where
  pending settle measure finished skipped : StepState

abbrev pub is_running : SweepState → Bool
is_running running = true
is_running _ = false

abbrev pub is_finished : StepState → Bool
is_finished finished = true
is_finished _ = false

-- The German text in `why`, by its meaning; `unset` is the empty one.
pub data Why : Type 0 where
  unset going complete stopped changed_outside offline unconfirmed : Why

abbrev pub same_mode : Mode → Mode → Bool
same_mode a b = mode_code a == mode_code b

-- `eff_sweep_step_t`
pub record Step (F : Type 0) : Type 0 where
  pub mode : Mode
  pub state : StepState
  pub target_w : ℕ
  pub soc0 : ℕ
  pub soc1 : ℕ
  pub n : ℕ
  pub n_grid : ℕ
  pub in_sum : F
  pub out_sum : F
  pub ac_sum : F
  pub pv_sum : F
  pub grid_sum : F
  pub ac_g_sum : F

-- `eff_sweep_req_t`; `npow` is the length of `powers`.
pub record Req : Type 0 where
  pub dirs : ℕ
  pub powers : List ℕ
  pub dwell_s : ℕ
  pub settle_s : ℕ
  pub soc_min : ℕ
  pub soc_max : ℕ

-- What the sweep reads of `mb_deye_live_t`.
pub record Live (F : Type 0) : Type 0 where
  pub valid : Bool
  pub online : Bool
  pub age_ms : ℕ
  pub rounds : ℕ
  pub bat_soc : F
  pub bat_p : F
  pub pv_total : F
  pub inv_total : F
  pub eff_ok : Bool

-- `eff_sweep_status_t` with the static variables beside it; `nsteps` is the length of `steps`.
pub record Sweep (F : Type 0) : Type 0 where
  pub state : SweepState
  pub why : Why
  pub cur : ℕ
  pub paused : Bool
  pub req : Req
  pub start_unix : ℕ
  pub elapsed_s : ℕ
  pub step_s : ℕ
  pub writes : ℕ
  pub steps : List (Step F)
  pub stop_req : Bool
  pub t0_ms : ℕ
  pub step_t0_ms : ℕ
  pub pause_until_ms : ℕ
  pub offline_ms : ℕ
  pub applied : Bool
  pub exp_mode : Mode
  pub exp_power : ℤ
  pub user_power0 : ℤ
  pub writes0 : ℕ
  pub last_round : ℕ

pub record Setup (e : Env) (F : Type 0) : Type 0 where
  pub sweep : Sweep F
  pub world : World e

-- ===== src/Ctrl/State.antt =====
-- main/deye_ctrl.c and main/deye_ctrl.h: the data of the inverter's mode control, its static variables
-- and what it calls.
use deye_inverter_display_es.Common.{
  ℕ, ◌≡◌, ◌≢◌, Bool, true, false, ◌||◌, ℤ, pos, ltb_ℤ, ltb, ◌==◌, if◌then◌else◌,
}

-- `deye_mode_t`; values from DEYE_MODE_COUNT on are `count`.
pub data Mode : Type 0 where
  normal force_charge force_discharge count : Mode

abbrev pub is_normal : Mode → Bool
is_normal normal = true
is_normal _ = false

abbrev pub is_count : Mode → Bool
is_count count = true
is_count _ = false

abbrev pub is_discharge : Mode → Bool
is_discharge force_discharge = true
is_discharge _ = false

abbrev pub mode_code : Mode → ℕ
mode_code normal = 0
mode_code force_charge = 1
mode_code force_discharge = 2
mode_code count = 3

abbrev pub mode_of : ℕ → Mode
mode_of n =
    if n == 0
    then normal
    else if n == 1
    then force_charge
    else if n == 2
    then force_discharge
    else count

abbrev pub force_max_s : ℕ
force_max_s = 7200

abbrev pub auto_max_s : ℕ
auto_max_s = 43200

abbrev pub power_min : ℕ
power_min = 1000

abbrev pub power_max : ℕ
power_max = 20000

abbrev pub power_floor : ℕ
power_floor = 250

abbrev pub undo_tries_max : ℕ
undo_tries_max = 6

-- What the module calls: the uptime in milliseconds, the RS485 bus (`modbus_rtu_deye_write`, and
-- `modbus_rtu_deye_read` of one register) and the stored mode and power (`nvs_store.c`).
pub record Env : Type 1 where
  pub State : Type 0
  pub now_ms : State → ℕ
  pub deye_write : ℕ → ℕ → State → ℤ × State
  pub deye_read : ℕ → State → ℤ × ℕ × State
  pub get_mode : State → ℕ
  pub set_mode : ℕ → State → State
  pub get_power : State → ℕ
  pub set_power : ℕ → State → State

-- The inverter's holding registers: a write changes at most the register that it names, a read
-- that succeeds reports the register and changes none; the stored mode is apart from the bus.
pub record EnvLaws (e : Env) : Type 0 where
  pub reg : e.State → ℕ → ℕ
  pub read_reg : (a : ℕ) (s : e.State) → (e.deye_read a s).0 ≡ pos 0 → (e.deye_read a s).1 ≡ reg s a
  pub reg_read : (a b : ℕ) (s : e.State) → reg (e.deye_read a s).2 b ≡ reg s b
  pub reg_write : (a b v : ℕ) (s : e.State) → a ≢ b → reg (e.deye_write a v s).1 b ≡ reg s b
  pub reg_set_mode : (m b : ℕ) (s : e.State) → reg (e.set_mode m s) b ≡ reg s b
  pub mode_read : (a : ℕ) (s : e.State) → e.get_mode (e.deye_read a s).2 ≡ e.get_mode s
  pub mode_write : (a v : ℕ) (s : e.State) → e.get_mode (e.deye_write a v s).1 ≡ e.get_mode s

-- The static variables; `has_task` is `s_task != NULL`, `notified` its pending notification.
pub record Ctrl : Type 0 where
  pub mode : Mode
  pub power_w : ℤ
  pub user_power_w : ℤ
  pub has_task : Bool
  pub notified : Bool
  pub mode_ms : ℕ
  pub limit_s : ℕ
  pub charge_soc : ℕ
  pub checked : ℕ
  pub failed : ℕ
  pub writes : ℕ
  pub write_full : Bool
  pub undo_pending : Bool
  pub undo_mode : ℕ
  pub undo_tries : ℕ

abbrev pub initial : Ctrl
initial = record {
  mode = normal;
  power_w = pos 5000;
  user_power_w = pos 5000;
  has_task = false;
  notified = false;
  mode_ms = 0;
  limit_s = force_max_s;
  charge_soc = 99;
  checked = 0;
  failed = 0;
  writes = 0;
  write_full = false;
  undo_pending = false;
  undo_mode = 0;
  undo_tries = 0;
}

pub record World (e : Env) : Type 0 where
  pub ctrl : Ctrl
  pub env : e.State

-- `xTaskNotifyGive`, if the task runs.
abbrev pub notify : Ctrl → Ctrl
notify c = record c { notified = c.has_task || c.notified }

abbrev pub clamp_power : ℤ → ℤ → ℤ
clamp_power floor_w power_w =
    let p = if ltb_ℤ power_w floor_w then floor_w else power_w in
    if ltb_ℤ (pos power_max) p then pos power_max else p

-- The clamps of `deye_ctrl_apply_auto`.
abbrev pub clamp_soc : ℤ → ℤ
clamp_soc target_soc =
    let soc = if ltb_ℤ target_soc (pos 10) then pos 10 else target_soc in
    if ltb_ℤ (pos 100) soc then pos 100 else soc

abbrev pub clamp_limit : ℕ → ℕ
clamp_limit limit_s =
    let limit = if ltb limit_s 60 then 60 else limit_s in
    if ltb auto_max_s limit then auto_max_s else limit

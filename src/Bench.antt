-- ===== src/Bench.antt =====
-- A small inverter for the tests: a table of registers on a bus that may be unplugged.
use deye_inverter_display_es.Common.{
  ℕ, ◌≡◌, ◌≢◌, refl, Bool, true, false, ℤ, pos, negsuc, arith, if◌then◌else◌, ◌==◌, ==_iff,
}
use deye_inverter_display_es.Ctrl.{Env, EnvLaws, World, initial}

pub record Rig : Type 0 where
  pub now : ℕ
  pub reg : ℕ → ℕ
  pub plugged : Bool
  pub stored : ℕ
  pub power : ℕ

abbrev pub put : ℕ → ℕ → (ℕ → ℕ) → ℕ → ℕ
put a v f b = if a == b then v else f b

abbrev pub rig_write : ℕ → ℕ → Rig → ℤ × Rig
rig_write a v s = if s.plugged then (pos 0, record s { reg = put a v s.reg }) else (negsuc 0, s)

abbrev pub rig_read : ℕ → Rig → ℤ × ℕ × Rig
rig_read a s = (if s.plugged then pos 0 else negsuc 0, if s.plugged then s.reg a else 0, s)

abbrev pub bench : Env
bench = record {
  State = Rig;
  now_ms = λ s. s.now;
  deye_write = rig_write;
  deye_read = rig_read;
  get_mode = λ s. s.stored;
  set_mode = λ m s. record s { stored = m };
  get_power = λ s. s.power;
  set_power = λ p s. record s { power = p };
}

pub bench_read : (a : ℕ) (s : Rig) → (rig_read a s).0 ≡ pos 0 → (rig_read a s).1 ≡ s.reg a
bench_read a s h = ground arith

pub bench_write : (a b v : ℕ) (s : Rig) → a ≢ b → (rig_write a v s).1.reg b ≡ s.reg b
bench_write a b v s ne = ground (arith, ==_iff a b)

pub bench_stored : (a v : ℕ) (s : Rig) → (rig_write a v s).1.stored ≡ s.stored
bench_stored a v s = ground arith

abbrev pub bench_laws : EnvLaws bench
bench_laws = record {
  reg = λ s. s.reg;
  read_reg = bench_read;
  reg_read = λ a b s. refl;
  reg_write = bench_write;
  reg_set_mode = λ m b s. refl;
  mode_read = λ a s. refl;
  mode_write = bench_stored;
}

abbrev pub plugged : Rig
plugged = record { now = 100000; reg = λ _. 0; plugged = true; stored = 2; power = 8000 }

abbrev pub unplugged : Rig
unplugged = record plugged { plugged = false }

abbrev pub booted : World bench
booted = record { ctrl = initial; env = plugged }

-- ===== src/Lock.antt =====
-- main/bat_lock.c, and the lock of main/modbus_rtu.c that it renews: the operator's discharge locks
-- of the two batteries. The flash that keeps them is an interface.
pub mod Expiry
mod Tests
use deye_inverter_display_es.Common.{
  ℕ, ◌+◌, ◌*◌, ◌≤◌, ◌≡◌, Bool, true, false, ◌&&◌, not, ℤ, pos, ◌+ℤ◌, leb_ℤ, ltb_ℤ, ◌==ℤ◌, Option,
  none, some, ltb, leb, ◌==◌, if◌then◌else◌, u32, sub32,
}

-- `bat_t`; `other` is any further value of the type.
pub data Battery : Type 0 where
  deye byd other : Battery

pub data Status : Type 0 where
  ok invalid_arg invalid_state : Status

-- `bat_lock_t`
pub record BatLock : Type 0 where
  pub on : Bool
  pub until : ℤ

abbrev pub off : BatLock
off = record { on = false; until = pos 0 }

abbrev pub renew_s : ℕ
renew_s = 120

abbrev pub max_min : ℕ
max_min = 1440

abbrev pub clock_ok : ℤ
clock_ok = pos 1700000000

-- The stored record: `bl_rec_t`, its first version, and any other version.
pub data Stored : Type 0 where
  both : BatLock → BatLock → Stored
  deye_only : BatLock → Stored
  unknown : Stored

-- `nvs_store_get_dlock` and `nvs_store_set_dlock`, which reports success.
pub record Flash : Type 1 where
  pub State : Type 0
  pub get : State → Option Stored
  pub put : Stored → State → Bool × State

-- What was stored with success is there after a restart; a store that fails leaves the record.
pub record FlashLaws (n : Flash) : Type 0 where
  pub get_put : (r : Stored) (s : n.State) → (n.put r s).0 ≡ true → n.get (n.put r s).1 ≡ some r

-- `s_lock`, the lock of the RTU module, the request to the Fronius module with its counter, the
-- flash, and whether the last store failed.
pub record Locks (n : Flash) : Type 0 where
  pub deye_lock : BatLock
  pub byd_lock : BatLock
  pub lock_until_ms : ℕ
  pub req_lock : Bool
  pub req_seq : ℕ
  pub flash : n.State
  pub unsaved : Bool

-- `modbus_rtu_set_lock`: the time that the lock ends, 0 for off.
unfoldable pub lock_end : ℕ → ℕ → ℕ
lock_end for_s now_ms =
    let s = if ltb 3600 for_s then 3600 else for_s in
    let until = if s == 0 then 0 else u32 (now_ms + s * 1000) in
    if not (s == 0) && until == 0 then 1 else until

-- `modbus_rtu_lock_active`; `(int32_t)x > 0` is x from 1 to 2^31 - 1.
unfoldable pub lock_active : ℕ → ℕ → Bool
lock_active until now_ms =
    let left = sub32 until now_ms in not (until == 0) && (ltb 0 left && ltb left 0x80000000)

abbrev pub is_battery : Battery → Bool
is_battery other = false
is_battery _ = true

-- A timed lock has run out; without a clock it stays on.
abbrev pub is_over : ℤ → BatLock → Bool
is_over now b = b.on && (not (b.until ==ℤ pos 0) && (leb_ℤ clock_ok now && leb_ℤ b.until now))

-- The lock read from a record: no end where it is off.
abbrev pub read_lock : BatLock → BatLock
read_lock b = record { on = b.on; until = if b.on then b.until else pos 0 }

abbrev pub restored : Option Stored → BatLock × BatLock
restored none = (off, off)
restored (some (both d b)) = (read_lock d, read_lock b)
restored (some (deye_only d)) = (read_lock d, off)
restored (some unknown) = (off, off)

-- `modbus_rtu_set_hold` and `modbus_rtu_hold_active`: the energy manager's own hold, by the same
-- rule.
abbrev pub hold_end : ℕ → ℕ → ℕ
hold_end for_s now_ms = lock_end for_s now_ms

abbrev pub hold_active : ℕ → ℕ → Bool
hold_active until now_ms = lock_active until now_ms

module _ {n : Flash} where
  abbrev pub set_lock : ℕ → ℕ → Locks n → Locks n
  set_lock for_s now_ms l = record l { lock_until_ms = lock_end for_s now_ms }

  -- `fronius_storage_lock_discharge`
  abbrev pub lock_discharge : Bool → Locks n → Locks n
  lock_discharge on l =
      if (if on then l.req_lock else not l.req_lock)
      then l
      else record l { req_lock = on; req_seq = u32 (l.req_seq + 1) }

  abbrev pub persist : Locks n → Locks n
  persist l =
      let (saved, s) = n.put (both l.deye_lock l.byd_lock) l.flash in
      record l { flash = s; unsaved = not saved }

  abbrev pub put_lock : Battery → BatLock → Locks n → Locks n
  put_lock deye b l = record l { deye_lock = b }
  put_lock byd b l = record l { byd_lock = b }
  put_lock other b l = l

  -- `bat_lock_set` from the store of the new lock on; `now_ms` is the uptime.
  unfoldable pub take_over : Battery → BatLock → ℕ → Locks n → Locks n
  take_over deye b now_ms l =
      set_lock (if b.on then renew_s else 0) now_ms (persist (put_lock deye b l))
  take_over byd b now_ms l =
      let l' = persist (put_lock byd b l) in if b.on then l' else lock_discharge false l'
  take_over other b now_ms l = l

  unfoldable pub set : Battery → Bool → ℕ → ℤ → ℕ → Locks n → Status × Locks n
  set which on minutes now now_ms l =
      if not (is_battery which)
      then (invalid_arg, l)
      else if not on
      then (ok, take_over which off now_ms l)
      else if ltb max_min minutes
      then (invalid_arg, l)
      else if not (minutes == 0) && ltb_ℤ now clock_ok
      then (invalid_state, l)
      else (
        ok,
        take_over which
            (record {
              on = true;
              until = if minutes == 0 then pos 0 else now +ℤ pos (minutes * 60);
            })
            now_ms l,
      )

  abbrev pub end_lock : Battery → BatLock → ℤ → ℕ → Locks n → Locks n
  end_lock which b now now_ms l = if is_over now b then (set which false 0 now now_ms l).1 else l

  unfoldable pub tick : ℤ → ℕ → Bool → Locks n → Locks n
  tick now now_ms byd_allowed l =
      let deye_on = l.deye_lock.on && not (is_over now l.deye_lock) in
      let byd_on = l.byd_lock.on && not (is_over now l.byd_lock) in
      let l1 = end_lock deye l.deye_lock now now_ms l in
      let l2 = end_lock byd l.byd_lock now now_ms l1 in
      let l3 = if deye_on then set_lock renew_s now_ms l2 else l2 in
      lock_discharge (byd_on && byd_allowed) l3

  unfoldable pub init : ℕ → Locks n → Locks n
  init now_ms l =
      let (d, b) = restored (n.get l.flash) in
      let l' = record l { deye_lock = d; byd_lock = b } in
      if d.on then set_lock renew_s now_ms l' else l'

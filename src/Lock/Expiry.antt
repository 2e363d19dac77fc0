-- ===== src/Lock/Expiry.antt =====
-- main/bat_lock.c: how long a lock holds, and that a restart keeps it.
use deye_inverter_display_es.Common.{
  ℕ, ◌+◌, ◌*◌, ◌<◌, ◌≡◌, Bool, true, false, ◌&&◌, ℤ, pos, if◌then◌else◌, arith, u32, min, ◌+ℤ◌, ap,
  ◌^◌, ◌==◌, leb_ℤ, ◌≢◌, ◌⊎◌, inl, inr, refl, sym, subst, if_lem, ==ℤ_sound, ◌==ℤ◌, Bool-cases,
}
use deye_inverter_display_es.Lock.{
  Battery, deye, byd, other, ok, BatLock, Flash, FlashLaws, Locks, lock_end, lock_active, set,
  take_over, tick, init, is_over, both, off, is_battery,
}

-- A lock that is off has no end.
abbrev pub IsTidy : {n : Flash} → Locks n → Type 0
IsTidy l =
    (l.deye_lock.on ≡ false → l.deye_lock.until ≡ pos 0)
    × (l.byd_lock.on ≡ false → l.byd_lock.until ≡ pos 0)

-- A lock asked for `for_s` seconds, an hour at most, holds for exactly that time on the wrapping
-- clock, for one millisecond more where it would end at 0: it is in force before, and no longer in
-- the 24 days after.
pub lock_end_lasts :
    (for_s t d : ℕ)
    → t < 2 ^ 32
    → d < 2 ^ 31
    → let s = min for_s 3600 in
      let on = lock_active (lock_end for_s t) (u32 (t + d)) in
      (d < s * 1000 → on ≡ true) × (s * 1000 < d → on ≡ false)
unfolding lock_end lock_active
lock_end_lasts for_s t d h k = ground arith

-- From `b` before a tick at `now` to `b'` after it: a lock is left on as it is exactly where it was
-- on and has no end, or the clock is not set, or its end is still to come.
abbrev pub Outlasts : ℤ → BatLock → BatLock → Type 0
Outlasts now b b' =
    ((b'.on ≡ true)
      × (b' ≡ b)
      × ((b.until ≡ pos 0) ⊎ ((leb_ℤ (pos 1700000000) now ≡ false) ⊎ (leb_ℤ b.until now ≡ false))))
    ⊎ ((b'.on ≡ false)
        × ((b.on ≡ false)
            ⊎ ((b.until ≢ pos 0)
                × (leb_ℤ (pos 1700000000) now ≡ true)
                × (leb_ℤ b.until now ≡ true))))

end_ahead :
    (now : ℤ) (b : BatLock)
    → b.on ≡ true
    → is_over now b ≡ false
    → (b.until ≡ pos 0) ⊎ ((leb_ℤ (pos 1700000000) now ≡ false) ⊎ (leb_ℤ b.until now ≡ false))
end_ahead now b on q = elim (Bool-cases (b.until ==ℤ pos 0)) [
  | inl endless ↦ inl (==ℤ_sound b.until (pos 0) endless)
  | inr timed ↦ inr (ground (arith, on, q, timed))
]

outlasts : (now : ℤ) (b b' : BatLock) → b' ≡ (if is_over now b then off else b) → Outlasts now b b'
outlasts now b b' h = subst (Outlasts now b) (sym h) (
    if_lem (Outlasts now b) (is_over now b) off b (λ q. inr (refl, inr (ground (arith, q))))
      (λ q. elim (Bool-cases b.on) [
        | inl on ↦ inl (on, refl, end_ahead now b on q)
        | inr out ↦ inr (out, inl out)
      ]))

module _ {n : Flash} where
  ended_deye :
      (now : ℤ) (now_ms : ℕ) (allowed : Bool) (l : Locks n)
      → (tick now now_ms allowed l).deye_lock
        ≡ (if is_over now l.deye_lock then off else l.deye_lock)
  unfolding tick set take_over
  ended_deye now now_ms allowed l = ground arith

  ended_byd :
      (now : ℤ) (now_ms : ℕ) (allowed : Bool) (l : Locks n)
      → (tick now now_ms allowed l).byd_lock ≡ (if is_over now l.byd_lock then off else l.byd_lock)
  unfolding tick set take_over
  ended_byd now now_ms allowed l = ground arith

  -- A tick leaves a lock on, as it is, where it was on and has no end, or its end is still to come,
  -- or the clock is not set, and ends every other one; the Fronius module is asked for exactly the
  -- lock that is left on and allowed, and the lock of the RTU module is renewed where the Deye's is
  -- left on.
  pub tick_outcome :
      (now : ℤ) (now_ms : ℕ) (allowed : Bool) (l : Locks n)
      → let l' = tick now now_ms allowed l in
        Outlasts now l.deye_lock l'.deye_lock
        × Outlasts now l.byd_lock l'.byd_lock
        × (l'.req_lock ≡ (l'.byd_lock.on && allowed))
        × (l'.deye_lock.on ≡ true → l'.lock_until_ms ≡ lock_end 120 now_ms)
  unfolding tick set take_over
  tick_outcome now now_ms allowed l = (
    outlasts now l.deye_lock _ (ended_deye now now_ms allowed l),
    outlasts now l.byd_lock _ (ended_byd now now_ms allowed l),
    ground arith,
    λ q. ground arith,
  )

  module _ (laws : FlashLaws n) where
    open laws use {get_put}

    -- What `init` reads after a store that did not fail.
    init-take_over :
        (which : Battery) (b : BatLock) (t boot : ℕ) (l fresh : Locks n)
        → is_battery which ≡ true
        → IsTidy l
        → (b.on ≡ false → b.until ≡ pos 0)
        → let l' = take_over which b t l in
          l'.unsaved ≡ false
          → fresh.flash ≡ l'.flash
          → let l'' = init boot fresh in
            (l''.deye_lock ≡ l'.deye_lock)
            × (l''.byd_lock ≡ l'.byd_lock)
            × (l''.deye_lock.on ≡ true → l''.lock_until_ms ≡ lock_end 120 boot)
    unfolding take_over init
    init-take_over deye b t boot l fresh is tidy end saved same =
        ground (arith, tidy, end, ap n.get same, get_put (both b l.byd_lock) l.flash)
    init-take_over byd b t boot l fresh is tidy end saved same =
        ground (arith, tidy, end, ap n.get same, get_put (both l.deye_lock b) l.flash)
    init-take_over other b t boot l fresh is tidy end saved same = ground (arith, is)

    -- A lock that was set and stored is there again after a restart, with its end, if a lock that
    -- is off had no end before; and the Deye's is then in force at once.
    pub init-set :
        (which : Battery) (on : Bool) (minutes : ℕ) (now : ℤ) (t boot : ℕ) (l fresh : Locks n)
        → IsTidy l
        → let (r, l') = set which on minutes now t l in
          r ≡ ok
          → l'.unsaved ≡ false
          → fresh.flash ≡ l'.flash
          → let l'' = init boot fresh in
            (l''.deye_lock ≡ l'.deye_lock)
            × (l''.byd_lock ≡ l'.byd_lock)
            × (l''.deye_lock.on ≡ true → l''.lock_until_ms ≡ lock_end 120 boot)
    unfolding set
    init-set which on minutes now t boot l fresh tidy done saved same =
        let timed : BatLock = record {
          on = true;
          until = if minutes == 0 then pos 0 else now +ℤ pos (minutes * 60);
        } in
        ground (
          arith,
          init-take_over which off t boot l fresh,
          init-take_over which timed t boot l fresh,
        )

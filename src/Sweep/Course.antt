-- ===== src/Sweep/Course.antt =====
-- main/eff_sweep.c: over every tick, the sweep finds what it put in force, turns through Normal, and
-- leaves Normal behind.
use deye_inverter_display_es.Common.{
  ℕ, ◌≡◌, ◌≢◌, ◌⊎◌, inl, ap, sym, refl, subst, ◌∙◌, Bool, true, false, pos, some, get_elem?, ◌+◌,
  Floats, arith,
}
use deye_inverter_display_es.Ctrl.{normal, force_charge, force_discharge, count, Mode, Env, World}
use deye_inverter_display_es.Sweep.{
  running, aborted, settle, measure, finished, skipped, Step, Live, Sweep, Setup, SweepState, Why,
  unconfirmed,
}
use deye_inverter_display_es.Sweep.Moves.{put, finish, is_foreign, edit}
use deye_inverter_display_es.Sweep.Tick.{
  tick_pending, tick_settle, tick_measure, take_round, soc_of,
}
use deye_inverter_display_es.Sweep.Expect.{
  AreForced, get-AreForced, edit-AreForced, skip_mode-AreForced, put_expected, finish_ends,
}

-- A change of the mode that does not lead from a charge straight to a discharge, or back.
abbrev pub Turned : Mode → Mode → Type 0
Turned m m' = (m' ≡ m) ⊎ ((m ≡ normal) ⊎ (m' ≡ normal))

module _ (e : Env) {F : Type 0} where
  -- A running sweep that finds what it put in force, or has put nothing over Normal yet.
  pub record IsOnCourse (b : Setup e F) : Type 0 where
    pub going_on : b.sweep.state ≡ running
    pub own : is_foreign e b ≡ false
    pub forced : AreForced b.sweep.steps
    pub fresh : b.sweep.applied ≡ false → b.world.ctrl.mode ≡ normal

  -- What a part of a tick may do.
  pub record IsFine (b b' : Setup e F) : Type 0 where
    pub on : b'.sweep.state ≡ running → IsOnCourse b'
    pub turn : Turned b.world.ctrl.mode b'.world.ctrl.mode
    pub ended :
        b'.sweep.state ≢ running
        → (b'.sweep.applied ≡ false)
          × ((b'.world ≡ b.world) ⊎ (b'.world.ctrl.mode ≡ normal))
          × (b.sweep.applied ≡ true → b'.world.ctrl.mode ≡ normal)

  -- A change that touches neither the inverter's control nor what is expected of it.
  pub kept-IsFine :
      (b b' : Setup e F)
      → IsOnCourse b
      → b'.world ≡ b.world
      → b'.sweep.state ≡ running
      → b'.sweep.applied ≡ b.sweep.applied
      → b'.sweep.exp_mode ≡ b.sweep.exp_mode
      → b'.sweep.exp_power ≡ b.sweep.exp_power
      → AreForced b'.sweep.steps
      → IsFine b b'
  unfolding is_foreign
  kept-IsFine b b' h w s a m p f = record {
    on = λ _. record {
      going_on = s;
      own = ground (arith, h.own);
      forced = f;
      fresh = ground (arith, h.fresh);
    };
    turn = inl (ap (λ (u : World e). u.ctrl.mode) w);
    ended = λ no. absurd (no s);
  }

  pub finish-IsFine :
      (st : SweepState) (y : Why) (b : Setup e F)
      → st ≢ running
      → IsOnCourse b
      → IsFine b (finish e st y true b)
  finish-IsFine st y b ne h =
      (let ends = finish_ends e st y true b in
        record {
          on = λ go. absurd (ne (sym ends.0 ∙ go));
          turn = ground (arith, ends);
          ended = λ _. (ends.1, ends.2, ends.3 refl);
        })

module _ (e : Env) (f : Floats) (half : f.Float) where
  open f use {Float}

  forced_mode : (m : Mode) → (m ≡ force_charge) ⊎ (m ≡ force_discharge) → (m ≢ normal) × (m ≢ count)
  forced_mode m h = ground arith

  pub pending-IsFine :
      (now : ℕ) (l : Live Float) (online : Bool) (p : Step Float) (b : Setup e Float)
      → IsOnCourse e b
      → get_elem? b.sweep.steps b.sweep.cur ≡ some p
      → IsFine e b (tick_pending e f half now l online p b)
  unfolding tick_pending is_foreign
  pending-IsFine now l online p b h at_cur =
      let modes = forced_mode p.mode (get-AreForced b.sweep.steps b.sweep.cur p h.forced at_cur) in
      let back = put_expected e normal b.sweep.user_power0 b (λ (k : normal ≡ count). cc) in
      let put_p = put_expected e p.mode (pos p.target_w) b modes.1 in
      let started = put e p.mode (pos p.target_w) b in
      let q = record p { state = settle; soc0 = soc_of e f half l } in
      ground (
        arith,
        modes,
        back,
        put_p,
        skip_mode-AreForced b.sweep.cur p.mode b.sweep.steps h.forced,
        subst AreForced (sym back.4) h.forced,
        edit-AreForced q started.sweep p (subst AreForced (sym put_p.4) h.forced)
            (rw (put_p.4, put_p.6) at_cur) refl,
      )

  pub settle-IsFine :
      (now : ℕ) (l : Live Float) (p : Step Float) (b : Setup e Float)
      → IsOnCourse e b
      → get_elem? b.sweep.steps b.sweep.cur ≡ some p
      → IsFine e b (tick_settle e f half now l p b)
  unfolding tick_settle is_foreign
  settle-IsFine now l p b h at_cur =
      let over = record p { state = skipped } in
      let begun = record p { state = measure; soc0 = soc_of e f half l } in
      let over_forced = edit-AreForced over b.sweep p h.forced at_cur refl in
      ground (
        arith,
        over_forced,
        skip_mode-AreForced b.sweep.cur p.mode (edit over b.sweep).steps over_forced,
        edit-AreForced begun b.sweep p h.forced at_cur refl,
        finish-IsFine e aborted unconfirmed b (λ (k : aborted ≡ running). cc) h,
      )

  take_round_mode :
      (l : Live Float) (grid_ok : Bool) (grid_w : Float) (p : Step Float)
      → (take_round e f half l grid_ok grid_w p).mode ≡ p.mode
  unfolding take_round
  take_round_mode l grid_ok grid_w p = ground arith

  -- The measuring leaves the inverter's control alone.
  pub measure-IsKept :
      (now : ℕ) (l : Live Float) (online grid_ok : Bool) (grid_w : Float) (p : Step Float)
      (s : Sweep Float)
      → AreForced s.steps
      → get_elem? s.steps s.cur ≡ some p
      → let t = (tick_measure e f half now l online grid_ok grid_w p s).1 in
        (t.state ≡ s.state)
        × (t.applied ≡ s.applied)
        × (t.exp_mode ≡ s.exp_mode)
        × (t.exp_power ≡ s.exp_power)
        × AreForced t.steps
  unfolding tick_measure
  measure-IsKept now l online grid_ok grid_w p s h at_cur =
      let q = take_round e f half l grid_ok grid_w p in
      let same = take_round_mode l grid_ok grid_w p in
      let taken = edit-AreForced (record q { state = finished }) s p h at_cur same in
      let idle_end = edit-AreForced (record p { state = finished }) s p h at_cur refl in
      ground (
        arith,
        taken,
        idle_end,
        edit-AreForced q s p h at_cur same,
        edit-AreForced p s p h at_cur refl,
        skip_mode-AreForced (s.cur + 1) p.mode (edit (record q { state = finished }) s).steps taken,
        skip_mode-AreForced (s.cur + 1) p.mode (edit (record p { state = finished }) s).steps
            idle_end,
      )

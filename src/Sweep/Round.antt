-- ===== src/Sweep/Round.antt =====
-- main/eff_sweep.c: a whole tick of a running sweep, step by step.
use deye_inverter_display_es.Common.{
  ℕ, zero, suc, ◌≡◌, ◌⊎◌, inl, inr, ap, refl, subst, ◌∙◌, Bool, true, false, some, get_elem?, ◌/◌,
  if◌then◌else◌, Floats, arith, sub32, leb, ◌*◌, Bool-cases, Option-cases, ◌==◌,
}
use deye_inverter_display_es.Ctrl.{normal, Env, World}
use deye_inverter_display_es.Sweep.{
  running, done, aborted, pending, settle, measure, finished, skipped, Step, Live, Setup, StepState,
  Why, complete, stopped, offline,
}
use deye_inverter_display_es.Sweep.Moves.{finish, is_foreign, is_online, offline_s, is_pending}
use deye_inverter_display_es.Sweep.Tick.{step_tick, passes, tick_steps, tick_running}
use deye_inverter_display_es.Sweep.Expect.{finish_ends}
use deye_inverter_display_es.Sweep.Course.{
  Turned, IsOnCourse, IsFine, kept-IsFine, finish-IsFine, pending-IsFine, settle-IsFine,
  measure-IsKept,
}

StepState-cases :
    (k : StepState)
    → (k ≡ pending) ⊎ ((k ≡ settle) ⊎ ((k ≡ measure) ⊎ ((k ≡ finished) ⊎ (k ≡ skipped))))
StepState-cases k = ground arith

module _ (e : Env) (f : Floats) (half : f.Float) where
  open f use {Float}

  step-IsFine :
      (now : ℕ) (l : Live Float) (online grid_ok : Bool) (grid_w : Float) (p : Step Float)
      (b : Setup e Float)
      → IsOnCourse e b
      → get_elem? b.sweep.steps b.sweep.cur ≡ some p
      → let (more, b') = step_tick e f half now l online grid_ok grid_w p b in
        IsFine e b b'
        × (more ≡ true
            → (b'.sweep.state ≡ running)
              × (b'.world ≡ b.world)
              × (b'.sweep.applied ≡ b.sweep.applied))
  unfolding step_tick is_foreign
  step-IsFine now l online grid_ok grid_w p b h at_cur =
      let s = record b.sweep {
        step_s = if is_pending p.state then 0 else sub32 now b.sweep.step_t0_ms / 1000;
      } in
      let b1 : Setup e Float = record b { sweep = s } in
      let h1 : IsOnCourse e b1 = record {
        going_on = h.going_on;
        own = h.own;
        forced = h.forced;
        fresh = h.fresh;
      } in
      elim (StepState-cases p.state) [
        | inl k ↦ ground (arith, k, pending-IsFine e f half now l online p b1 h1 at_cur)
        | inr (inl k) ↦ ground (arith, k, settle-IsFine e f half now l p b1 h1 at_cur)
        | inr (inr (inl k)) ↦
            ground
              (arith, k, measure-IsKept e f half now l online grid_ok grid_w p s h.forced at_cur)
        | inr (inr (inr k)) ↦ ground (arith, k)
      ]

  IsFine-trans :
      (a b c : Setup e Float)
      → b.world ≡ a.world
      → b.sweep.applied ≡ a.sweep.applied
      → IsFine e b c
      → IsFine e a c
  IsFine-trans a b c w k h =
      let m : b.world.ctrl.mode ≡ a.world.ctrl.mode = ap (λ (u : World e). u.ctrl.mode) w in
      record {
        on = h.on;
        turn = subst (λ x. Turned x c.world.ctrl.mode) m h.turn;
        ended = λ n. (
          (h.ended n).0,
          subst (λ x. (c.world ≡ x) ⊎ (c.world.ctrl.mode ≡ normal)) w (h.ended n).1,
          λ t. (h.ended n).2 (k ∙ t),
        );
      }

  passes-IsFine :
      (k now : ℕ) (l : Live Float) (online grid_ok : Bool) (grid_w : Float) (b : Setup e Float)
      → IsOnCourse e b
      → IsFine e b (passes e f half k now l online grid_ok grid_w b)
  unfolding passes
  passes-IsFine zero now l online grid_ok grid_w b h =
      kept-IsFine e b b h refl h.going_on refl refl refl h.forced
  passes-IsFine (suc k) now l online grid_ok grid_w b h =
      elim (Option-cases (get_elem? b.sweep.steps b.sweep.cur)) [
        | inl none_left ↦
            rw (none_left, passes) (finish-IsFine e done complete b (λ (k : done ≡ running). cc) h)
        | inr (p, at_cur) ↦
            (let (more, b') = step_tick e f half now l online grid_ok grid_w p b in
              let (fine, goes_on) = step-IsFine now l online grid_ok grid_w p b h at_cur in
              elim (Bool-cases more) [
                | inl ahead ↦
                    rw (at_cur, ahead, passes)
                      (IsFine-trans b b' (passes e f half k now l online grid_ok grid_w b')
                        (goes_on ahead).1 (goes_on ahead).2
                        (passes-IsFine k now l online grid_ok grid_w b'
                          (fine.on (goes_on ahead).0)))
                | inr stop ↦ rw (at_cur, stop, passes) fine
              ])
      ]

  steps-IsFine :
      (now : ℕ) (l : Live Float) (grid_ok : Bool) (grid_w : Float) (b : Setup e Float)
      → IsOnCourse e b
      → IsFine e b (tick_steps e f half now l grid_ok grid_w b)
  unfolding tick_steps is_foreign
  steps-IsFine now l grid_ok grid_w b h =
      let b1 : Setup e Float = record b { sweep = record b.sweep { paused = false } } in
      let h1 : IsOnCourse e b1 = record {
        going_on = h.going_on;
        own = h.own;
        forced = h.forced;
        fresh = h.fresh;
      } in
      let on_b1 = passes-IsFine 2 now l (is_online l) grid_ok grid_w b1 h1 in
      let next = passes e f half 2 now l (is_online l) grid_ok grid_w b1 in
      ground (
        arith,
        kept-IsFine e b b h refl h.going_on refl refl refl h.forced,
        IsFine-trans b b1 next refl refl on_b1,
      )

  -- The state as a tick has it before its steps, with the time of the last answer.
  abbrev seen : ℕ → ℕ → Setup e Float → Setup e Float
  seen now t b = record b {
    sweep = record b.sweep {
      stop_req = false;
      elapsed_s = sub32 now b.sweep.t0_ms / 1000;
      writes = sub32 b.world.ctrl.writes b.sweep.writes0;
      offline_ms = t;
    };
  }

  seen-IsOnCourse : (now t : ℕ) (b : Setup e Float) → IsOnCourse e b → IsOnCourse e (seen now t b)
  unfolding is_foreign
  seen-IsOnCourse now t b h = record {
    going_on = h.going_on;
    own = h.own;
    forced = h.forced;
    fresh = h.fresh;
  }

  seen_steps :
      (now t : ℕ) (l : Live Float) (grid_ok : Bool) (grid_w : Float) (b : Setup e Float)
      → IsOnCourse e b
      → IsFine e b (tick_steps e f half now l grid_ok grid_w (seen now t b))
  seen_steps now t l grid_ok grid_w b h =
      let b1 = seen now t b in
      IsFine-trans b b1 (tick_steps e f half now l grid_ok grid_w b1) refl refl
        (steps-IsFine now l grid_ok grid_w b1 (seen-IsOnCourse now t b h))

  seen_end :
      (now : ℕ) (y : Why) (b : Setup e Float)
      → IsOnCourse e b
      → IsFine e b (finish e aborted y true (seen now b.sweep.offline_ms b))
  seen_end now y b h =
      let b1 = seen now b.sweep.offline_ms b in
      IsFine-trans b b1 (finish e aborted y true b1) refl refl (
        finish-IsFine e aborted y b1 (λ (k : aborted ≡ running). cc)
          (seen-IsOnCourse now b.sweep.offline_ms b h))

  pub own-IsFine :
      (now : ℕ) (l : Live Float) (grid_ok : Bool) (grid_w : Float) (b : Setup e Float)
      → IsOnCourse e b
      → IsFine e b (tick_running e f half now l grid_ok grid_w b)
  unfolding tick_running
  own-IsFine now l grid_ok grid_w b h =
      let t0 = b.sweep.offline_ms in
      elim (Bool-cases b.sweep.stop_req) [
        | inl k ↦ simp (k) (seen_end now stopped b h)
        | inr k ↦ elim (Bool-cases (is_online l)) [
          | inl on ↦ simp (k, h.own, on) (seen_steps now 0 l grid_ok grid_w b h)
          | inr off ↦ elim (Bool-cases (t0 == 0)) [
            | inl new ↦
                simp (k, h.own, off, new)
                  (seen_steps now (if now == 0 then 1 else now) l grid_ok grid_w b h)
            | inr old ↦ elim (Bool-cases (leb (offline_s * 1000) (sub32 now t0))) [
              | inl late ↦ simp (k, h.own, off, old, late) (seen_end now offline b h)
              | inr soon ↦ simp (k, h.own, off, old, soon) (seen_steps now t0 l grid_ok grid_w b h)
            ]
          ]
        ]
      ]

  pub foreign_ends :
      (now : ℕ) (l : Live Float) (grid_ok : Bool) (grid_w : Float) (b : Setup e Float)
      → is_foreign e b ≡ true
      → b.sweep.stop_req ≡ false
      → let b' = tick_running e f half now l grid_ok grid_w b in
        (b'.world ≡ b.world) × (b'.sweep.state ≡ aborted) × (b'.sweep.applied ≡ false)
  unfolding tick_running finish
  foreign_ends now l grid_ok grid_w b h k = ground (arith, h, k)

  pub stop_ends :
      (now : ℕ) (l : Live Float) (grid_ok : Bool) (grid_w : Float) (b : Setup e Float)
      → b.sweep.stop_req ≡ true
      → let b' = tick_running e f half now l grid_ok grid_w b in
        (b'.sweep.state ≡ aborted)
        × (b'.sweep.applied ≡ false)
        × ((b'.world ≡ b.world) ⊎ (b'.world.ctrl.mode ≡ normal))
        × (b.sweep.applied ≡ true → b'.world.ctrl.mode ≡ normal)
  unfolding tick_running
  stop_ends now l grid_ok grid_w b h =
      ground (arith, h, finish_ends e aborted stopped true (seen now b.sweep.offline_ms b))

-- ===== src/Sweep/Safety.antt =====
-- main/eff_sweep.c: what a tick of the sweep never does to the inverter.
use deye_inverter_display_es.Common.{
  ℕ, ◌≡◌, ◌≢◌, ◌⊎◌, inl, inr, Bool, true, false, Floats, arith, Bool-cases, ap, sym, ◌∙◌,
}
use deye_inverter_display_es.Ctrl.{normal, Env}
use deye_inverter_display_es.Sweep.{running, Live, Setup, SweepState}
use deye_inverter_display_es.Sweep.Moves.{is_foreign}
use deye_inverter_display_es.Sweep.Tick.{tick, tick_running}
use deye_inverter_display_es.Sweep.Expect.{AreForced}
use deye_inverter_display_es.Sweep.Course.{Turned, IsFine}
use deye_inverter_display_es.Sweep.Round.{own-IsFine, foreign_ends, stop_ends}

module _ (e : Env) (f : Floats) (half : f.Float) where
  open f use {Float}

  SweepState-cases : (k : SweepState) → (k ≡ running) ⊎ (k ≢ running)
  SweepState-cases k = ground arith

  tick-at_rest :
      (now : ℕ) (l : Live Float) (grid_ok : Bool) (grid_w : Float) (b : Setup e Float)
      → b.sweep.state ≢ running
      → let b' = tick e f half now l grid_ok grid_w b in
        (b'.world ≡ b.world) × (b'.sweep.state ≡ b.sweep.state)
  unfolding tick
  tick-at_rest now l grid_ok grid_w b h = ground arith

  tick-going :
      (now : ℕ) (l : Live Float) (grid_ok : Bool) (grid_w : Float) (b : Setup e Float)
      → b.sweep.state ≡ running
      → tick e f half now l grid_ok grid_w b ≡ tick_running e f half now l grid_ok grid_w b
  unfolding tick
  tick-going now l grid_ok grid_w b h = ground arith

  -- A running sweep never takes its own doing for someone else's: from any state whose steps are
  -- charges and discharges, and in which Normal is in force while the sweep has put nothing there,
  -- a sweep that a tick leaves running finds the mode and the power that it put in force, and is
  -- in such a state again.
  pub tick_finds_own :
      (now : ℕ) (l : Live Float) (grid_ok : Bool) (grid_w : Float) (b : Setup e Float)
      → AreForced b.sweep.steps
      → (b.sweep.applied ≡ false → b.world.ctrl.mode ≡ normal)
      → let b' = tick e f half now l grid_ok grid_w b in
        b'.sweep.state ≡ running
        → (is_foreign e b' ≡ false)
          × AreForced b'.sweep.steps
          × (b'.sweep.applied ≡ false → b'.world.ctrl.mode ≡ normal)
  tick_finds_own now l grid_ok grid_w b forced fresh on =
      let still = tick-at_rest now l grid_ok grid_w b in
      let going = tick-going now l grid_ok grid_w b in
      let foreign = foreign_ends e f half now l grid_ok grid_w b in
      let stop = stop_ends e f half now l grid_ok grid_w b in
      let fine : b.sweep.state ≡ running
          → is_foreign e b ≡ false
          → IsFine e b (tick_running e f half now l grid_ok grid_w b) =
        λ r o.
          own-IsFine e f half now l grid_ok grid_w b
            (record { going_on = r; own = o; forced = forced; fresh = fresh }) in
      elim (SweepState-cases b.sweep.state) [
        | inl r ↦ elim (Bool-cases (is_foreign e b)) [
          | inl o ↦ ground (arith, foreign o, stop, going r)
          | inr o ↦
              (let c =
                  (fine r o).on (sym (ap (λ (x : Setup e Float). x.sweep.state) (going r)) ∙ on) in
                rw (going r) (c.own, c.forced, c.fresh))
        ]
        | inr r ↦ ground (arith, still r)
      ]

  -- A tick turns from charging to discharging, or back, only through Normal: from any state whose
  -- steps are charges and discharges, and in which Normal is in force while the sweep has put
  -- nothing there.
  tick_turns :
      (now : ℕ) (l : Live Float) (grid_ok : Bool) (grid_w : Float) (b : Setup e Float)
      → AreForced b.sweep.steps
      → (b.sweep.applied ≡ false → b.world.ctrl.mode ≡ normal)
      → Turned b.world.ctrl.mode (tick e f half now l grid_ok grid_w b).world.ctrl.mode
  tick_turns now l grid_ok grid_w b forced fresh = elim (SweepState-cases b.sweep.state) [
    | inl r ↦ elim (Bool-cases (is_foreign e b)) [
      | inl o ↦ ground (
        arith,
        foreign_ends e f half now l grid_ok grid_w b o,
        stop_ends e f half now l grid_ok grid_w b,
        tick-going now l grid_ok grid_w b r,
      )
      | inr o ↦
          rw (tick-going now l grid_ok grid_w b r)
            (own-IsFine e f half now l grid_ok grid_w b
              (record { going_on = r; own = o; forced = forced; fresh = fresh })).turn
    ]
    | inr r ↦ ground (arith, tick-at_rest now l grid_ok grid_w b r)
  ]

  -- However a tick ends a running sweep whose steps are charges and discharges, with Normal in force
  -- while the sweep has put nothing there, the sweep has nothing in force any
  -- more, and the inverter's control is untouched or in Normal: in Normal where the sweep found
  -- what it had put there, untouched after a change from outside, unless a stop was asked for in
  -- the same second.
  pub sweep_ends :
      (now : ℕ) (l : Live Float) (grid_ok : Bool) (grid_w : Float) (b : Setup e Float)
      → b.sweep.state ≡ running
      → AreForced b.sweep.steps
      → (b.sweep.applied ≡ false → b.world.ctrl.mode ≡ normal)
      → let b' = tick e f half now l grid_ok grid_w b in
        b'.sweep.state ≢ running
        → (b'.sweep.applied ≡ false)
          × ((b'.world ≡ b.world) ⊎ (b'.world.ctrl.mode ≡ normal))
          × (is_foreign e b ≡ false → b'.world.ctrl.mode ≡ normal)
          × (is_foreign e b ≡ true → b.sweep.stop_req ≡ false → b'.world ≡ b.world)
  sweep_ends now l grid_ok grid_w b r forced fresh out = elim (Bool-cases (is_foreign e b)) [
    | inl o ↦ ground (
      arith,
      foreign_ends e f half now l grid_ok grid_w b o,
      stop_ends e f half now l grid_ok grid_w b,
      tick-going now l grid_ok grid_w b r,
    )
    | inr o ↦
        (let fine =
            own-IsFine e f half now l grid_ok grid_w b
              (record { going_on = r; own = o; forced = forced; fresh = fresh }) in
          ground (arith, fine.ended, fresh, o, tick-going now l grid_ok grid_w b r, fine.turn))
  ]

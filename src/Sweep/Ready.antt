-- ===== src/Sweep/Ready.antt =====
-- main/eff_sweep.c: what an accepted start of a sweep has ready, and what it must keep to.
use deye_inverter_display_es.Common.{
  ℕ, suc, ◌+◌, ◌*◌, ◌≤◌, ◌≡◌, ◌≢◌, ◌⊎◌, inl, inr, refl, sym, subst, ap, pos, bit_and, not, ◌==◌,
  if◌then◌else◌, if_lem, true, false, List, [], ◌∷◌, ◌++◌, length, arith, Floats, length-append,
}
use deye_inverter_display_es.Ctrl.{Mode, normal, force_charge, force_discharge, Env}
use deye_inverter_display_es.Sweep.{running, pending, Req, Step, Live, Setup}
use deye_inverter_display_es.Sweep.Request.{
  started, Refusal, powers_ok, check_request, Checked, bad_request, good_request, steps_of,
  steps_in, plan, begin, start_checked, start, sort_powers, drop_equal, drop_duplicates, turn_onto,
  sink_all, sink,
}
use deye_inverter_display_es.Sweep.Expect.{AreForced}
use deye_inverter_display_es.Sweep.Sort.{IsAscending, has, sort_powers-IsAscending}

length-sink : (x : ℕ) (xs : List ℕ) → length (sink x xs) ≡ suc (length xs)
unfolding sink
length-sink x [] = ground arith
length-sink x (y ∷ ys) = ground (arith, length-sink x ys)

length-sink_all : (done xs : List ℕ) → length (sink_all done xs) ≡ length done + length xs
unfolding sink_all
length-sink_all done [] = ground arith
length-sink_all done (x ∷ xs) = ground (arith, length-sink_all (sink x done) xs, length-sink x done)

length-turn_onto : (acc xs : List ℕ) → length (turn_onto acc xs) ≡ length acc + length xs
unfolding turn_onto
length-turn_onto acc [] = ground arith
length-turn_onto acc (x ∷ xs) = ground (arith, length-turn_onto (x ∷ acc) xs)

length-drop_equal : (b : ℕ) (xs : List ℕ) → length (drop_equal b xs) ≤ length xs
unfolding drop_equal
length-drop_equal b [] = ground arith
length-drop_equal b (x ∷ xs) = ground (arith, length-drop_equal b xs, length-drop_equal x xs)

length-drop_duplicates : (xs : List ℕ) → length (drop_duplicates xs) ≤ length xs
unfolding drop_duplicates
length-drop_duplicates [] = ground arith
length-drop_duplicates (x ∷ xs) = ground (arith, length-drop_equal x xs)

length-sort_powers : (ps : List ℕ) → length (sort_powers ps) ≤ length ps
unfolding sort_powers
length-sort_powers ps = ground (
  arith,
  length-sink_all [] ps,
  length-turn_onto [] (sink_all [] ps),
  length-drop_duplicates (turn_onto [] (sink_all [] ps)),
)

-- What the checks let through.
check_request-IsSound :
    (rq0 rq : Req)
    → check_request rq0 ≡ good_request rq
    → (rq.powers ≡ sort_powers rq0.powers)
      × (length rq.powers ≤ 20)
      × (length rq.powers * rq.dwell_s ≤ 6600)
      × (30 ≤ rq.dwell_s)
      × (rq.settle_s + 20 ≤ rq.dwell_s)
      × (rq.soc_min + 10 ≤ rq.soc_max)
      × (rq.soc_max ≤ 100)
      × (powers_ok rq0.powers ≡ true)
unfolding check_request
check_request-IsSound rq0 rq h = ground (arith, length-sort_powers rq0.powers)

check_request_kept :
    (rq0 rq : Req)
    → check_request rq0 ≡ good_request rq
    → (rq ≡ record rq0 { powers = rq.powers }) × (bit_and rq0.dirs 3 ≢ 0)
unfolding check_request
check_request_kept rq0 rq h = ground (arith, h)

module _ (e : Env) (f : Floats) where
  open f use {Float, lt, of_int}

  steps_of-AreForced :
      (m : Mode) (ws : List ℕ)
      → (m ≡ force_charge) ⊎ (m ≡ force_discharge)
      → AreForced (steps_of e f m ws)
  unfolding steps_of
  steps_of-AreForced m [] h = tt
  steps_of-AreForced m (w ∷ ws) h = (h, steps_of-AreForced m ws h)

  length-steps_of : (m : Mode) (ws : List ℕ) → length (steps_of e f m ws) ≡ length ws
  unfolding steps_of
  length-steps_of m [] = ground arith
  length-steps_of m (w ∷ ws) = ground (arith, length-steps_of m ws)

  append-AreForced : (a b : List (Step Float)) → AreForced a → AreForced b → AreForced (a ++ b)
  append-AreForced [] b h k = k
  append-AreForced (p ∷ a) b h k = (h.0, append-AreForced a b h.1 k)

  steps_in-AreForced :
      (rq : Req) (m : Mode)
      → (m ≡ force_charge) ⊎ (m ≡ force_discharge)
      → AreForced (steps_in e f rq m) × (length (steps_in e f rq m) ≤ length rq.powers)
  steps_in-AreForced rq m h =
      ground (arith, steps_of-AreForced m rq.powers h, length-steps_of m rq.powers)

  plan-AreForced :
      (rq : Req) (soc : Float)
      → AreForced (plan e f rq soc) × (length (plan e f rq soc) ≤ 2 * length rq.powers)
  unfolding plan
  plan-AreForced rq soc =
      let c = steps_in-AreForced rq force_charge (inl refl) in
      let d = steps_in-AreForced rq force_discharge (inr refl) in
      ground (
        arith,
        append-AreForced (steps_in e f rq force_charge) (steps_in e f rq force_discharge) c.0 d.0,
        append-AreForced (steps_in e f rq force_discharge) (steps_in e f rq force_charge) d.0 c.0,
        length-append (steps_in e f rq force_charge) (steps_in e f rq force_discharge),
        length-append (steps_in e f rq force_discharge) (steps_in e f rq force_charge),
        c,
        d,
      )

  start_good :
      (rq good : Req) (l : Live Float) (unix : ℕ) (b : Setup e Float)
      → (start_checked e f (good_request good) l unix b).0 ≡ started
      → ((start_checked e f (good_request good) l unix b).1
          ≡ record b { sweep = begin e f good l.bat_soc unix b })
        × (b.world.ctrl.mode ≡ normal)
  unfolding start_checked
  start_good rq good l unix b done = ground (arith, done)

  start_bad :
      (r : Refusal) (l : Live Float) (unix : ℕ) (b : Setup e Float)
      → (start_checked e f (bad_request r) l unix b).0 ≢ started
  unfolding start_checked
  start_bad r l unix b h = ground arith

  -- Steps in the mode `m` at the powers `ws`, in their order, none of them begun.
  pub data StepsAt (m : Mode) : List ℕ → List (Step Float) → Type 0 where
    no_steps : StepsAt m [] []
    next_step :
        {w : ℕ} {ws : List ℕ} {p : Step Float} {ps : List (Step Float)}
        → (p.mode ≡ m) × (p.target_w ≡ w) × (p.state ≡ pending)
        → StepsAt m ws ps
        → StepsAt m (w ∷ ws) (p ∷ ps)

  -- The steps of one direction, whose bit is `bit`: one for each power where the bit is set, none
  -- where it is not.
  abbrev pub IsHalf : Mode → ℕ → ℕ → List ℕ → List (Step Float) → Type 0
  IsHalf m bit dirs ws ps =
      ((bit_and dirs bit ≡ 0) × (ps ≡ [])) ⊎ ((bit_and dirs bit ≢ 0) × StepsAt m ws ps)

  -- Charges first below 50 % state of charge, else discharges first.
  abbrev pub IsPlan : ℕ → List ℕ → Float → List (Step Float) → Type 0
  IsPlan dirs ws soc ps =
      (cs : List (Step Float)) × (ds : List (Step Float)) × IsHalf force_charge 2 dirs ws cs
      × IsHalf force_discharge 1 dirs ws ds
      × (((lt soc (of_int (pos 50)) ≡ true) × (ps ≡ cs ++ ds))
          ⊎ ((lt soc (of_int (pos 50)) ≡ false) × (ps ≡ ds ++ cs)))

  steps_of-StepsAt : (m : Mode) (ws : List ℕ) → StepsAt m ws (steps_of e f m ws)
  unfolding steps_of
  steps_of-StepsAt m [] = no_steps
  steps_of-StepsAt m (w ∷ ws) = next_step (refl, refl, refl) (steps_of-StepsAt m ws)

  half :
      (m : Mode) (bit dirs : ℕ) (ws : List ℕ)
      → IsHalf m bit dirs ws (if not (bit_and dirs bit == 0) then steps_of e f m ws else [])
  half m bit dirs ws =
      if_lem (IsHalf m bit dirs ws) (not (bit_and dirs bit == 0)) (steps_of e f m ws) []
        (λ q. inr (ground (arith, q), steps_of-StepsAt m ws)) (λ q. inl (ground (arith, q), refl))

  plan-IsPlan : (rq : Req) (soc : Float) → IsPlan rq.dirs rq.powers soc (plan e f rq soc)
  unfolding plan
  plan-IsPlan rq soc =
      let cs = steps_in e f rq force_charge in
      let ds = steps_in e f rq force_discharge in
      (
        cs,
        ds,
        half force_charge 2 rq.dirs rq.powers,
        half force_discharge 1 rq.dirs rq.powers,
        if_lem
            (λ ps.
              ((lt soc (of_int (pos 50)) ≡ true) × (ps ≡ cs ++ ds))
              ⊎ ((lt soc (of_int (pos 50)) ≡ false) × (ps ≡ ds ++ cs)))
            (lt soc (of_int (pos 50))) (cs ++ ds) (ds ++ cs) (λ q. inl (q, refl))
            (λ q. inr (q, refl)),
      )

  -- What an accepted start leaves.
  abbrev pub IsReady : Req → Float → Setup e Float → Setup e Float → Type 0
  IsReady rq soc b b' =
      (b'.sweep.state ≡ running)
      × (b'.sweep.applied ≡ false)
      × (b'.world.ctrl.mode ≡ normal)
      × (b'.world ≡ b.world)
      × AreForced b'.sweep.steps
      × (length b'.sweep.steps ≤ 40)
      × (length b'.sweep.req.powers * b'.sweep.req.dwell_s ≤ 6600)
      × IsAscending b'.sweep.req.powers
      × ((z : ℕ) → has z b'.sweep.req.powers ≡ has z rq.powers)
      × (bit_and rq.dirs 3 ≢ 0)
      × (b'.sweep.req ≡ record rq { powers = b'.sweep.req.powers })
      × IsPlan rq.dirs b'.sweep.req.powers soc b'.sweep.steps

  begin-IsReady :
      (rq good : Req) (l : Live Float) (unix : ℕ) (b : Setup e Float)
      → check_request rq ≡ good_request good
      → b.world.ctrl.mode ≡ normal
      → IsReady rq l.bat_soc b (record b { sweep = begin e f good l.bat_soc unix b })
  unfolding begin
  begin-IsReady rq good l unix b k at_rest =
      let sound = check_request-IsSound rq good k in
      let sorted = sort_powers-IsAscending rq.powers in
      let kept = check_request_kept rq good k in
      let planned = plan-AreForced good l.bat_soc in
      (
        refl,
        refl,
        at_rest,
        refl,
        planned.0,
        omega (arith, planned.1, sound.1),
        sound.2,
        subst IsAscending (sym sound.0) sorted.0,
        λ z. rw (sound.0) (sorted.1 z),
        kept.1,
        kept.0,
        subst (λ d. IsPlan d good.powers l.bat_soc (plan e f good l.bat_soc))
            (ap (λ (r : Req). r.dirs) kept.0) (plan-IsPlan good l.bat_soc),
      )

  IsReady-of :
      (rq : Req) (c : Checked) (l : Live Float) (unix : ℕ) (b : Setup e Float)
      → check_request rq ≡ c
      → let (r, b') = start_checked e f c l unix b in r ≡ started → IsReady rq l.bat_soc b b'
  IsReady-of rq (bad_request r) l unix b k done = absurd (start_bad r l unix b done)
  IsReady-of rq (good_request good) l unix b k done =
      let on = start_good rq good l unix b done in
      subst (IsReady rq l.bat_soc b) (sym on.0) (begin-IsReady rq good l unix b k on.1)

  -- An accepted start has a sweep ready that may begin: Normal is in force and nothing was put
  -- there, the powers strictly ascend and are the ones asked for, and there is one step for each of
  -- them in each direction asked for, in their order, 40 at most: below 50 % the charges first,
  -- else the discharges. A direction was asked for, and none lasts longer than 110 minutes, under
  -- the two hours of a forced mode. The inverter's control is untouched.
  pub start-IsReady :
      (rq : Req) (l : Live Float) (unix : ℕ) (b : Setup e Float)
      → let (r, b') = start e f rq l unix b in r ≡ started → IsReady rq l.bat_soc b b'
  start-IsReady rq l unix b done = IsReady-of rq (check_request rq) l unix b refl done

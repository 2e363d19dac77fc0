-- ===== src/Feed/Due.antt =====
-- main/price_feed.c: a request that is made is due.
use deye_inverter_display_es.Common.{
  ℕ, zero, suc, ◌≢◌, refl, Bool-cases, sym, subst, ◌+◌, ◌≡◌, ◌≤◌, ◌⊎◌, inl, inr, Bool, true, false,
  arith, if_lem, ltb, leb, leb→le, ◌==◌, ◌&&◌, if◌then◌else◌,
}
use deye_inverter_display_es.Feed.{
  Zone, Job, Feed, Request, pf_none, pf_tib, pf_ec, pf_mix, pf_gen, pf_clock_ok, int64_max,
  wait_after, backoff_s, held_back, price_due, ec_due, mix_due, forced_due, ec_ok, ec_needed,
  gen_go, tib_go, ec_go, mix_go, gen_or_none, mix_or_gen, what,
}

-- The pause after a number of failures in a row: 5, 10 and 20 minutes, then an hour.
abbrev pub pause_after : ℕ → ℕ
pause_after zero = 0
pause_after (suc zero) = 300
pause_after (suc (suc zero)) = 600
pause_after (suc (suc (suc zero))) = 1200
pause_after (suc (suc (suc (suc n)))) = 3600

-- The job did not fail the last time, or its pause is over, an hour after HTTP 429.
abbrev pub Waited : Job → ℕ → Type 0
Waited j now = (j.fails ≡ 0) ⊎ (j.last_try + (if j.r429 then 3600 else pause_after j.fails) ≤ now)

pause_lem :
    (n : ℕ) (r : Bool)
    → n ≢ 0
    → (if r then 3600 else pause_after n)
      ≡ (let b = wait_after n in if r && ltb b 3600 then 3600 else b)
pause_lem zero r h = absurd (h refl)
pause_lem (suc zero) true h = refl
pause_lem (suc zero) false h = refl
pause_lem (suc (suc zero)) true h = refl
pause_lem (suc (suc zero)) false h = refl
pause_lem (suc (suc (suc zero))) true h = refl
pause_lem (suc (suc (suc zero))) false h = refl
pause_lem (suc (suc (suc (suc n)))) true h = ground arith
pause_lem (suc (suc (suc (suc n)))) false h = ground arith

backoff_lem : (j : Job) → j.fails ≢ 0 → backoff_s j ≡ (if j.r429 then 3600 else pause_after j.fails)
unfolding backoff_s
backoff_lem j h =
    if_lem (λ b. b ≡ (if j.r429 then 3600 else pause_after j.fails)) (j.fails == 0) 0 _
      (λ e. absurd (ground (arith, e, h))) (λ e. sym (pause_lem j.fails j.r429 h))

backoff-Waited :
    (j : Job) (now : ℕ) → (j.fails ≡ 0) ⊎ (j.last_try + backoff_s j ≤ now) → Waited j now
backoff-Waited j now (inl none_failed) = inl none_failed
backoff-Waited j now (inr late) = elim (Bool-cases (j.fails == 0)) [
  | inl none_failed ↦ inl (ground (arith, none_failed))
  | inr failed ↦
      inr (subst (λ b. j.last_try + b ≤ now) (backoff_lem j (ground (arith, failed))) late)
]

-- Energy-Charts was not asked yet, or a minute ago or more.
abbrev pub Spaced : Feed → ℕ → Type 0
Spaced f now = (f.ec_last ≡ 0) ⊎ (f.ec_last + 60 ≤ now)

-- What a request asks of the state at the time it is made.
pub data Allowed (f : Feed) (now : ℕ) : Request → Type 0 where
  asks_nobody : Allowed f now pf_none
  asks_tibber : Waited f.tib now → Allowed f now pf_tib
  asks_prices : Waited f.ec now → Spaced f now → Allowed f now pf_ec
  asks_mix : Waited f.mixj now → Spaced f now → Allowed f now pf_mix
  asks_forecast : Waited f.genj now → Spaced f now → Allowed f now pf_gen

held_back-Waited : (j : Job) (due now : ℕ) → held_back j due ≤ now → Waited j now
unfolding held_back
held_back-Waited j due now =
    if_lem (λ x. x ≤ now → Waited j now) (j.fails == 0) due _ (λ e h. inl (ground arith))
      (λ e h. backoff-Waited j now (inr (ground arith)))

forced_due-Waited : (j : Job) (now : ℕ) → forced_due j now ≤ now → Waited j now
unfolding forced_due
forced_due-Waited j now =
    if_lem (λ x. x ≤ now → Waited j now) (j.fails == 0) now _ (λ e h. inl (ground arith))
      (λ e h. backoff-Waited j now (inr h))

price_due-Waited : (z : Zone) (j : Job) (now : ℕ) → price_due z j now ≤ now → Waited j now
unfolding price_due
price_due-Waited z j now =
    if_lem (λ x. x ≤ now → Waited j now) (ltb now pf_clock_ok) int64_max _
      (λ e h. absurd (ground arith)) (λ e h. held_back-Waited j _ now h)

ec_due-Waited : (z : Zone) (j : Job) (now : ℕ) → ec_due z j now ≤ now → Waited j now
unfolding ec_due
ec_due-Waited z j now h = price_due-Waited z j now (ground arith)

mix_due-Waited : (z : Zone) (j : Job) (now : ℕ) → mix_due z j now ≤ now → Waited j now
unfolding mix_due
mix_due-Waited z j now =
    if_lem (λ x. x ≤ now → Waited j now) (ltb now pf_clock_ok) int64_max _
      (λ e h. absurd (ground arith)) (λ e h. held_back-Waited j _ now h)

either-Waited :
    (forced : Bool) (j : Job) (due now : ℕ)
    → (due ≤ now → Waited j now)
    → leb (if forced then forced_due j now else due) now ≡ true
    → Waited j now
either-Waited true j due now f h = forced_due-Waited j now (leb→le _ now h)
either-Waited false j due now f h = f (leb→le due now h)

gen_go-Waited : (z : Zone) (f : Feed) (now : ℕ) → gen_go z f now ≡ true → Waited f.genj now
unfolding gen_go
gen_go-Waited z f now =
    if_lem (λ x. x ≡ true → Waited f.genj now) (ltb 0 f.gen_stage) _ _
      (λ e h. step f.genj (leb→le _ now h))
      (λ e.
        if_lem (λ x. x ≡ true → Waited f.genj now) f.force_mix _ _
          (λ e h. forced_due-Waited f.genj now (leb→le _ now h))
          (λ e h. mix_due-Waited z f.genj now (leb→le _ now h)))
  where
    step : (j : Job) → j.last_try + (if j.fails == 0 then 0 else backoff_s j) ≤ now → Waited j now
    step j =
        if_lem (λ x. j.last_try + x ≤ now → Waited j now) (j.fails == 0) 0 _
          (λ e h. inl (ground arith)) (λ e h. backoff-Waited j now (inr h))

ec_ok-Spaced : (f : Feed) (now : ℕ) → ec_ok f now ≡ true → Spaced f now
ec_ok-Spaced f now h = ground arith

and_left : (a b : Bool) → a && b ≡ true → a ≡ true
and_left a b h = ground arith

and_right : (a b : Bool) → a && b ≡ true → b ≡ true
and_right a b h = ground arith

gen_or_none-Allowed : (z : Zone) (f : Feed) (now : ℕ) → Allowed f now (gen_or_none z f now)
unfolding gen_or_none
gen_or_none-Allowed z f now =
    let last = f.gen_on && gen_go z f now in
    if_lem (Allowed f now) (ec_ok f now && last) pf_gen pf_none
      (λ e.
        asks_forecast
          (gen_go-Waited z f now (and_right f.gen_on _ (and_right (ec_ok f now) last e)))
          (ec_ok-Spaced f now (and_left (ec_ok f now) last e)))
      (λ e. asks_nobody)

mix_or_gen-Allowed : (z : Zone) (f : Feed) (now : ℕ) → Allowed f now (mix_or_gen z f now)
unfolding mix_or_gen
mix_or_gen-Allowed z f now =
    if_lem (Allowed f now) (mix_go z f now) pf_mix (gen_or_none z f now)
      (λ e.
        asks_mix
          (either-Waited f.force_mix f.mixj _ now (mix_due-Waited z f.mixj now)
            (and_right (ec_ok f now) _ e))
          (ec_ok-Spaced f now (and_left (ec_ok f now) _ e)))
      (λ e. gen_or_none-Allowed z f now)

-- Whatever the tick chooses, that source did not fail the last time or its pause is over; and
-- Energy-Charts is chosen a minute after it was last.
pub what-Allowed : (z : Zone) (f : Feed) (tok : Bool) (now : ℕ) → Allowed f now (what z f tok now)
unfolding what
what-Allowed z f tok now =
    let otherwise = mix_or_gen z f now in
    let needed = ec_needed z f tok now in
    if_lem (Allowed f now) (tib_go z f tok now) pf_tib
      (if ec_go z f tok now then pf_ec else otherwise)
      (λ e.
        asks_tibber
          (either-Waited f.force_px f.tib _ now (price_due-Waited z f.tib now) (and_right tok _ e)))
      (λ e.
        if_lem (Allowed f now) (ec_go z f tok now) pf_ec otherwise
          (λ e.
            asks_prices
              (either-Waited f.force_px f.ec _ now (ec_due-Waited z f.ec now)
                (and_right needed _ (and_right (ec_ok f now) _ e)))
              (ec_ok-Spaced f now (and_left (ec_ok f now) _ e)))
          (λ e. mix_or_gen-Allowed z f now))

-- ===== src/Feed/Wait.antt =====
-- main/price_feed.c: how long a source waits.
use deye_inverter_display_es.Common.{
  ℕ, ◌+◌, ◌-◌, ◌≡◌, ◌≤◌, Bool, List, arith, if_lem, ltb, if◌then◌else◌,
}
use deye_inverter_display_es.Feed.{
  Zone, Job, pf_clock_ok, int64_max, pf_429_hold, pf_refresh_px, pf_refresh_mix, min64, backoff_s,
  held_back, tomorrow_due, price_due, ec_due, mix_due, mix_tomorrow_due, local_midnight, job_fail,
}

backoff_bounded : (j : Job) → backoff_s j ≤ pf_429_hold
unfolding backoff_s
backoff_bounded j = ground arith

held_back_within :
    (j : Job) (due limit now : ℕ)
    → due ≤ now + limit
    → j.last_try ≤ now
    → pf_429_hold ≤ limit
    → held_back j due ≤ now + limit
unfolding held_back
held_back_within j due limit now h t l = let b = backoff_bounded j in ground arith

sooner_within : (b : Bool) (due next l : ℕ) → due ≤ l → (if b then min64 due next else due) ≤ l
sooner_within b due next l h = ground arith

tomorrow_within : (z : Zone) (j : Job) (day due l : ℕ) → due ≤ l → tomorrow_due z j day due ≤ l
unfolding tomorrow_due
tomorrow_within z j day due l h =
    if_lem (λ x. x ≤ l) j.tomorrow due _ (λ e. h) (λ e. sooner_within _ due _ l h)

mix_tomorrow_within :
    (z : Zone) (j : Job) (now day due l : ℕ) → due ≤ l → mix_tomorrow_due z j now day due ≤ l
unfolding mix_tomorrow_due
mix_tomorrow_within z j now day due l h = sooner_within _ due _ l h

price_due_within :
    (z : Zone) (j : Job) (now : ℕ)
    → pf_clock_ok ≤ now
    → j.last_try ≤ now
    → j.last_ok ≤ now
    → price_due z j now ≤ now + pf_refresh_px
unfolding price_due
price_due_within z j now c t o =
    if_lem (λ x. x ≤ now + pf_refresh_px) (ltb now pf_clock_ok) int64_max _
      (λ e. absurd (ground arith))
      (λ e.
        held_back_within j _ pf_refresh_px now
          (if_lem (λ x. x ≤ now + pf_refresh_px) (ltb j.day (local_midnight z (now - 300))) now _
            (λ e. omega arith)
            (λ e. tomorrow_within z j _ (j.last_ok + pf_refresh_px) _ (omega (arith, o))))
          t (omega arith))

mix_due_within :
    (z : Zone) (j : Job) (now : ℕ)
    → pf_clock_ok ≤ now
    → j.last_try ≤ now
    → j.last_ok ≤ now
    → mix_due z j now ≤ now + pf_refresh_mix
unfolding mix_due
mix_due_within z j now c t o =
    if_lem (λ x. x ≤ now + pf_refresh_mix) (ltb now pf_clock_ok) int64_max _
      (λ e. absurd (ground arith))
      (λ e.
        held_back_within j _ pf_refresh_mix now
          (mix_tomorrow_within z j now (local_midnight z (now - 600)) _ _ (ground arith)) t
          (omega arith))

ec_due_within :
    (z : Zone) (j : Job) (now : ℕ)
    → pf_clock_ok ≤ now
    → j.last_try ≤ now
    → j.last_ok ≤ now
    → ec_due z j now ≤ now + pf_refresh_px
unfolding ec_due
ec_due_within z j now c t o = let p = price_due_within z j now c t o in ground arith

-- With the clock set, and a last try and a last success that are not in the future, the prices are
-- due within six hours, from either service, and the mix within three, whatever failed.
due_within :
    (z : Zone) (j : Job) (now : ℕ)
    → pf_clock_ok ≤ now
    → j.last_try ≤ now
    → j.last_ok ≤ now
    → (price_due z j now ≤ now + pf_refresh_px)
      × (ec_due z j now ≤ now + pf_refresh_px)
      × (mix_due z j now ≤ now + pf_refresh_mix)
due_within z j now c t o =
    (price_due_within z j now c t o, ec_due_within z j now c t o, mix_due_within z j now c t o)

-- A failed job waits five minutes or more, and an hour after HTTP 429.
job_fail_waits :
    (j : Job) (status : ℕ) (why : List ℕ)
    → (300 ≤ backoff_s (job_fail j status why))
      × (status ≡ 429 → backoff_s (job_fail j status why) ≡ pf_429_hold)
unfolding backoff_s job_fail
job_fail_waits j status why = (ground arith, λ e. ground arith)

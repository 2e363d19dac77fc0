-- ===== src/Feed/Tests.antt =====
-- The choice of a request, in a zone whose days begin at multiples of 86400.
use deye_inverter_display_es.Common.{
  ℕ, ◌+◌, ◌-◌, ◌*◌, ◌%◌, ◌≡◌, inr, List, ◌∷◌, arith, refl, true, false, pos, [],
}
use deye_inverter_display_es.Feed.{
  Zone, Job, Feed, Fetch, job_fail, pf_ec, pf_none, what, local_midnight, backoff_s, held_back,
  price_due, ec_due, mix_tomorrow_due, mix_due, forced_due, gen_go, gen_or_none, mix_or_gen,
}
use deye_inverter_display_es.Feed.Course.{FetchLaws, Tick, AllWait, run, run-AllWait}

-- Its broken-down time counts the days in `tm_mday`.
abbrev utc : Zone
utc = record {
  localtime_r = λ t. record {
    tm_year = 0;
    tm_mon = 0;
    tm_mday = t - t % 86400;
    tm_hour = 0;
    tm_min = 0;
    tm_sec = t % 86400;
    tm_isdst = pos 0;
  };
  mktime = λ tm. tm.tm_mday + tm.tm_hour * 3600;
}

abbrev noon : ℕ
noon = 86400 * 20000 + 43200

abbrev fresh : Job
fresh = record {
  day = 0;
  tomorrow = false;
  last_try = 0;
  last_ok = 0;
  fails = 0;
  r429 = false;
  err = [];
}

-- It failed twice, the last time eight minutes ago.
abbrev failed : Job
failed = record {
  day = 0;
  tomorrow = false;
  last_try = noon - 480;
  last_ok = 0;
  fails = 2;
  r429 = false;
  err = [];
}

abbrev feed : Feed
feed = record {
  tib = failed;
  ec = fresh;
  mixj = fresh;
  genj = fresh;
  gen_stage = 0;
  gen_on = true;
  ec_last = noon - 60;
  force_px = false;
  force_mix = false;
}

stand_in : what utc feed true noon ≡ pf_ec
unfolding what local_midnight backoff_s held_back price_due ec_due forced_due
stand_in = refl

stand_in_waits : what utc feed true (noon - 1) ≡ pf_none
unfolding what mix_or_gen gen_or_none local_midnight backoff_s held_back price_due ec_due forced_due
    mix_due mix_tomorrow_due gen_go
stand_in_waits = refl

-- Fetches that fail, each with a time out.
abbrev down : Fetch
down = record {
  tibber_fetch = λ now tok f. record f { tib = job_fail f.tib 0 [] };
  ec_price_fetch = λ now tok f. record f { ec = job_fail f.ec 429 [] };
  mix_fetch = λ now f. record f { mixj = job_fail f.mixj 0 [] };
  gen_fetch = λ now f. record f { genj = job_fail f.genj 0 [] };
}

abbrev down_laws : FetchLaws down
down_laws = record {
  tibber_keeps = λ now tok f. refl;
  ec_keeps = λ now tok f. refl;
  mix_keeps = λ now f. refl;
  gen_keeps = λ now f. refl;
}

abbrev ticks : List Tick
ticks =
    record { now = noon; tok = true; has_buf = true }
    ∷ record { now = noon + 30; tok = true; has_buf = true }
    ∷ record { now = noon + 60; tok = true; has_buf = false }
    ∷ []

run-AllWait_example : AllWait (noon - 60) (run utc down ticks feed)
run-AllWait_example =
    run-AllWait utc down down_laws ticks (noon - 60) feed (inr (omega arith, λ h. omega (arith, h)))

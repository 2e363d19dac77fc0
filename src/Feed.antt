-- ===== src/Feed.antt =====
-- main/price_feed.c: when each of the three services is asked. Times are seconds since 1970.
pub mod Due
pub mod Wait
pub mod Course
mod Tests
use deye_inverter_display_es.Common.{
  ℕ, ◌+◌, ◌-◌, ◌*◌, ℤ, negsuc, Bool, true, false, not, ◌&&◌, ◌||◌, List, [], take, ltb, leb, ◌==◌,
  if◌then◌else◌,
}

-- `struct tm`, as far as it is read.
pub record Tm : Type 0 where
  pub tm_year : ℕ
  pub tm_mon : ℕ
  pub tm_mday : ℕ
  pub tm_hour : ℕ
  pub tm_min : ℕ
  pub tm_sec : ℕ
  pub tm_isdst : ℤ

-- The C library's time zone.
pub record Zone : Type 0 where
  pub localtime_r : ℕ → Tm
  pub mktime : Tm → ℕ

-- `pf_job_t`
pub record Job : Type 0 where
  pub day : ℕ
  pub tomorrow : Bool
  pub last_try : ℕ
  pub last_ok : ℕ
  pub fails : ℕ
  pub r429 : Bool
  pub err : List ℕ

-- The variables `s_tib`, `s_ec`, `s_mixj`, `s_genj` and those beside them.
pub record Feed : Type 0 where
  pub tib : Job
  pub ec : Job
  pub mixj : Job
  pub genj : Job
  pub gen_stage : ℕ
  pub gen_on : Bool
  pub ec_last : ℕ
  pub force_px : Bool
  pub force_mix : Bool

-- The enum in `price_feed_tick`.
pub data Request : Type 0 where
  pf_none : Request
  pf_tib : Request
  pf_ec : Request
  pf_mix : Request
  pf_gen : Request

abbrev pub pf_clock_ok : ℕ
pf_clock_ok = 1700000000

abbrev pub int64_max : ℕ
int64_max = 9223372036854775807

abbrev pf_roll_px : ℕ
pf_roll_px = 5 * 60

abbrev pf_roll_mix : ℕ
pf_roll_mix = 10 * 60

abbrev pub pf_refresh_px : ℕ
pf_refresh_px = 6 * 3600

abbrev pub pf_refresh_mix : ℕ
pf_refresh_mix = 3 * 3600

abbrev pub pf_ec_gap : ℕ
pf_ec_gap = 2 * 3600

abbrev pf_tmrw_from_h : ℕ
pf_tmrw_from_h = 13

abbrev pf_tmrw_until_h : ℕ
pf_tmrw_until_h = 21

abbrev pf_tmrw_every : ℕ
pf_tmrw_every = 30 * 60

abbrev pub pf_429_hold : ℕ
pf_429_hold = 3600

abbrev pf_mix_tmrw_from_h : ℕ
pf_mix_tmrw_from_h = 12

abbrev pf_mix_tmrw_until_h : ℕ
pf_mix_tmrw_until_h = 23

abbrev pf_mix_tmrw_every : ℕ
pf_mix_tmrw_every = 45 * 60

abbrev pub pf_ec_spacing : ℕ
pf_ec_spacing = 60

abbrev local_at : Zone → ℕ → ℕ → ℕ → ℕ
local_at z t days hour =
    let tm = z.localtime_r t in
    z.mktime record {
      tm_year = tm.tm_year;
      tm_mon = tm.tm_mon;
      tm_mday = tm.tm_mday + days;
      tm_hour = hour;
      tm_min = 0;
      tm_sec = 0;
      tm_isdst = negsuc 0;
    }

unfoldable pub local_midnight : Zone → ℕ → ℕ
local_midnight z t = local_at z t 0 0

-- The wait for a number of failures.
abbrev pub wait_after : ℕ → ℕ
wait_after fails =
    if fails == 1 then 300 else if fails == 2 then 600 else if fails == 3 then 1200 else 3600

unfoldable pub backoff_s : Job → ℕ
backoff_s j =
    if j.fails == 0
    then 0
    else let b = wait_after j.fails in if j.r429 && ltb b pf_429_hold then pf_429_hold else b

abbrev pub max64 : ℕ → ℕ → ℕ
max64 a b = if ltb b a then a else b

abbrev pub min64 : ℕ → ℕ → ℕ
min64 a b = if ltb a b then a else b

-- The last step of the due times.
unfoldable pub held_back : Job → ℕ → ℕ
held_back j due = if j.fails == 0 then due else max64 due (j.last_try + backoff_s j)

-- When the next try for tomorrow's prices is due, no later than `due`.
unfoldable pub tomorrow_due : Zone → Job → ℕ → ℕ → ℕ
tomorrow_due z j day due =
    if j.tomorrow
    then due
    else let d = max64 j.day day in
      let next = max64 (local_at z d 0 pf_tmrw_from_h) (j.last_try + pf_tmrw_every) in
      if ltb next (local_at z d 0 pf_tmrw_until_h) then min64 due next else due

unfoldable pub price_due : Zone → Job → ℕ → ℕ
price_due z j now =
    if ltb now pf_clock_ok
    then int64_max
    else let day = local_midnight z (now - pf_roll_px) in
      held_back j (if ltb j.day day then now else tomorrow_due z j day (j.last_ok + pf_refresh_px))

unfoldable pub ec_due : Zone → Job → ℕ → ℕ
ec_due z j now =
    let due = price_due z j now in
    if j.last_try == 0 then due else max64 due (j.last_try + pf_ec_gap)

-- The same for tomorrow's mix.
unfoldable pub mix_tomorrow_due : Zone → Job → ℕ → ℕ → ℕ → ℕ
mix_tomorrow_due z j now day due =
    let till = local_at z day 0 pf_mix_tmrw_until_h in
    let next = max64 (local_at z day 0 pf_mix_tmrw_from_h) (j.last_try + pf_mix_tmrw_every) in
    if (leb day j.day && not j.tomorrow) && (ltb now till && ltb next till)
    then min64 due next
    else due

unfoldable pub mix_due : Zone → Job → ℕ → ℕ
mix_due z j now =
    if ltb now pf_clock_ok
    then int64_max
    else let day = local_midnight z (now - pf_roll_mix) in
      held_back j
        (mix_tomorrow_due z j now day (if ltb j.day day then now else j.last_ok + pf_refresh_mix))

abbrev pub gen_due : Zone → Job → ℕ → ℕ
gen_due z j now = mix_due z j now

unfoldable pub forced_due : Job → ℕ → ℕ
forced_due j now = if j.fails == 0 then now else j.last_try + backoff_s j

abbrev pub ec_needed : Zone → Feed → Bool → ℕ → Bool
ec_needed z f tok now =
    not tok || (not (f.tib.fails == 0) && ltb f.tib.day (local_midnight z (now - pf_roll_px)))

-- `ec_ok`
abbrev pub ec_ok : Feed → ℕ → Bool
ec_ok f now = (f.ec_last == 0) || leb (f.ec_last + pf_ec_spacing) now

-- `gen_go`
unfoldable pub gen_go : Zone → Feed → ℕ → Bool
gen_go z f now =
    if ltb 0 f.gen_stage
    then leb (f.genj.last_try + (if f.genj.fails == 0 then 0 else backoff_s f.genj)) now
    else if f.force_mix
    then leb (forced_due f.genj now) now
    else leb (gen_due z f.genj now) now

-- The conditions of the choice, in its order.
abbrev pub tib_go : Zone → Feed → Bool → ℕ → Bool
tib_go z f tok now =
    tok && leb (if f.force_px then forced_due f.tib now else price_due z f.tib now) now

abbrev pub ec_go : Zone → Feed → Bool → ℕ → Bool
ec_go z f tok now =
    ec_ok f now
    && (ec_needed z f tok now
        && leb (if f.force_px then forced_due f.ec now else ec_due z f.ec now) now)

abbrev pub mix_go : Zone → Feed → ℕ → Bool
mix_go z f now =
    ec_ok f now && leb (if f.force_mix then forced_due f.mixj now else mix_due z f.mixj now) now

-- The choice from its last condition on.
unfoldable pub gen_or_none : Zone → Feed → ℕ → Request
gen_or_none z f now = if ec_ok f now && (f.gen_on && gen_go z f now) then pf_gen else pf_none

unfoldable pub mix_or_gen : Zone → Feed → ℕ → Request
mix_or_gen z f now = if mix_go z f now then pf_mix else gen_or_none z f now

-- The choice in `price_feed_tick`, with `tok` where a Tibber token is set.
unfoldable pub what : Zone → Feed → Bool → ℕ → Request
what z f tok now =
    if tib_go z f tok now then pf_tib else (if ec_go z f tok now then pf_ec else mix_or_gen z f now)

unfoldable pub job_fail : Job → ℕ → List ℕ → Job
job_fail j status why = record {
  day = j.day;
  tomorrow = j.tomorrow;
  last_try = j.last_try;
  last_ok = j.last_ok;
  fails = if ltb j.fails 255 then j.fails + 1 else j.fails;
  r429 = status == 429;
  err = take 79 why;
}

unfoldable pub job_ok : Job → ℕ → ℕ → Bool → Job
job_ok j now day tomorrow = record {
  day = day;
  tomorrow = tomorrow;
  last_try = j.last_try;
  last_ok = now;
  fails = 0;
  r429 = false;
  err = [];
}

-- The C functions that fetch and parse, with what they read and change of the variables.
pub record Fetch : Type 0 where
  pub tibber_fetch : ℕ → Bool → Feed → Feed
  pub ec_price_fetch : ℕ → Bool → Feed → Feed
  pub mix_fetch : ℕ → Feed → Feed
  pub gen_fetch : ℕ → Feed → Feed

abbrev pub asks_ec : Request → Bool
asks_ec pf_none = false
asks_ec pf_tib = false
asks_ec pf_ec = true
asks_ec pf_mix = true
asks_ec pf_gen = true

-- `if (what != PF_TIB) s_ec_last = now;`, behind the return on PF_NONE.
abbrev pub noted : ℕ → Request → Feed → Feed
noted now r f = if asks_ec r then record f { ec_last = now } else f

-- The switch.
abbrev pub serve : Fetch → ℕ → Bool → Request → Feed → Feed
serve x now tok pf_none f = f
serve x now tok pf_tib f = x.tibber_fetch now tok (record f { force_px = false })
serve x now tok pf_ec f = x.ec_price_fetch now tok (record f { force_px = false })
serve x now tok pf_mix f = x.mix_fetch now (record f { force_mix = false })
serve x now tok pf_gen f = x.gen_fetch now f

-- `price_feed_tick`, with the request that it makes; `has_buf` is false where the buffer of the
-- answer cannot be had. The published prices, their allocation and their roll at midnight are apart.
unfoldable pub price_feed_tick : Zone → Fetch → ℕ → Bool → Bool → Feed → Request × Feed
price_feed_tick z x now tok has_buf f =
    let r = what z f tok now in
    if ltb now pf_clock_ok
    then (pf_none, f)
    else if has_buf
    then (r, serve x now tok r (noted now r f))
    else (pf_none, noted now r f)

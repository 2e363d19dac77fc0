-- ===== src/Feed/Course.antt =====
-- main/price_feed.c: the requests over any course of ticks.
use deye_inverter_display_es.Common.{
  ℕ, ◌+◌, ◌≡◌, ◌≢◌, ◌≤◌, ◌⊎◌, refl, Bool, false, ltb, List, [], ◌∷◌, arith, if_lem,
}
use deye_inverter_display_es.Feed.{
  Zone, Feed, Fetch, Request, pf_none, pf_tib, pf_ec, pf_mix, pf_gen, pf_clock_ok, noted, serve,
  what, price_feed_tick,
}
use deye_inverter_display_es.Feed.Due.{
  Waited, Spaced, Allowed, asks_nobody, asks_tibber, asks_prices, asks_mix, asks_forecast,
  what-Allowed,
}

-- The fetches leave the time of the last request to Energy-Charts alone.
pub record FetchLaws (x : Fetch) : Type 0 where
  pub tibber_keeps :
      (now : ℕ) (tok : Bool) (f : Feed) → (x.tibber_fetch now tok f).ec_last ≡ f.ec_last
  pub ec_keeps :
      (now : ℕ) (tok : Bool) (f : Feed) → (x.ec_price_fetch now tok f).ec_last ≡ f.ec_last
  pub mix_keeps : (now : ℕ) (f : Feed) → (x.mix_fetch now f).ec_last ≡ f.ec_last
  pub gen_keeps : (now : ℕ) (f : Feed) → (x.gen_fetch now f).ec_last ≡ f.ec_last

-- A tick: its time, whether a token is set, and whether it gets its buffer.
pub record Tick : Type 0 where
  pub now : ℕ
  pub tok : Bool
  pub has_buf : Bool

-- A tick with the variables that it finds and the request that it makes.
pub record Asked : Type 0 where
  pub at : ℕ
  pub found : Feed
  pub request : Request

unfoldable pub run : Zone → Fetch → List Tick → Feed → List Asked
run z x [] f = []
run z x (t ∷ ts) f =
    let (r, f') = price_feed_tick z x t.now t.tok t.has_buf f in
    record { at = t.now; found = f; request = r } ∷ run z x ts f'

-- The requests wait as they should; `last` is the time of the request to Energy-Charts before
-- them, 0 for none.
pub data AllWait : ℕ → List Asked → Type 0 where
  at_end : {last : ℕ} → AllWait last []
  asks_none :
      {last now : ℕ} {f : Feed} {es : List Asked}
      → AllWait last es
      → AllWait last (record { at = now; found = f; request = pf_none } ∷ es)
  tibber_waited :
      {last now : ℕ} {f : Feed} {es : List Asked}
      → Waited f.tib now
      → AllWait last es
      → AllWait last (record { at = now; found = f; request = pf_tib } ∷ es)
  prices_waited :
      {last now : ℕ} {f : Feed} {es : List Asked}
      → Waited f.ec now
      → (last ≡ 0) ⊎ (last + 60 ≤ now)
      → AllWait now es
      → AllWait last (record { at = now; found = f; request = pf_ec } ∷ es)
  mix_waited :
      {last now : ℕ} {f : Feed} {es : List Asked}
      → Waited f.mixj now
      → (last ≡ 0) ⊎ (last + 60 ≤ now)
      → AllWait now es
      → AllWait last (record { at = now; found = f; request = pf_mix } ∷ es)
  forecast_waited :
      {last now : ℕ} {f : Feed} {es : List Asked}
      → Waited f.genj now
      → (last ≡ 0) ⊎ (last + 60 ≤ now)
      → AllWait now es
      → AllWait last (record { at = now; found = f; request = pf_gen } ∷ es)

-- `last` is no later than the time that the code keeps.
abbrev IsBefore : ℕ → Feed → Type 0
IsBefore last f = (last ≡ 0) ⊎ ((last ≤ f.ec_last) × (f.ec_last ≢ 0))

wait_since :
    (last now : ℕ) (f : Feed) → IsBefore last f → Spaced f now → (last ≡ 0) ⊎ (last + 60 ≤ now)
wait_since last now f h s = ground (arith, h, s)

module _ (z : Zone) (x : Fetch) (laws : FetchLaws x) where
  serve_keeps :
      (now : ℕ) (tok : Bool) (r : Request) (f : Feed) → (serve x now tok r f).ec_last ≡ f.ec_last
  serve_keeps now tok pf_none f = refl
  serve_keeps now tok pf_tib f = laws.tibber_keeps now tok (record f { force_px = false })
  serve_keeps now tok pf_ec f = laws.ec_keeps now tok (record f { force_px = false })
  serve_keeps now tok pf_mix f = laws.mix_keeps now (record f { force_mix = false })
  serve_keeps now tok pf_gen f = laws.gen_keeps now f

  -- What a tick that gets its buffer asks, in front of what comes later.
  asks-AllWait :
      (last now : ℕ) (r : Request) (f g : Feed) (es : List Asked)
      → now ≢ 0
      → Allowed f now r
      → IsBefore last f
      → g.ec_last ≡ (noted now r f).ec_last
      → ((l : ℕ) → IsBefore l g → AllWait l es)
      → AllWait last (record { at = now; found = f; request = r } ∷ es)
  asks-AllWait last now r f g es late asks_nobody h e k = asks_none (k last (ground (arith, h, e)))
  asks-AllWait last now r f g es late (asks_tibber w) h e k =
      tibber_waited w (k last (ground (arith, h, e)))
  asks-AllWait last now r f g es late (asks_prices w s) h e k =
      prices_waited w (wait_since last now f h s) (k now (ground (arith, e, late)))
  asks-AllWait last now r f g es late (asks_mix w s) h e k =
      mix_waited w (wait_since last now f h s) (k now (ground (arith, e, late)))
  asks-AllWait last now r f g es late (asks_forecast w s) h e k =
      forecast_waited w (wait_since last now f h s) (k now (ground (arith, e, late)))

  -- A tick without its buffer only moves the time on.
  noted-IsBefore :
      (last now : ℕ) (r : Request) (f : Feed)
      → now ≢ 0
      → Allowed f now r
      → IsBefore last f
      → IsBefore last (noted now r f)
  noted-IsBefore last now r f late asks_nobody h = h
  noted-IsBefore last now r f late (asks_tibber w) h = h
  noted-IsBefore last now r f late (asks_prices w s) h = ground (arith, h, s, late)
  noted-IsBefore last now r f late (asks_mix w s) h = ground (arith, h, s, late)
  noted-IsBefore last now r f late (asks_forecast w s) h = ground (arith, h, s, late)

  tick-AllWait :
      (last : ℕ) (t : Tick) (f : Feed) (later : Feed → List Asked)
      → IsBefore last f
      → ((l : ℕ) (g : Feed) → IsBefore l g → AllWait l (later g))
      → let (r, g) = price_feed_tick z x t.now t.tok t.has_buf f in
        AllWait last (record { at = t.now; found = f; request = r } ∷ later g)
  unfolding price_feed_tick
  tick-AllWait last t f later h k =
      let r = what z f t.tok t.now in
      let allowed = what-Allowed z f t.tok t.now in
      let g = serve x t.now t.tok r (noted t.now r f) in
      let P = λ (o : Request × Feed).
        AllWait last (record { at = t.now; found = f; request = o.0 } ∷ later o.1) in
      if_lem P (ltb t.now pf_clock_ok) (pf_none, f) _ (λ q. asks_none (k last f h))
        (λ q.
          if_lem P t.has_buf (r, g) (pf_none, noted t.now r f)
            (λ b.
              asks-AllWait last t.now r f g (later g) (ground (arith, q)) allowed h
                (serve_keeps t.now t.tok r (noted t.now r f)) (λ l i. k l g i))
            (λ b. asks_none (
              k last (noted t.now r f)
                (noted-IsBefore last t.now r f (ground (arith, q)) allowed h))))

  -- Over any ticks, at any times, with the buffer or without, where the fetches leave the time of
  -- the last request alone: two requests to Energy-Charts are a minute apart or more, whatever they
  -- are for, and no service is asked before it has paused after its last failures, 5, 10 or 20
  -- minutes or an hour, and an hour after HTTP 429.
  pub run-AllWait :
      (ts : List Tick) (last : ℕ) (f : Feed)
      → (last ≡ 0) ⊎ ((last ≤ f.ec_last) × (f.ec_last ≢ 0))
      → AllWait last (run z x ts f)
  unfolding run
  run-AllWait [] last f h = at_end
  run-AllWait (t ∷ ts) last f h =
      tick-AllWait last t f (λ g. run z x ts g) h (λ l g i. run-AllWait ts l g i)

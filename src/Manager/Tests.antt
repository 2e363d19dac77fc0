-- ===== src/Manager/Tests.antt =====
-- The energy manager at a plan of five quarter hours, on the inverter of Bench.
use deye_inverter_display_es.Common.{
  ℕ, ◌≡◌, inr, refl, true, false, ℤ, pos, ◌+ℤ◌, ◌-ℤ◌, some, [], ◌∷◌,
}
use deye_inverter_display_es.Ctrl.{normal, force_charge, apply, apply_clamped}
use deye_inverter_display_es.Bench.{bench, booted}
use deye_inverter_display_es.Whole.{watts}
use deye_inverter_display_es.Force.{off, no_reason, Session}
use deye_inverter_display_es.Manager.{
  Plan, SlotPlan, Site, Action, as_usual, hold, charge, block_end, run_of, index_now, highest,
}
use deye_inverter_display_es.Manager.Act.{Options, Order, order_of, act}
use deye_inverter_display_es.Manager.Owner.{IsOwn, IsKept, released-IsOwn}
use deye_inverter_display_es.Manager.User.{LeftAlone, user_wins}
use deye_inverter_display_es.Manager.Ended.{InCharge}
use deye_inverter_display_es.Manager.Follow.{Done, acts_as_planned}
use deye_inverter_display_es.Manager.Requests.{Task, Found, no_req, pass}
use deye_inverter_display_es.Manager.Passes.{passes, by_hand, here, then_step, Reach-IsKept}

abbrev same : ℤ → ℤ
same a = a

abbrev slot : Action → ℕ → SlotPlan ℤ
slot a soc = record { act = a; charge_kw = pos 3000; soc_end = pos soc }

abbrev night : Plan ℤ
night = record {
  t0 = pos 1700010000;
  slots = slot charge 40 ∷ slot charge 55 ∷ slot hold 55 ∷ slot as_usual 50 ∷ slot as_usual 45 ∷ [];
}

abbrev automatic : Options
automatic = record { mode = 2; byd_ctrl = true; soc_max_pct = 90 }

abbrev quiet : Session bench
quiet = record {
  force = record {
    mode = off;
    w = 0;
    until = pos 0;
    soc = 0;
    active = false;
    end_reason = no_reason;
  };
  world = booted;
}

abbrev at_rest : Site bench
at_rest = record {
  own_charge = false;
  own_power = pos 0;
  block_end = pos 0;
  own_hold = false;
  own_byd = false;
  paused_until = pos 0;
  acting = false;
  paused = false;
  hold_until = 0;
  byd = record { on = false; rvrt = 0; seq = 0 };
  session = quiet;
}

at_rest-IsOwn : IsOwn at_rest
at_rest-IsOwn = released-IsOwn at_rest (refl, refl, refl, refl, refl)

abbrev two_blocks : Order
two_blocks = record { act = charge; w = pos 3000; soc = pos 55; until = pos 1700011800 }

first_order : order_of watts same same night (index_now (pos 1700010005) night) ≡ some two_blocks
unfolding index_now block_end run_of highest ◌-ℤ◌ ◌+ℤ◌
first_order = refl

acts_as_planned_example :
    Done
      (pos 1700010005)
      automatic
      two_blocks
      at_rest
      (act watts same same (pos 1700010005) false automatic night at_rest)
acts_as_planned_example =
    acts_as_planned watts same same (pos 1700010005) false automatic night at_rest two_blocks
      at_rest-IsOwn first_order

-- The operator has put the inverter in a forced charge.
abbrev by_operator : Site bench
by_operator = record at_rest {
  session = record quiet { world = (apply bench force_charge (pos 5000) booted).1 };
}

user_wins_example :
    LeftAlone by_operator (act watts same same (pos 1700010005) false automatic night by_operator)
unfolding apply apply_clamped
user_wins_example =
    user_wins watts same same (pos 1700010005) false automatic night by_operator (inr (refl, refl))

abbrev boot : Task ℤ bench
boot = record {
  site = at_rest;
  plan = record { t0 = pos 0; slots = [] };
  last_slot = ℤ.negsuc 0;
  price_seen = pos 0;
  pv_seen = pos 0;
  wanted = pos 0;
  req = no_req;
}

abbrev seen : Found ℤ
seen = record {
  now = pos 1700010005;
  options = automatic;
  sweeping = false;
  price_fetched = pos 1700000000;
  pv_fetched = pos 1700000000;
  made = some night;
}

abbrev charged : Task ℤ bench
charged = pass watts same same seen boot

abbrev again : Task ℤ bench
again =
    pass watts same same seen (record charged { site = record charged.site { session = quiet } })

Reach-IsKept_example :
    IsKept again.site
    × ((x : Found ℤ)
        → let s = (pass watts same same x again).site in
          InCharge again.site → s.acting ≡ false → s.session.world.ctrl.mode ≡ normal)
Reach-IsKept_example =
    Reach-IsKept watts same same boot again (refl, refl, refl, refl, refl)
      (then_step (then_step (then_step here (passes seen)) (by_hand quiet)) (passes seen))

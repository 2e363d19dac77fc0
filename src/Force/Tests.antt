-- ===== src/Force/Tests.antt =====
-- Sessions of the forced mode at concrete inputs.
use deye_inverter_display_es.Common.{◌≡◌, ◌⊎◌, refl, true, false, ℤ, pos, ◌+ℤ◌, leb_ℤ, Bool}
use deye_inverter_display_es.Ctrl.{
  normal, force_charge, force_discharge, apply, apply_auto, apply_clamped,
}
use deye_inverter_display_es.Bench.{bench, booted}
use deye_inverter_display_es.Whole.{watts}
use deye_inverter_display_es.Force.{
  off, charge, discharge, no_reason, taken_over, time_up, Session, Live, is_ours, finish, begin,
  set, tick,
}
use deye_inverter_display_es.Force.Lifecycle.{tick_keeps, tick_ends}

abbrev none_yet : Session bench
none_yet = record {
  force = record {
    mode = off;
    w = 0;
    until = pos 0;
    soc = 0;
    active = false;
    end_reason = no_reason;
  };
  world = booted;
}

abbrev noon : ℤ
noon = pos 1800000000

abbrev started : Session bench
started = (set bench discharge 5000 90 20 noon none_yet).1

abbrev at_60 : Live ℤ
at_60 = record { valid = true; online = true; bat_soc = pos 60 }

tick_keeps_example :
    (tick bench watts noon at_60 started ≡ started)
    × (started.world.ctrl.user_power_w ≡ pos 5000)
    × (started.force.mode ≡ charge → started.world.ctrl.mode ≡ force_charge)
    × (started.force.mode ≡ discharge → started.world.ctrl.mode ≡ force_discharge)
    × ((leb_ℤ (pos 1700000000) noon ≡ false) ⊎ (leb_ℤ started.force.until noon ≡ false))
    × (◌≡◌ {A = Bool} true true
        → ◌≡◌ {A = Bool} true true
        → ◌≡◌ {A = Bool} true true
        → (started.force.mode ≡ charge → leb_ℤ (pos 20) (pos 60) ≡ false)
          × (started.force.mode ≡ discharge → leb_ℤ (pos 60) (pos 20) ≡ false))
unfolding set begin tick apply_auto apply_clamped ◌+ℤ◌
tick_keeps_example = tick_keeps bench watts noon at_60 started (λ (e : discharge ≡ off). cc)

abbrev at_20 : Live ℤ
at_20 = record at_60 { bat_soc = pos 20 }

tick_ends_example :
    let s' = tick bench watts noon at_20 started in
    (s'.force.active ≡ false)
    × (((is_ours bench started ≡ false)
          × (s'.world ≡ started.world)
          × ((s'.force.end_reason ≡ taken_over) ⊎ (s'.force.end_reason ≡ time_up)))
        ⊎ ((is_ours bench started ≡ true) × (s'.world.ctrl.mode ≡ normal)))
unfolding set begin tick finish apply_auto apply_clamped apply ◌+ℤ◌
tick_ends_example = tick_ends bench watts noon at_20 started (λ (e : discharge ≡ off). cc) refl

-- ===== src/Energy/Tests.antt =====
-- The energy counters at concrete readings and powers, with whole numbers in the place of doubles.
use deye_inverter_display_es.Common.{
  inl, inr, refl, true, false, ℤ, pos, negsuc, ◌+ℤ◌, ◌-ℤ◌, ltb_ℤ, leb_ℤ, ◌==ℤ◌, Option, none, some,
  [], ◌∷◌, arith, +ℤ_parts, -ℤ_parts,
}
use deye_inverter_display_es.Energy.{Doubles, Ctr, Sum, Nvs, Byd}
use deye_inverter_display_es.Energy.Sums.{OrderLaws, NvsLaws, Grown, samples, samples-Grown}

abbrev whole : Doubles
whole = record {
  Float = ℤ;
  Double = ℤ;
  widen = λ a. a;
  of_nat = λ n. pos n;
  tenth = pos 0;
  add = λ a b. a +ℤ b;
  sub = λ a b. a -ℤ b;
  mul = λ a b. a;
  div = λ a b. a;
  lt = ltb_ℤ;
  le = leb_ℤ;
  same = λ a b. a ==ℤ b;
}

ordered : OrderLaws whole
ordered = record {
  le_refl = λ a h. ground arith;
  le_trans = λ a b c h k. ground (arith, h, k);
  add_up = λ a x h k. ground (arith, h, k, +ℤ_parts a x);
  sub_up = λ a x h k. ground (arith, h, k, -ℤ_parts a x);
}

abbrev nvs : Nvs whole
nvs = record { State = Option (Sum whole); get = λ s. s; set = λ r s. (true, some r) }

nvs_laws : NvsLaws whole nvs
nvs_laws = record { get_set = λ r s h. refl; get_kept = λ r s h. absurd (ground (arith, h)) }

abbrev meter : Ctr
meter = record { valid = true; val = 120000; ms = 1000; rejects = 1 }

abbrev running : Byd whole nvs
running = record {
  sum = record { chg_wh = pos 5000; dis_wh = pos 4000 };
  saved = record { chg_wh = pos 4900; dis_wh = pos 4000 };
  have = true;
  slot = pos 1;
  last_ms = 60000;
  saved_ms = 0;
  flash = some (record { chg_wh = pos 4900; dis_wh = pos 4000 });
}

samples-Grown_example :
    Grown whole running.sum
      (samples whole ordered nvs
        (record { slot = pos 1; w = pos 300; now_ms = 70000; max_gap_ms = 30000 }
          ∷ record { slot = pos 1; w = negsuc 499; now_ms = 80000; max_gap_ms = 30000 }
          ∷ [])
        running).sum
samples-Grown_example =
    samples-Grown whole ordered nvs
      (record { slot = pos 1; w = pos 300; now_ms = 70000; max_gap_ms = 30000 }
        ∷ record { slot = pos 1; w = negsuc 499; now_ms = 80000; max_gap_ms = 30000 }
        ∷ [])
      running (λ dt. inl refl, (λ dt. inr refl, tt)) (refl, refl)

abbrev after_boot : Byd whole nvs
after_boot = record {
  sum = record { chg_wh = pos 0; dis_wh = pos 0 };
  saved = record { chg_wh = pos 0; dis_wh = pos 0 };
  have = false;
  slot = negsuc 0;
  last_ms = 0;
  saved_ms = 0;
  flash = none;
}

-- ===== src/EmHist/Sealed.antt =====
-- main/em_hist.c: the record under the laws of the ring.
use deye_inverter_display_es.Common.{ℕ, ◌≡◌, refl, true, arith, ==_iff}
use deye_inverter_display_es.Ring.Laws.{KindLaws, Geometry}
use deye_inverter_display_es.EmHist.{
  Rec, em_kind, eh_per_sector, seal, same, eh_rec_ok, eh_rec_sum, with_header, bytes,
}

seal_ok : (n : ℕ) (r : Rec) → eh_rec_ok (seal n r) ≡ true
unfolding eh_rec_sum bytes
seal_ok n r = (==_iff (eh_rec_sum (with_header n r)) (eh_rec_sum (with_header n r))).1 refl

same_eq : (a b : Rec) → same a b ≡ true → a ≡ b
same_eq a b h = ground (arith, h)

pub em_laws : KindLaws em_kind
em_laws = record { seal_ok = seal_ok; seal_seq = λ n r. refl; same_eq = same_eq }

pub em_geometry : Geometry eh_per_sector 32768
em_geometry = record {
  some_slots = omega arith;
  two = omega arith;
  starts = refl;
  rem_lt = λ s. omega arith;
  next_rem = λ s h. omega arith;
  last_rem = λ s h. omega arith;
  sector_fits = λ s h lt. omega arith;
  wrap = λ s lt. omega arith;
}

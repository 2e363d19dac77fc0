-- ===== src/LoadHist/Sealed.antt =====
-- main/load_hist.c: the record under the laws of the ring.
use deye_inverter_display_es.Common.{ℕ, ◌≡◌, refl, true, arith, ==_iff, List, [], ◌∷◌}
use deye_inverter_display_es.Ring.Laws.{KindLaws, Geometry}
use deye_inverter_display_es.LoadHist.{
  Rec, lh_kind, lh_per_sector, seal, same, same_list, lh_rec_ok, lh_rec_sum, with_header, bytes,
}

seal_ok : (n : ℕ) (r : Rec) → lh_rec_ok (seal n r) ≡ true
unfolding lh_rec_sum bytes
seal_ok n r = (==_iff (lh_rec_sum (with_header n r)) (lh_rec_sum (with_header n r))).1 refl

same_list_eq : (xs ys : List ℕ) → same_list xs ys ≡ true → xs ≡ ys
same_list_eq [] [] h = refl
same_list_eq (x ∷ xs) (y ∷ ys) h = ground (arith, h, same_list_eq xs ys)
same_list_eq [] (y ∷ ys) h = absurd (ground (arith, h))
same_list_eq (x ∷ xs) [] h = absurd (ground (arith, h))

same_eq : (a b : Rec) → same a b ≡ true → a ≡ b
same_eq a b h = ground (arith, h, same_list_eq a.w b.w)

pub lh_laws : KindLaws lh_kind
lh_laws = record { seal_ok = seal_ok; seal_seq = λ n r. refl; same_eq = same_eq }

pub lh_geometry : Geometry lh_per_sector 4096
lh_geometry = record {
  some_slots = omega arith;
  two = omega arith;
  starts = refl;
  rem_lt = λ s. omega arith;
  next_rem = λ s h. omega arith;
  last_rem = λ s h. omega arith;
  sector_fits = λ s h lt. omega arith;
  wrap = λ s lt. omega arith;
}

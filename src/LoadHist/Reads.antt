-- ===== src/LoadHist/Reads.antt =====
-- main/load_hist.c: the newest day that a read brings.
use deye_inverter_display_es.Common.{
  ℕ, zero, suc, ◌+◌, ◌^◌, ◌≡◌, ◌<◌, refl, ap, ◌∙◌, pos, some, arith,
}
use deye_inverter_display_es.Ring.{Area, Ring, ok, put, read_slot, slot_back}
use deye_inverter_display_es.Ring.Laws.{FlashLaws, Geometry}
use deye_inverter_display_es.Ring.Slots.{IsRing, slot_back_zero}
use deye_inverter_display_es.Ring.Step.{put-IsPut}
use deye_inverter_display_es.LoadHist.{
  Rec, Day, lh_kind, lh_per_sector, seal, of_day, day_of, nth_back, from_newest, load_hist_get_l,
}
use deye_inverter_display_es.LoadHist.Sealed.{lh_laws}

module _ (a : Area Rec) where
  open a use {State, slots}

  first_back :
      (left newest : ℕ) (s : State) (r : Rec)
      → 0 < left
      → read_slot lh_kind a (slot_back lh_kind a newest 0) s ≡ some r
      → nth_back a left newest 0 0 s ≡ some (day_of r)
  unfolding nth_back
  first_back zero newest s r h e = absurd (omega (arith, h))
  first_back (suc left) newest s r h e = rw (nth_back, e) refl

  -- A day that was put is the newest that a read brings, after a put that reports success into a
  -- ring in its invariant and flash that behaves.
  put-get :
      (laws : FlashLaws lh_kind a) (geo : Geometry lh_per_sector slots) (d : Day) (g : Ring)
      (s : State)
      → IsRing lh_kind a g s
      → g.seq + 1 < 2 ^ 32
      → let (st, g', s') = put lh_kind a (of_day d) g s in
        st ≡ ok → load_hist_get_l a (pos 0) g' s' ≡ some d
  unfolding load_hist_get_l
  put-get laws geo d g s h small done =
      let is = put-IsPut lh_kind a lh_laws laws geo (of_day d) g s h small done in
      let (m, new, e) = is.at in
      let (st, g', s') = put lh_kind a (of_day d) g s in
      let at : slot_back lh_kind a m 0 ≡ m =
        slot_back_zero m slots (is.ring.covers.some_is m new).0 in
      ap (λ newest. from_newest a newest 0 s') new
      ∙ first_back slots m s' (seal (g.seq + 1) (of_day d)) (omega (arith, geo.two, geo.some_slots))
          (ap (λ i. read_slot lh_kind a i s') at ∙ e)

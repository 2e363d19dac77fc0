-- ===== src/Gateway/Answer.antt =====
-- What main/modbus_gw.c answers to one frame.
use deye_inverter_display_es.Common.{
  ℕ, zero, suc, ◌+◌, ◌≤◌, ◌<◌, ◌≡◌, ◌≢◌, ◌⊎◌, inl, inr, refl, ap, false, Bool-cases, Option, none,
  some, [], ◌∷◌, arith, length, get_or, take, drop, length-drop, bit_or, u32, ltb, ◌==◌, ◌&&◌,
}
use deye_inverter_display_es.Gateway.{
  Bytes, Cfg, Net, World, frame, classify, reply_frame, route_of, txn, txn_of, answer_pdu,
  exception_code,
}

take_all : (xs : Bytes) (n : ℕ) → n ≡ length xs → take n xs ≡ xs
take_all [] zero h = refl
take_all [] (suc n) h = refl
take_all (x ∷ xs) zero h = absurd (omega arith)
take_all (x ∷ xs) (suc n) h = ap (λ r. x ∷ r) (take_all xs n (omega arith))

-- A reply to the frame `f` around a PDU that fits is itself one complete frame, with the request's
-- transaction and unit ids and the PDU unchanged.
reply_frame_whole :
    (f pdu : Bytes)
    → 1 ≤ length pdu
    → length pdu ≤ 253
    → let r = reply_frame f pdu in
      (classify r ≡ frame (length r))
      × (length r ≡ 7 + length pdu)
      × (get_or r 0 0 ≡ get_or f 0 0)
      × (get_or r 1 0 ≡ get_or f 1 0)
      × (get_or r 6 0 ≡ get_or f 6 0)
      × (drop 7 r ≡ pdu)
unfolding reply_frame classify
reply_frame_whole f pdu low high = ground arith

module _ (n : Net) (cfg : Cfg) where
  -- The PDUs of the producer meter fit a frame (`out_max` of `fronius_meter_answer`).
  abbrev pub MeterFits : Type 0
  MeterFits = (pdu : Bytes) (s : n.State) → length (n.meter pdu s).0 ≤ 253

  txn_fits : (bus : ℕ) (req : Bytes) (s : n.State) → length (txn n cfg bus req s).0 ≤ 254
  unfolding txn
  txn_fits bus req s = ground arith

  txn_of_fits :
      (bus : Option ℕ) (req : Bytes) (s : n.State) → length (txn_of n cfg bus req s).0 ≤ 254
  txn_of_fits none req s = omega arith
  txn_of_fits (some bus) req s = txn_fits bus req s

  -- A response comes from a bus that the request was routed to.
  txn_of_routed :
      (bus : Option ℕ) (req : Bytes) (s : n.State)
      → 1 < length (txn_of n cfg bus req s).0
      → bus ≢ none
  txn_of_routed none req s h = absurd (omega arith)
  txn_of_routed (some bus) req s h = λ (k : some bus ≡ none). cc

  -- What the bridge answers fits a frame, whatever the bus and the meter return.
  pub answer_pdu_fits :
      (f : Bytes) (w : World n) → MeterFits → length (answer_pdu n cfg f w).0 ≤ 253
  unfolding answer_pdu
  answer_pdu_fits f w fits = ground (
    arith,
    fits (drop 7 f) w.net,
    txn_of_fits (route_of n cfg (get_or f 6 0)) (drop 6 f) w.net,
    length-drop 1 (txn_of n cfg (route_of n cfg (get_or f 6 0)) (drop 6 f) w.net).0,
  )

  coded :
      (bus : Option ℕ) (fc : ℕ)
      → ((bus ≡ none)
          × (bit_or fc 0x80 ∷ exception_code n cfg bus ∷ [] ≡ bit_or fc 0x80 ∷ 0x0A ∷ []))
        ⊎ ((bus ≢ none)
            × (bit_or fc 0x80 ∷ exception_code n cfg bus ∷ [] ≡ bit_or fc 0x80 ∷ 0x0B ∷ []))
  coded none fc = inl (refl, refl)
  coded (some bus) fc = inr (λ (k : some bus ≡ none). cc, refl)

  -- A frame for a unit that is not the meter's is answered in one of three ways: with the bus's
  -- response, with exception 0x0B where the routed bus gave none, and with exception 0x0A where no
  -- bus serves the unit; exactly one of the two counters goes up.
  pub answer_pdu_bridge :
      (f : Bytes) (w : World n)
      → (cfg.frm_enabled && get_or f 6 0 == cfg.frm_unit) ≡ false
      → let (pdu, w') = answer_pdu n cfg f w in
        let bus = route_of n cfg (get_or f 6 0) in
        let resp = (txn_of n cfg bus (drop 6 f) w.net).0 in
        ((bus ≢ none)
          × (1 < length resp)
          × (pdu ≡ drop 1 resp)
          × (w'.req_ok ≡ u32 (w.req_ok + 1))
          × (w'.req_err ≡ w.req_err))
        ⊎ ((length resp ≤ 1)
            × (((bus ≡ none) × (pdu ≡ bit_or (get_or f 7 0) 0x80 ∷ 0x0A ∷ []))
                ⊎ ((bus ≢ none) × (pdu ≡ bit_or (get_or f 7 0) 0x80 ∷ 0x0B ∷ [])))
            × (w'.req_ok ≡ w.req_ok)
            × (w'.req_err ≡ u32 (w.req_err + 1)))
  unfolding answer_pdu
  answer_pdu_bridge f w h =
      let bus = route_of n cfg (get_or f 6 0) in
      let resp = (txn_of n cfg bus (drop 6 f) w.net).0 in
      elim (Bool-cases (ltb 1 (length resp))) [
        | inl some_resp ↦
            rw (h, some_resp)
              (inl
                (txn_of_routed bus (drop 6 f) w.net (ground arith), ground arith, refl, refl, refl))
        | inr no_resp ↦ rw (h, no_resp) (inr (ground arith, coded bus (get_or f 7 0), refl, refl))
      ]

-- ===== src/Gateway/Tests.antt =====
-- The bridge with a bus that answers one register, and a log of what the client receives.
use deye_inverter_display_es.Common.{
  ◌+◌, ◌≤◌, ◌<◌, ◌≡◌, ◌≢◌, ◌⊎◌, refl, Bool, true, false, none, List, [], ◌∷◌, arith, length, get_or,
  drop, u32, bit_or, sub32,
}
use deye_inverter_display_es.Gateway.{
  Bytes, master, slave, Cfg, Net, World, Client, classify, gw_route, answer_pdu, route_of, txn_of,
  recv, recv_all, reap, idle_ms,
}
use deye_inverter_display_es.Gateway.Routing.{route_spec, gw_route-eq-route_spec}
use deye_inverter_display_es.Gateway.Framing.{recv_all-join, join}
use deye_inverter_display_es.Gateway.Answer.{MeterFits, answer_pdu_fits, answer_pdu_bridge}
use deye_inverter_display_es.Gateway.Slots.{reap_idle}

abbrev wire : Net
wire = record {
  State = List Bytes;
  exchange = λ bus req s. (get_or req 0 0 ∷ 3 ∷ 2 ∷ 0 ∷ 7 ∷ [], s);
  meter = λ pdu s. (3 ∷ 2 ∷ 1 ∷ 1 ∷ [], s);
  send = λ b s. (true, b ∷ s);
}

-- Bus 0 polls the inverter, bus 1 plays the meter; the mask names both.
abbrev both : Cfg
both = record {
  buses =
      record { enabled = true; role = master; slave_id = 1 }
      ∷ record { enabled = true; role = slave; slave_id = 2 }
      ∷ [];
  gw_enabled = true;
  gw_bus_mask = 3;
  frm_enabled = true;
  frm_unit = 9;
}

abbrev fresh : World wire
fresh = record { req_ok = 0; req_err = 0; net = [] }

abbrev request : Bytes
request = 0 ∷ 5 ∷ 0 ∷ 0 ∷ 0 ∷ 6 ∷ 2 ∷ 3 ∷ 0 ∷ 184 ∷ 0 ∷ 1 ∷ []

gw_route-eq-route_spec_example : gw_route both 2 ≡ route_spec both 2
gw_route-eq-route_spec_example = gw_route-eq-route_spec both 2

abbrev pieces : List Bytes
pieces = (0 ∷ 5 ∷ 0 ∷ []) ∷ (0 ∷ 0 ∷ 6 ∷ 2 ∷ 3 ∷ 0 ∷ []) ∷ (184 ∷ 0 ∷ 1 ∷ 0 ∷ 6 ∷ []) ∷ []

recv_all-join_example : recv_all wire both [] pieces fresh ≡ recv wire both [] (join pieces) fresh
unfolding classify
recv_all-join_example = recv_all-join wire both pieces [] fresh refl

wire_fits : MeterFits wire both
wire_fits pdu s = omega arith

answer_pdu_fits_example : length (answer_pdu wire both request fresh).0 ≤ 253
answer_pdu_fits_example = answer_pdu_fits wire both request fresh wire_fits

answer_pdu_bridge_example :
    let (pdu, w') = answer_pdu wire both request fresh in
    let bus = route_of wire both 2 in
    let resp = (txn_of wire both bus (drop 6 request) []).0 in
    ((bus ≢ none)
      × (1 < length resp)
      × (pdu ≡ drop 1 resp)
      × (w'.req_ok ≡ u32 (0 + 1))
      × (w'.req_err ≡ 0))
    ⊎ ((length resp ≤ 1)
        × (((bus ≡ none) × (pdu ≡ bit_or 3 0x80 ∷ 0x0A ∷ []))
            ⊎ ((bus ≢ none) × (pdu ≡ bit_or 3 0x80 ∷ 0x0B ∷ [])))
        × (w'.req_ok ≡ 0)
        × (w'.req_err ≡ u32 (0 + 1)))
answer_pdu_bridge_example = answer_pdu_bridge wire both request fresh refl

abbrev free_slot : Client
free_slot = record { is_open = false; buf = []; last_ms = 0; ip = 0 }

abbrev taken_slot : Client
taken_slot = record { is_open = true; buf = []; last_ms = 1000; ip = 7 }

reap_idle_example :
    let d = reap 70000 taken_slot in
    ((d ≡ taken_slot) × ((true ≡ false) ⊎ (sub32 70000 1000 ≤ idle_ms)))
    ⊎ ((◌≡◌ {A = Bool} true true)
        × (idle_ms < sub32 70000 1000)
        × (d.is_open ≡ false)
        × (d.buf ≡ []))
reap_idle_example = reap_idle 70000 taken_slot

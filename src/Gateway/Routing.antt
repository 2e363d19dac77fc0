-- ===== src/Gateway/Routing.antt =====
-- Which bus a unit id reaches (`modbus_rtu_gw_route` of main/modbus_rtu.c).
use deye_inverter_display_es.Common.{
  ℕ, ◌+◌, ◌≤◌, ◌≡◌, refl, true, Option, none, some, List, [], ◌∷◌, arith, if◌then◌else◌, ◌==◌,
  length,
}
use deye_inverter_display_es.Gateway.{
  BusCfg, Cfg, Found, can_gw, bus_can_gateway, route_step, route_scan, gw_route,
}

-- The buses that may carry bridged traffic, with their slave ids, in order.
pub eligible : Cfg → List BusCfg → ℕ → List (ℕ × ℕ)
eligible cfg [] i = []
eligible cfg (b ∷ bs) i =
    let rest = eligible cfg bs (i + 1) in if can_gw cfg i b then (i, b.slave_id) ∷ rest else rest

-- The first bus whose slave id is the unit.
pub find_unit : ℕ → List (ℕ × ℕ) → Option ℕ
find_unit unit [] = none
find_unit unit ((i, id) ∷ xs) = if id == unit then some i else find_unit unit xs

pub single : List (ℕ × ℕ) → Option ℕ
single [] = none
single ((i, id) ∷ []) = some i
single ((i, id) ∷ (x ∷ xs)) = none

-- What the bridge promises: an exact match wins; otherwise the only bridged bus, if there is one.
abbrev pub route_spec : Cfg → ℕ → Option ℕ
route_spec cfg unit =
    let buses = eligible cfg cfg.buses 0 in
    elim (find_unit unit buses) [ some h ↦ some h | none ↦ single buses ]

abbrev or_else : Option ℕ → Option ℕ → Option ℕ
or_else (some h) o = some h
or_else none o = o

last_bus : Option ℕ → List (ℕ × ℕ) → Option ℕ
last_bus o [] = o
last_bus o ((i, id) ∷ xs) = last_bus (some i) xs

module _ (cfg : Cfg) (unit : ℕ) where
  scan_hit :
      (bs : List BusCfg) (i : ℕ) (s : Found)
      → (route_scan cfg unit bs i s).hit ≡ or_else s.hit (find_unit unit (eligible cfg bs i))
  unfolding route_scan route_step find_unit eligible
  scan_hit [] i s = ground arith
  scan_hit (b ∷ bs) i s = ground (arith, scan_hit bs (i + 1) (route_step cfg unit i b s))

  scan_count :
      (bs : List BusCfg) (i : ℕ) (s : Found)
      → (route_scan cfg unit bs i s).count ≡ s.count + length (eligible cfg bs i)
  unfolding route_scan route_step eligible
  scan_count [] i s = omega arith
  scan_count (b ∷ bs) i s = ground (arith, scan_count bs (i + 1) (route_step cfg unit i b s))

  scan_only :
      (bs : List BusCfg) (i : ℕ) (s : Found)
      → (route_scan cfg unit bs i s).only ≡ last_bus s.only (eligible cfg bs i)
  unfolding route_scan route_step eligible last_bus
  scan_only [] i s = refl
  scan_only (b ∷ bs) i s = ground (arith, scan_only bs (i + 1) (route_step cfg unit i b s))

single_last : (xs : List (ℕ × ℕ)) → (if length xs == 1 then last_bus none xs else none) ≡ single xs
unfolding single last_bus
single_last [] = refl
single_last ((i, id) ∷ []) = refl
single_last ((i, id) ∷ ((j, k) ∷ xs)) = ground arith

-- The one scan over the buses routes as the bridge promises.
pub gw_route-eq-route_spec : (cfg : Cfg) (unit : ℕ) → gw_route cfg unit ≡ route_spec cfg unit
unfolding gw_route
gw_route-eq-route_spec cfg unit =
    let s : Found = record { hit = none; only = none; count = 0 } in
    ground (
      arith,
      scan_hit cfg unit cfg.buses 0 s,
      scan_count cfg unit cfg.buses 0 s,
      scan_only cfg unit cfg.buses 0 s,
      single_last (eligible cfg cfg.buses 0),
    )

bus_can_gateway_from :
    (cfg : Cfg) (bs : List BusCfg) (i bus : ℕ) → bus_can_gateway cfg bs i bus ≡ true → i ≤ bus
unfolding bus_can_gateway
bus_can_gateway_from cfg [] i bus h = cc
bus_can_gateway_from cfg (b ∷ bs) i bus h = ground (arith, bus_can_gateway_from cfg bs (i + 1) bus)

find_unit_can :
    (cfg : Cfg) (unit : ℕ) (bs : List BusCfg) (i h : ℕ)
    → find_unit unit (eligible cfg bs i) ≡ some h
    → bus_can_gateway cfg bs i h ≡ true
unfolding find_unit eligible bus_can_gateway
find_unit_can cfg unit [] i h e = cc
find_unit_can cfg unit (b ∷ bs) i h e =
    ground (arith, find_unit_can cfg unit bs (i + 1) h, bus_can_gateway_from cfg bs (i + 1) h)

single_can :
    (cfg : Cfg) (bs : List BusCfg) (i h : ℕ)
    → single (eligible cfg bs i) ≡ some h
    → bus_can_gateway cfg bs i h ≡ true
unfolding single eligible bus_can_gateway
single_can cfg [] i h e = cc
single_can cfg (b ∷ bs) i h e =
    ground (arith, single_can cfg bs (i + 1) h, bus_can_gateway_from cfg bs (i + 1) h)

-- A request is only ever routed to an enabled master bus that the bridge's mask names: injected
-- traffic never reaches the bus on which the device is a slave.
gw_route_eligible :
    (cfg : Cfg) (unit bus : ℕ)
    → gw_route cfg unit ≡ some bus
    → bus_can_gateway cfg cfg.buses 0 bus ≡ true
gw_route_eligible cfg unit bus h = ground (
  arith,
  gw_route-eq-route_spec cfg unit,
  find_unit_can cfg unit cfg.buses 0 bus,
  single_can cfg cfg.buses 0 bus,
)

-- ===== src/Gateway.antt =====
-- main/modbus_gw.c: the bridge from Modbus-TCP clients to the RS485 buses, with the routing and the
-- checks of `modbus_rtu_gw_route` and `modbus_rtu_txn` (main/modbus_rtu.c) that it rests on.
pub mod Routing
pub mod Framing
pub mod Answer
pub mod Slots
mod Tests
use deye_inverter_display_es.Common.{
  ℕ, zero, suc, ◌+◌, ◌-◌, ◌^◌, ◌/◌, Bool, true, false, ◌&&◌, ◌||◌, not, Option, none, some, List,
  [], ◌∷◌, ◌++◌, ltb, leb, ◌==◌, if◌then◌else◌, u8, u16, u32, sub32, be16, bit_and, bit_or, length,
  get_or, take, drop,
}

abbrev pub Bytes : Type 0
Bytes = List ℕ

pub data Role : Type 0 where
  master slave : Role

-- `mb_rtu_bus_cfg_t`, without the baud rate.
pub record BusCfg : Type 0 where
  pub enabled : Bool
  pub role : Role
  pub slave_id : ℕ

-- What the bridge reads of `mb_rtu_cfg_t`; `buses` has the MB_RTU_BUSES = 2 entries of `bus`.
pub record Cfg : Type 0 where
  pub buses : List BusCfg
  pub gw_enabled : Bool
  pub gw_bus_mask : ℕ
  pub frm_enabled : Bool
  pub frm_unit : ℕ

abbrev pub is_master : Role → Bool
is_master master = true
is_master slave = false

-- `bus_can_gw_nolock` of bus number `i`, whose configuration is `b`.
abbrev pub can_gw : Cfg → ℕ → BusCfg → Bool
can_gw cfg i b =
    cfg.gw_enabled
    && (not (bit_and cfg.gw_bus_mask (2 ^ i) == 0) && (b.enabled && is_master b.role))

-- `modbus_rtu_bus_can_gateway`, with the range check on the bus number.
unfoldable pub bus_can_gateway : Cfg → List BusCfg → ℕ → ℕ → Bool
bus_can_gateway cfg [] i bus = false
bus_can_gateway cfg (b ∷ bs) i bus =
    let rest = bus_can_gateway cfg bs (i + 1) bus in if i == bus then can_gw cfg i b else rest

-- `hit`, `only` and `n` of `modbus_rtu_gw_route`; `none` is -1.
pub record Found : Type 0 where
  pub hit : Option ℕ
  pub only : Option ℕ
  pub count : ℕ

abbrev pub first_of_two : Option ℕ → ℕ → Option ℕ
first_of_two none i = some i
first_of_two (some h) i = some h

unfoldable pub route_step : Cfg → ℕ → ℕ → BusCfg → Found → Found
route_step cfg unit i b s =
    if can_gw cfg i b
    then record {
      hit = if b.slave_id == unit then first_of_two s.hit i else s.hit;
      only = some i;
      count = s.count + 1;
    }
    else s

unfoldable pub route_scan : Cfg → ℕ → List BusCfg → ℕ → Found → Found
route_scan cfg unit [] i s = s
route_scan cfg unit (b ∷ bs) i s = route_scan cfg unit bs (i + 1) (route_step cfg unit i b s)

abbrev pub pick : Found → Option ℕ
pick s = elim s.hit [ some h ↦ some h | none ↦ if s.count == 1 then s.only else none ]

unfoldable pub gw_route : Cfg → ℕ → Option ℕ
gw_route cfg unit =
    pick (route_scan cfg unit cfg.buses 0 (record { hit = none; only = none; count = 0 }))

-- What the bridge calls: the RS485 exchange of a bus (a response, or the empty list where there is
-- none), the producer meter (`fronius_meter_answer`, empty for silence), and the client's socket.
pub record Net : Type 1 where
  pub State : Type 0
  pub exchange : ℕ → Bytes → State → Bytes × State
  pub meter : Bytes → State → Bytes × State
  pub send : Bytes → State → Bool × State

-- The bridge's counters, and everything outside.
pub record World (n : Net) : Type 0 where
  pub req_ok : ℕ
  pub req_err : ℕ
  pub net : n.State

abbrev pub gw_mbap : ℕ
gw_mbap = 7

abbrev pub gw_pdu_max : ℕ
gw_pdu_max = 253

abbrev pub gw_frame_max : ℕ
gw_frame_max = 260

-- The frame that `gw_reply` sends around the PDU `pdu`.
unfoldable pub reply_frame : Bytes → Bytes → Bytes
reply_frame f pdu =
    let len = u16 (length pdu + 1) in
    get_or f 0 0 ∷ get_or f 1 0 ∷ 0 ∷ 0 ∷ len / 256 ∷ u8 len ∷ get_or f 6 0 ∷ pdu

-- How a client's bytes continue: kept as a partial frame, or the client closed.
pub data Drained : Type 0 where
  keep : Bytes → Drained
  closed : Drained
  out_of_fuel : Drained

-- The header of what is buffered.
pub data Head : Type 0 where
  wait : Head
  bad : Head
  frame : ℕ → Head

unfoldable pub classify : Bytes → Head
classify buf =
    let proto = be16 (get_or buf 2 0) (get_or buf 3 0) in
    let len = be16 (get_or buf 4 0) (get_or buf 5 0) in
    if ltb (length buf) gw_mbap
    then wait
    else if not (proto == 0) || (ltb len 2 || ltb (gw_pdu_max + 1) len)
    then bad
    else if ltb (length buf) (6 + len)
    then wait
    else frame (6 + len)

module _ (n : Net) (cfg : Cfg) where
  -- `modbus_rtu_txn`: its checks of the bus and of the lengths; empty for a negative result.
  unfoldable pub txn : ℕ → Bytes → n.State → Bytes × n.State
  txn bus req s =
      if ltb (length req) 2 || ltb 256 (length req + 2)
      then ([], s)
      else if not (bus_can_gateway cfg cfg.buses 0 bus)
      then ([], s)
      else (let (resp, s') = n.exchange bus req s in
          if ltb (gw_frame_max - 6) (length resp) then ([], s') else (resp, s'))

  abbrev pub route_of : ℕ → Option ℕ
  route_of unit = if cfg.gw_enabled then gw_route cfg unit else none

  abbrev pub txn_of : Option ℕ → Bytes → n.State → Bytes × n.State
  txn_of none req s = ([], s)
  txn_of (some bus) req s = txn bus req s

  abbrev pub exception_code : Option ℕ → ℕ
  exception_code none = 0x0A
  exception_code (some bus) = 0x0B

  -- The PDU of the answer to the frame `f`; empty where the bridge stays silent.
  unfoldable pub answer_pdu : Bytes → World n → Bytes × World n
  answer_pdu f w =
      let unit = get_or f 6 0 in
      let bus = route_of unit in
      if cfg.frm_enabled && unit == cfg.frm_unit
      then (let (pdu, s) = n.meter (drop 7 f) w.net in (pdu, record w { net = s }))
      else (let (resp, s) = txn_of bus (drop 6 f) w.net in
          if ltb 1 (length resp)
          then (drop 1 resp, record w { req_ok = u32 (w.req_ok + 1); net = s })
          else (
            bit_or (get_or f 7 0) 0x80 ∷ exception_code bus ∷ [],
            record w { req_err = u32 (w.req_err + 1); net = s },
          ))

  -- `gw_serve`; false where the send failed and the client is closed.
  unfoldable pub serve : Bytes → World n → Bool × World n
  serve f w =
      let (pdu, w') = answer_pdu f w in
      if length pdu == 0
      then (true, w')
      else (let (sent, s) = n.send (reply_frame f pdu) w'.net in (sent, record w' { net = s }))

  -- The loop of `gw_recv` over the complete frames of the buffer.
  unfoldable pub drain : ℕ → Bytes → World n → Drained × World n
  drain zero buf w = (out_of_fuel, w)
  drain (suc fuel) buf w = elim (classify buf) [
    | wait ↦ (keep buf, w)
    | bad ↦ (closed, w)
    | frame total ↦ elim (serve (take total buf) w).0 [
      | true ↦ drain fuel (drop total buf) (serve (take total buf) w).1
      | false ↦ (closed, (serve (take total buf) w).1)
    ]
  ]

  -- `gw_recv` behind its read, which brought `chunk`.
  unfoldable pub recv : Bytes → Bytes → World n → Drained × World n
  recv buf chunk w = drain (suc (length (buf ++ chunk))) (buf ++ chunk) w

  -- `gw_recv`; the empty chunk is a read that brought nothing, at the end or by an error.
  unfoldable pub gw_recv : Bytes → Bytes → World n → Drained × World n
  gw_recv buf [] w = (closed, w)
  gw_recv buf (b ∷ bs) w = recv buf (b ∷ bs) w

  -- Reads that brought something, one after the other, as far as the client stays open.
  unfoldable pub recv_all : Bytes → List Bytes → World n → Drained × World n
  recv_all buf [] w = (keep buf, w)
  recv_all buf (chunk ∷ chunks) w = elim (recv buf chunk w).0 [
    | keep buf' ↦ recv_all buf' chunks (recv buf chunk w).1
    | closed ↦ (closed, (recv buf chunk w).1)
    | out_of_fuel ↦ (out_of_fuel, (recv buf chunk w).1)
  ]

-- `gw_client_t`; `is_open` is `fd >= 0`.
pub record Client : Type 0 where
  pub is_open : Bool
  pub buf : Bytes
  pub last_ms : ℕ
  pub ip : ℕ

abbrev pub idle_ms : ℕ
idle_ms = 60000

-- Used slots of `s_cl`.
abbrev pub used : List Client → ℕ
used [] = 0
used (c ∷ cs) = (if c.is_open then 1 else 0) + used cs

-- The first free slot takes the new client; without one nothing changes.
abbrev pub seat : Client → List Client → List Client
seat new [] = []
seat new (c ∷ cs) = let rest = seat new cs in if c.is_open then c ∷ rest else new ∷ cs

abbrev pub has_free : List Client → Bool
has_free [] = false
has_free (c ∷ cs) = not c.is_open || has_free cs

-- `gw_accept` of an accepted socket: false where the client is refused (`s_st.conn_rej++`).
unfoldable pub accept : ℕ → ℕ → ℕ → List Client → Bool × List Client
accept maxcl ip now cs =
    if not (has_free cs) || leb maxcl (used cs)
    then (false, cs)
    else (true, seat (record { is_open = true; buf = []; last_ms = now; ip = ip }) cs)

-- The idle reaper of `gw_task`, for the clients that had nothing to read.
unfoldable pub reap : ℕ → Client → Client
reap now c =
    if c.is_open && ltb idle_ms (sub32 now c.last_ms)
    then record c { is_open = false; buf = [] }
    else c

-- ===== src/Lib.antt =====
-- The display device for Deye inverters (ESP32-P4 firmware, C, under main/): a model of
-- the parts of the firmware that decide what the inverter, the meters and the network see,
-- and the theorems about them.
--
-- How the parts interact. main/deye_ctrl.c holds the one mode the inverter is in (Normal,
-- Selling First or Charge) and writes it as a set of registers over RS485;
-- main/deye_force.c starts and ends timed sessions on it; main/sls_guard.h trims its power
-- where the house would export more than it may. main/modbus_rtu.c owns the RS485 buses,
-- and main/modbus_gw.c answers Modbus-TCP clients from them. main/eff_sweep.c drives the
-- modes through a series of measured steps, and main/bat_lock.c keeps the operator's locks
-- of the two batteries. main/em_cfg.c holds the energy manager's settings, and
-- main/energy_mgr.c carries out its plan through the inverter control, the hold of the
-- meter emulation and the discharge block of the Fronius battery. main/em_hist.c and
-- main/load_hist.c keep quarter hours and days in rings of flash; main/energy_ctr.h and
-- main/byd_energy.c count energy. main/fronius_meter.c shows the Deye to the Fronius
-- inverter as a meter. main/price_feed.c decides when to ask
-- the price and forecast services. main/webauth.c guards the web endpoints that write.
-- main/dns_hijack.h serves the captive portal while the device is set up.
--
-- Files.
--   Common         shared types and lemmas: naturals, Booleans, lists over the naturals,
--                  integers, machine words with their wrap-around written out, the state
--                  monad, and floats as an ordered interface
--   Sls            main/sls_guard.h: guard_decide is sls_guard_decide, GuardState is
--                  sls_guard_state_t
--   Ctrl           main/deye_ctrl.c: the record Ctrl holds the static variables, World adds
--                  the device's surroundings (registers, stored mode, clock), and each
--                  function keeps its name less the prefix deye_ctrl_; task_round is one
--                  pass of deye_ctrl_task
--   Force          main/deye_force.c: set and tick are deye_force_set and deye_force_tick
--   Dns            main/dns_hijack.h: question_end and build_reply
--   Gateway        main/modbus_gw.c and the routing of main/modbus_rtu.c: recv is gw_recv behind its read,
--                  serve is gw_serve, accept is gw_accept, gw_route is modbus_rtu_gw_route
--   Sweep          main/eff_sweep.c: Sweep.Moves has put and finish, Sweep.Tick.tick is
--                  sweep_tick, Sweep.Request.start is eff_sweep_start
--   Lock           main/bat_lock.c: set, tick and init less the prefix bat_lock_, with
--                  modbus_rtu_set_lock and modbus_rtu_lock_active of main/modbus_rtu.c
--   Settings       main/em_cfg.c: check, defaults, set and init (em_cfg_set, em_cfg_init)
--   Rtu            main/modbus_rtu.c: crc16, rtu_read, rtu_write, live_blk_due and live_blk_done
--   Ring           the ring that main/em_hist.c and main/load_hist.c both have: put is
--                  eh_put_l and load_hist_put_l, init the scan of load_hist_init_l; the
--                  record is the parameter Kind, the flash the interface Area
--   EmHist         main/em_hist.c: Acc collects a quarter hour (em_hist_tick_l), Window has
--                  em_hist_range_l, em_hist_init_l scans by whole sectors
--   LoadHist       main/load_hist.c: load_hist_get_l, Average has load_hist_average_l and
--                  Date has load_hist_date
--   Manager        main/energy_mgr.c: Act has release and act, Requests has em_mgr_request
--                  and a pass of em_task with a clock that is set; the record Site holds the
--                  variables of acting with the parts that it drives
--   Energy         main/energy_ctr.h and main/byd_energy.c, by their function names
--   Meter          main/fronius_meter.c: snapshot and qty, Image has its registers and Reply
--                  has fronius_meter_answer
--   Feed           main/price_feed.c: the due times of the three services, the choice in
--                  price_feed_tick, as what, and price_feed_tick
--   Login          main/webauth.c, by its function names
--   Whole, Bench   concrete instances of the interfaces, on which the tests run
-- Each folder holds the proofs on the file of its name, and a file Tests.
--
-- Parameters. Floats are an interface with an order, sums and a cast. What the inverter
-- answers, what the flash keeps and what the clock reads are the interface Env, whose laws
-- EnvLaws state the documented behaviour of a Modbus register and of the key-value store:
-- what was written reads back where both transactions succeed. Flash and Nvs are the
-- stored locks, settings, sums and password, Uart the serial line. Area is a flash area in
-- slots of one record, and FlashLaws state what NOR flash does: a write changes no other
-- slot, an erase no other sector, and a successful erase leaves its sector blank. A slot is
-- blank, or holds some record, which the checksum may refuse; a record that a put wrote is
-- trusted only where it reads back. Reals, Doubles and Nums are C's float and double arithmetic.
-- Zone is the C library's time zone. Sockets, the buses behind the bridge, the base64 decoder
-- and the plan that a pass of the energy manager takes over are functions or arguments. So are
-- the fetches of main/price_feed.c (Fetch), whose parsing is not modelled; FetchLaws says that
-- they leave s_ec_last alone, which price_feed_tick alone writes.
--
-- Bounds and fuel. The walk over a DNS name has fuel for one more label than fits the 256
-- bytes that it allows, so it always ends by one of its own checks. The parser of a stream
-- has fuel for every byte that is buffered, more than the frames that they can hold. The
-- clock of milliseconds is 32 bits wide and wraps; registers are 16 bits wide. Reading a
-- UART dry ends after ten reads, as in the code. The search for a slot of the ring goes
-- over as many slots as a sector has, so it comes to a sector's begin; walks back from the
-- newest record are as long as the area or the code's own limit. Sequence numbers are 32
-- bits wide, and the theorem on a put asks for one that does not wrap: at one record per
-- quarter hour that takes 120000 years.
--
-- Not modelled: the planner (main/em_planner.c), the inputs of a plan and the words of the
-- energy manager's status, the parsing of prices and
-- forecasts, the load series, the storing of
-- the Fronius meter's energy, the Fronius storage, the values read over Modbus-TCP, and the slave side of
-- main/modbus_rtu.c; drawing, HTTP, MQTT, TLS, WiFi and the update of the firmware, which
-- call third-party libraries; locks and task scheduling, since each operation runs under
-- its component's lock; the look-up of a flash area; log lines.
pub mod Common
pub mod Sls
pub mod Ctrl
mod Whole
mod Bench
pub mod Force
pub mod Dns
pub mod Gateway
pub mod Sweep
pub mod Lock
pub mod Settings
pub mod Rtu
pub mod Ring
pub mod EmHist
pub mod LoadHist
pub mod Manager
pub mod Energy
pub mod Feed
pub mod Login
pub mod Meter

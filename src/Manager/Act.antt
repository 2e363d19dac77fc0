-- ===== src/Manager/Act.antt =====
-- main/energy_mgr.c: `release` and `act`.
use deye_inverter_display_es.Common.{
  ℕ, suc, ◌+◌, ◌*◌, Bool, true, false, ◌&&◌, ◌||◌, not, ℤ, pos, ◌+ℤ◌, ◌-ℤ◌, ltb_ℤ, ◌==ℤ◌, to_u32,
  ◌==◌, if◌then◌else◌, Option, none, some, List, [], ◌∷◌, drop, ◌-◌, Floats,
}
use deye_inverter_display_es.Ctrl.{Env, World, normal, force_charge, is_normal, apply, apply_auto}
use deye_inverter_display_es.Force.{is_off, same_mode}
use deye_inverter_display_es.Manager.{
  Action, as_usual, hold, charge, SlotPlan, Plan, em_slot_s, index_now, block_end, highest, Site,
  set_hold, block_discharge,
}

-- `EM_MODE_AUTO`
abbrev pub mode_auto : ℕ
mode_auto = 2

abbrev hold_renew_s : ℕ
hold_renew_s = 120

abbrev byd_revert_s : ℕ
byd_revert_s = 1800

-- The settings that `act` reads.
pub record Options : Type 0 where
  pub mode : ℕ
  pub byd_ctrl : Bool
  pub soc_max_pct : ℕ

-- What the plan says for now: the action, its power and target in whole watts and percent, and the
-- time its block ends.
pub record Order : Type 0 where
  pub act : Action
  pub w : ℤ
  pub soc : ℤ
  pub until : ℤ

abbrev pub is_usual : Action → Bool
is_usual as_usual = true
is_usual _ = false

abbrev pub is_auto : Options → Bool → Bool
is_auto c sweeping = c.mode == mode_auto && not sweeping

module _ {e : Env} where
  abbrev pub with_world : World e → Site e → Site e
  with_world w s = record s { session = record s.session { world = w } }

  -- The charge that `deye_ctrl` holds is the one that the manager put there.
  abbrev pub is_ours : Site e → Bool
  is_ours s =
      let c = s.session.world.ctrl in
      same_mode c.mode force_charge && (c.user_power_w ==ℤ s.own_power)

  abbrev pub drop_charge : Site e → Site e
  drop_charge s =
      let w = s.session.world in
      let s' =
        if s.own_charge && is_ours s
        then with_world (apply e normal w.ctrl.user_power_w w).1 s
        else s in
      record s' { own_charge = false }

  abbrev pub drop_hold : Site e → Site e
  drop_hold s = if s.own_hold then record (set_hold 0 s) { own_hold = false } else s

  abbrev pub drop_byd : Site e → Site e
  drop_byd s =
      if s.own_byd then record s { own_byd = false; byd = block_discharge false 0 s.byd } else s

  unfoldable pub release : Site e → Site e
  release s = drop_byd (drop_hold (drop_charge s))

  abbrev pub shown : Bool → Bool → Site e → Site e
  shown acting paused s = record s { acting = acting; paused = paused }

  -- The user took over: a forced mode from the web page, or another mode or power.
  abbrev pub is_taken : Site e → Bool
  is_taken s = s.own_charge && (not (is_off s.session.force.mode) || not (is_ours s))

  unfoldable pub yield_to_user : ℤ → Site e → Site e
  yield_to_user now s =
      if is_taken s
      then record s {
        own_charge = false;
        paused_until = if ltb_ℤ now s.block_end then s.block_end else now +ℤ pos 3600;
      }
      else s

  -- The case EM_ACT_CHARGE.
  unfoldable pub serve_charge : ℤ → ℕ → Order → Site e → Site e
  serve_charge now soc_max o s =
      let s' = drop_hold s in
      let soc = if ltb_ℤ (pos soc_max) o.soc then pos soc_max else o.soc in
      let lim = to_u32 ((o.until -ℤ now) +ℤ pos 600) in
      let w = (apply_auto e force_charge o.w soc lim s'.session.world).1 in
      if not s'.own_charge || not (s'.block_end ==ℤ o.until)
      then record (with_world w s') {
        own_charge = true;
        own_power = w.ctrl.user_power_w;
        block_end = o.until;
      }
      else s'

  -- The case EM_ACT_HOLD.
  unfoldable pub serve_hold : Order → Site e → Site e
  serve_hold o s =
      let s' = if s.own_charge then release s else s in
      record (set_hold hold_renew_s s') { own_hold = true; block_end = o.until }

  abbrev pub serve : ℤ → ℕ → Order → Action → Site e → Site e
  serve now soc_max o charge s = serve_charge now soc_max o s
  serve now soc_max o hold s = serve_hold o s
  serve now soc_max o as_usual s = release s

  unfoldable pub serve_byd : Bool → Action → Site e → Site e
  serve_byd byd_ctrl act s =
      if byd_ctrl && not (is_usual act)
      then record s { own_byd = true; byd = block_discharge true byd_revert_s s.byd }
      else drop_byd s

  -- `act`, from the tests that let it act on; `none` is no plan for now.
  unfoldable pub act_on : ℤ → Bool → Options → Option Order → Site e → Site e
  act_on now auto_on c none s = shown false (ltb_ℤ now s.paused_until) (release s)
  act_on now auto_on c (some o) s =
      let paused = ltb_ℤ now s.paused_until in
      if not auto_on || paused
      then shown false paused (release s)
      else if not s.own_charge && not (is_normal s.session.world.ctrl.mode)
      then shown false true (release s)
      else shown true false (serve_byd c.byd_ctrl o.act (serve now c.soc_max_pct o o.act s))

module _ (f : Floats) (to_watts to_percent : f.Float → ℤ) where
  open f use {Float}

  -- The order of the slots from the current one on. `to_watts` is `(int)(kw * 1000.0f + 0.5f)`,
  -- `to_percent` is `(int)(x + 0.5f)`.
  abbrev pub order_at : ℤ → ℕ → List (SlotPlan Float) → Option Order
  order_at t0 i [] = none
  order_at t0 i (x ∷ xs) =
      let be = block_end i (x ∷ xs) in
      some (record {
        act = x.act;
        w = to_watts x.charge_kw;
        soc = to_percent (highest f (suc (be - i)) (x ∷ xs) x.soc_end);
        until = t0 +ℤ pos ((be + 1) * em_slot_s);
      })

  abbrev pub order_of : Plan Float → Option ℕ → Option Order
  order_of p none = none
  order_of p (some i) = order_at p.t0 i (drop i p.slots)

  module _ {e : Env} where
    -- `act`; `sweeping` is `eff_sweep_running()`.
    unfoldable pub act : ℤ → Bool → Options → Plan Float → Site e → Site e
    act now sweeping c p s =
        act_on now (is_auto c sweeping) c (order_of p (index_now now p)) (yield_to_user now s)

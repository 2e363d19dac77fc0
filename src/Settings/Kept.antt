-- ===== src/Settings/Kept.antt =====
-- main/em_cfg.c: settings that were accepted are in range, and come back from the flash as they are.
use deye_inverter_display_es.Common.{
  ℕ, zero, ◌≤◌, ◌≡◌, ◌≢◌, refl, ◌∙◌, sym, ap, subst, true, false, List, [], ◌∷◌, take, suc, length,
  some, arith, Floats,
}
use deye_inverter_display_es.Settings.{
  Config, Checked, good, bad, check, defaults, token_ok, num, or_95, or_three,
}
use deye_inverter_display_es.Settings.Store.{
  Nvs, NvsLaws, Store, ok, store, take_checked, set, load_checked, load, init,
}
use deye_inverter_display_es.Settings.Checks.{IsTidied, check-IsTidied, check_twice}

take_short : (k : ℕ) (t : List ℕ) → length t ≤ k → take k t ≡ t
take_short zero [] h = refl
take_short zero (x ∷ t) h = absurd (omega arith)
take_short (suc k) [] h = refl
take_short (suc k) (x ∷ t) h = ap (λ u. x ∷ u) (take_short k t (omega arith))

token_ok-length : (t : List ℕ) → token_ok t ≡ true → length t ≤ 95
unfolding token_ok
token_ok-length t h = ground (arith, h)

or_95_twice : (x : ℕ) → or_95 (or_95 x) ≡ or_95 x
or_95_twice x = ground arith

module _ (f : Floats) (tenth quarter : f.Float) where
  open f use {Float, le}

  -- The default for a field that was 0 is not 0 itself.
  or_three_twice :
      (x : Float)
      → le (num f tenth quarter 3) (num f tenth quarter 0) ≡ false
      → or_three f tenth quarter (or_three f tenth quarter x) ≡ or_three f tenth quarter x
  or_three_twice x three = ground (arith, three)

  defaults_settled :
      (c : Config Float)
      → or_three f tenth quarter c.charge_kw ≡ c.charge_kw
      → or_three f tenth quarter c.min_spread_ct ≡ c.min_spread_ct
      → or_95 c.soc_max_pct ≡ c.soc_max_pct
      → defaults f tenth quarter c ≡ c
  unfolding defaults
  defaults_settled c a b d = rw (a, b, d) refl

  module _ {n : Nvs Float} where
    store_fails :
        (c : Config Float) (s : Store n)
        → let (r, s') = store c s in
          (r ≡ ok → (s'.cfg ≡ c) × ((n.set c s.flash).0 ≡ true) × (s'.flash ≡ (n.set c s.flash).1))
          × (r ≢ ok → s'.cfg ≡ s.cfg)
    unfolding store
    store_fails c s = ground arith

    -- What `em_cfg_set` leaves in force once its check is done.
    take_checked_outcome :
        (k : Checked (Config Float)) (s : Store n)
        → let (r, s') = take_checked f tenth quarter k s in
          (r ≡ ok
            → (c : Config Float) × (k ≡ good c)
              × (s'.cfg ≡ record c { tibber_token = s.cfg.tibber_token })
              × ((n.set s'.cfg s.flash).0 ≡ true)
              × (s'.flash ≡ (n.set s'.cfg s.flash).1))
          × (r ≢ ok → s'.cfg ≡ s.cfg)
    unfolding take_checked
    take_checked_outcome (bad r) s = (λ h. absurd (ground (arith, h)), λ _. refl)
    take_checked_outcome (good c) s =
        let c' = record c { tibber_token = s.cfg.tibber_token } in
        let out = store_fails c' s in
        (λ h. (let (is, saved, kept) = out.0 h in (c, refl, is, rw is saved, rw is kept)), out.1)

    load_stored :
        (c : Config Float) (s : Store n)
        → defaults f tenth quarter c ≡ c
        → check f tenth quarter c ≡ good c
        → token_ok c.tibber_token ≡ true
        → (load f tenth quarter (some c) s).cfg ≡ c
    unfolding load load_checked
    load_stored c s d k t =
        rw (d, take_short 95 c.tibber_token (token_ok-length c.tibber_token t), k, t) refl

    -- Settings that were accepted come back at the next start just as they are in force, if the
    -- stored record is read back as it was written, the token in force is a proper one, and the
    -- constant 3 is above 0.
    pub load-set :
        (c : Config Float) (s fresh : Store n)
        → NvsLaws n
        → le (num f tenth quarter 3) (num f tenth quarter 0) ≡ false
        → token_ok s.cfg.tibber_token ≡ true
        → let (r, s') = set f tenth quarter c s in
          r ≡ ok → fresh.flash ≡ s'.flash → (init f tenth quarter fresh).cfg ≡ s'.cfg
    unfolding IsTidied defaults
    load-set c s fresh laws three proper done same =
        let c1 = defaults f tenth quarter c in
        let out = take_checked_outcome (check f tenth quarter c1) s in
        let (g, good_g, is, saved, kept) = out.0 done in
        let (few, place, sound, found) = check-IsTidied f tenth quarter c1 g good_g in
        let (ps, planes, tidied) = found in
        let t = s.cfg.tibber_token in
        let stored = (set f tenth quarter c s).1.cfg in
        let settled : defaults f tenth quarter (record g { tibber_token = t })
            ≡ record g { tibber_token = t } =
          defaults_settled (record g { tibber_token = t })
            (rw tidied (or_three_twice c.charge_kw three))
            (rw tidied (or_three_twice c.min_spread_ct three))
            (rw tidied (or_95_twice c.soc_max_pct)) in
        let read : n.get fresh.flash ≡ some stored =
          ap n.get (same ∙ kept) ∙ laws.get_set stored s.flash saved in
        let back =
          load_stored (record g { tibber_token = t }) fresh settled
            (check_twice f tenth quarter c1 g t good_g) proper in
        subst (λ x. (load f tenth quarter x fresh).cfg ≡ stored) (sym (read ∙ ap some is))
          (back ∙ sym is)

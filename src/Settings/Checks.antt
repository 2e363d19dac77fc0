-- ===== src/Settings/Checks.antt =====
-- main/em_cfg.c: what the checks let through, and that they let it through unchanged again.
use deye_inverter_display_es.Common.{
  ℕ, zero, suc, ◌≡◌, refl, List, [], ◌∷◌, map, take, arith, Option, none, ◌≤◌, false, ltb, sym,
  subst, Floats,
}
use deye_inverter_display_es.Settings.{
  Plane, Config, Checked, good, bad, check_plane, check_planes, check_rest, check, clean_char,
  clean_name, and_rest, then_rest, on_fault, Refusal, plane_fault, blank, bad_place, rest_fault_of,
  with_planes, tidy_max_soc, to_flag, cfg_ver,
}

clean_char_twice : (ch : ℕ) → clean_char (clean_char ch) ≡ clean_char ch
clean_char_twice ch = ground arith

clean_twice :
    (k : ℕ) (s : List ℕ)
    → map clean_char (take k (map clean_char (take k s))) ≡ map clean_char (take k s)
clean_twice zero s = refl
clean_twice (suc k) [] = refl
clean_twice (suc k) (ch ∷ s) = rw (clean_char_twice ch, clean_twice k s) refl

module _ {A : Type 0} where
  pub on_fault_good : (o : Option Refusal) (a b : A) → on_fault o a ≡ good b → (o ≡ none) × (b ≡ a)
  on_fault_good o a b h = ground (arith, h)

  pub and_rest_good :
      (p : A) (r : Checked (List A)) (ps : List A)
      → and_rest p r ≡ good ps
      → (qs : List A) × (r ≡ good qs) × (ps ≡ p ∷ qs)
  and_rest_good p (bad r) ps h = absurd (ground (arith, h))
  and_rest_good p (good qs) ps h = (qs, refl, ground (arith, h))

  pub then_rest_good :
      (c : Checked A) (r : Checked (List A)) (ps : List A)
      → then_rest c r ≡ good ps
      → (q : A) × (qs : List A) × (c ≡ good q) × (r ≡ good qs) × (ps ≡ q ∷ qs)
  then_rest_good (bad r) rest ps h = absurd (ground (arith, h))
  then_rest_good (good p) rest ps h =
      let (qs, e, k) = and_rest_good p rest ps h in (p, qs, refl, e, k)

ltb_few : (x : ℕ) → x ≤ 6 → ltb 6 x ≡ false
ltb_few x h = ground arith

tidy_twice : (soc : ℕ) → tidy_max_soc (tidy_max_soc soc) ≡ tidy_max_soc soc
tidy_twice soc = ground arith

flag_twice : (x : ℕ) → to_flag (to_flag x) ≡ to_flag x
flag_twice x = ground arith

module _ (f : Floats) (tenth quarter : f.Float) where
  open f use {Float}

  check_plane_twice :
      (p p' : Plane Float)
      → check_plane f tenth quarter p ≡ good p'
      → check_plane f tenth quarter p' ≡ good p'
  check_plane_twice p p' h =
      let fault = plane_fault f tenth quarter p.kwp p.tilt p.azimuth p.meter p.ac_w in
      let (sound, is) = on_fault_good fault (record p { name = clean_name p.name }) p' h in
      rw (is, sound, clean_twice 15 p.name) refl

  check_planes_twice :
      (n : ℕ) (ps ps' : List (Plane Float))
      → check_planes f tenth quarter n ps ≡ good ps'
      → check_planes f tenth quarter n ps' ≡ good ps'
  unfolding check_planes
  check_planes_twice n [] ps' h =
      subst (λ x. check_planes f tenth quarter n x ≡ good x) (sym (on_fault_good none [] ps' h).1)
        refl
  check_planes_twice zero (p ∷ ps) ps' h =
      let (qs, e, k) =
        and_rest_good (blank f tenth quarter) (check_planes f tenth quarter zero ps) ps' h in
      rw (k, check_planes_twice zero ps qs e) refl
  check_planes_twice (suc n) (p ∷ ps) ps' h =
      let (q, qs, c, e, k) =
        then_rest_good (check_plane f tenth quarter p) (check_planes f tenth quarter n ps) ps' h in
      rw (k, check_plane_twice p q c, check_planes_twice n ps qs e) refl

  -- How a checked configuration comes about.
  unfoldable pub IsTidied : Config Float → Config Float → Type 0
  IsTidied c c' =
      (c.nplanes ≤ 6)
      × (bad_place f tenth quarter c.lat c.lon ≡ false)
      × (rest_fault_of f tenth quarter c ≡ none)
      × ((ps : List (Plane Float)) × (check_planes f tenth quarter c.nplanes c.planes ≡ good ps)
          × (c' ≡ record c {
            planes = ps;
            byd_max_soc = tidy_max_soc c.byd_max_soc;
            byd_ctrl = to_flag c.byd_ctrl;
            ver = cfg_ver;
          }))

  with_planes_good :
      (c c' : Config Float) (r : Checked (List (Plane Float)))
      → with_planes f tenth quarter c r ≡ good c'
      → (ps : List (Plane Float)) × (r ≡ good ps)
        × (check_rest f tenth quarter (record c { planes = ps }) ≡ good c')
  with_planes_good c c' (bad r) h = absurd (ground (arith, h))
  with_planes_good c c' (good ps) h = (ps, refl, h)

  check_head :
      (c c' : Config Float)
      → check f tenth quarter c ≡ good c'
      → (c.nplanes ≤ 6)
        × (bad_place f tenth quarter c.lat c.lon ≡ false)
        × (with_planes f tenth quarter c (check_planes f tenth quarter c.nplanes c.planes)
            ≡ good c')
  check_head c c' h = ground (arith, h)

  pub check-IsTidied : (c c' : Config Float) → check f tenth quarter c ≡ good c' → IsTidied c c'
  unfolding IsTidied
  check-IsTidied c c' h =
      let (few, place, rest) = check_head c c' h in
      let (ps, planes, end) =
        with_planes_good c c' (check_planes f tenth quarter c.nplanes c.planes) rest in
      let tidied : Config Float = record c {
        planes = ps;
        byd_max_soc = tidy_max_soc c.byd_max_soc;
        byd_ctrl = to_flag c.byd_ctrl;
        ver = cfg_ver;
      } in
      let (sound, is) = on_fault_good (rest_fault_of f tenth quarter c) tidied c' end in
      (few, place, sound, (ps, planes, is))

  -- A checked configuration passes its checks again unchanged, whatever its token.
  pub check_twice :
      (c c' : Config Float) (t : List ℕ)
      → check f tenth quarter c ≡ good c'
      → check f tenth quarter (record c' { tibber_token = t })
        ≡ good (record c' { tibber_token = t })
  unfolding IsTidied
  check_twice c c' t h =
      let (few, place, sound, found) = check-IsTidied c c' h in
      let (ps, planes, is) = found in
      let again = check_planes_twice c.nplanes c.planes ps planes in
      rw
        (
          is,
          ltb_few c.nplanes few,
          place,
          again,
          tidy_twice c.byd_max_soc,
          sound,
          flag_twice c.byd_ctrl,
        )
        refl

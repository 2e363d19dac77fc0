-- ===== src/Energy/Sums.antt =====
-- main/byd_energy.c: the sums only grow, and a restart finds what was saved.
use deye_inverter_display_es.Common.{
  ℕ, ◌≡◌, ◌⊎◌, refl, sym, ◌∙◌, ap, subst, Bool, true, false, not, ◌&&◌, ℤ, some, List, [], ◌∷◌,
  arith, if_lem, sub32, ltb, leb, ◌==◌,
}
use deye_inverter_display_es.Energy.{
  Doubles, Sum, Nvs, Byd, energy_integrate, same_sum, save, take_stored, byd_energy_init, is_other,
  turn_to, count, byd_energy_sample,
}

-- The order of sums from 0 on, none of which is a NaN: to add more than 0, or to take away no more
-- than 0, takes no sum down.
pub record OrderLaws (d : Doubles) : Type 0 where
  pub le_refl : (a : d.Double) → d.le (d.of_nat 0) a ≡ true → d.le a a ≡ true
  pub le_trans : (a b c : d.Double) → d.le a b ≡ true → d.le b c ≡ true → d.le a c ≡ true
  pub add_up :
      (a x : d.Double)
      → d.le (d.of_nat 0) a ≡ true
      → d.lt (d.of_nat 0) x ≡ true
      → d.le a (d.add a x) ≡ true
  pub sub_up :
      (a x : d.Double)
      → d.le (d.of_nat 0) a ≡ true
      → d.le x (d.of_nat 0) ≡ true
      → d.le a (d.sub a x) ≡ true

-- A record that was stored with success is what is read; a write that fails leaves the old one.
pub record NvsLaws (d : Doubles) (n : Nvs d) : Type 0 where
  pub get_set : (r : Sum d) (s : n.State) → (n.set r s).0 ≡ true → n.get (n.set r s).1 ≡ some r
  pub get_kept : (r : Sum d) (s : n.State) → (n.set r s).0 ≡ false → n.get (n.set r s).1 ≡ n.get s

module _ (d : Doubles) where
  open d use {Float, Double, le}

  abbrev pub Grown : Sum d → Sum d → Type 0
  Grown a b = (le a.chg_wh b.chg_wh ≡ true) × (le a.dis_wh b.dis_wh ≡ true)

  -- Sums that are no less than 0.
  abbrev pub IsSum : Sum d → Type 0
  IsSum a = (le (d.of_nat 0) a.chg_wh ≡ true) × (le (d.of_nat 0) a.dis_wh ≡ true)

  abbrev pub energy : Float → ℕ → Double
  energy w dt = d.div (d.mul (d.widen w) (d.of_nat dt)) (d.of_nat 3600000)

  -- A power whose energy is a number, over any time.
  abbrev pub IsPower : Float → Type 0
  IsPower w =
      (dt : ℕ) → (d.lt (d.of_nat 0) (energy w dt) ≡ true) ⊎ (le (energy w dt) (d.of_nat 0) ≡ true)

  module _ (laws : OrderLaws d) where
    Grown-refl : (a : Sum d) → IsSum a → Grown a a
    Grown-refl a (p, q) = (laws.le_refl a.chg_wh p, laws.le_refl a.dis_wh q)

    Grown-IsSum : (a b : Sum d) → IsSum a → Grown a b → IsSum b
    Grown-IsSum a b (p, q) (c, e) = (
      laws.le_trans (d.of_nat 0) a.chg_wh b.chg_wh p c,
      laws.le_trans (d.of_nat 0) a.dis_wh b.dis_wh q e,
    )

    no_more :
        (w : Float) (dt : ℕ)
        → IsPower w
        → d.lt (d.of_nat 0) (energy w dt) ≡ false
        → le (energy w dt) (d.of_nat 0) ≡ true
    no_more w dt h q = ground (arith, h dt, q)

    integrate-Grown :
        (w : Float) (dt : ℕ) (s : Sum d) → IsPower w → IsSum s → Grown s (energy_integrate d w dt s)
    unfolding energy_integrate
    integrate-Grown w dt s h (p, q) =
        if_lem (Grown s) (d.lt (d.of_nat 0) (energy w dt)) _ _
          (λ more. (laws.le_refl s.chg_wh p, laws.add_up s.dis_wh (energy w dt) q more))
          (λ less.
            (laws.sub_up s.chg_wh (energy w dt) p (no_more w dt h less), laws.le_refl s.dis_wh q))

    module _ (n : Nvs d) where
      save_sum : (force : Bool) (now : ℕ) (b : Byd d n) → (save d n force now b).sum ≡ b.sum
      unfolding save
      save_sum force now b = ground arith

      turn_to_sum : (slot : ℤ) (b : Byd d n) → (turn_to d n slot b).sum ≡ b.sum
      turn_to_sum slot b = ground arith

      count-Grown :
          (w : Float) (now gap : ℕ) (b : Byd d n)
          → IsPower w
          → IsSum b.sum
          → Grown b.sum (count d n w now gap b).sum
      count-Grown w now gap b h p =
          if_lem (Grown b.sum) (not (b.last_ms == 0) && leb (sub32 now b.last_ms) gap) _ _
            (λ q. integrate-Grown w (sub32 now b.last_ms) b.sum h p) (λ q. Grown-refl b.sum p)

      sample-Grown :
          (slot : ℤ) (w : Float) (now gap : ℕ) (b : Byd d n)
          → IsPower w
          → IsSum b.sum
          → Grown b.sum (byd_energy_sample d n slot w now gap b).sum
      unfolding byd_energy_sample
      sample-Grown slot w now gap b h p =
          let t = turn_to d n slot b in
          let e = turn_to_sum slot b in
          let counted = count-Grown w now gap t h (subst IsSum (sym e) p) in
          if_lem (λ (x : Byd d n). Grown b.sum x.sum) (is_other d n slot now gap b) b _
            (λ q. Grown-refl b.sum p)
            (λ q.
              subst (Grown b.sum) (sym (save_sum false now (count d n w now gap t)))
                (subst (λ s. Grown s (count d n w now gap t).sum) e counted))

      -- A slot's power at a time, with the gap that is still bridged.
      pub record Sample : Type 0 where
        pub slot : ℤ
        pub w : Float
        pub now_ms : ℕ
        pub max_gap_ms : ℕ

      unfoldable pub samples : List Sample → Byd d n → Byd d n
      samples [] b = b
      samples (x ∷ xs) b = samples xs (byd_energy_sample d n x.slot x.w x.now_ms x.max_gap_ms b)

      abbrev pub AllPowers : List Sample → Type 0
      AllPowers [] = Unit
      AllPowers (x ∷ xs) = IsPower x.w × AllPowers xs

      -- Over any samples of any slots at any times, with powers that are numbers and from sums that
      -- are no less than 0, neither sum ever goes down.
      pub samples-Grown :
          (xs : List Sample) (b : Byd d n)
          → AllPowers xs
          → IsSum b.sum
          → Grown b.sum (samples xs b).sum
      unfolding samples
      samples-Grown [] b all p = Grown-refl b.sum p
      samples-Grown (x ∷ xs) b (h, all) p =
          let b' = byd_energy_sample d n x.slot x.w x.now_ms x.max_gap_ms b in
          let g = sample-Grown x.slot x.w x.now_ms x.max_gap_ms b h p in
          let g' = samples-Grown xs b' all (Grown-IsSum b.sum b'.sum p g) in
          (
            laws.le_trans b.sum.chg_wh b'.sum.chg_wh _ g.0 g'.0,
            laws.le_trans b.sum.dis_wh b'.sum.dis_wh _ g.1 g'.1,
          )

  module _ (n : Nvs d) (laws : NvsLaws d n) where
    -- `saved` is what the flash holds.
    abbrev pub Holds : Byd d n → Type 0
    Holds b = n.get b.flash ≡ some b.saved

    save-Holds : (force : Bool) (now : ℕ) (b : Byd d n) → Holds b → Holds (save d n force now b)
    unfolding save
    save-Holds force now b h =
        if_lem Holds (same_sum d n b.sum b.saved) b _ (λ q. h)
          (λ q.
            if_lem Holds (not force && ltb (sub32 now b.saved_ms) 900000) b _ (λ q. h)
              (λ q.
                if_lem Holds (n.set b.sum b.flash).0 _ _ (λ done. laws.get_set b.sum b.flash done)
                  (λ failed. laws.get_kept b.sum b.flash failed ∙ h)))

    sum_eq :
        (x y : Sum d)
        → ((a b : Double) → d.same a b ≡ true → a ≡ b)
        → same_sum d n x y ≡ true
        → x ≡ y
    sum_eq x y exact h =
        let c = exact x.chg_wh y.chg_wh (ground (arith, h)) in
        let e = exact x.dis_wh y.dis_wh (ground (arith, h)) in
        ap (λ v. record { chg_wh = v; dis_wh = x.dis_wh }) c
        ∙ ap (λ v. record { chg_wh = y.chg_wh; dis_wh = v }) e

    saved_now :
        (now : ℕ) (b : Byd d n)
        → Holds b
        → ((x y : Double) → d.same x y ≡ true → x ≡ y)
        → (n.set b.sum b.flash).0 ≡ true
        → n.get (save d n true now b).flash ≡ some b.sum
    unfolding save
    saved_now now b h exact done =
        if_lem (λ (x : Byd d n). n.get x.flash ≡ some b.sum) (same_sum d n b.sum b.saved) b _
          (λ q. h ∙ ap some (sym (sum_eq b.sum b.saved exact q)))
          (λ q.
            if_lem (λ (x : Byd d n). n.get x.flash ≡ some b.sum) (n.set b.sum b.flash).0 _ _
              (λ r. laws.get_set b.sum b.flash done) (λ r. absurd (ground (arith, r, done))))

    -- After the save at shutdown, with flash that takes the record, the next boot begins with the
    -- sums that were running, where these are no less than 0. It needs flash that held what was last
    -- saved, and that equal bytes are one number.
    save-init :
        (now : ℕ) (b fresh : Byd d n)
        → Holds b
        → ((x y : Double) → d.same x y ≡ true → x ≡ y)
        → (n.set b.sum b.flash).0 ≡ true
        → IsSum b.sum
        → (byd_energy_init d n (record fresh { flash = (save d n true now b).flash })).sum ≡ b.sum
    unfolding byd_energy_init
    save-init now b fresh h exact done (p, q) =
        let s = (save d n true now b).flash in
        let fresh' : Byd d n = record fresh { flash = s } in
        ap (λ o. (take_stored d n o fresh').sum) (saved_now now b h exact done)
        ∙ if_lem (λ (x : Byd d n). x.sum ≡ b.sum)
            (le (d.of_nat 0) b.sum.chg_wh && le (d.of_nat 0) b.sum.dis_wh) _ fresh' (λ r. refl)
            (λ r. absurd (ground (arith, r, p, q)))

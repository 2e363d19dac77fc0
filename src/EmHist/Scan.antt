-- ===== src/EmHist/Scan.antt =====
-- main/em_hist.c: the boot scan by sectors against the scan by slots.
use deye_inverter_display_es.Common.{
  ℕ, zero, suc, ◌+◌, ◌*◌, ◌/◌, ◌≡◌, refl, ap, ◌∙◌, sym, List, ◌∷◌, ◌++◌, map, some, arith,
}
use deye_inverter_display_es.Ring.{Area, Cell, cells, init, init_from}
use deye_inverter_display_es.EmHist.{
  Rec, em_kind, eh_per_sector, ReadSector, sector_cells, take_sector, em_hist_init_l,
}

module _ (a : Area Rec) where
  open a use {State, slots, read}

  -- A sector read brings the cells that single reads bring.
  abbrev Agrees : ReadSector a → State → Type 0
  Agrees rs s =
      (i : ℕ)
      → (cs : List (Cell Rec)) × (rs i s ≡ some cs)
        × (map some cs ≡ cells em_kind a eh_per_sector i s)

  cells-append :
      (n m i : ℕ) (s : State)
      → cells em_kind a n i s ++ cells em_kind a m (i + n) s ≡ cells em_kind a (n + m) i s
  unfolding cells
  cells-append zero m i s =
      ap (λ j. cells em_kind a m j s) {x = i + 0} {y = i} (omega arith)
      ∙ ap (λ n. cells em_kind a n i s) {x = m} {y = 0 + m} (omega arith)
  cells-append (suc n) m i s =
      ap (λ cs. read i s ∷ cs)
        (ap (λ j. cells em_kind a n (i + 1) s ++ cells em_kind a m j s) {x = i + suc n}
            {y = i + 1 + n} (omega arith)
          ∙ cells-append n m (i + 1) s)
      ∙ ap (λ c. cells em_kind a c i s) {x = suc (n + m)} {y = suc n + m} (omega arith)

  sector_cells-eq :
      (rs : ReadSector a) (s : State)
      → Agrees rs s
      → (q i : ℕ) → sector_cells a rs q i s ≡ cells em_kind a (q * eh_per_sector) i s
  unfolding sector_cells cells
  sector_cells-eq rs s h zero i = refl
  sector_cells-eq rs s h (suc q) i =
      let (cs, is, eq) = h i in
      ap (λ c. take_sector a c ++ sector_cells a rs q (i + eh_per_sector) s) is
      ∙ ap (λ c. c ++ sector_cells a rs q (i + eh_per_sector) s) eq
      ∙ ap (λ c. cells em_kind a eh_per_sector i s ++ c)
          (sector_cells-eq rs s h q (i + eh_per_sector))
      ∙ cells-append eh_per_sector (q * eh_per_sector) i s
      ∙ ap (λ n. cells em_kind a n i s) {x = eh_per_sector + q * eh_per_sector}
          {y = suc q * eh_per_sector} (omega arith)

  -- The boot scan by whole sectors sets the same variables as one by slots, in an area of whole
  -- sectors whose reads succeed.
  init_by_sectors :
      (rs : ReadSector a) (s : State) (q : ℕ)
      → Agrees rs s
      → slots ≡ q * eh_per_sector
      → em_hist_init_l a rs s ≡ init em_kind a s
  init_by_sectors rs s q h whole =
      ap (λ n. init_from em_kind (sector_cells a rs n 0 s)) {x = (slots + 127) / 128} {y = q}
        (omega (arith, whole))
      ∙ ap (init_from em_kind)
          (sector_cells-eq rs s h q 0 ∙ ap (λ n. cells em_kind a n 0 s) (sym whole))

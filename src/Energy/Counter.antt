-- ===== src/Energy/Counter.antt =====
-- main/energy_ctr.h: a counter through garbled readings.
use deye_inverter_display_es.Common.{ℕ, ◌+◌, ◌≡◌, ◌≤◌, ◌⊎◌, Bool, true, false}
use deye_inverter_display_es.Energy.{Doubles, Ctr}

module _ (d : Doubles) where
  -- A counter that has a value, with at most two readings refused since.
  pub record IsLive (c : Ctr) : Type 0 where
    pub valid : c.valid ≡ true
    pub refused : c.rejects ≤ 2

  abbrev pub Taken : ℕ → Ctr → Bool → Ctr → Type 0
  Taken raw c ok c' = (ok ≡ true) × (c'.val ≡ raw) × ((c.val ≤ raw) ⊎ (c.rejects ≡ 2))

  abbrev pub Refused : Ctr → Bool → Ctr → Type 0
  Refused c ok c' = (ok ≡ false) × (c'.val ≡ c.val) × (c'.ms ≡ c.ms) × (c'.rejects ≡ c.rejects + 1)

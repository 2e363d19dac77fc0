-- ===== src/LoadHist/Average.antt =====
-- main/load_hist.c: the average profile of a type of day, `load_hist_average_l`.
use deye_inverter_display_es.Common.{
  ℕ, zero, suc, ◌+◌, ◌-◌, ◌*◌, ◌/◌, min, Bool, false, not, ◌||◌, ℤ, pos, negsuc, ◌==ℤ◌, Option,
  none, some, List, [], ◌∷◌, ◌++◌, length, get_or, take, drop, ltb, leb, ◌==◌, if◌then◌else◌,
}
use deye_inverter_display_es.Ring.{Area, Ring, read_slot, slot_back}
use deye_inverter_display_es.LoadHist.{Rec, lh_kind, lh_slots}

abbrev lh_none : ℕ
lh_none = 65535

abbrev pub lh_avg_wd : ℕ
lh_avg_wd = 30

abbrev lh_scan_max : ℕ
lh_scan_max = 400

-- `r.wday == 0 || r.wday == 6` as a `uint8_t`
abbrev pub weekend : Rec → ℕ
weekend r = if r.wday == 0 || r.wday == 6 then 1 else 0

abbrev pub has_day : List Rec → ℤ → Bool
has_day [] day = false
has_day (r ∷ rs) day = (r.day ==ℤ day) || has_day rs day

-- The body of the first loop at a slot.
unfoldable pub take_day : ℕ → Option Rec → List Rec → List Rec
take_day we none rs = rs
take_day we (some r) rs =
    if not (weekend r == we) then rs else if has_day rs r.day then rs else rs ++ r ∷ []

-- The values of a slot on the days that measured it.
abbrev pub column : ℕ → List Rec → List ℕ
column s [] = []
column s (r ∷ rs) =
    let v = get_or r.w s 0 in let rest = column s rs in if v == lh_none then rest else v ∷ rest

abbrev pub insert : ℕ → List ℕ → List ℕ
insert v [] = v ∷ []
insert v (x ∷ xs) = if leb v x then v ∷ x ∷ xs else x ∷ insert v xs

-- `qsort` with `lh_cmp_u16`
abbrev pub sort : List ℕ → List ℕ
sort [] = []
sort (x ∷ xs) = insert x (sort xs)

-- `m >= 5 ? (int)(m * LH_TRIM + 0.5f) : 0`: the float product is rounded to the nearest, with a
-- half up, for the up to 30 values of a column.
unfoldable pub cut_of : ℕ → ℕ
cut_of m = if leb 5 m then (m + 5) / 10 else 0

unfoldable pub total : List ℕ → ℕ
total [] = 0
total (x ∷ xs) = x + total xs

-- The values that are left of a column, without those cut off at its ends.
unfoldable pub trimmed : List ℕ → List ℕ
trimmed col = let m = length col in take (m - 2 * cut_of m) (drop (cut_of m) (sort col))

module _ (a : Area Rec) where
  open a use {State, slots}

  -- The first loop, from the newest record back.
  unfoldable pub pick : ℕ → ℕ → ℕ → ℕ → ℕ → State → List Rec → List Rec
  pick zero newest back we max_days s rs = rs
  pick (suc left) newest back we max_days s rs =
      let r = read_slot lh_kind a (slot_back lh_kind a newest back) s in
      let rest = pick left newest (back + 1) we max_days s (take_day we r rs) in
      if ltb (length rs) max_days then rest else rs

  abbrev pub pick_from : Option ℕ → ℕ → ℤ → State → List Rec
  pick_from none we max_days s = []
  pick_from (some newest) we (negsuc n) s = []
  pick_from (some newest) we (pos n) s =
      pick (min slots lh_scan_max) newest 0 we (min n lh_avg_wd) s []

module _ {Float : Type 0} (nan : Float) (quotient : ℕ → ℕ → Float) where
  -- The trimmed mean of a slot; `quotient` is the `double` division of the exact sum, as a `float`.
  unfoldable pub mean_of : List ℕ → Float
  mean_of [] = nan
  mean_of (v ∷ vs) =
      let col = v ∷ vs in quotient (total (trimmed col)) (length col - 2 * cut_of (length col))

  unfoldable pub means : ℕ → ℕ → List Rec → List Float
  means zero s rs = []
  means (suc n) s rs = mean_of (column s rs) ∷ means n (s + 1) rs

  module _ (a : Area Rec) where
    open a use {State}

    -- The profile, and the number of days that went in.
    unfoldable pub load_hist_average_l : ℕ → ℤ → Ring → State → List Float × ℕ
    load_hist_average_l we max_days g s =
        let rs = pick_from a g.newest we max_days s in (means lh_slots 0 rs, length rs)

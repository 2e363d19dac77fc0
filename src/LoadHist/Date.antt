-- ===== src/LoadHist/Date.antt =====
-- main/load_hist.c: the date of a day key.
use deye_inverter_display_es.Common.{
  ℕ, ◌+◌, ◌-◌, ◌*◌, ◌/◌, ltb, leb, if◌then◌else◌, ℤ, pos, negsuc, ◌+ℤ◌, ◌-ℤ◌, tdiv_ℤ, pos_part,
  leb_ℤ, neg_ℕ, suc,
}

pub record Date : Type 0 where
  pub year : ℤ
  pub month : ℕ
  pub day : ℕ

-- The day `doe` of an era of 400 years, to the year of the era.
unfoldable pub year_of_era : ℕ → ℕ
year_of_era doe = (doe - doe / 1460 + doe / 36524 - doe / 146096) / 365

-- Days of an era before its year `yoe`.
abbrev pub days_before : ℕ → ℕ
days_before yoe = 365 * yoe + yoe / 4 - yoe / 100

-- `doy`, counted from March on.
abbrev pub day_of_year : ℕ → ℕ
day_of_year doe = doe - days_before (year_of_era doe)

-- `mp`, the month from March on.
abbrev pub march_month : ℕ → ℕ
march_month doy = (5 * doy + 2) / 153

abbrev pub day_of_month : ℕ → ℕ
day_of_month doy = doy - (153 * march_month doy + 2) / 5 + 1

abbrev pub month_of : ℕ → ℕ
month_of mp = if ltb mp 10 then mp + 3 else mp - 9

-- A product with a number.
abbrev pub times : ℤ → ℕ → ℤ
times (pos n) k = pos (n * k)
times (negsuc n) k = neg_ℕ (suc n * k)

-- The date of a day of an era.
unfoldable pub date_in_era : ℤ → ℕ → Date
date_in_era era doe =
    let doy = day_of_year doe in
    let mm = month_of (march_month doy) in
    let yy = pos (year_of_era doe) +ℤ times era 400 in
    record { year = if leb mm 2 then yy +ℤ pos 1 else yy; month = mm; day = day_of_month doy }

abbrev pub era_of : ℤ → ℤ
era_of z = tdiv_ℤ (if leb_ℤ (pos 0) z then z else z -ℤ pos 146096) 146097

-- `load_hist_date`, at a day whose sum with 719468 is an `int32_t`.
unfoldable pub load_hist_date : ℤ → Date
load_hist_date day =
    let z = day +ℤ pos 719468 in
    let era = era_of z in date_in_era era (pos_part (z -ℤ times era 146097))

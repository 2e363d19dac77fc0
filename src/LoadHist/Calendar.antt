-- ===== src/LoadHist/Calendar.antt =====
-- main/load_hist.c: the dates against the rules of the calendar.
use deye_inverter_display_es.Common.{
  ℕ, ◌+◌, ◌*◌, ◌/◌, ◌%◌, ◌≤◌, ◌<◌, ◌≡◌, ◌⊎◌, inl, inr, refl, ap, ◌∙◌, sym, Bool-cases, ==_iff, ltb,
  leb, ◌==◌, arith, if◌then◌else◌, Bool, ◌&&◌, ◌||◌, not, ℤ, pos, ◌+ℤ◌, ◌-ℤ◌, tdiv_ℤ, pos_part,
  true, false,
}
use deye_inverter_display_es.LoadHist.Date.{
  Date, year_of_era, days_before, day_of_year, march_month, day_of_month, month_of, times, era_of,
  date_in_era, load_hist_date,
}

-- The calendar: leap years, the length of a month, and the day after a day, for years from 0 on.
abbrev pub is_leap : ℕ → Bool
is_leap y = y % 4 == 0 && (not (y % 100 == 0) || y % 400 == 0)

abbrev pub days_in_month : ℕ → ℕ → ℕ
days_in_month y m =
    if m == 2
    then (if is_leap y then 29 else 28)
    else if m == 4 || m == 6 || m == 9 || m == 11
    then 30
    else 31

abbrev pub day_after : Date → Date
day_after d =
    if ltb d.day (days_in_month (pos_part d.year) d.month)
    then record { year = d.year; month = d.month; day = d.day + 1 }
    else if ltb d.month 12
    then record { year = d.year; month = d.month + 1; day = 1 }
    else record { year = d.year +ℤ pos 1; month = 1; day = 1 }

year_lo : (doe : ℕ) → doe < 146097 → days_before (year_of_era doe) ≤ doe
unfolding year_of_era
year_lo doe h = omega (arith, h)

year_hi : (doe : ℕ) → doe < 146097 → year_of_era doe ≤ 399
unfolding year_of_era
year_hi doe h = omega (arith, h)

year_end : (doe : ℕ) → doe < 146096 → doe < days_before (year_of_era doe + 1)
unfolding year_of_era
year_end doe h = omega (arith, h)

year_same :
    (doe : ℕ)
    → doe + 1 < 146097
    → (doe + 1 < days_before (year_of_era doe + 1)) ⊎ (year_of_era doe ≡ 399)
    → year_of_era (doe + 1) ≡ year_of_era doe
unfolding year_of_era
year_same doe h (inl e) = omega (arith, h, e)
year_same doe h (inr e) = omega (arith, h, e)

year_next :
    (doe : ℕ)
    → doe + 1 ≡ days_before (year_of_era doe + 1)
    → year_of_era doe < 399
    → year_of_era (doe + 1) ≡ year_of_era doe + 1
unfolding year_of_era
year_next doe e h = omega (arith, h, e)

-- The date of a day of an era, from a year `yoe` that begins in March and the day of that year.
abbrev date_at : ℕ → ℕ → ℕ → Date
date_at era yoe doy =
    let mm = month_of (march_month doy) in
    record {
      year = pos ((if leb mm 2 then yoe + 1 else yoe) + era * 400);
      month = mm;
      day = day_of_month doy;
    }

-- The year `yoe` has a day `doy + 1`.
step_inside :
    (era yoe doy : ℕ)
    → (doy + 1 < 365) ⊎ ((doy + 1 ≡ 365) × (is_leap (yoe + 1 + era * 400) ≡ true))
    → date_at era yoe (doy + 1) ≡ day_after (date_at era yoe doy)
unfolding ◌+ℤ◌
step_inside era yoe doy (inl h) = ground (arith, h)
step_inside era yoe doy (inr (h, leap)) = ground (arith, h, leap)

-- Its last day is `doy`.
step_across :
    (era yoe doy : ℕ)
    → ((doy ≡ 364) × (is_leap (yoe + 1 + era * 400) ≡ false))
      ⊎ ((doy ≡ 365) × (is_leap (yoe + 1 + era * 400) ≡ true))
    → date_at era (yoe + 1) 0 ≡ day_after (date_at era yoe doy)
unfolding ◌+ℤ◌
step_across era yoe doy (inl (h, leap)) = ground (arith, h, leap)
step_across era yoe doy (inr (h, leap)) = ground (arith, h, leap)

-- The first day of an era is that of its year 0, which ends the era before.
step_era : (era : ℕ) → date_at (era + 1) 0 0 ≡ date_at era 400 0
step_era era = ground arith

leap_day :
    (era yoe : ℕ)
    → yoe < 399
    → (days_before (yoe + 1) ≡ days_before yoe + 365) × (is_leap (yoe + 1 + era * 400) ≡ false)
      ⊎ (days_before (yoe + 1) ≡ days_before yoe + 366) × (is_leap (yoe + 1 + era * 400) ≡ true)
leap_day era yoe h = ground (arith, h)

leap_400 : (era : ℕ) → is_leap (399 + 1 + era * 400) ≡ true
leap_400 era = ground arith

day_cases :
    {b : Bool} (doy : ℕ)
    → doy + 1 ≤ 365
    → b ≡ true
    → (doy + 1 < 365) ⊎ ((doy + 1 ≡ 365) × (b ≡ true))
day_cases doy h leap = elim (Bool-cases (doy == 364)) [
  | inl e ↦ inr (ground (arith, e), leap)
  | inr e ↦ inl (ground (arith, e, h))
]

date_at-cong : (era : ℕ) {y y' d d' : ℕ} → y ≡ y' → d ≡ d' → date_at era y d ≡ date_at era y' d'
date_at-cong era {y' = y'} {d = d} e f = ap (λ y. date_at era y d) e ∙ ap (date_at era y') f

same_year :
    (era doe : ℕ)
    → doe + 1 < 146097
    → year_of_era (doe + 1) ≡ year_of_era doe
    → let doy = day_of_year doe in
      (doy + 1 < 365) ⊎ ((doy + 1 ≡ 365) × (is_leap (year_of_era doe + 1 + era * 400) ≡ true))
      → date_at era (year_of_era (doe + 1)) (day_of_year (doe + 1))
        ≡ day_after (date_at era (year_of_era doe) (day_of_year doe))
same_year era doe h e step =
    date_at-cong era e (omega (arith, year_lo doe (omega (arith, h)), ap days_before e))
    ∙ step_inside era (year_of_era doe) (day_of_year doe) step

abbrev date_day : ℕ → ℕ → Date
date_day era doe = date_at era (year_of_era doe) (day_of_year doe)

date_day-cong : {e e' d d' : ℕ} → e ≡ e' → d ≡ d' → date_day e d ≡ date_day e' d'
date_day-cong {e' = e'} {d = d} p q = ap (λ e. date_day e d) p ∙ ap (date_day e') q

-- A day inside an era and the next one.
next_in_era :
    (era doe : ℕ)
    → doe + 1 < 146097
    → date_at era (year_of_era (doe + 1)) (day_of_year (doe + 1))
      ≡ day_after (date_at era (year_of_era doe) (day_of_year doe))
next_in_era era doe h =
    let y = year_of_era doe in
    let lo = year_lo doe (omega (arith, h)) in
    let hi = year_hi doe (omega (arith, h)) in
    let below = year_end doe (omega (arith, h)) in
    elim (Bool-cases (y == 399)) [
      | inl last ↦
          (let is : y ≡ 399 = (==_iff y 399).0 last in
            let leap : is_leap (y + 1 + era * 400) ≡ true =
              ap (λ m. is_leap (m + 1 + era * 400)) is ∙ leap_400 era in
            let start : days_before y ≡ 145731 = ap days_before is in
            same_year era doe h (year_same doe h (inr is))
              (day_cases (day_of_year doe) (omega (arith, h, lo, start)) leap))
      | inr before ↦
          (let less : y < 399 = ground (arith, before, hi) in
            elim (Bool-cases (doe + 1 == days_before (y + 1))) [
              | inl ends ↦
                  (let is : doe + 1 ≡ days_before (y + 1) =
                      (==_iff (doe + 1) (days_before (y + 1))).0 ends in
                    let e = year_next doe is less in
                    date_at-cong era {d' = 0} e (omega (arith, is, ap days_before e))
                    ∙ step_across era y (day_of_year doe) (elim (leap_day era y less) [
                      | inl (len, leap) ↦ inl (omega (arith, len, is, lo), leap)
                      | inr (len, leap) ↦ inr (omega (arith, len, is, lo), leap)
                    ]))
              | inr goes_on ↦
                  (let room : doe + 1 < days_before (y + 1) = ground (arith, goes_on, below) in
                    same_year era doe h (year_same doe h (inl room)) (elim (leap_day era y less) [
                      | inl (len, leap) ↦ inl (omega (arith, len, room, lo))
                      | inr (len, leap) ↦
                          day_cases (day_of_year doe) (omega (arith, len, room, lo)) leap
                    ]))
            ])
    ]

last_of_era :
    (era : ℕ)
    → date_at (era + 1) (year_of_era 0) (day_of_year 0)
      ≡ day_after (date_at era (year_of_era 146096) (day_of_year 146096))
unfolding year_of_era
last_of_era era = step_era era ∙ step_across era 399 365 (inr (refl, leap_400 era))

year_lem :
    (era y : ℕ) (b : Bool) (m d : ℕ)
    → let yy = pos y +ℤ pos (era * 400) in
      ◌≡◌ {A = Date}
        (record { year = if b then yy +ℤ pos 1 else yy; month = m; day = d })
        (record { year = pos ((if b then y + 1 else y) + era * 400); month = m; day = d })
unfolding ◌+ℤ◌
year_lem era y b m d = ground arith

date_in_era-pos :
    (era doe : ℕ) → date_in_era (pos era) doe ≡ date_at era (year_of_era doe) (day_of_year doe)
unfolding date_in_era ◌+ℤ◌
date_in_era-pos era doe =
    year_lem era (year_of_era doe) (leb (month_of (march_month (day_of_year doe))) 2)
      (month_of (march_month (day_of_year doe))) (day_of_month (day_of_year doe))

era_of-pos : (z : ℕ) → era_of (pos z) ≡ pos (z / 146097)
unfolding tdiv_ℤ
era_of-pos z = ground arith

rest_of_era : (z : ℕ) → pos z -ℤ times (pos (z / 146097)) 146097 ≡ pos (z % 146097)
unfolding ◌-ℤ◌
rest_of_era z = ground arith

plus_pos : (n m : ℕ) → pos n +ℤ pos m ≡ pos (n + m)
unfolding ◌+ℤ◌
plus_pos n m = ground arith

date-eq :
    (n : ℕ) → let z = n + 719468 in load_hist_date (pos n) ≡ date_day (z / 146097) (z % 146097)
unfolding load_hist_date
date-eq n =
    let z = n + 719468 in
    ap (λ z. date_in_era (era_of z) (pos_part (z -ℤ times (era_of z) 146097))) (plus_pos n 719468)
    ∙ ap (λ e. date_in_era e (pos_part (pos z -ℤ times e 146097))) (era_of-pos z)
    ∙ ap (λ (d : ℤ). date_in_era (pos (z / 146097)) (pos_part d)) (rest_of_era z)
    ∙ date_in_era-pos (z / 146097) (z % 146097)

-- The dates follow the calendar from 1970 on: the first day is 1 January 1970, and the day after
-- has the next date, through months, leap years and centuries.
pub date_follows_calendar :
    (n : ℕ)
    → (load_hist_date (pos 0) ≡ record { year = pos 1970; month = 1; day = 1 })
      × (load_hist_date (pos (n + 1)) ≡ day_after (load_hist_date (pos n)))
unfolding year_of_era
date_follows_calendar n =
    let z = n + 719468 in
    (
      date-eq 0,
      date-eq (n + 1) ∙ elim (Bool-cases (z % 146097 == 146096)) [
        | inl e ↦
            (let ends = (==_iff (z % 146097) 146096).0 e in
              date_day-cong {e' = z / 146097 + 1} {d' = 0} (omega (arith, ends))
                (omega (arith, ends))
              ∙ last_of_era (z / 146097)
              ∙ ap (λ d. day_after (date_day (z / 146097) d)) (sym ends)
              ∙ ap day_after (sym (date-eq n)))
        | inr e ↦
            (let room : z % 146097 + 1 < 146097 = ground (arith, e) in
              date_day-cong {e' = z / 146097} {d' = z % 146097 + 1} (omega (arith, room))
                (omega (arith, room))
              ∙ next_in_era (z / 146097) (z % 146097) room
              ∙ ap day_after (sym (date-eq n)))
      ],
    )

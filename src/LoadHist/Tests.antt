-- ===== src/LoadHist/Tests.antt =====
-- The history of days, at a flash in RAM.
use deye_inverter_display_es.Common.{ℕ, zero, suc, ◌+◌, ◌≡◌, refl, pos, List, [], ◌∷◌, to_u32}
use deye_inverter_display_es.Ring.{
  Area, Cell, Ring, Status, blank, empty, put, put_at, find_slot, settle, ok,
}
use deye_inverter_display_es.Ring.Seal.{fnv}
use deye_inverter_display_es.Ring.Fresh.{ram}
use deye_inverter_display_es.LoadHist.{Rec, Day, lh_kind, lh_rec_sum, bytes, of_day}
use deye_inverter_display_es.LoadHist.Date.{load_hist_date}
use deye_inverter_display_es.LoadHist.Calendar.{day_after, date_follows_calendar}

abbrev flash : Area Rec
flash = ram lh_kind 4096

abbrev wiped : ℕ → Cell Rec
wiped j = blank

abbrev quarters : ℕ → List ℕ
quarters zero = []
quarters (suc n) = 500 ∷ quarters n

abbrev monday : Day
monday = record { day = pos 20000; wday = 1; w = quarters 96 }

abbrev after_monday : Status × Ring × (ℕ → Cell Rec)
after_monday = put lh_kind flash (of_day monday) (empty lh_kind) wiped

monday_ok : after_monday.0 ≡ ok
unfolding put put_at find_slot settle lh_rec_sum fnv bytes to_u32
monday_ok = refl

-- 28 February 2100, which is no leap year.
date_follows_calendar_example :
    (load_hist_date (pos 0) ≡ record { year = pos 1970; month = 1; day = 1 })
    × (load_hist_date (pos (47540 + 1)) ≡ day_after (load_hist_date (pos 47540)))
date_follows_calendar_example = date_follows_calendar 47540

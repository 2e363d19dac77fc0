-- ===== src/LoadHist.antt =====
-- main/load_hist.c: the record of a day, its reads, the averages and the date of a day. The ring
-- itself is in Ring.
pub mod Sealed
pub mod Average
pub mod Mean
pub mod Picked
pub mod Date
pub mod Calendar
pub mod Reads
mod Tests
use deye_inverter_display_es.Common.{
  ℕ, zero, suc, ◌+◌, ◌-◌, ◌*◌, Bool, true, false, not, ◌&&◌, ◌||◌, ℤ, pos, negsuc, to_u32, ◌==ℤ◌,
  Option, none, some, List, [], ◌∷◌, ◌==◌, if◌then◌else◌, ◌^◌, ◌%◌,
}
use deye_inverter_display_es.Ring.{Kind, Area, Ring, read_slot, slot_back}
use deye_inverter_display_es.Ring.Seal.{le16, le32, fnv, fnv_start}

-- `lh_rec_t`
pub record Rec : Type 0 where
  pub magic : ℕ
  pub seq : ℕ
  pub day : ℤ
  pub wday : ℕ
  pub ver : ℕ
  pub nslots : ℕ
  pub w : List ℕ
  pub sum : ℕ

-- `lh_day_t`
pub record Day : Type 0 where
  pub day : ℤ
  pub wday : ℕ
  pub w : List ℕ

abbrev lh_magic : ℕ
lh_magic = 1279804465

abbrev pub lh_slots : ℕ
lh_slots = 96

abbrev pub lh_per_sector : ℕ
lh_per_sector = 16

abbrev pub le16s : List ℕ → List ℕ
le16s [] = []
le16s (v ∷ vs) = le16 v (le16s vs)

-- The bytes before the checksum.
unfoldable pub bytes : Rec → List ℕ
bytes r =
    le32 r.magic (le32 r.seq (le32 (to_u32 r.day) (r.wday ∷ r.ver ∷ le16 r.nslots (le16s r.w))))

unfoldable pub lh_rec_sum : Rec → ℕ
lh_rec_sum r = fnv fnv_start (bytes r)

abbrev pub lh_rec_ok : Rec → Bool
lh_rec_ok r = r.magic == lh_magic && r.ver == 1 && r.nslots == lh_slots && r.sum == lh_rec_sum r

abbrev pub with_header : ℕ → Rec → Rec
with_header n r = record r { magic = lh_magic; seq = n; ver = 1; nslots = lh_slots }

-- The header that `load_hist_put_l` fills in.
abbrev pub seal : ℕ → Rec → Rec
seal n r = record (with_header n r) { sum = lh_rec_sum (with_header n r) }

abbrev pub same_list : List ℕ → List ℕ → Bool
same_list [] [] = true
same_list (x ∷ xs) (y ∷ ys) = x == y && same_list xs ys
same_list [] (y ∷ ys) = false
same_list (x ∷ xs) [] = false

-- `memcmp` of two records, whose padding a put fills with 0xFF: all fields are equal.
abbrev pub same : Rec → Rec → Bool
same a b =
    a.magic == b.magic
    && a.seq == b.seq
    && a.day ==ℤ b.day
    && a.wday == b.wday
    && a.ver == b.ver
    && a.nslots == b.nslots
    && same_list a.w b.w
    && a.sum == b.sum

abbrev pub lh_kind : Kind
lh_kind = record {
  Rec = Rec;
  rec_ok = lh_rec_ok;
  seq = λ r. r.seq;
  stamp = λ r. r.day;
  seal = seal;
  same = same;
  per_sector = lh_per_sector;
}

-- The record that a put begins with.
abbrev pub of_day : Day → Rec
of_day d = record {
  magic = 0;
  seq = 0;
  day = d.day;
  wday = d.wday;
  ver = 0;
  nslots = 0;
  w = d.w;
  sum = 0;
}

abbrev pub day_of : Rec → Day
day_of r = record { day = r.day; wday = r.wday; w = r.w }

abbrev pub load_hist_count_l : Ring → ℤ × ℤ
load_hist_count_l g = (g.count, if g.count ==ℤ pos 0 then pos 0 else g.oldest)

module _ (a : Area Rec) where
  open a use {State, slots}

  -- The loop back from the newest record, with `k` records still to pass.
  unfoldable pub nth_back : ℕ → ℕ → ℕ → ℕ → State → Option Day
  nth_back zero newest back k s = none
  nth_back (suc left) newest back k s =
      elim (read_slot lh_kind a (slot_back lh_kind a newest back) s) [
        | none ↦ nth_back left newest (back + 1) k s
        | some r ↦
            (let rest = nth_back left newest (back + 1) (k - 1) s in
              if k == 0 then some (day_of r) else rest)
      ]

  abbrev pub from_newest : Option ℕ → ℕ → State → Option Day
  from_newest none k s = none
  from_newest (some newest) k s = nth_back slots newest 0 k s

  unfoldable pub load_hist_get_l : ℤ → Ring → State → Option Day
  load_hist_get_l (negsuc k) g s = none
  load_hist_get_l (pos k) g s = from_newest g.newest k s

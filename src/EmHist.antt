-- ===== src/EmHist.antt =====
-- main/em_hist.c: the record of a quarter hour, the boot scan by sectors, the collection of a
-- running quarter hour and the read of a range. The ring itself is in Ring.
pub mod Sealed
pub mod Scan
pub mod Reals
pub mod Acc
pub mod Window
pub mod Range
pub mod Course
pub mod ReadBack
mod Tests
use deye_inverter_display_es.Common.{
  ℕ, zero, suc, ◌+◌, ◌*◌, ◌/◌, ◌%◌, ◌^◌, Bool, true, false, ◌&&◌, ℤ, pos, to_u16, ◌==ℤ◌, Option,
  none, some, List, [], ◌∷◌, ◌++◌, map, ◌==◌,
}
use deye_inverter_display_es.Ring.{Kind, Cell, Area, Ring, init_from}
use deye_inverter_display_es.Ring.Seal.{le16, le32, fnv, fnv_start}

-- `eh_rec_t`; the `int16_t` fields are integers.
pub record Rec : Type 0 where
  pub magic : ℕ
  pub ver : ℕ
  pub flags : ℕ
  pub seq : ℕ
  pub t : ℕ
  pub deye_soc : ℕ
  pub byd_soc : ℕ
  pub deye_bat_w : ℤ
  pub grid_w : ℤ
  pub pv_w : ℤ
  pub house_w : ℤ
  pub price : ℤ
  pub act : ℕ
  pub mode : ℕ
  pub sum : ℕ

abbrev eh_magic : ℕ
eh_magic = 18501

abbrev eh_ver : ℕ
eh_ver = 1

abbrev pub eh_per_sector : ℕ
eh_per_sector = 128

-- The bytes before the checksum.
unfoldable pub bytes : Rec → List ℕ
bytes r = le16 r.magic (
    r.ver
    ∷ r.flags
    ∷ le32 r.seq (
        le32 r.t (
          le16 r.deye_soc (
            le16 r.byd_soc (
              le16 (to_u16 r.deye_bat_w) (
                le16 (to_u16 r.grid_w) (
                  le16 (to_u16 r.pv_w)
                    (le16 (to_u16 r.house_w) (le16 (to_u16 r.price) (r.act ∷ r.mode ∷ []))))))))))

unfoldable pub eh_rec_sum : Rec → ℕ
eh_rec_sum r = fnv fnv_start (bytes r)

abbrev pub eh_rec_ok : Rec → Bool
eh_rec_ok r = r.magic == eh_magic && r.ver == eh_ver && r.sum == eh_rec_sum r

abbrev pub with_header : ℕ → Rec → Rec
with_header n r = record r { magic = eh_magic; ver = eh_ver; seq = n }

-- The header that `eh_put_l` fills in.
abbrev pub seal : ℕ → Rec → Rec
seal n r = record (with_header n r) { sum = eh_rec_sum (with_header n r) }

-- `memcmp` of two records, which have no padding: all fields are equal.
abbrev pub same : Rec → Rec → Bool
same a b =
    a.magic == b.magic
    && a.ver == b.ver
    && a.flags == b.flags
    && a.seq == b.seq
    && a.t == b.t
    && a.deye_soc == b.deye_soc
    && a.byd_soc == b.byd_soc
    && a.deye_bat_w ==ℤ b.deye_bat_w
    && a.grid_w ==ℤ b.grid_w
    && a.pv_w ==ℤ b.pv_w
    && a.house_w ==ℤ b.house_w
    && a.price ==ℤ b.price
    && a.act == b.act
    && a.mode == b.mode
    && a.sum == b.sum

abbrev pub em_kind : Kind
em_kind = record {
  Rec = Rec;
  rec_ok = eh_rec_ok;
  seq = λ r. r.seq;
  stamp = λ r. pos r.t;
  seal = seal;
  same = same;
  per_sector = eh_per_sector;
}

abbrev pub skipped : ℕ → List (Option (Cell Rec))
skipped zero = []
skipped (suc n) = none ∷ skipped n

module _ (a : Area Rec) where
  open a use {State, slots}

  -- A read of the sector that begins at a slot: all of its cells, or an error.
  abbrev pub ReadSector : Type 0
  ReadSector = ℕ → State → Option (List (Cell Rec))

  -- The cells as the boot scan meets them: none of a sector whose read failed.
  abbrev pub take_sector : Option (List (Cell Rec)) → List (Option (Cell Rec))
  take_sector none = skipped eh_per_sector
  take_sector (some cs) = map some cs

  unfoldable pub sector_cells : ReadSector → ℕ → ℕ → State → List (Option (Cell Rec))
  sector_cells rs zero s0 s = []
  sector_cells rs (suc n) s0 s = take_sector (rs s0 s) ++ sector_cells rs n (s0 + eh_per_sector) s

  -- `em_hist_init_l`, behind the open of the flash area
  abbrev pub em_hist_init_l : ReadSector → State → Ring
  em_hist_init_l rs s = init_from em_kind (sector_cells rs ((slots + 127) / 128) 0 s)

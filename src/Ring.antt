-- ===== src/Ring.antt =====
-- The append-only ring of records in a flash area that main/em_hist.c and main/load_hist.c both
-- have: `*_init_l`, `*_put_l` and the walk back from the newest record. The record is a parameter,
-- and the flash an interface of slots.
pub mod Laws
pub mod Slots
pub mod Find
pub mod Count
pub mod Put
pub mod Step
pub mod Seal
pub mod Fresh
use deye_inverter_display_es.Common.{
  ℕ, zero, suc, ◌+◌, ◌*◌, ◌%◌, Bool, true, false, not, ℤ, pos, ◌+ℤ◌, ◌-ℤ◌, ◌==ℤ◌, Option, none,
  some, List, [], ◌∷◌, ltb, ◌==◌, if◌then◌else◌, u32, ◌-◌, ◌^◌,
}

-- A record of the ring: its header test (magic, version and checksum), its sequence number and
-- time stamp, `seal` for the header that a put fills in, and `memcmp`.
pub record Kind : Type 1 where
  pub Rec : Type 0
  pub rec_ok : Rec → Bool
  pub seq : Rec → ℕ
  pub stamp : Rec → ℤ
  pub seal : ℕ → Rec → Rec
  pub same : Rec → Rec → Bool
  pub per_sector : ℕ

-- What a slot of the flash holds: nothing since its erase (every byte is 0xFF), or some record.
pub data Cell (R : Type 0) : Type 0 where
  blank : Cell R
  holds : R → Cell R

-- The flash area, cut into slots: `read` may fail, `write` and `erase` (of the sector that begins
-- at a slot) report success.
pub record Area (R : Type 0) : Type 1 where
  pub State : Type 0
  pub slots : ℕ
  pub read : ℕ → State → Option (Cell R)
  pub write : ℕ → R → State → Bool × State
  pub erase : ℕ → State → Bool × State

-- The static variables: `s_newest` (`none` is -1), `s_seq`, `s_count` and `s_oldest`.
pub record Ring : Type 0 where
  pub newest : Option ℕ
  pub seq : ℕ
  pub count : ℤ
  pub oldest : ℤ

pub data Status : Type 0 where
  ok no_area flash_error read_back : Status

abbrev pub is_newer : Option ℕ → ℕ → ℕ → Bool
is_newer none s t = true
is_newer (some i) s t = ltb s t

module _ (k : Kind) where
  open k use {Rec, rec_ok, seq, stamp, seal, same, per_sector}

  -- The record in a cell, where it passes its checks.
  abbrev pub valid : Option (Cell Rec) → Option Rec
  valid none = none
  valid (some blank) = none
  valid (some (holds r)) = if rec_ok r then some r else none

  -- A scan at boot, with the smallest sequence number so far.
  pub record Scan : Type 0 where
    pub ring : Ring
    pub oldest_seq : ℕ

  abbrev pub take_rec : ℕ → Rec → Scan → Scan
  take_rec i r a =
      let newer = is_newer a.ring.newest a.ring.seq (seq r) in
      let older = ltb (seq r) a.oldest_seq in
      record {
        ring = record {
          newest = if newer then some i else a.ring.newest;
          seq = if newer then seq r else a.ring.seq;
          count = a.ring.count +ℤ pos 1;
          oldest = if older then stamp r else a.ring.oldest;
        };
        oldest_seq = if older then seq r else a.oldest_seq;
      }

  abbrev pub take_cell : ℕ → Option Rec → Scan → Scan
  take_cell i none a = a
  take_cell i (some r) a = take_rec i r a

  -- The loop over the cells as they were read, from slot `i` on.
  unfoldable pub scan : ℕ → List (Option (Cell Rec)) → Scan → Scan
  scan i [] a = a
  scan i (c ∷ cs) a = scan (i + 1) cs (take_cell i (valid c) a)

  abbrev pub empty : Ring
  empty = record { newest = none; seq = 0; count = pos 0; oldest = pos 0 }

  -- The ring variables from the cells of the whole area.
  unfoldable pub init_from : List (Option (Cell Rec)) → Ring
  init_from cs = (scan 0 cs (record { ring = empty; oldest_seq = 2 ^ 32 - 1 })).ring

  module _ (a : Area Rec) where
    open a use {State, slots, read, write, erase}

    abbrev pub read_slot : ℕ → State → Option Rec
    read_slot i s = valid (read i s)

    -- Every cell by a read of its own, as main/load_hist.c does.
    unfoldable pub cells : ℕ → ℕ → State → List (Option (Cell Rec))
    cells zero i s = []
    cells (suc n) i s = read i s ∷ cells n (i + 1) s

    abbrev pub init : State → Ring
    init s = init_from (cells slots 0 s)

    abbrev pub is_blank : Option (Cell Rec) → Bool
    is_blank (some blank) = true
    is_blank _ = false

    abbrev pub one_if_valid : Option Rec → ℕ
    one_if_valid none = 0
    one_if_valid (some r) = 1

    -- How many of `n` slots from `i` on hold a record.
    unfoldable pub valid_in : ℕ → ℕ → State → ℕ
    valid_in zero i s = 0
    valid_in (suc n) i s = one_if_valid (read_slot i s) + valid_in n (i + 1) s

    -- `(slot + 1) % nrec`
    abbrev pub next_slot : ℕ → ℕ
    next_slot slot = (slot + 1) % slots

    -- Where a put ends up, how many records the erase of a sector dropped, and its success.
    pub record Place : Type 0 where
      pub slot : ℕ
      pub lost : ℕ
      pub erased : Bool
      pub fine : Bool
      pub flash : State

    -- The loop with its guard: a sector is wiped on entry, a slot that is not blank passed over.
    unfoldable pub find_slot : ℕ → ℕ → State → Place
    find_slot zero slot s = record { slot = slot; lost = 0; erased = false; fine = true; flash = s }
    find_slot (suc guard) slot s =
        let rest = find_slot guard (next_slot slot) s in
        if slot % per_sector == 0
        then (let (done, s') = erase slot s in
            record {
              slot = slot;
              lost = valid_in per_sector slot s;
              erased = true;
              fine = done;
              flash = s';
            })
        else if is_blank (read slot s)
        then record { slot = slot; lost = 0; erased = false; fine = true; flash = s }
        else rest

    abbrev pub first_slot : Option ℕ → ℕ
    first_slot none = 0
    first_slot (some i) = next_slot i

    -- The oldest record after a wrap: the first one behind `slot`.
    unfoldable pub oldest_after : ℕ → ℕ → State → ℤ → ℤ
    oldest_after zero slot s old = old
    oldest_after (suc n) slot s old = elim (read_slot slot s) [
      | none ↦ oldest_after n (next_slot slot) s old
      | some r ↦ stamp r
    ]

    abbrev pub reads_back : Rec → Option Rec → Bool
    reads_back r none = false
    reads_back r (some c) = same c r

    -- The end of a put, behind the write at a place that was found.
    unfoldable pub settle : Rec → Place → Ring → State → Status × Ring × State
    settle r p ring s =
        let count = ring.count -ℤ pos p.lost in
        let back = reads_back r (read_slot p.slot s) in
        let one = (count +ℤ pos 1) ==ℤ pos 1 in
        let first = if one then stamp r else ring.oldest in
        if not back then (read_back, record ring { count = count }, s) else (
          ok,
          record {
            newest = some p.slot;
            seq = seq r;
            count = count +ℤ pos 1;
            oldest = if ltb 0 p.lost then oldest_after slots (next_slot p.slot) s first else first;
          },
          s,
        )

    unfoldable pub put_at : Rec → Place → Ring → Status × Ring × State
    put_at d p ring =
        let r = seal (u32 (ring.seq + 1)) d in
        let (done, s) = write p.slot r p.flash in
        if not p.fine
        then (flash_error, ring, p.flash)
        else if not done
        then (flash_error, record ring { count = ring.count -ℤ pos p.lost }, s)
        else settle r p ring s

    -- `*_put_l`
    unfoldable pub put : Rec → Ring → State → Status × Ring × State
    put d ring s =
        if ltb slots (per_sector * 2)
        then (no_area, ring, s)
        else put_at d (find_slot per_sector (first_slot ring.newest) s) ring

    -- `((newest - back) % nrec + nrec) % nrec`
    abbrev pub slot_back : ℕ → ℕ → ℕ
    slot_back newest back = (newest + slots - back) % slots

-- ===== src/Gateway/Slots.antt =====
-- The client slots of main/modbus_gw.c.
use deye_inverter_display_es.Common.{
  ℕ, ◌+◌, ◌≤◌, ◌<◌, ◌≡◌, ◌⊎◌, inl, inr, refl, true, false, Bool-cases, not, ◌||◌, List, [], ◌∷◌,
  arith, length, sub32, leb,
}
use deye_inverter_display_es.Gateway.{Client, used, seat, has_free, accept, reap, idle_ms}

used-seat :
    (new : Client) (cs : List Client)
    → new.is_open ≡ true
    → has_free cs ≡ true
    → used (seat new cs) ≡ used cs + 1
used-seat new [] o h = cc
used-seat new (c ∷ cs) o h = ground (arith, used-seat new cs o)

length-seat : (new : Client) (cs : List Client) → length (seat new cs) ≡ length cs
length-seat new [] = refl
length-seat new (c ∷ cs) = ground (arith, length-seat new cs)

-- One closed slot of `cs` holds `new` in `ds`, and every other slot is the same.
pub data Seated (new : Client) : List Client → List Client → Type 0 where
  here : {c : Client} {cs : List Client} → c.is_open ≡ false → Seated new (c ∷ cs) (new ∷ cs)
  there :
      {c : Client} {cs ds : List Client}
      → c.is_open ≡ true
      → Seated new cs ds
      → Seated new (c ∷ cs) (c ∷ ds)

seat-Seated : (new : Client) (cs : List Client) → has_free cs ≡ true → Seated new cs (seat new cs)
seat-Seated new [] h = cc
seat-Seated new (c ∷ cs) h = elim (Bool-cases c.is_open) [
  | inl o ↦ simp o (there o (seat-Seated new cs (ground arith)))
  | inr o ↦ simp o (here o)
]

-- A new client is taken exactly where a slot is free and the limit is not reached: then the first
-- closed slot holds it, with an empty buffer, and every other client is untouched; a refused one
-- changes nothing. The number of clients never passes the limit by it.
accept_seats :
    (maxcl ip now : ℕ) (cs : List Client)
    → let (taken, ds) = accept maxcl ip now cs in
      ((taken ≡ false) × (ds ≡ cs) × ((has_free cs ≡ false) ⊎ (maxcl ≤ used cs)))
      ⊎ ((taken ≡ true)
          × Seated (record { is_open = true; buf = []; last_ms = now; ip = ip }) cs ds
          × (used ds ≡ used cs + 1)
          × (used ds ≤ maxcl)
          × (length ds ≡ length cs))
unfolding accept
accept_seats maxcl ip now cs =
    let new : Client = record { is_open = true; buf = []; last_ms = now; ip = ip } in
    elim (Bool-cases (not (has_free cs) || leb maxcl (used cs))) [
      | inl full ↦ rw full (inl (refl, refl, ground arith))
      | inr room ↦
          let free : has_free cs ≡ true = ground arith in
          rw room (
            inr (
              refl,
              seat-Seated new cs free,
              used-seat new cs refl free,
              ground (arith, used-seat new cs refl free),
              length-seat new cs,
            ))
    ]

-- A client is closed for idling exactly after a minute without a byte (on the wrapping clock); a
-- client that is not stays as it is.
pub reap_idle :
    (now : ℕ) (c : Client)
    → let d = reap now c in
      ((d ≡ c) × ((c.is_open ≡ false) ⊎ (sub32 now c.last_ms ≤ idle_ms)))
      ⊎ ((c.is_open ≡ true) × (idle_ms < sub32 now c.last_ms) × (d.is_open ≡ false) × (d.buf ≡ []))
unfolding reap
reap_idle now c = ground arith

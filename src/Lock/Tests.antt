-- ===== src/Lock/Tests.antt =====
-- Locks at concrete inputs, with a flash that always stores.
use deye_inverter_display_es.Common.{
  ◌*◌, ◌<◌, ◌≡◌, refl, true, false, ◌&&◌, ℤ, pos, Option, none, some, arith, u32, ◌+◌,
}
use deye_inverter_display_es.Lock.{
  deye, off, Stored, Flash, FlashLaws, Locks, lock_end, lock_active, set, take_over, tick, init,
}
use deye_inverter_display_es.Lock.Expiry.{Outlasts, lock_end_lasts, tick_outcome, init-set}

abbrev chip : Flash
chip = record { State = Option Stored; get = λ s. s; put = λ r s. (true, some r) }

abbrev chip_laws : FlashLaws chip
chip_laws = record { get_put = λ r s h. refl }

abbrev unlocked : Locks chip
unlocked = record {
  deye_lock = off;
  byd_lock = off;
  lock_until_ms = 0;
  req_lock = false;
  req_seq = 0;
  flash = none;
  unsaved = false;
}

abbrev noon : ℤ
noon = pos 1800000000

-- The Deye locked for an hour.
abbrev locked : Locks chip
locked = (set deye true 60 noon 5000 unlocked).1

-- The clock wraps within the lock.
lock_end_lasts_example :
    (1000 < 120 * 1000 → lock_active (lock_end 120 4294967000) (u32 (4294967000 + 1000)) ≡ true)
    × (120 * 1000 < 1000 → lock_active (lock_end 120 4294967000) (u32 (4294967000 + 1000)) ≡ false)
lock_end_lasts_example = lock_end_lasts 120 4294967000 1000 (omega arith) (omega arith)

tick_outcome_example :
    let l' = tick noon 6000 true locked in
    Outlasts noon locked.deye_lock l'.deye_lock
    × Outlasts noon locked.byd_lock l'.byd_lock
    × (l'.req_lock ≡ (l'.byd_lock.on && true))
    × (l'.deye_lock.on ≡ true → l'.lock_until_ms ≡ lock_end 120 6000)
tick_outcome_example = tick_outcome noon 6000 true locked

init-set_example :
    let l'' = init 1000 (record unlocked { flash = locked.flash }) in
    (l''.deye_lock ≡ locked.deye_lock)
    × (l''.byd_lock ≡ locked.byd_lock)
    × (l''.deye_lock.on ≡ true → l''.lock_until_ms ≡ lock_end 120 1000)
unfolding set take_over
init-set_example =
    init-set chip_laws deye true 60 noon 5000 1000 unlocked
      (record unlocked { flash = locked.flash }) (λ _. refl, λ _. refl) refl refl refl

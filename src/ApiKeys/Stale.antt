-- ===== src/ApiKeys/Stale.antt =====
-- `release_stale_usage_reservations` of app/modules/api_keys/repository.py. The reservations are
-- given by their ids in the order of `updated_at`; the transaction of a batch is one step, and the
-- clock of the database reads one value, `now`, throughout.
pub mod Drained
use codex_lb_mod.Base.{
  Bool, List, Option, [], false, if◌then◌else◌, length, ltb, none, put, select, some, suc, true,
  zero, ℕ, ◌&&◌, ◌+◌, ◌∷◌,
}
use codex_lb_mod.ApiKeys.Types.{Database, Reservation, released, reserved, same_reservation_status}
use codex_lb_mod.ApiKeys.Service.{release_items}

-- `status == "reserved" and updated_at < cutoff`
abbrev pub is_stale_row : ℕ → Reservation → Bool
is_stale_row cutoff r = same_reservation_status r.status reserved && ltb r.updated_at cutoff

abbrev pub stale_in : ℕ → Option Reservation → Bool
stale_in cutoff none = false
stale_in cutoff (some r) = is_stale_row cutoff r

abbrev pub stale_at : ℕ → Database → ℕ → Bool
stale_at cutoff db id = stale_in cutoff (db.reservations id)

abbrev pub clear_row : ℕ → Reservation → Reservation
clear_row now r = record r {
  status = released;
  input_tokens = none;
  output_tokens = none;
  cached_input_tokens = none;
  cost_microdollars = none;
  updated_at = now;
}

-- The claim of one reservation, then its items. A claim that finds no row changes nothing.
unfoldable pub release_stale_one : ℕ → ℕ → ℕ → Database → Database
release_stale_one now cutoff id db = elim (db.reservations id) [
  | none ↦ db
  | some r ↦
      if is_stale_row cutoff r
      then release_items id r.items
          (record db { reservations = put db.reservations id (clear_row now r) })
      else db
]

unfoldable pub release_batch : ℕ → ℕ → List ℕ → Database → Database
release_batch now cutoff [] db = db
release_batch now cutoff (id ∷ batch) db =
    release_batch now cutoff batch (release_stale_one now cutoff id db)

abbrev pub is_nil : List ℕ → Bool
is_nil [] = true
is_nil (id ∷ ids) = false

abbrev pub first_of : ℕ → List ℕ → List ℕ
first_of zero ids = []
first_of (suc n) [] = []
first_of (suc n) (id ∷ ids) = id ∷ first_of n ids

abbrev pub stale_ids : ℕ → List ℕ → Database → List ℕ
stale_ids cutoff ids db = select (stale_at cutoff db) ids

-- Batch after batch until none is found; the number of released reservations is added up.
unfoldable pub release_rounds : ℕ → ℕ → ℕ → ℕ → List ℕ → Database → Database × ℕ
release_rounds zero now cutoff batch_size ids db = (db, 0)
release_rounds (suc fuel) now cutoff batch_size ids db =
    let batch = first_of batch_size (stale_ids cutoff ids db) in
    let rest = release_rounds fuel now cutoff batch_size ids (release_batch now cutoff batch db) in
    if is_nil batch then (db, 0) else (rest.0, length batch + rest.1)

-- Each round but the last releases a reservation, so one round more than there are ids is enough.
unfoldable pub release_stale_usage_reservations : ℕ → ℕ → ℕ → List ℕ → Database → Database × ℕ
unfolding release_rounds
release_stale_usage_reservations now cutoff batch_size ids db =
    release_rounds (suc (length ids)) now cutoff batch_size ids db

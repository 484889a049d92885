-- ===== src/ApiKeys/Service.antt =====
-- The life of a usage reservation: `ApiKeysService` of app/modules/api_keys/service.py. A call that
-- raises rolls back to the last commit. The functions below are one attempt; Retry has the loop of
-- attempts on a locked SQLite file.
pub mod Owed
pub mod Accounting
pub mod Granted
pub mod Limits
pub mod Lifecycle
use Prim.Native.String.{String}
use codex_lb_mod.Base.{
  Bool, List, Option, [], false, if◌then◌else◌, inl, inr, leb, ltb, none, not, or_default, some,
  true, ℕ, ◌&&◌, ◌==◌, ◌∷◌, ◌⊎◌,
}
use codex_lb_mod.Base.Int.{sub_ℕ}
use codex_lb_mod.ApiKeys.Types.{
  ApiKey, ApiKeyLimit, Database, Reservation, ReservationItem, ReservationStatus,
  limit_applies_for_request, released, reserved, same_reservation_status, settling,
}
use codex_lb_mod.ApiKeys.Windows.{advance_limit_reset}
use codex_lb_mod.ApiKeys.Repository.{
  adjust_reserved_usage, create_usage_reservation, reset_limit, settle_usage_reservation,
  transition_usage_reservation_status, try_reserve_usage, update_last_used,
  upsert_reservation_item_actual,
}
use codex_lb_mod.ApiKeys.Budget.{
  CostFunction, UsageBudget, compute_increment_for_limit_type, normalize_request_usage_budget,
  reserve_delta_for_limit,
}

-- What a request brings to `enforce_limits_for_request`.
pub record Request : Type 0 where
  pub request_model : Option String
  pub request_service_tier : Option String
  pub request_usage_budget : Option UsageBudget

pub data ReserveResult : Type 0 where
  reserved_items : Database → List ReservationItem → ReserveResult
  limit_exceeded : ApiKeyLimit → ReserveResult

pub data EnforceResult : Type 0 where
  granted : ℕ → EnforceResult
  key_invalid key_expired : EnforceResult
  rate_limit_exceeded : ApiKeyLimit → EnforceResult

abbrev pub add_item : ReservationItem → ReserveResult → ReserveResult
add_item item (reserved_items db items) = reserved_items db (item ∷ items)
add_item item (limit_exceeded l) = limit_exceeded l

abbrev pub item_for : ApiKeyLimit → ℕ → ReservationItem
item_for limit delta = record {
  limit_id = limit.id;
  limit_type = limit.limit_type;
  reserved_delta = delta;
  expected_reset_at = limit.reset_at;
  actual_delta = none;
}

-- The loop over the limits of a key, with the reservations of `reserve_delta > 0`.
unfoldable pub reserve_limits : CostFunction → Request → List ApiKeyLimit → Database → ReserveResult
reserve_limits cost q [] db = reserved_items db []
reserve_limits cost q (limit ∷ limits) db =
    let delta =
      reserve_delta_for_limit cost limit q.request_model q.request_service_tier
        (normalize_request_usage_budget q.request_usage_budget) in
    let skip = reserve_limits cost q limits db in
    let (db', success) = try_reserve_usage db limit.id delta limit.reset_at in
    let rest = add_item (item_for limit delta) (reserve_limits cost q limits db') in
    if not (limit_applies_for_request limit q.request_model)
    then skip
    else if leb limit.max_value limit.current_value
    then limit_exceeded limit
    else if success
    then rest
    else limit_exceeded limit

-- The rows of a key's limits.
unfoldable pub limits_of : Database → List ℕ → List ApiKeyLimit
limits_of db [] = []
limits_of db (i ∷ ids) = elim (db.limits i) [
  | none ↦ limits_of db ids
  | some l ↦ l ∷ limits_of db ids
]

-- `_lazy_reset_expired_limits`; each reset is committed.
unfoldable pub lazy_reset_expired_limits : ℕ → List ApiKeyLimit → Database → Database × Bool
lazy_reset_expired_limits now [] db = (db, false)
lazy_reset_expired_limits now (limit ∷ limits) db =
    let skip = lazy_reset_expired_limits now limits db in
    let (db', _) =
      reset_limit db limit.id limit.reset_at
        (advance_limit_reset limit.reset_at now limit.limit_window) in
    let reset : Database × Bool = ((lazy_reset_expired_limits now limits db').0, true) in
    if leb now limit.reset_at then skip else reset

-- `expires_at is not None and expires_at < now`
abbrev pub expired : ℕ → Option ℕ → Bool
expired now none = false
expired now (some t) = ltb t now

-- `_ensure_valid_api_key_row`, then the test on `expires_at`.
unfoldable pub checked_key : ℕ → Option ApiKey → EnforceResult ⊎ ApiKey
checked_key now none = inl key_invalid
checked_key now (some key) =
    if not key.is_active
    then inl key_invalid
    else if expired now key.expires_at
    then inl key_expired
    else inr key

unfoldable pub reserve_for :
    CostFunction → Request → ℕ → ℕ → ℕ → ApiKey → Database → Database × EnforceResult
reserve_for cost q now reservation_id key_id key db =
    elim (reserve_limits cost q (limits_of db key.limit_ids) db) [
      | limit_exceeded l ↦ (db, rate_limit_exceeded l)
      | reserved_items db' items ↦ (
        create_usage_reservation db' reservation_id key_id (or_default q.request_model "") items
            now,
        granted reservation_id,
      )
    ]

-- The part behind the second check of the key.
unfoldable pub reserve_checked :
    CostFunction
    → Request
    → ℕ
    → ℕ
    → ℕ
    → EnforceResult ⊎ ApiKey
    → Database
    → Database × EnforceResult
reserve_checked cost q now reservation_id key_id (inl e) db = (db, e)
reserve_checked cost q now reservation_id key_id (inr key) db =
    reserve_for cost q now reservation_id key_id key db

-- The part behind the first check: the key is read again where a limit was reset.
unfoldable pub enforce_checked :
    CostFunction
    → Request
    → ℕ
    → ℕ
    → ℕ
    → EnforceResult ⊎ ApiKey
    → Database
    → Database × EnforceResult
unfolding reserve_checked
enforce_checked cost q now reservation_id key_id (inl e) db = (db, e)
enforce_checked cost q now reservation_id key_id (inr key) db =
    let (db', limits_reset) = lazy_reset_expired_limits now (limits_of db key.limit_ids) db in
    reserve_checked cost q now reservation_id key_id
      (if limits_reset then checked_key now (db'.keys key_id) else inr key) db'

-- `_enforce_limits_for_request_once`; the new reservation's id is an argument.
unfoldable pub enforce_limits_for_request_once :
    CostFunction → Request → ℕ → ℕ → ℕ → Database → Database × EnforceResult
unfolding enforce_checked
enforce_limits_for_request_once cost q now reservation_id key_id db =
    enforce_checked cost q now reservation_id key_id (checked_key now (db.keys key_id)) db

-- One item of a settlement: the limit moves by the difference where there is one.
unfoldable pub settle_item : ℕ → ReservationItem → ℕ → Database → Database
settle_item reservation_id item actual db =
    let moved =
      (adjust_reserved_usage db item.limit_id (sub_ℕ actual item.reserved_delta)
        item.expected_reset_at).0 in
    upsert_reservation_item_actual (if actual == item.reserved_delta then db else moved)
      reservation_id item actual

unfoldable pub settle_items : ℕ → (ReservationItem → ℕ) → List ReservationItem → Database → Database
settle_items reservation_id actual [] db = db
settle_items reservation_id actual (item ∷ items) db =
    settle_items reservation_id actual items (settle_item reservation_id item (actual item) db)

-- One item of a release: the limit gives back what was reserved.
unfoldable pub release_item : ℕ → ReservationItem → Database → Database
release_item reservation_id item db =
    upsert_reservation_item_actual
      (adjust_reserved_usage db item.limit_id (sub_ℕ 0 item.reserved_delta)
        item.expected_reset_at).0
      reservation_id item 0

unfoldable pub release_items : ℕ → List ReservationItem → Database → Database
release_items reservation_id [] db = db
release_items reservation_id (item ∷ items) db =
    release_items reservation_id items (release_item reservation_id item db)

-- The tokens that a response reports.
pub record Usage : Type 0 where
  pub used_model : String
  pub used_input : Option ℕ
  pub used_output : Option ℕ
  pub used_cached : Option ℕ
  pub used_tier : Option String

abbrev pub usage_cost : CostFunction → Usage → ℕ
usage_cost cost u =
    cost u.used_model (or_default u.used_input 0) (or_default u.used_output 0)
      (or_default u.used_cached 0) u.used_tier

abbrev pub actual_of : CostFunction → Usage → ReservationItem → ℕ
actual_of cost u item =
    compute_increment_for_limit_type item.limit_type (or_default u.used_input 0)
      (or_default u.used_output 0) (usage_cost cost u)

-- The part of a settlement behind the claim.
unfoldable pub settle_claimed :
    CostFunction → ℕ → ReservationStatus → ℕ → Usage → Reservation → Database → Database
settle_claimed cost now status reservation_id u r db =
    update_last_used
      (settle_usage_reservation now (settle_items reservation_id (actual_of cost u) r.items db)
        reservation_id status u.used_input u.used_output u.used_cached (some (usage_cost cost u)))
      r.api_key_id now

-- `_settle_usage_reservation`, with the status "finalized" or "failed".
unfoldable pub settle_reservation :
    CostFunction → ℕ → ReservationStatus → ℕ → Usage → Database → Database
settle_reservation cost now status reservation_id u db = elim (db.reservations reservation_id) [
  | none ↦ db
  | some r ↦
      let (db', claimed) =
        transition_usage_reservation_status now db reservation_id reserved settling in
      if same_reservation_status r.status reserved && claimed
      then settle_claimed cost now status reservation_id u r db'
      else db
]

-- `_release_usage_reservation_once`
unfoldable pub release_usage_reservation : ℕ → ℕ → Database → Database
release_usage_reservation now reservation_id db = elim (db.reservations reservation_id) [
  | none ↦ db
  | some r ↦
      let (db', claimed) =
        transition_usage_reservation_status now db reservation_id reserved released in
      if same_reservation_status r.status reserved && claimed
      then settle_usage_reservation now (release_items reservation_id r.items db') reservation_id
          released none none none none
      else db
]

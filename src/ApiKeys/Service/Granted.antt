-- ===== src/ApiKeys/Service/Granted.antt =====
-- What a granted request has reserved, and what runs on a reservation just created
-- (app/modules/api_keys/service.py).
use Prim.Native.String.{String}
use codex_lb_mod.Base.{
  Bool, List, Option, ap, arith, false, if◌then◌else◌, inl, inr, none, or_default, refl, some, true,
  ℕ, ◌∙◌, ◌≡◌, ◌≢◌, ◌⊎◌,
}
use codex_lb_mod.ApiKeys.Types.{
  ApiKey, Database, ReservationItem, ReservationStatus, released, reserved, settling,
}
use codex_lb_mod.ApiKeys.Repository.{
  create_usage_reservation, settle_usage_reservation, transition_usage_reservation_status,
  update_last_used, update_where,
}
use codex_lb_mod.ApiKeys.Budget.{CostFunction}
use codex_lb_mod.ApiKeys.Service.{
  EnforceResult, Request, ReserveResult, Usage, actual_of, checked_key, enforce_checked,
  enforce_limits_for_request_once, granted, lazy_reset_expired_limits, limit_exceeded, limits_of,
  release_items, release_usage_reservation, reserve_checked, reserve_for, reserve_limits,
  reserved_items, settle_claimed, settle_items, settle_reservation,
}

pub reserve_for-granted :
    (cost : CostFunction) (q : Request) (now reservation_id key_id r : ℕ) (key : ApiKey)
    (db db' : Database)
    → reserve_for cost q now reservation_id key_id key db ≡ (db', granted r)
    → (mid : Database) × (items : List ReservationItem) × (reserve_limits cost q
          (limits_of db key.limit_ids)
          db
        ≡ reserved_items mid items)
      × (r ≡ reservation_id)
      × (db'
          ≡ create_usage_reservation mid reservation_id key_id
              (or_default q.request_model "")
              items
              now)
unfolding reserve_for
reserve_for-granted cost q now reservation_id key_id r key db db' h =
    go (reserve_limits cost q (limits_of db key.limit_ids) db) refl
  where
    go :
        (x : ReserveResult)
        → reserve_limits cost q (limits_of db key.limit_ids) db ≡ x
        → (mid : Database) × (items : List ReservationItem) × (reserve_limits cost q
              (limits_of db key.limit_ids)
              db
            ≡ reserved_items mid items)
          × (r ≡ reservation_id)
          × (db'
              ≡ create_usage_reservation mid reservation_id key_id
                  (or_default q.request_model "")
                  items
                  now)
    go (limit_exceeded l) e = cc (rw (e, reserve_for) at h)
    go (reserved_items mid items) e =
        let k : ◌≡◌ {A = Database × EnforceResult}
            (
              create_usage_reservation mid reservation_id key_id (or_default q.request_model "")
                  items now,
              granted reservation_id,
            )
            (db', granted r) =
          rw (e, reserve_for) at h in
        (mid, items, e, ground arith, ground arith)

-- Releasing a reservation just created runs over its items.
pub release_created :
    (later : ℕ) (db : Database) (rid key_id now key : ℕ) (model : String)
    (items : List ReservationItem)
    → (release_usage_reservation later rid
          (create_usage_reservation db rid key_id model items now)).limits
        key
      ≡ (release_items rid items
            (transition_usage_reservation_status later
              (create_usage_reservation db rid key_id model items now)
              rid
              reserved
              released).0).limits
          key
unfolding release_usage_reservation create_usage_reservation transition_usage_reservation_status
    update_where settle_usage_reservation
release_created later db rid key_id now key model items = ground arith

pub settle_created :
    (cost : CostFunction) (status : ReservationStatus) (u : Usage) (db : Database)
    (rid key_id now later key : ℕ) (model : String) (items : List ReservationItem)
    → (settle_reservation cost later status rid u
          (create_usage_reservation db rid key_id model items now)).limits
        key
      ≡ (settle_items rid
            (actual_of cost u)
            items
            (transition_usage_reservation_status later
              (create_usage_reservation db rid key_id model items now)
              rid
              reserved
              settling).0).limits
          key
unfolding settle_reservation settle_claimed create_usage_reservation
    transition_usage_reservation_status update_where settle_usage_reservation update_last_used
settle_created cost status u db rid key_id now later key model items = ground arith

-- The database once the expired limits of a key are reset.
abbrev reset_by : ℕ → Option ApiKey → Database → Database
reset_by now none db = db
reset_by now (some key) db = (lazy_reset_expired_limits now (limits_of db key.limit_ids) db).0

abbrev pub after_resets : ℕ → ℕ → Database → Database
after_resets now key_id db = reset_by now (db.keys key_id) db

checked_key-granted : (now r : ℕ) (o : Option ApiKey) → checked_key now o ≢ inl (granted r)
unfolding checked_key
checked_key-granted now r none h = cc h
checked_key-granted now r (some key) h = ground (arith, h)

checked_key-some :
    (now : ℕ) (o : Option ApiKey) (key : ApiKey) → checked_key now o ≡ inr key → o ≡ some key
unfolding checked_key
checked_key-some now none key h = cc h
checked_key-some now (some k) key h = ground (arith, h)

refreshed-granted :
    (now r : ℕ) (b : Bool) (o : Option ApiKey) (key : ApiKey)
    → (if b then checked_key now o else inr key) ≢ inl (granted r)
refreshed-granted now r true o key h = checked_key-granted now r o h
refreshed-granted now r false o key h = cc h

reserve_checked-granted :
    (cost : CostFunction) (q : Request) (now rid key_id r : ℕ) (o : EnforceResult ⊎ ApiKey)
    (db db' : Database)
    → o ≢ inl (granted r)
    → reserve_checked cost q now rid key_id o db ≡ (db', granted r)
    → (key : ApiKey) × (reserve_for cost q now rid key_id key db ≡ (db', granted r))
unfolding reserve_checked
reserve_checked-granted cost q now rid key_id r (inl e) db db' n h =
    absurd (n (ap inl (ap (λ x. x.1) h)))
reserve_checked-granted cost q now rid key_id r (inr key) db db' n h = (key, h)

enforce_checked-granted :
    (cost : CostFunction) (q : Request) (now rid key_id r : ℕ) (o : EnforceResult ⊎ ApiKey)
    (db db' : Database)
    → checked_key now (db.keys key_id) ≡ o
    → enforce_checked cost q now rid key_id o db ≡ (db', granted r)
    → (key : ApiKey) × (reserve_for cost q now rid key_id key (after_resets now key_id db)
        ≡ (db', granted r))
unfolding enforce_checked
enforce_checked-granted cost q now rid key_id r (inl e) db db' k h =
    absurd (checked_key-granted now r (db.keys key_id) (k ∙ ap inl (ap (λ x. x.1) h)))
enforce_checked-granted cost q now rid key_id r (inr key) db db' k h =
    let same : after_resets now key_id db
        ≡ (lazy_reset_expired_limits now (limits_of db key.limit_ids) db).0 =
      ap (λ o. reset_by now o db) (checked_key-some now (db.keys key_id) key k) in
    rw same (
      reserve_checked-granted cost q now rid key_id r
        (if (lazy_reset_expired_limits now (limits_of db key.limit_ids) db).1
          then checked_key now
              ((lazy_reset_expired_limits now (limits_of db key.limit_ids) db).0.keys key_id)
          else inr key)
        (lazy_reset_expired_limits now (limits_of db key.limit_ids) db).0 db'
        (refreshed-granted now r (lazy_reset_expired_limits now (limits_of db key.limit_ids) db).1 _
          key)
        h)

-- A granted request has reserved on the database after the resets.
pub enforce-granted :
    (cost : CostFunction) (q : Request) (now rid key_id r : ℕ) (db db' : Database)
    → enforce_limits_for_request_once cost q now rid key_id db ≡ (db', granted r)
    → (key : ApiKey) × (reserve_for cost q now rid key_id key (after_resets now key_id db)
        ≡ (db', granted r))
unfolding enforce_limits_for_request_once
enforce-granted cost q now rid key_id r db db' h =
    enforce_checked-granted cost q now rid key_id r (checked_key now (db.keys key_id)) db db' refl h

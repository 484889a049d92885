-- ===== src/ApiKeys/Service/Accounting.antt =====
-- A reservation followed by its settlement or its release (app/modules/api_keys/service.py).
use mathlib.Core.Option
use Prim.Native.String.{String}
use codex_lb_mod.Base.{List, arith, or_default, some, ℕ, ◌∙◌, ◌≡◌}
use codex_lb_mod.ApiKeys.Types.{
  Database, Reservation, ReservationItem, ReservationStatus, released, reserved, settling,
}
use codex_lb_mod.ApiKeys.Repository.{create_usage_reservation, transition_usage_reservation_status}
use codex_lb_mod.ApiKeys.Budget.{CostFunction}
use codex_lb_mod.ApiKeys.Service.{
  Request, Usage, actual_of, enforce_limits_for_request_once, granted, limits_of,
  release_usage_reservation, settle_reservation,
}
use codex_lb_mod.ApiKeys.Service.Owed.{
  Charged, charged, release_items-restores, reserve_limits-Charged, reserved_of,
  settle_items-Charged,
}
use codex_lb_mod.ApiKeys.Service.Granted.{
  after_resets, enforce-granted, release_created, reserve_for-granted, settle_created,
}

-- A reservation just created and claimed under a status.
abbrev claimed :
    ℕ → Database → ℕ → ℕ → ℕ → String → List ReservationItem → ReservationStatus → Database
claimed later db rid key_id now model items status =
    (transition_usage_reservation_status later
      (create_usage_reservation db rid key_id model items now) rid reserved status).0

claimed-Charged :
    (later : ℕ) (b db : Database) (rid key_id now : ℕ) (model : String)
    (items : List ReservationItem) (status : ReservationStatus)
    → Charged reserved_of items b db
    → Charged reserved_of items b (claimed later db rid key_id now model items status)
unfolding transition_usage_reservation_status create_usage_reservation
claimed-Charged later b db rid key_id now model items status h = h

-- Where a request was granted and nothing else happened, releasing its reservation gives every limit
-- back the row that it had after the resets of expired limits.
pub release-enforce :
    (cost : CostFunction) (q : Request) (now later rid key_id r key : ℕ) (db db' : Database)
    → enforce_limits_for_request_once cost q now rid key_id db ≡ (db', granted r)
    → (release_usage_reservation later r db').limits key ≡ (after_resets now key_id db).limits key
release-enforce cost q now later rid key_id r key db db' h =
    let (k, e) = enforce-granted cost q now rid key_id r db db' h in
    let (mid, items, loop, same, made) =
      reserve_for-granted cost q now rid key_id r k (after_resets now key_id db) db' e in
    let model = or_default q.request_model "" in
    rw (same, made)
      (release_created later mid rid key_id now key model items
        ∙ release_items-restores rid items (after_resets now key_id db)
            (claimed later mid rid key_id now model items released)
            (claimed-Charged later (after_resets now key_id db) mid rid key_id now model items
              released
              (reserve_limits-Charged cost q (limits_of (after_resets now key_id db) k.limit_ids)
                (after_resets now key_id db) mid items loop))
            key)

created-items :
    (db : Database) (rid key_id now : ℕ) (model : String) (items : List ReservationItem)
    (res : Reservation)
    → (create_usage_reservation db rid key_id model items now).reservations rid ≡ some res
    → items ≡ res.items
unfolding create_usage_reservation
created-items db rid key_id now model items res h = ground arith

-- Where a request was granted and nothing else happened, settling its reservation leaves on every
-- limit exactly the usage of the reserved items that are for it and for its window, on top of the
-- row that it had after the resets of expired limits; what was reserved does not show.
pub settle-enforce :
    (cost : CostFunction) (q : Request) (now later rid key_id r key : ℕ)
    (status : ReservationStatus) (u : Usage) (res : Reservation) (db db' : Database)
    → enforce_limits_for_request_once cost q now rid key_id db ≡ (db', granted r)
    → db'.reservations r ≡ some res
    → (settle_reservation cost later status r u db').limits key
      ≡ Option.map
          (charged (actual_of cost u) res.items key)
          ((after_resets now key_id db).limits key)
settle-enforce cost q now later rid key_id r key status u res db db' h found =
    let (k, e) = enforce-granted cost q now rid key_id r db db' h in
    let (mid, items, loop, same, made) =
      reserve_for-granted cost q now rid key_id r k (after_resets now key_id db) db' e in
    let model = or_default q.request_model "" in
    let items_same : items ≡ res.items =
      created-items mid rid key_id now model items res (rw (same, made) at found) in
    rw (same, made, ← items_same)
      (settle_created cost status u mid rid key_id now later key model items
        ∙ settle_items-Charged (actual_of cost u) rid items (after_resets now key_id db)
            (claimed later mid rid key_id now model items settling)
            (claimed-Charged later (after_resets now key_id db) mid rid key_id now model items
              settling
              (reserve_limits-Charged cost q (limits_of (after_resets now key_id db) k.limit_ids)
                (after_resets now key_id db) mid items loop))
            key)

-- ===== src/ApiKeys/Repository.antt =====
-- The statements of app/modules/api_keys/repository.py on limits and reservations. An UPDATE with
-- conditions changes the row of its key where they hold, and says whether it did.
use Prim.Native.String.{String}
use codex_lb_mod.Base.{
  Bool, List, Option, Table, [], false, if◌then◌else◌, leb, none, put, some, suc, true, ℕ, ◌&&◌,
  ◌+◌, ◌-◌, ◌==◌, ◌∷◌,
}
use codex_lb_mod.Base.Int.{negsuc, pos, ℤ}
use codex_lb_mod.ApiKeys.Types.{
  ApiKeyLimit, Database, ReservationItem, ReservationStatus, reserved, same_reservation_status,
}

-- UPDATE … WHERE id = key AND holds(row) SET row = change(row) RETURNING id
unfoldable pub update_where : {A : Type 0} → Table A → ℕ → (A → Bool) → (A → A) → Table A × Bool
update_where t key holds change = elim (t key) [
  | none ↦ (t, false)
  | some row ↦ if holds row then (put t key (change row), true) else (t, false)
]

unfoldable pub reset_limit : Database → ℕ → ℕ → ℕ → Database × Bool
unfolding update_where
reset_limit db limit_id expected_reset_at new_reset_at =
    let (limits, done) =
      update_where db.limits limit_id (λ l. l.reset_at == expected_reset_at)
        (λ l. record l { current_value = 0; reset_at = new_reset_at }) in
    (record db { limits = limits }, done)

unfoldable pub try_reserve_usage : Database → ℕ → ℕ → ℕ → Database × Bool
unfolding update_where
try_reserve_usage db limit_id delta expected_reset_at =
    let (limits, done) =
      update_where db.limits limit_id
        (λ l. l.reset_at == expected_reset_at && leb (l.current_value + delta) l.max_value)
        (λ l. record l { current_value = l.current_value + delta }) in
    if delta == 0 then (db, true) else (record db { limits = limits }, done)

-- The condition `current_value >= -delta` for a negative delta, and the sum.
abbrev covers : ℤ → ApiKeyLimit → Bool
covers (pos n) l = true
covers (negsuc n) l = leb (suc n) l.current_value

abbrev add_delta : ℤ → ApiKeyLimit → ApiKeyLimit
add_delta (pos n) l = record l { current_value = l.current_value + n }
add_delta (negsuc n) l = record l { current_value = l.current_value - suc n }

unfoldable pub adjust_reserved_usage : Database → ℕ → ℤ → ℕ → Database × Bool
unfolding update_where
adjust_reserved_usage db limit_id delta expected_reset_at =
    let (limits, done) =
      update_where db.limits limit_id (λ l. l.reset_at == expected_reset_at && covers delta l)
        (add_delta delta) in
    (record db { limits = limits }, done)

unfoldable pub create_usage_reservation :
    Database → ℕ → ℕ → String → List ReservationItem → ℕ → Database
create_usage_reservation db reservation_id key_id model items now = record db {
  reservations = put db.reservations reservation_id (record {
    api_key_id = key_id;
    model = model;
    status = reserved;
    items = items;
    input_tokens = none;
    output_tokens = none;
    cached_input_tokens = none;
    cost_microdollars = none;
    updated_at = now;
  });
}

-- Each UPDATE of a reservation sets `updated_at` too: its column has `onupdate`.
unfoldable pub transition_usage_reservation_status :
    ℕ → Database → ℕ → ReservationStatus → ReservationStatus → Database × Bool
unfolding update_where
transition_usage_reservation_status now db reservation_id expected_status new_status =
    let (reservations, done) =
      update_where db.reservations reservation_id
        (λ r. same_reservation_status r.status expected_status)
        (λ r. record r { status = new_status; updated_at = now }) in
    (record db { reservations = reservations }, done)

-- INSERT … ON CONFLICT (reservation_id, limit_id) DO UPDATE, on the items of one reservation.
unfoldable upsert_item : ReservationItem → ℕ → List ReservationItem → List ReservationItem
upsert_item item actual_delta [] = record item { actual_delta = some actual_delta } ∷ []
upsert_item item actual_delta (i ∷ items) =
    let rest = upsert_item item actual_delta items in
    if i.limit_id == item.limit_id
    then record i { actual_delta = some actual_delta } ∷ items
    else i ∷ rest

unfoldable pub upsert_reservation_item_actual : Database → ℕ → ReservationItem → ℕ → Database
unfolding update_where upsert_item
upsert_reservation_item_actual db reservation_id item actual_delta =
    let (reservations, _) =
      update_where db.reservations reservation_id (λ r. true)
        (λ r. record r { items = upsert_item item actual_delta r.items }) in
    record db { reservations = reservations }

unfoldable pub settle_usage_reservation :
    ℕ → Database → ℕ → ReservationStatus → Option ℕ → Option ℕ → Option ℕ → Option ℕ → Database
unfolding update_where
settle_usage_reservation now db reservation_id status input output cached cost =
    let (reservations, _) =
      update_where db.reservations reservation_id (λ r. true)
        (λ r. record r {
          status = status;
          input_tokens = input;
          output_tokens = output;
          cached_input_tokens = cached;
          cost_microdollars = cost;
          updated_at = now;
        }) in
    record db { reservations = reservations }

unfoldable pub touch_usage_reservation : Database → ℕ → ℕ → Database × Bool
unfolding update_where
touch_usage_reservation db reservation_id now =
    let (reservations, done) =
      update_where db.reservations reservation_id (λ r. same_reservation_status r.status reserved)
        (λ r. record r { updated_at = now }) in
    (record db { reservations = reservations }, done)

unfoldable pub update_last_used : Database → ℕ → ℕ → Database
unfolding update_where
update_last_used db key_id now =
    let (keys, _) =
      update_where db.keys key_id (λ k. true) (λ k. record k { last_used_at = some now }) in
    record db { keys = keys }

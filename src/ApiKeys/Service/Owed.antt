-- ===== src/ApiKeys/Service/Owed.antt =====
-- What the items of a reservation add to the limits (app/modules/api_keys/service.py).
use mathlib.Core.Option
use codex_lb_mod.Base.{
  Bool, Bool-cases, List, Option, [], ap, arith, false, if◌then◌else◌, inl, inr, leb, none, refl,
  some, sym, true, ℕ, ◌&&◌, ◌+◌, ◌<◌, ◌==◌, ◌∙◌, ◌∷◌, ◌≡◌,
}
use codex_lb_mod.ApiKeys.Types.{ApiKeyLimit, Database, ReservationItem, limit_applies_for_request}
use codex_lb_mod.ApiKeys.Repository.{
  adjust_reserved_usage, try_reserve_usage, update_where, upsert_reservation_item_actual,
}
use codex_lb_mod.ApiKeys.Budget.{
  CostFunction, normalize_request_usage_budget, reserve_delta_for_limit,
}
use codex_lb_mod.ApiKeys.Service.{
  Request, ReserveResult, add_item, item_for, limit_exceeded, release_item, release_items,
  reserve_limits, reserved_items, settle_item, settle_items,
}

-- The sum of the items for the limit of a key, in the window that ends at a reset.
abbrev owed : (ReservationItem → ℕ) → List ReservationItem → ℕ → ℕ → ℕ
owed f [] key reset = 0
owed f (i ∷ items) key reset =
    (if i.limit_id == key && i.expected_reset_at == reset then f i else 0) + owed f items key reset

abbrev pub charged : (ReservationItem → ℕ) → List ReservationItem → ℕ → ApiKeyLimit → ApiKeyLimit
charged f items key l = record l { current_value = l.current_value + owed f items key l.reset_at }

-- The limits of one table are those of another with the items added.
abbrev pub Charged : (ReservationItem → ℕ) → List ReservationItem → Database → Database → Type 0
Charged f items db db' =
    (key : ℕ) → db'.limits key ≡ Option.map (charged f items key) (db.limits key)

charged-nil :
    (f : ReservationItem → ℕ) (key : ℕ) (o : Option ApiKeyLimit)
    → o ≡ Option.map (charged f [] key) o
charged-nil f key none = refl
charged-nil f key (some l) = ap some (ground arith)

charged-cons :
    (f : ReservationItem → ℕ) (i : ReservationItem) (items : List ReservationItem) (key : ℕ)
    (o : Option ApiKeyLimit)
    → Option.map (charged f items key) (Option.map (charged f (i ∷ []) key) o)
      ≡ Option.map (charged f (i ∷ items) key) o
charged-cons f i items key none = refl
charged-cons f i items key (some l) = ap some (ground arith)

-- A reservation that succeeds adds its item.
try_reserve-charged :
    (db : Database) (limit : ApiKeyLimit) (delta key : ℕ)
    → (try_reserve_usage db limit.id delta limit.reset_at).1 ≡ true
    → (try_reserve_usage db limit.id delta limit.reset_at).0.limits key
      ≡ Option.map (charged (λ i. i.reserved_delta) (item_for limit delta ∷ []) key) (db.limits key)
unfolding try_reserve_usage update_where
try_reserve-charged db limit delta key h = ground arith

abbrev pub reserved_of : ReservationItem → ℕ
reserved_of i = i.reserved_delta

add_item-inv :
    (item : ReservationItem) (r : ReserveResult) (db : Database) (items : List ReservationItem)
    → add_item item r ≡ reserved_items db items
    → (rest : List ReservationItem) × (r ≡ reserved_items db rest) × (items ≡ item ∷ rest)
add_item-inv item (reserved_items db' rest) db items h = (rest, ground arith, ground arith)
add_item-inv item (limit_exceeded l) db items h = cc

abbrev pub delta_for : CostFunction → Request → ApiKeyLimit → ℕ
delta_for cost q l =
    reserve_delta_for_limit cost l q.request_model q.request_service_tier
      (normalize_request_usage_budget q.request_usage_budget)

abbrev pub reserve_one : CostFunction → Request → ApiKeyLimit → Database → Database × Bool
reserve_one cost q l db = try_reserve_usage db l.id (delta_for cost q l) l.reset_at

-- How the loop goes on from a limit: it skips it, or reserves it and goes on.
pub data LoopStep (cost : CostFunction) (q : Request) (l : ApiKeyLimit) (ls : List ApiKeyLimit)
    (db db' : Database) (items : List ReservationItem) : Type 0 where
  skips :
      limit_applies_for_request l q.request_model ≡ false
      → reserve_limits cost q ls db ≡ reserved_items db' items
      → LoopStep cost q l ls db db' items
  reserves :
      limit_applies_for_request l q.request_model ≡ true
      → l.current_value < l.max_value
      → (try_reserve_usage db l.id (delta_for cost q l) l.reset_at).1 ≡ true
      → (rest : List ReservationItem) → items ≡ item_for l (delta_for cost q l) ∷ rest
      → reserve_limits cost q ls (reserve_one cost q l db).0 ≡ reserved_items db' rest
      → LoopStep cost q l ls db db' items

pub reserve_limits-LoopStep :
    (cost : CostFunction) (q : Request) (l : ApiKeyLimit) (ls : List ApiKeyLimit)
    (db db' : Database) (items : List ReservationItem)
    → reserve_limits cost q (l ∷ ls) db ≡ reserved_items db' items
    → LoopStep cost q l ls db db' items
unfolding reserve_limits
reserve_limits-LoopStep cost q l ls db db' items h =
    elim (Bool-cases (limit_applies_for_request l q.request_model)) [
      | inr no_use ↦ skips no_use (rw no_use at h)
      | inl applies ↦ elim (Bool-cases (leb l.max_value l.current_value)) [
        | inl full ↦ cc (rw (applies, full) at h)
        | inr room ↦ elim (Bool-cases (reserve_one cost q l db).1) [
          | inl success ↦
              let (rest, e, f) =
                add_item-inv (item_for l (delta_for cost q l))
                  (reserve_limits cost q ls (reserve_one cost q l db).0) db' items
                  (rw (applies, room, success) at h) in
              reserves applies (ground arith) success rest f e
          | inr failure ↦ cc (rw (applies, room, failure) at h)
        ]
      ]
    ]

pub reserve_limits-nil :
    (cost : CostFunction) (q : Request) (db db' : Database) (items : List ReservationItem)
    → reserve_limits cost q [] db ≡ reserved_items db' items
    → (db ≡ db') × (items ≡ [])
unfolding reserve_limits
reserve_limits-nil cost q db db' items h = ground arith

-- A loop that grants all its reservations adds all its items.
pub reserve_limits-Charged :
    (cost : CostFunction) (q : Request) (ls : List ApiKeyLimit) (db db' : Database)
    (items : List ReservationItem)
    → reserve_limits cost q ls db ≡ reserved_items db' items
    → Charged reserved_of items db db'
reserve_limits-Charged cost q [] db db' items h key =
    let (e, f) = reserve_limits-nil cost q db db' items h in
    rw (← e, f) (charged-nil reserved_of key (db.limits key))
reserve_limits-Charged cost q (l ∷ ls) db db' items h key =
    elim (reserve_limits-LoopStep cost q l ls db db' items h) [
      | skips no_use e ↦ reserve_limits-Charged cost q ls db db' items e key
      | reserves applies room success rest f e ↦ rw f (
          reserve_limits-Charged cost q ls (reserve_one cost q l db).0 db' rest e key
          ∙ ap (Option.map (charged reserved_of rest key))
              (try_reserve-charged db l (delta_for cost q l) key success)
          ∙ charged-cons reserved_of (item_for l (delta_for cost q l)) rest key (db.limits key))
    ]

-- The table after one item is settled, where the items are still reserved.
settle_item-Charged :
    (a : ReservationItem → ℕ) (reservation_id : ℕ) (item : ReservationItem)
    (items : List ReservationItem) (b db : Database)
    → Charged reserved_of (item ∷ items) b db
    → (key : ℕ)
    → (settle_item reservation_id item (a item) db).limits key
      ≡ Option.map
          (charged reserved_of items key)
          (Option.map (charged a (item ∷ []) key) (b.limits key))
unfolding settle_item upsert_reservation_item_actual adjust_reserved_usage update_where
settle_item-Charged a reservation_id item items b db h key = ground (arith, h key, h item.limit_id)

release_item-Charged :
    (reservation_id : ℕ) (item : ReservationItem) (items : List ReservationItem) (b db : Database)
    → Charged reserved_of (item ∷ items) b db
    → Charged reserved_of items b (release_item reservation_id item db)
unfolding release_item upsert_reservation_item_actual adjust_reserved_usage update_where
release_item-Charged reservation_id item items b db h key = ground (arith, h key, h item.limit_id)

-- A settlement replaces what was reserved by what was used.
pub settle_items-Charged :
    (a : ReservationItem → ℕ) (reservation_id : ℕ) (items : List ReservationItem) (b db : Database)
    → Charged reserved_of items b db
    → Charged a items b (settle_items reservation_id a items db)
unfolding settle_items
settle_items-Charged a reservation_id [] b db h key =
    h key ∙ sym (charged-nil reserved_of key (b.limits key)) ∙ charged-nil a key (b.limits key)
settle_items-Charged a reservation_id (item ∷ items) b db h key =
    settle_items-Charged a reservation_id items
      (record b { limits = λ k. Option.map (charged a (item ∷ []) k) (b.limits k) })
      (settle_item reservation_id item (a item) db)
      (settle_item-Charged a reservation_id item items b db h) key
    ∙ charged-cons a item items key (b.limits key)

-- A release takes off what was reserved.
pub release_items-restores :
    (reservation_id : ℕ) (items : List ReservationItem) (b db : Database)
    → Charged reserved_of items b db
    → (key : ℕ) → (release_items reservation_id items db).limits key ≡ b.limits key
unfolding release_items
release_items-restores reservation_id [] b db h key =
    h key ∙ sym (charged-nil reserved_of key (b.limits key))
release_items-restores reservation_id (item ∷ items) b db h key =
    release_items-restores reservation_id items b (release_item reservation_id item db)
      (release_item-Charged reservation_id item items b db h) key

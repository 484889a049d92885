-- ===== src/ApiKeys/Service/Limits.antt =====
-- A request never takes a limit over its maximum (app/modules/api_keys/service.py).
use codex_lb_mod.Base.{
  ==_iff, Bool, Bool-cases, List, Option, Option-cases, Table, [], arith, if◌then◌else◌, inl, inr,
  leb, max, none, put_self, refl, some, subst, true, ℕ, ◌&&◌, ◌+◌, ◌==◌, ◌∙◌, ◌∷◌, ◌≡◌, ◌≤◌, ◌⊎◌,
}
use codex_lb_mod.ApiKeys.Types.{ApiKey, ApiKeyLimit, Database, ReservationItem}
use codex_lb_mod.ApiKeys.Repository.{
  create_usage_reservation, reset_limit, try_reserve_usage, update_where,
}
use codex_lb_mod.ApiKeys.Windows.{advance_limit_reset}
use codex_lb_mod.ApiKeys.Budget.{CostFunction}
use codex_lb_mod.ApiKeys.Service.{
  EnforceResult, Request, ReserveResult, checked_key, enforce_checked,
  enforce_limits_for_request_once, lazy_reset_expired_limits, limit_exceeded, limits_of,
  reserve_checked, reserve_for, reserve_limits, reserved_items,
}
use codex_lb_mod.ApiKeys.Service.Owed.{
  delta_for, reserve_limits-LoopStep, reserve_limits-nil, reserve_one, reserves, skips,
}

abbrev lazy_reset_one : ℕ → ApiKeyLimit → Database → Database
lazy_reset_one now l db =
    (reset_limit db l.id l.reset_at (advance_limit_reset l.reset_at now l.limit_window)).0

-- A row before and after: the same maximum, and a value within it or no higher than before.
abbrev pub KeepsBelow : Option ApiKeyLimit → Option ApiKeyLimit → Type 0
KeepsBelow none none = Unit {0}
KeepsBelow none (some l') = ⊥
KeepsBelow (some l) none = ⊥
KeepsBelow (some l) (some l') =
    (l'.max_value ≡ l.max_value) × (l'.current_value ≤ max l.max_value l.current_value)

KeepsBelow-refl : (o : Option ApiKeyLimit) → KeepsBelow o o
KeepsBelow-refl none = tt
KeepsBelow-refl (some l) = omega arith

KeepsBelow-trans : (a b c : Option ApiKeyLimit) → KeepsBelow a b → KeepsBelow b c → KeepsBelow a c
KeepsBelow-trans none none none h k = tt
KeepsBelow-trans none none (some c) h k = k
KeepsBelow-trans none (some b) c h k = absurd h
KeepsBelow-trans (some a) none c h k = absurd h
KeepsBelow-trans (some a) (some b) none h k = k
KeepsBelow-trans (some a) (some b) (some c) h k = (k.0 ∙ h.0, omega arith)

-- An update that keeps the rows which it takes, keeps them all.
update_where-KeepsBelow :
    (t : Table ApiKeyLimit) (id : ℕ) (holds : ApiKeyLimit → Bool)
    (change : ApiKeyLimit → ApiKeyLimit)
    → ((l : ApiKeyLimit) → holds l ≡ true → KeepsBelow (some l) (some (change l)))
    → (key : ℕ) → KeepsBelow (t key) ((update_where t id holds change).0 key)
unfolding update_where
update_where-KeepsBelow t id holds change law key = elim (Option-cases (t id)) [
  | inl missing ↦ rw (missing, update_where) (KeepsBelow-refl (t key))
  | inr (l, found) ↦ elim (Bool-cases (holds l)) [
    | inr refused ↦ rw (found, update_where, refused) (KeepsBelow-refl (t key))
    | inl taken ↦ elim (Bool-cases (id == key)) [
      | inr other ↦ rw (found, update_where, taken, other) (KeepsBelow-refl (t key))
      | inl same ↦
          rw (← (==_iff id key).0 same, found, update_where, taken, put_self t id (change l))
            (law l taken)
    ]
  ]
]

try_reserve-KeepsBelow :
    (db : Database) (id delta expected key : ℕ)
    → KeepsBelow (db.limits key) ((try_reserve_usage db id delta expected).0.limits key)
unfolding try_reserve_usage
try_reserve-KeepsBelow db id delta expected key = elim (Bool-cases (delta == 0)) [
  | inl nothing ↦ rw nothing (KeepsBelow-refl (db.limits key))
  | inr some_delta ↦ rw some_delta (
      update_where-KeepsBelow db.limits id
        (λ l. l.reset_at == expected && leb (l.current_value + delta) l.max_value)
        (λ l. record l { current_value = l.current_value + delta }) (λ l h. (refl, ground arith))
        key)
]

reset-KeepsBelow :
    (db : Database) (id expected new key : ℕ)
    → KeepsBelow (db.limits key) ((reset_limit db id expected new).0.limits key)
unfolding reset_limit
reset-KeepsBelow db id expected new key =
    update_where-KeepsBelow db.limits id (λ l. l.reset_at == expected)
      (λ l. record l { current_value = 0; reset_at = new }) (λ l h. (refl, omega arith)) key

lazy_reset-KeepsBelow :
    (now : ℕ) (ls : List ApiKeyLimit) (db : Database) (key : ℕ)
    → KeepsBelow (db.limits key) ((lazy_reset_expired_limits now ls db).0.limits key)
unfolding lazy_reset_expired_limits
lazy_reset-KeepsBelow now [] db key = KeepsBelow-refl (db.limits key)
lazy_reset-KeepsBelow now (l ∷ ls) db key = elim (Bool-cases (leb now l.reset_at)) [
  | inl fresh ↦ rw fresh (lazy_reset-KeepsBelow now ls db key)
  | inr stale ↦ rw stale (
      KeepsBelow-trans (db.limits key) ((lazy_reset_one now l db).limits key)
        ((lazy_reset_expired_limits now ls (lazy_reset_one now l db)).0.limits key)
        (reset-KeepsBelow db l.id l.reset_at (advance_limit_reset l.reset_at now l.limit_window)
          key)
        (lazy_reset-KeepsBelow now ls (lazy_reset_one now l db) key))
]

reserve_limits-KeepsBelow :
    (cost : CostFunction) (q : Request) (ls : List ApiKeyLimit) (db db' : Database)
    (items : List ReservationItem) (key : ℕ)
    → reserve_limits cost q ls db ≡ reserved_items db' items
    → KeepsBelow (db.limits key) (db'.limits key)
reserve_limits-KeepsBelow cost q [] db db' items key h =
    subst (λ d. KeepsBelow (db.limits key) (d.limits key))
      (reserve_limits-nil cost q db db' items h).0 (KeepsBelow-refl (db.limits key))
reserve_limits-KeepsBelow cost q (l ∷ ls) db db' items key h =
    elim (reserve_limits-LoopStep cost q l ls db db' items h) [
      | skips no_use e ↦ reserve_limits-KeepsBelow cost q ls db db' items key e
      | reserves applies room success rest f e ↦
          KeepsBelow-trans (db.limits key) ((reserve_one cost q l db).0.limits key) (db'.limits key)
            (try_reserve-KeepsBelow db l.id (delta_for cost q l) l.reset_at key)
            (reserve_limits-KeepsBelow cost q ls (reserve_one cost q l db).0 db' rest key e)
    ]

reserve_for-KeepsBelow :
    (cost : CostFunction) (q : Request) (now rid key_id : ℕ) (k : ApiKey) (db : Database) (key : ℕ)
    → KeepsBelow (db.limits key) ((reserve_for cost q now rid key_id k db).0.limits key)
unfolding reserve_for create_usage_reservation
reserve_for-KeepsBelow cost q now rid key_id k db key =
    go (reserve_limits cost q (limits_of db k.limit_ids) db) refl
  where
    go :
        (x : ReserveResult)
        → reserve_limits cost q (limits_of db k.limit_ids) db ≡ x
        → KeepsBelow (db.limits key) ((reserve_for cost q now rid key_id k db).0.limits key)
    go (limit_exceeded l) e = rw (reserve_for, e) (KeepsBelow-refl (db.limits key))
    go (reserved_items mid items) e =
        rw (reserve_for, e)
          (reserve_limits-KeepsBelow cost q (limits_of db k.limit_ids) db mid items key e)

reserve_checked-KeepsBelow :
    (cost : CostFunction) (q : Request) (now rid key_id : ℕ) (k : EnforceResult ⊎ ApiKey)
    (db : Database) (key : ℕ)
    → KeepsBelow (db.limits key) ((reserve_checked cost q now rid key_id k db).0.limits key)
unfolding reserve_checked
reserve_checked-KeepsBelow cost q now rid key_id (inl e) db key = KeepsBelow-refl (db.limits key)
reserve_checked-KeepsBelow cost q now rid key_id (inr k) db key =
    reserve_for-KeepsBelow cost q now rid key_id k db key

enforce_checked-KeepsBelow :
    (cost : CostFunction) (q : Request) (now rid key_id : ℕ) (k : EnforceResult ⊎ ApiKey)
    (db : Database) (key : ℕ)
    → KeepsBelow (db.limits key) ((enforce_checked cost q now rid key_id k db).0.limits key)
unfolding enforce_checked
enforce_checked-KeepsBelow cost q now rid key_id (inl e) db key = KeepsBelow-refl (db.limits key)
enforce_checked-KeepsBelow cost q now rid key_id (inr k) db key =
    let reset = lazy_reset_expired_limits now (limits_of db k.limit_ids) db in
    let again = if reset.1 then checked_key now (reset.0.keys key_id) else inr k in
    KeepsBelow-trans (db.limits key) (reset.0.limits key)
      ((reserve_checked cost q now rid key_id again reset.0).0.limits key)
      (lazy_reset-KeepsBelow now (limits_of db k.limit_ids) db key)
      (reserve_checked-KeepsBelow cost q now rid key_id again reset.0 key)

-- Whatever the result of `enforce_limits_for_request_once`, each limit keeps its maximum, and its
-- current value is afterwards at most the larger of the maximum and the value before.
pub enforce-KeepsBelow :
    (cost : CostFunction) (q : Request) (now rid key_id : ℕ) (db : Database) (key : ℕ)
    → KeepsBelow
        (db.limits key)
        ((enforce_limits_for_request_once cost q now rid key_id db).0.limits key)
unfolding enforce_limits_for_request_once
enforce-KeepsBelow cost q now rid key_id db key =
    enforce_checked-KeepsBelow cost q now rid key_id (checked_key now (db.keys key_id)) db key

-- ===== src/ApiKeys/Tests.antt =====
-- Limits and reservations of a concrete key.
use mathlib.Core.Option
use codex_lb_mod.Base.{
  [], ap, arith, if◌then◌else◌, ltb, none, refl, some, true, ℕ, ◌+◌, ◌==◌, ◌∷◌, ◌≡◌,
}
use codex_lb_mod.ApiKeys.Recording.{gained, raised_by, record_usage, record_usage-limits}
use codex_lb_mod.ApiKeys.Retry.{Ending, Response, database_locked, retry, retry-Ending, serves}
use codex_lb_mod.ApiKeys.Types.{
  ApiKey, ApiKeyLimit, Database, LimitType, Reservation, ReservationItem, ReservationStatus, daily,
  finalized, limit_applies_for_request,
}
use codex_lb_mod.ApiKeys.Windows.{advance_limit_reset, limit_window_delta}
use codex_lb_mod.ApiKeys.Windows.Advance.{IsNextReset, advance_limit_reset-IsNextReset}
use codex_lb_mod.ApiKeys.Budget.{
  CostFunction, normalize_request_usage_budget, reserve_delta_for_limit,
}
use codex_lb_mod.ApiKeys.Repository.{
  adjust_reserved_usage, create_usage_reservation, touch_usage_reservation, try_reserve_usage,
  upsert_reservation_item_actual,
}
use codex_lb_mod.ApiKeys.Service.{
  EnforceResult, Request, Usage, actual_of, checked_key, enforce_limits_for_request_once, granted,
  lazy_reset_expired_limits, limits_of, release_item, release_items, release_usage_reservation,
  reserve_for, reserve_limits, settle_reservation,
}
use codex_lb_mod.ApiKeys.Service.Owed.{charged}
use codex_lb_mod.ApiKeys.Stale.{
  release_batch, release_rounds, release_stale_one, release_stale_usage_reservations, stale_ids,
}
use codex_lb_mod.ApiKeys.Stale.Drained.{release_stale-drains}
use codex_lb_mod.ApiKeys.Service.Granted.{after_resets}
use codex_lb_mod.ApiKeys.Service.Accounting.{release-enforce, settle-enforce}
use codex_lb_mod.ApiKeys.Service.Limits.{KeepsBelow, enforce-KeepsBelow}
use codex_lb_mod.ApiKeys.Service.Lifecycle.{close, close_twice, finalize, release}

abbrev tokens : ApiKeyLimit
tokens = record {
  id = 7;
  limit_type = LimitType.total_tokens;
  limit_window = daily;
  max_value = 100000;
  current_value = 50;
  model_filter = none;
  reset_at = 5000;
}

abbrev key_row : ApiKey
key_row = record { is_active = true; expires_at = none; limit_ids = 7 ∷ []; last_used_at = none }

abbrev db : Database
db = record {
  keys = λ i. if i == 1 then some key_row else none;
  limits = λ i. if i == 7 then some tokens else none;
  reservations = λ i. none;
}

abbrev flat : CostFunction
flat model input output cached tier = 0

abbrev request : Request
request = record {
  request_model = some "gpt";
  request_service_tier = none;
  request_usage_budget = some (record { budget_input = some 100; budget_output = some 200 });
}

abbrev usage : Usage
usage = record {
  used_model = "gpt";
  used_input = some 120;
  used_output = some 30;
  used_cached = none;
  used_tier = none;
}

abbrev after_request : Database × EnforceResult
after_request = enforce_limits_for_request_once flat request 1000 9 1 db

is_granted : after_request.1 ≡ granted 9
unfolding enforce_limits_for_request_once checked_key lazy_reset_expired_limits limits_of
    reserve_for reserve_limits limit_applies_for_request try_reserve_usage reserve_delta_for_limit
    normalize_request_usage_budget
is_granted = refl

advance_limit_reset-IsNextReset_example :
    IsNextReset 5000 100000000 (limit_window_delta daily) (advance_limit_reset 5000 100000000 daily)
advance_limit_reset-IsNextReset_example = advance_limit_reset-IsNextReset 5000 100000000 daily

enforce-KeepsBelow_example :
    KeepsBelow (some tokens) ((enforce_limits_for_request_once flat request 1000 9 1 db).0.limits 7)
enforce-KeepsBelow_example = enforce-KeepsBelow flat request 1000 9 1 db 7

close_twice_example :
    close flat (release 3000) 9 (close flat (finalize 2000 usage) 9 after_request.0)
    ≡ close flat (finalize 2000 usage) 9 after_request.0
close_twice_example = close_twice flat (finalize 2000 usage) (release 3000) 9 after_request.0

release-enforce_example :
    (release_usage_reservation 3000 9 after_request.0).limits 7 ≡ (after_resets 1000 1 db).limits 7
release-enforce_example =
    release-enforce flat request 1000 3000 9 1 9 7 db after_request.0
      (ap (λ r. (after_request.0, r)) is_granted)

abbrev item : ReservationItem
item = record {
  limit_id = 7;
  limit_type = LimitType.total_tokens;
  reserved_delta = 300;
  expected_reset_at = 5000;
  actual_delta = none;
}

abbrev reservation : Reservation
reservation = record {
  api_key_id = 1;
  model = "gpt";
  status = ReservationStatus.reserved;
  items = item ∷ [];
  input_tokens = none;
  output_tokens = none;
  cached_input_tokens = none;
  cost_microdollars = none;
  updated_at = 1000;
}

settle-enforce_example :
    (settle_reservation flat 2000 finalized 9 usage after_request.0).limits 7
    ≡ Option.map
        (charged (actual_of flat usage) reservation.items 7)
        ((after_resets 1000 1 db).limits 7)
unfolding enforce_limits_for_request_once checked_key lazy_reset_expired_limits limits_of
    reserve_for reserve_limits limit_applies_for_request try_reserve_usage reserve_delta_for_limit
    normalize_request_usage_budget create_usage_reservation
settle-enforce_example =
    settle-enforce flat request 1000 2000 9 1 9 7 finalized usage reservation db after_request.0
      (ap (λ r. (after_request.0, r)) is_granted) refl

record_usage-limits_example :
    (record_usage flat 2000 1 usage db).limits 7
    ≡ Option.map (raised_by (gained flat usage 7 (limits_of db (7 ∷ [])))) (some tokens)
record_usage-limits_example = record_usage-limits flat 2000 1 7 usage key_row db refl

-- A file that is locked at the first two attempts.
abbrev locked_twice : ℕ → Response
locked_twice i = if ltb i 2 then database_locked else serves

retry-Ending_example :
    Ending locked_twice
      (λ i d. touch_usage_reservation d 9 (2000 + i))
      db
      0
      4
      (retry locked_twice (λ i d. touch_usage_reservation d 9 (2000 + i)) 0 4 db)
retry-Ending_example =
    retry-Ending locked_twice (λ i d. touch_usage_reservation d 9 (2000 + i)) db 0 4

-- Two reservations of the same kind, one of them older than the cutoff.
abbrev with_stale : Database
with_stale = record db {
  limits = λ i. if i == 7 then some (record tokens { current_value = 350 }) else none;
  reservations = λ i.
      if i == 9
      then some (record reservation { updated_at = 100 })
      else if i == 8
      then some (record reservation { updated_at = 900 })
      else none;
}

abbrev drained : Database × ℕ
drained = release_stale_usage_reservations 1500 500 1 (9 ∷ 8 ∷ []) with_stale

releases_one : drained.1 ≡ 1
unfolding release_stale_usage_reservations release_rounds release_batch release_stale_one
    release_items release_item upsert_reservation_item_actual adjust_reserved_usage
releases_one = refl

release_stale-drains_example : stale_ids 500 (9 ∷ 8 ∷ []) drained.0 ≡ []
release_stale-drains_example = release_stale-drains 1500 500 1 (9 ∷ 8 ∷ []) with_stale (omega arith)

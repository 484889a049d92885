-- ===== src/Balancer/Select.antt =====
-- `select_account` of app/core/balancer/logic.py.
pub mod Chosen
pub mod Candidates
pub mod Total
pub mod Fair
pub mod Hints
use codex_lb_mod.Base.{
  Bool, List, Option, [], exists, false, get_elem?, if◌then◌else◌, length, ltb, map, min, none, not,
  or_default, or_else, select, some, true, ℕ, ◌%◌, ◌&&◌, ◌*◌, ◌+◌, ◌-◌, ◌/◌, ◌==◌, ◌||◌, ◌∷◌,
}
use codex_lb_mod.Balancer.State.{AccountState, AccountStatus, same_status, seconds}
use codex_lb_mod.Balancer.Eligibility.{available_of, backing_off_of, error_backoff, visited}
use codex_lb_mod.Balancer.Ranking.{
  Host, by_key, least, primary_usage_sort_key, probe_lt, remaining_secondary_credits,
  reset_bucket_days, reset_first_sort_key, round_robin_sort_key, usage_sort_key,
}

pub data RoutingStrategy : Type 0 where
  usage_weighted round_robin capacity_weighted : RoutingStrategy

pub record SelectOptions : Type 0 where
  pub prefer_earlier_reset : Bool
  pub routing_strategy : RoutingStrategy
  pub allow_backoff_fallback : Bool
  pub deterministic_probe : Bool
  pub primary_first_usage_weighted : Bool

-- The messages of the source; `retry_hint n` is "Rate limit exceeded. Try again in {n}s".
pub data Message : Type 0 where
  paused_or_reauthentication all_paused reauthentication no_available_accounts : Message
  retry_hint : ℕ → Message

pub record SelectionResult : Type 0 where
  pub account : Option AccountState
  pub error_message : Option Message

-- `f"{capped:.0f}"` of milliseconds: to the nearest second, halves to the even one.
unfoldable pub round_seconds : ℕ → ℕ
round_seconds ms =
    let q = ms / 1000 in
    let r = ms % 1000 in if ltb r 500 then q else if ltb 500 r then q + 1 else q + q % 2

unfoldable pub format_retry_hint : ℕ → Message
unfolding round_seconds
format_retry_hint wait = retry_hint (round_seconds (min wait (seconds 300)))

abbrev pub with_status : AccountStatus → List AccountState → List AccountState
with_status status = select (λ s. same_status s.status status)

abbrev pub is_empty {ℓ} : {A : Type ℓ} → List A → Bool
is_empty [] = true
is_empty (x ∷ xs) = false

-- `[t for t in … if t]`
abbrev pub truthy_times : List (Option ℕ) → List ℕ
truthy_times [] = []
truthy_times (none ∷ ts) = truthy_times ts
truthy_times (some t ∷ ts) = let rest = truthy_times ts in if t == 0 then rest else t ∷ rest

-- `min` of a list of times that starts with `t`.
abbrev pub earliest : ℕ → List ℕ → ℕ
earliest t [] = t
earliest t (u ∷ us) = earliest (min t u) us

unfoldable pub quota_hint : ℕ → List AccountState → Option Message
unfolding format_retry_hint
quota_hint current blocked = elim (truthy_times (map (λ s. s.reset_at) blocked)) [
  | [] ↦ none
  | t ∷ ts ↦ some (format_retry_hint (earliest t ts - current / 1000 * 1000))
]

unfoldable pub cooldown_hint : ℕ → List AccountState → Option Message
unfolding format_retry_hint
cooldown_hint current states =
    elim (select (ltb current) (truthy_times (map (λ s. s.cooldown_until) states))) [
      | [] ↦ none
      | t ∷ ts ↦ some (format_retry_hint (earliest t ts - current))
    ]

-- The first three messages, for whether some account is paused, deactivated, blocked by its usage.
unfoldable pub pick_message : Bool → Bool → Bool → Message → Message
pick_message has_paused has_deactivated has_blocked otherwise =
    if has_paused && has_deactivated && not has_blocked
    then paused_or_reauthentication
    else if has_paused && not has_blocked
    then all_paused
    else if has_deactivated && not has_blocked
    then reauthentication
    else otherwise

-- The messages of the branch with no candidate, for the states after the loop.
unfoldable pub explain : ℕ → List AccountState → Message
unfolding quota_hint cooldown_hint pick_message
explain current states =
    let quota = with_status AccountStatus.quota_exceeded states in
    pick_message (not (is_empty (with_status AccountStatus.paused states)))
      (not (is_empty (with_status AccountStatus.deactivated states)))
      (not (is_empty (with_status AccountStatus.rate_limited states)) || not (is_empty quota))
      (or_default (or_else (quota_hint current quota) (cooldown_hint current states))
        no_available_accounts)

abbrev is_hard_blocked : AccountState → Bool
is_hard_blocked s =
    same_status s.status AccountStatus.paused
    || same_status s.status AccountStatus.deactivated
    || same_status s.status AccountStatus.rate_limited
    || same_status s.status AccountStatus.quota_exceeded

abbrev pub backoff_expires_at : AccountState → ℕ
backoff_expires_at s = or_default s.last_error_at 0 + error_backoff s.error_count

abbrev pub option_to_list {ℓ} : {A : Type ℓ} → Option A → List A
option_to_list none = []
option_to_list (some a) = a ∷ []

abbrev pub fallback_allowed : Bool → List AccountState → List AccountState → Bool
fallback_allowed allowed states in_error_backoff =
    allowed
    && (ltb 1 (length in_error_backoff)
        || (not (is_empty in_error_backoff) && exists is_hard_blocked states))

-- `available`, with the one account that may serve although it backs off where none is available.
unfoldable pub candidates : Bool → ℕ → List AccountState → List AccountState
candidates allowed current states =
    let in_error_backoff = backing_off_of current states in
    elim (available_of current states) [
      | [] ↦
          if fallback_allowed allowed (visited current states) in_error_backoff
          then option_to_list (least (by_key (λ s. backoff_expires_at s ∷ [])) in_error_backoff)
          else []
      | s ∷ rest ↦ s ∷ rest
    ]

abbrev pub tier_is : ℕ → AccountState → Bool
tier_is tier s = s.health_tier == tier

abbrev pub or_list {ℓ} : {A : Type ℓ} → List A → List A → List A
or_list [] ys = ys
or_list (x ∷ xs) ys = x ∷ xs

-- `healthy or probing or draining or available`
unfoldable pub effective_pool : List AccountState → List AccountState
effective_pool pool =
    or_list (select (tier_is 0) pool)
      (or_list (select (tier_is 2) pool) (or_list (select (tier_is 1) pool) pool))

abbrev pub least_bucket : ℕ → List AccountState → ℕ
least_bucket current [] = 0
least_bucket current (s ∷ pool) =
    earliest (reset_bucket_days current s) (map (reset_bucket_days current) pool)

unfoldable pub prefer_earlier_reset_candidates : ℕ → List AccountState → List AccountState
prefer_earlier_reset_candidates current pool =
    select (λ s. reset_bucket_days current s == least_bucket current pool) pool

abbrev pub sum : List ℕ → ℕ
sum [] = 0
sum (n ∷ ns) = n + sum ns

unfoldable pub select_capacity_weighted : Host → List AccountState → Option AccountState
select_capacity_weighted host pool =
    let weights = map (remaining_secondary_credits host) pool in
    if sum weights == 0
    then least (by_key usage_sort_key) pool
    else get_elem? pool (host.choices weights)

unfoldable pub choose_capacity : Host → SelectOptions → ℕ → List AccountState → Option AccountState
choose_capacity host o current pool =
    let candidate_pool =
      if o.prefer_earlier_reset then prefer_earlier_reset_candidates current pool else pool in
    if o.deterministic_probe
    then least (probe_lt host) candidate_pool
    else select_capacity_weighted host candidate_pool

unfoldable pub choose_usage : SelectOptions → ℕ → List AccountState → Option AccountState
choose_usage o current pool =
    if o.primary_first_usage_weighted
    then least (by_key primary_usage_sort_key) pool
    else if o.prefer_earlier_reset
    then least (by_key (reset_first_sort_key current)) pool
    else least (by_key usage_sort_key) pool

unfoldable pub choose :
    RoutingStrategy → Host → SelectOptions → ℕ → List AccountState → Option AccountState
choose round_robin host o current pool = least (by_key round_robin_sort_key) pool
choose capacity_weighted host o current pool = choose_capacity host o current pool
choose usage_weighted host o current pool = choose_usage o current pool

-- The end of the call for its candidates, on the states after the loop.
unfoldable pub answer :
    Host → SelectOptions → ℕ → List AccountState → List AccountState → SelectionResult
answer host o current after [] = record {
  account = none;
  error_message = some (explain current after);
}
answer host o current after (s ∷ rest) = record {
  account = choose o.routing_strategy host o current (effective_pool (s ∷ rest));
  error_message = none;
}

-- The accounts after the call, which changes them in place, and its result.
unfoldable pub select_account :
    Host → SelectOptions → ℕ → List AccountState → List AccountState × SelectionResult
unfolding answer
select_account host o current states = (
  visited current states,
  answer host o current (visited current states)
      (candidates o.allow_backoff_fallback current states),
)

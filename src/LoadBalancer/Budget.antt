-- ===== src/LoadBalancer/Budget.antt =====
-- `_select_account_preferring_budget_safe` of app/modules/proxy/load_balancer.py: accounts below the
-- threshold first. Both calls of `select_account` read the same time.
pub mod Prefers
pub mod Rows
use codex_lb_mod.Base.{
  Bool, List, Option, false, if◌then◌else◌, is_some, length, ltb, map, none, not, select, some,
  true, ℕ, ◌&&◌, ◌==◌, ◌||◌,
}
use codex_lb_mod.Balancer.State.{AccountState}
use codex_lb_mod.Balancer.Eligibility.{visit}
use codex_lb_mod.Balancer.Ranking.{Host}
use codex_lb_mod.Balancer.Select.{
  RoutingStrategy, SelectOptions, SelectionResult, capacity_weighted, is_empty, round_robin,
  select_account, usage_weighted,
}

abbrev above : ℕ → Option ℕ → Bool
above threshold none = false
above threshold (some used) = ltb threshold used

unfoldable pub state_above_budget_threshold : ℕ → AccountState → Bool
state_above_budget_threshold threshold s = above threshold s.used_percent

unfoldable pub state_above_sticky_budget_threshold : ℕ → AccountState → Bool
state_above_sticky_budget_threshold threshold s =
    above threshold s.used_percent || above threshold s.secondary_used_percent

-- `preferred_states`
unfoldable pub preferred : ℕ → List AccountState → List AccountState
preferred threshold = select (λ s. not (state_above_budget_threshold threshold s))

abbrev pub visit_safe : ℕ → ℕ → AccountState → AccountState
visit_safe threshold now s =
    if not (state_above_budget_threshold threshold s) then (visit now s).0 else s

-- The states after the call for the preferred ones, which changes those in place.
unfoldable pub after_preferred : ℕ → ℕ → List AccountState → List AccountState
after_preferred threshold now = map (visit_safe threshold now)

abbrev same_strategy : RoutingStrategy → Bool
same_strategy usage_weighted = true
same_strategy round_robin = false
same_strategy capacity_weighted = false

abbrev pub first_options : SelectOptions → SelectOptions
first_options o = record o { primary_first_usage_weighted = false }

-- The options of the call for all states.
abbrev pub fallback_options : SelectOptions → List AccountState → SelectOptions
fallback_options o states = record o {
  primary_first_usage_weighted = same_strategy o.routing_strategy && not (is_empty states);
}

unfoldable pub select_account_preferring_budget_safe :
    Host → SelectOptions → ℕ → ℕ → List AccountState → List AccountState × SelectionResult
select_account_preferring_budget_safe host o threshold now states =
    let safe = preferred threshold states in
    let pool = if length safe == length states then states else safe in
    let first = (select_account host (first_options o) now pool).1 in
    let after = after_preferred threshold now states in
    if is_empty safe
    then select_account host (fallback_options o states) now states
    else if is_some first.account || (length safe == length states)
    then (after, first)
    else select_account host (fallback_options o states) now after

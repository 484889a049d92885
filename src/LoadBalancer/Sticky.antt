-- ===== src/LoadBalancer/Sticky.antt =====
-- `_select_with_stickiness` of app/modules/proxy/load_balancer.py. The repository of mappings is
-- given; all reads of the clock give one value, `now`.
pub mod Kept
pub mod Leading
pub mod Outage
pub mod Among
pub mod Chosen
use codex_lb_mod.Base.{
  Bool, List, Option, [], exists, false, if◌then◌else◌, is_some, leb, none, not, or_default, some,
  true, ℕ, ◌&&◌, ◌+◌, ◌==◌, ◌||◌, ◌∷◌,
}
use codex_lb_mod.Balancer.State.{AccountState, AccountStatus, same_status, seconds}
use codex_lb_mod.Balancer.Ranking.{Host}
use codex_lb_mod.Balancer.Select.{RoutingStrategy, SelectOptions, SelectionResult, select_account}
use codex_lb_mod.LoadBalancer.Accounts.{Account}
use codex_lb_mod.LoadBalancer.Budget.{
  select_account_preferring_budget_safe, state_above_budget_threshold,
  state_above_sticky_budget_threshold,
}
use codex_lb_mod.LoadBalancer.Mappings.{
  StickySession, StickySessionKind, delete_entry, get_account_id, prompt_cache, same_kind,
  upsert_entry,
}

pub record StickyRequest : Type 0 where
  pub reallocate_sticky : Bool
  pub max_age : Option ℕ
  pub budget_threshold_pct : ℕ
  pub earlier_reset : Bool
  pub strategy : RoutingStrategy

-- The states and the mappings after the call, and its result.
pub record StickyResult : Type 0 where
  pub states_after : List AccountState
  pub mappings_after : List StickySession
  pub selection : SelectionResult

-- The arguments of the calls of `select_account`: whether an account that backs off may serve, and
-- whether the answer is to be the same each time.
abbrev pub options_for : StickyRequest → Bool → Bool → SelectOptions
options_for q allow_backoff probe = record {
  prefer_earlier_reset = q.earlier_reset;
  routing_strategy = q.strategy;
  allow_backoff_fallback = allow_backoff;
  deterministic_probe = probe;
  primary_first_usage_weighted = false;
}

-- `next((state for state in states if state.account_id == existing), None)`
abbrev pub find_state : ℕ → List AccountState → Option AccountState
find_state id [] = none
find_state id (s ∷ states) =
    let rest = find_state id states in if s.account_id == id then some s else rest

-- The state that `find_state` finds, changed in place.
abbrev pub replace_state : AccountState → List AccountState → List AccountState
replace_state new [] = []
replace_state new (s ∷ states) =
    let rest = replace_state new states in
    if s.account_id == new.account_id then new ∷ states else s ∷ rest

-- `select_account([pinned], …)`: the pinned state afterwards, and the result.
unfoldable pub select_pinned :
    Host → StickyRequest → ℕ → AccountState → AccountState × SelectionResult
select_pinned host q now pinned =
    let (after, r) = select_account host (options_for q false false) now (pinned ∷ []) in
    elim after as (λ _. AccountState × SelectionResult) [ [] ↦ (pinned, r) | s ∷ rest ↦ (s, r) ]

unfoldable pub budget_pressured : ℕ → AccountState → Bool
budget_pressured threshold pinned =
    not (same_status pinned.status AccountStatus.rate_limited)
    && state_above_sticky_budget_threshold threshold pinned

abbrev far_from : ℕ → Option ℕ → Bool
far_from now none = false
far_from now (some t) = leb (now + seconds 600) t

unfoldable pub rate_limit_far_away : ℕ → StickySessionKind → AccountState → Bool
rate_limit_far_away now kind pinned =
    same_kind kind prompt_cache
    && same_status pinned.status AccountStatus.rate_limited
    && far_from now pinned.reset_at

unfoldable pub pool_also_exhausted : ℕ → AccountState → Option AccountState → Bool
pool_also_exhausted threshold pinned none = false
pool_also_exhausted threshold pinned (some best) =
    (best.account_id == pinned.account_id)
    || (if state_above_budget_threshold threshold pinned
        then state_above_budget_threshold threshold best
        else state_above_sticky_budget_threshold threshold best)

-- `if sticky_max_age_seconds is not None: upsert(sticky_key, pinned.account_id, …)`
abbrev pub renew_mapping :
    StickyRequest → ℕ → ℕ → StickySessionKind → ℕ → List StickySession → List StickySession
renew_mapping q now key kind account rows =
    if is_some q.max_age then upsert_entry now key kind account rows else rows

-- How far the code comes with the pinned account: it is returned, or the search goes on with a state
-- of each account and with `reallocate_sticky` as it then is.
pub data PinnedStep : Type 0 where
  returns : AccountState → SelectionResult → List AccountState → PinnedStep
  goes_on : AccountState → Bool → List AccountState → PinnedStep

abbrev pub after_try : Bool → List AccountState → AccountState × SelectionResult → PinnedStep
after_try reallocate states (pinned, r) =
    if is_some r.account
    then returns pinned r (replace_state pinned states)
    else goes_on pinned reallocate (replace_state pinned states)

-- The branch for an account that is pressed or far from its reset.
unfoldable pub try_elsewhere :
    Host → StickyRequest → ℕ → AccountState → List AccountState → PinnedStep
unfolding select_pinned pool_also_exhausted
try_elsewhere host q now pinned states =
    let (after, best) =
      select_account_preferring_budget_safe host (options_for q true true) q.budget_threshold_pct
        now states in
    let seen = or_default (find_state pinned.account_id after) pinned in
    let tried = after_try true after (select_pinned host q now seen) in
    if budget_pressured q.budget_threshold_pct pinned
    then if pool_also_exhausted q.budget_threshold_pct seen best.account
      then tried
      else goes_on seen true after
    else goes_on pinned true states

unfoldable pub try_pinned :
    Host → StickyRequest → ℕ → StickySessionKind → AccountState → List AccountState → PinnedStep
unfolding try_elsewhere
try_pinned host q now kind pinned states =
    let tried = after_try q.reallocate_sticky states (select_pinned host q now pinned) in
    let elsewhere = try_elsewhere host q now pinned states in
    if budget_pressured q.budget_threshold_pct pinned || rate_limit_far_away now kind pinned
    then elsewhere
    else tried

abbrev pub grace_period : ℕ
grace_period = 10000

-- The second try ten seconds ahead, on a copy.
unfoldable pub try_grace : Host → StickyRequest → ℕ → Bool → AccountState → Option SelectionResult
try_grace host q now reallocate pinned =
    let r = (select_pinned host q (now + grace_period) pinned).1 in
    if not reallocate && same_status pinned.status AccountStatus.rate_limited
    then if is_some r.account then some r else none
    else none

unfoldable pub is_recoverable : AccountStatus → Bool
is_recoverable AccountStatus.active = true
is_recoverable AccountStatus.rate_limited = true
is_recoverable AccountStatus.quota_exceeded = true
is_recoverable AccountStatus.paused = false
is_recoverable AccountStatus.deactivated = false

-- The end of the call: the choice among all states, and its mapping where it is to be kept.
unfoldable pub choose_any :
    Host
    → StickyRequest
    → ℕ
    → ℕ
    → StickySessionKind
    → List Account
    → Bool
    → List AccountState
    → List StickySession
    → StickyResult
choose_any host q now key kind accounts persist_fallback states rows =
    let (after, r) =
      select_account_preferring_budget_safe host (options_for q true false) q.budget_threshold_pct
        now states in
    record {
      states_after = after;
      mappings_after = elim r.account as (λ _. List StickySession) [
        | none ↦ rows
        | some a ↦
            if persist_fallback && exists (λ row. row.id == a.account_id) accounts
            then upsert_entry now key kind a.account_id rows
            else rows
      ];
      selection = r;
    }

-- After the tries: whether the mapping is deleted, or kept for the account's recovery.
unfoldable pub fall_back :
    Host
    → StickyRequest
    → ℕ
    → ℕ
    → StickySessionKind
    → List Account
    → Bool
    → AccountState
    → List AccountState
    → List StickySession
    → StickyResult
fall_back host q now key kind accounts reallocate pinned states rows =
    if reallocate
    then choose_any host q now key kind accounts true states (delete_entry key kind rows).0
    else if is_recoverable pinned.status && is_some q.max_age
    then choose_any host q now key kind accounts false states rows
    else choose_any host q now key kind accounts true states rows

unfoldable pub with_step :
    Host
    → StickyRequest
    → ℕ
    → ℕ
    → StickySessionKind
    → List Account
    → List StickySession
    → PinnedStep
    → StickyResult
unfolding try_grace fall_back
with_step host q now key kind accounts rows (returns pinned r states) = record {
  states_after = states;
  mappings_after = renew_mapping q now key kind pinned.account_id rows;
  selection = r;
}
with_step host q now key kind accounts rows (goes_on pinned reallocate states) =
    elim (try_grace host q now reallocate pinned) [
      | some r ↦ record {
        states_after = states;
        mappings_after = renew_mapping q now key kind pinned.account_id rows;
        selection = r;
      }
      | none ↦ fall_back host q now key kind accounts reallocate pinned states rows
    ]

-- The call for a key, once the mapping is looked up.
unfoldable pub select_mapped :
    Host
    → StickyRequest
    → ℕ
    → ℕ
    → StickySessionKind
    → List Account
    → List AccountState
    → List StickySession
    → Option ℕ
    → StickyResult
unfolding try_pinned with_step choose_any
select_mapped host q now key kind accounts states rows none =
    choose_any host q now key kind accounts true states rows
select_mapped host q now key kind accounts states rows (some existing) =
    elim (find_state existing states) [
      | none ↦ choose_any host q now key kind accounts true states (delete_entry key kind rows).0
      | some pinned ↦
          with_step host q now key kind accounts rows (try_pinned host q now kind pinned states)
    ]

-- `none` is the ValueError for a key without a kind; the key 0 is the empty one.
unfoldable pub select_with_stickiness :
    Host
    → StickyRequest
    → ℕ
    → Option ℕ
    → Option StickySessionKind
    → List Account
    → List AccountState
    → List StickySession
    → Option StickyResult
unfolding select_mapped
select_with_stickiness host q now sticky_key sticky_kind accounts states rows =
    let key = or_default sticky_key 0 in
    let (after, r) =
      select_account_preferring_budget_safe host (options_for q true false) q.budget_threshold_pct
        now states in
    if key == 0
    then some (record { states_after = after; mappings_after = rows; selection = r })
    else elim sticky_kind [
      | none ↦ none
      | some kind ↦
          let (looked, existing) = get_account_id now key kind q.max_age rows in
          some (select_mapped host q now key kind accounts states looked existing)
    ]

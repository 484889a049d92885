-- ===== src/LoadBalancer/Tests/Keys.antt =====
-- Selections with a sticky key.
use codex_lb_mod.Base.{List, [], false, none, or_default, put, refl, some, ◌∷◌, ◌≡◌}
use codex_lb_mod.Quota.{apply_primary, apply_secondary, apply_usage_quota, fallback_primary_reset}
use codex_lb_mod.LoadBalancer.Plans.{normalize_account_plan_type, secondary_capacity_for_plan}
use codex_lb_mod.Balancer.State.{AccountState, AccountStatus}
use codex_lb_mod.Balancer.Eligibility.{
  admit_status, available_of, backing_off_of, clear_cooldown, error_backoff, hold_back, visit,
  visited, within_backoff,
}
use codex_lb_mod.Balancer.Health.{evaluate_health_tier, next_tier, should_drain}
use codex_lb_mod.Balancer.Ranking.{key_lt, least, least_from, usage_sort_key}
use codex_lb_mod.Balancer.Select.{
  answer, candidates, choose, choose_usage, effective_pool, select_account, usage_weighted,
}
use codex_lb_mod.LoadBalancer.Accounts.{Account, update_status_if_current}
use codex_lb_mod.LoadBalancer.Budget.{
  after_preferred, preferred, select_account_preferring_budget_safe, state_above_budget_threshold,
  state_above_sticky_budget_threshold,
}
use codex_lb_mod.LoadBalancer.Inputs.{SelectionInputs}
use codex_lb_mod.LoadBalancer.Loop.{
  attempt_loop, chosen_in, not_selected, select_without_key, selected, snapshot_of, sync_all,
  try_once,
}
use codex_lb_mod.LoadBalancer.Mappings.{
  StickySession, get_account_id, get_entry, new_entry, prompt_cache, upsert_entry,
}
use codex_lb_mod.LoadBalancer.Mappings.Entries.{mapping}
use codex_lb_mod.LoadBalancer.Persist.{
  is_changed, persist_selection_state, persist_state_if_current,
}
use codex_lb_mod.LoadBalancer.Runtime.{differs, prune_runtime, sync_runtime, sync_runtime_state}
use codex_lb_mod.LoadBalancer.States.{
  build_states, clears_early, cooldown_ready, effective_secondary, enter_tier, guarding_reset,
  quota_of, state_from_account, tier_from_runtime, usage_entry_is_recent_enough,
}
use codex_lb_mod.LoadBalancer.Sticky.{
  StickyRequest, StickyResult, budget_pressured, is_recoverable, rate_limit_far_away, select_mapped,
  select_pinned, select_with_stickiness, try_grace, try_pinned, with_step,
}
use codex_lb_mod.LoadBalancer.Sticky.Kept.{Leads}
use codex_lb_mod.LoadBalancer.Sticky.Leading.{sticky-Leads}
use codex_lb_mod.LoadBalancer.Keyed.{
  KeyRequest, KeyedState, KeyedTasks, after_sticky, keyed_loop, keyed_snapshot, keyed_states,
  select_with_key, try_keyed,
}
use codex_lb_mod.LoadBalancer.Keyed.Reached.{IsLastReturned}
use codex_lb_mod.LoadBalancer.Keyed.Returned.{select_with_key-IsReturned}
use codex_lb_mod.LoadBalancer.Sticky.Outage.{select_mapped_keeps}
use codex_lb_mod.LoadBalancer.Tests.{
  drawing, limited, one_input, plain_settings, served_state, start, table, third, third_state,
}

abbrev with_ttl : StickyRequest
with_ttl = record {
  reallocate_sticky = false;
  max_age = some 1800;
  budget_threshold_pct = 95;
  earlier_reset = false;
  strategy = usage_weighted;
}

abbrev key_rows : List StickySession
key_rows = new_entry 9000 7 prompt_cache 1 ∷ []

-- The pinned account is rate limited for another minute.
abbrev waiting_state : AccountState
waiting_state = record served_state { status = AccountStatus.rate_limited; reset_at = some 70000 }

abbrev key_result : StickyResult
key_result =
    select_mapped drawing with_ttl 10000 7 prompt_cache (limited ∷ third ∷ [])
      (waiting_state ∷ third_state ∷ []) key_rows (some 1)

finds_key :
    select_with_stickiness drawing with_ttl 10000
      (some 7)
      (some prompt_cache)
      (limited ∷ third ∷ [])
      (waiting_state ∷ third_state ∷ [])
      key_rows
    ≡ some key_result
unfolding select_with_stickiness get_account_id get_entry
finds_key = refl

sticky-Leads_example : Leads 7 prompt_cache (some 1) key_result
sticky-Leads_example =
    sticky-Leads drawing with_ttl 10000 7 prompt_cache (limited ∷ third ∷ []) refl
      (waiting_state ∷ third_state ∷ []) key_rows key_result finds_key

select_mapped_keeps_example : mapping 7 prompt_cache key_result.mappings_after ≡ some 1
unfolding is_recoverable budget_pressured rate_limit_far_away
select_mapped_keeps_example =
    select_mapped_keeps drawing with_ttl 10000 7 prompt_cache (limited ∷ third ∷ []) refl
      (waiting_state ∷ third_state ∷ []) key_rows waiting_state 1 refl refl refl refl refl

-- Five seconds before its reset, the pinned account is returned by the second try, and its row is
-- written as active, with the reset still ahead.
abbrev soon : Account
soon = record limited { reset_at = some 15000 }

abbrev soon_active : Account
soon_active = record soon { status = AccountStatus.active }

abbrev keyed_start : KeyedState
keyed_start = record { core = record start { rows = put table 1 soon }; mappings = key_rows }

abbrev keyed_input : SelectionInputs
keyed_input = record one_input { offered = soon ∷ [] }

abbrev quiet : KeyedTasks
quiet = record { meanwhile = λ left b. b; next_load = λ left. keyed_input }

abbrev with_key : KeyRequest
with_key = record {
  request_key = 7;
  request_kind = prompt_cache;
  request_options = with_ttl;
  request_settings = plain_settings;
}

abbrev state_after : KeyedState
state_after =
    (or_default (select_with_key drawing quiet with_key 10000 keyed_start keyed_input)
      (keyed_start, not_selected none)).0

returns_soon :
    select_with_key drawing quiet with_key 10000 keyed_start keyed_input
    ≡ some (state_after, selected soon_active)
unfolding select_without_key try_once attempt_loop chosen_in snapshot_of sync_all
    select_account_preferring_budget_safe preferred after_preferred state_above_budget_threshold
    build_states state_from_account quota_of apply_usage_quota apply_primary apply_secondary
    fallback_primary_reset effective_secondary select_account candidates available_of backing_off_of
    visit visited admit_status clear_cooldown hold_back within_backoff error_backoff guarding_reset
    clears_early cooldown_ready usage_entry_is_recent_enough prune_runtime evaluate_health_tier
    next_tier should_drain answer choose choose_usage effective_pool least least_from key_lt
    usage_sort_key update_status_if_current is_changed persist_selection_state
    persist_state_if_current secondary_capacity_for_plan normalize_account_plan_type
    sync_runtime_state sync_runtime differs enter_tier tier_from_runtime select_with_key keyed_loop
    try_keyed keyed_states after_sticky keyed_snapshot select_with_stickiness select_mapped
    get_account_id get_entry try_pinned try_grace with_step select_pinned budget_pressured
    rate_limit_far_away state_above_sticky_budget_threshold upsert_entry
returns_soon = refl

written_early : state_after.core.rows 1 ≡ some soon_active
unfolding select_without_key try_once attempt_loop chosen_in snapshot_of sync_all
    select_account_preferring_budget_safe preferred after_preferred state_above_budget_threshold
    build_states state_from_account quota_of apply_usage_quota apply_primary apply_secondary
    fallback_primary_reset effective_secondary select_account candidates available_of backing_off_of
    visit visited admit_status clear_cooldown hold_back within_backoff error_backoff guarding_reset
    clears_early cooldown_ready usage_entry_is_recent_enough prune_runtime evaluate_health_tier
    next_tier should_drain answer choose choose_usage effective_pool least least_from key_lt
    usage_sort_key update_status_if_current is_changed persist_selection_state
    persist_state_if_current secondary_capacity_for_plan normalize_account_plan_type
    sync_runtime_state sync_runtime differs enter_tier tier_from_runtime select_with_key keyed_loop
    try_keyed keyed_states after_sticky keyed_snapshot select_with_stickiness select_mapped
    get_account_id get_entry try_pinned try_grace with_step select_pinned budget_pressured
    rate_limit_far_away state_above_sticky_budget_threshold upsert_entry
written_early = refl

select_with_key-IsReturned_example :
    IsLastReturned drawing quiet with_key 10000 3 keyed_start keyed_input state_after soon_active
select_with_key-IsReturned_example =
    select_with_key-IsReturned drawing quiet with_key 10000 refl keyed_start state_after keyed_input
      soon_active (tt, tt) (λ n. (tt, tt)) returns_soon

-- ===== src/LoadBalancer/Tests/Marked.antt =====
-- Marked accounts, loaded inputs, the cache and the budget at concrete accounts.
use codex_lb_mod.Base.{
  In, List, [], arith, false, inl, inr, none, put, refl, some, subst, true, ℕ, ◌∷◌, ◌≡◌, ◌≢◌, ◌⊎◌,
}
use codex_lb_mod.Quota.{apply_primary, apply_secondary, apply_usage_quota, fallback_primary_reset}
use codex_lb_mod.LoadBalancer.Plans.{normalize_account_plan_type, secondary_capacity_for_plan}
use codex_lb_mod.Balancer.State.{AccountState}
use codex_lb_mod.Balancer.Eligibility.{
  admit_status, available_of, backing_off_of, clear_cooldown, error_backoff, hold_back, skipped,
  visit, visited, within_backoff,
}
use codex_lb_mod.Balancer.Failures.{Draw, UpstreamError, handle_permanent_failure}
use codex_lb_mod.Balancer.Health.{evaluate_health_tier, next_tier, should_drain}
use codex_lb_mod.Balancer.Ranking.{key_lt, least, least_from, usage_sort_key}
use codex_lb_mod.Balancer.Select.{
  answer, candidates, choose, choose_usage, effective_pool, select_account,
}
use codex_lb_mod.LoadBalancer.Accounts.{
  Account, columns_of, same_columns, update_status, update_status_if_current,
}
use codex_lb_mod.LoadBalancer.Budget.{
  after_preferred, preferred, select_account_preferring_budget_safe, state_above_budget_threshold,
}
use codex_lb_mod.LoadBalancer.Budget.Prefers.{select_preferring_safe}
use codex_lb_mod.LoadBalancer.Cache.{get_cached, invalidate, new_cache}
use codex_lb_mod.LoadBalancer.Cache.Generations.{
  CacheStep, invalidate-get_cached, invalidates, run_cache, stores,
}
use codex_lb_mod.LoadBalancer.Inputs.{
  InputRequest, account_plan_matches_allowed, filter_accounts_for_model, load_from_tables,
  selectable_accounts,
}
use codex_lb_mod.LoadBalancer.Inputs.Offered.{IsOffered, load-IsOffered}
use codex_lb_mod.LoadBalancer.Loop.{
  attempt_loop, chosen_in, select_without_key, snapshot_of, sync_all, try_once,
}
use codex_lb_mod.LoadBalancer.Marks.{
  LoadBalancer, mark_permanent_failure, mark_rate_limit, mark_with,
}
use codex_lb_mod.LoadBalancer.Marks.Kept.{permanent_failure_not_chosen}
use codex_lb_mod.LoadBalancer.Marks.Waits.{mark_rate_limit_waits}
use codex_lb_mod.LoadBalancer.Persist.{
  is_changed, persist_selection_state, persist_state, persist_state_if_current,
}
use codex_lb_mod.LoadBalancer.Runtime.{differs, prune_runtime, sync_runtime, sync_runtime_state}
use codex_lb_mod.LoadBalancer.Runtime.Versions.{sync_runtime-version}
use codex_lb_mod.LoadBalancer.States.{
  RuntimeState, build_states, clears_early, cooldown_ready, effective_secondary, enter_tier,
  guarding_reset, new_runtime, quota_of, state_from_account, state_of, tier_from_runtime,
  usage_entry_is_recent_enough,
}
use codex_lb_mod.LoadBalancer.Tests.{
  by_usage, drawing, drawing_draws, gone, limited, no_rows, plain_settings, start, table, third,
  third_state,
}

abbrev pub with_third : LoadBalancer
with_third = record start { rows = put table 3 third }

-- A selection that read the row before the report.
abbrev late_states : List (Account × AccountState)
late_states = (limited, record third_state { account_id = 1 }) ∷ (third, third_state) ∷ []

late_stale :
    same_columns
      (columns_of (mark_permanent_failure 9000 plain_settings "token_expired" limited with_third).1)
      (columns_of limited)
    ≡ false
unfolding mark_permanent_failure mark_with persist_state update_status handle_permanent_failure
late_stale = refl

marked_third :
    (persist_selection_state late_states
        (mark_permanent_failure 9000 plain_settings "token_expired" limited with_third).0.rows).0
      3
    ≡ some third
unfolding mark_permanent_failure mark_with persist_state update_status handle_permanent_failure
    persist_selection_state persist_state_if_current update_status_if_current is_changed
marked_third = refl

marked_table :
    (row : Account)
    → In row (third ∷ [])
    → (persist_selection_state late_states
          (mark_permanent_failure 9000 plain_settings "token_expired" limited with_third).0.rows).0
        row.id
      ≡ some row
marked_table row (inl e) =
    subst
      (λ x.
        (persist_selection_state late_states
            (mark_permanent_failure 9000 plain_settings "token_expired" limited
              with_third).0.rows).0
          x.id
        ≡ some x)
      e marked_third
marked_table row (inr m) = absurd m.0

chooses_third :
    (select_account_preferring_budget_safe drawing by_usage 95 10000
      (build_states 10000 plain_settings no_rows (third ∷ []) (λ id. none)).0).1.account
    ≡ some third_state
unfolding select_without_key try_once attempt_loop chosen_in snapshot_of sync_all
    select_account_preferring_budget_safe preferred after_preferred state_above_budget_threshold
    build_states state_from_account quota_of apply_usage_quota apply_primary apply_secondary
    fallback_primary_reset effective_secondary select_account candidates available_of backing_off_of
    visit visited admit_status clear_cooldown hold_back within_backoff error_backoff guarding_reset
    clears_early cooldown_ready usage_entry_is_recent_enough prune_runtime evaluate_health_tier
    next_tier should_drain answer choose choose_usage effective_pool least least_from key_lt
    usage_sort_key update_status_if_current is_changed persist_selection_state
    persist_state_if_current secondary_capacity_for_plan normalize_account_plan_type
    sync_runtime_state sync_runtime differs enter_tier tier_from_runtime
chooses_third = refl

permanent_failure_not_chosen_example : third_state.account_id ≢ limited.id
permanent_failure_not_chosen_example =
    permanent_failure_not_chosen "token_expired" 9000 plain_settings limited with_third drawing
      by_usage 95 10000 no_rows late_states (third ∷ []) (λ id. none) third_state refl
      ((λ e. late_stale), ((λ e. absurd (omega (arith, e))), tt)) marked_table chooses_third

abbrev pub upstream_limit : UpstreamError
upstream_limit = record { message = none; resets_at = some 9000; resets_in_seconds = none }

abbrev pub steady : Draw
steady = record { parse_retry_after = λ text. none; jitter = 100 }

mark_rate_limit_waits_example :
    (visit 6000
      (state_of 6000 plain_settings no_rows
        (mark_rate_limit steady 2500 plain_settings upstream_limit third with_third).1
        (λ id. none)).0).1
    ≡ skipped
mark_rate_limit_waits_example =
    mark_rate_limit_waits steady 2500 6000 9000 plain_settings upstream_limit third with_third
      no_rows (λ id. none) refl (omega arith) (omega arith)
      (record { primary_left = refl; secondary_left = refl; not_fresher = refl })

abbrev pub remembered_error : RuntimeState
remembered_error = record new_runtime { runtime_error_count = 2; runtime_last_error_at = some 5000 }

sync_runtime-version_example :
    ((sync_runtime 10000 false none third third_state remembered_error).0 ≡ remembered_error)
    ⊎ ((sync_runtime 10000 false none third third_state remembered_error).0.version ≡ 1)
sync_runtime-version_example =
    sync_runtime-version 10000 false none third third_state remembered_error

abbrev pub for_plus : InputRequest
for_plus = record {
  for_model = true;
  registered = true;
  allowed_plans = some ("plus" ∷ []);
  scope = some (1 ∷ 2 ∷ []);
  additional = none;
}

offers_limited :
    In limited
      (load_from_tables 10000 (λ s. s) for_plus no_rows (gone ∷ limited ∷ third ∷ [])).offered
unfolding load_from_tables selectable_accounts filter_accounts_for_model
    account_plan_matches_allowed
offers_limited = inl refl

load-IsOffered_example :
    In limited (gone ∷ limited ∷ third ∷ []) × IsOffered 10000 (λ s. s) for_plus limited
load-IsOffered_example =
    load-IsOffered 10000 (λ s. s) for_plus no_rows (gone ∷ limited ∷ third ∷ []) limited
      offers_limited

abbrev pub late_store : List (CacheStep ℕ)
late_store = stores 10 1 7 0 ∷ invalidates ∷ []

invalidate-get_cached_example :
    get_cached {A = ℕ} 20 1 (run_cache late_store (invalidate (new_cache 5000))) ≡ none
invalidate-get_cached_example =
    invalidate-get_cached (new_cache 5000) late_store 20 1 (omega arith, (tt, tt))

abbrev pub spent_state : AccountState
spent_state = record third_state { account_id = 4; used_percent = some 97 }

a_safe_one :
    candidates true 10000 (preferred 95 (spent_state ∷ third_state ∷ [])) ≡ third_state ∷ []
unfolding candidates preferred state_above_budget_threshold available_of visit admit_status
    clear_cooldown hold_back
a_safe_one = refl

select_preferring_safe_example :
    (a : AccountState) × ((select_account_preferring_budget_safe drawing by_usage 95 10000
        (spent_state ∷ third_state ∷ [])).1.account
      ≡ some a)
    × In a (visited 10000 (preferred 95 (spent_state ∷ third_state ∷ [])))
select_preferring_safe_example =
    select_preferring_safe drawing by_usage 95 10000 (spent_state ∷ third_state ∷ []) drawing_draws
      (λ e. cc (e, a_safe_one))

-- ===== src/LoadBalancer/Tests.antt =====
-- The load balancer at concrete accounts.
mod Keys
mod Marked
use codex_lb_mod.Base.{
  In, Table, [], arith, false, if◌then◌else◌, inl, none, put, refl, some, subst, true, ◌==◌, ◌∷◌,
  ◌≡◌, ◌≢◌,
}
use codex_lb_mod.Quota.{apply_primary, apply_secondary, apply_usage_quota, fallback_primary_reset}
use codex_lb_mod.LoadBalancer.Plans.{normalize_account_plan_type, secondary_capacity_for_plan}
use codex_lb_mod.Balancer.State.{AccountState, AccountStatus}
use codex_lb_mod.Balancer.Eligibility.{
  admit_status, available_of, backing_off_of, clear_cooldown, error_backoff, hold_back, visit,
  visited, within_backoff,
}
use codex_lb_mod.Balancer.Health.{default_thresholds, evaluate_health_tier, next_tier, should_drain}
use codex_lb_mod.Balancer.Ranking.{Host, key_lt, least, least_from, usage_sort_key}
use codex_lb_mod.Balancer.Select.{
  SelectOptions, answer, candidates, choose, choose_usage, effective_pool, select_account,
  usage_weighted,
}
use codex_lb_mod.Balancer.Select.Total.{DrawsInRange}
use codex_lb_mod.LoadBalancer.Accounts.{Account, update_status_if_current}
use codex_lb_mod.LoadBalancer.Budget.{
  after_preferred, preferred, select_account_preferring_budget_safe, state_above_budget_threshold,
}
use codex_lb_mod.LoadBalancer.Budget.Rows.{chosen_row}
use codex_lb_mod.LoadBalancer.Cache.{new_cache}
use codex_lb_mod.LoadBalancer.Inputs.{SelectionInputs}
use codex_lb_mod.LoadBalancer.Loop.{
  SelectRequest, Tasks, attempt_loop, chosen_in, select_without_key, selected, snapshot_of,
  sync_all, try_once,
}
use codex_lb_mod.LoadBalancer.Loop.Reached.{IsLastServed}
use codex_lb_mod.LoadBalancer.Loop.Served.{select_without_key-IsServed}
use codex_lb_mod.LoadBalancer.Marks.{LoadBalancer}
use codex_lb_mod.LoadBalancer.Persist.{
  is_changed, persist_selection_state, persist_state_if_current,
}
use codex_lb_mod.LoadBalancer.Persist.Selection.{
  IsPersisted, persist_selection-IsPersisted, persist_selection_keeps,
}
use codex_lb_mod.LoadBalancer.Runtime.{differs, prune_runtime, sync_runtime, sync_runtime_state}
use codex_lb_mod.LoadBalancer.States.{
  Settings, Usage, build_states, clears_early, cooldown_ready, effective_secondary, enter_tier,
  guarding_reset, quota_of, state_from_account, tier_from_runtime, usage_entry_is_recent_enough,
}

abbrev pub drawing : Host
drawing = record { normalize = λ s. s; choices = λ weights. 0 }

pub drawing_draws : DrawsInRange drawing
drawing_draws [] h = absurd (omega arith)
drawing_draws (w ∷ ws) h = omega arith

-- A rate limit that ended at 8 seconds.
abbrev pub limited : Account
limited = record {
  id = 1;
  plan_type = "plus";
  status = AccountStatus.rate_limited;
  deactivation_reason = none;
  reset_at = some 8000;
  blocked_at = some 2000;
}

abbrev pub gone : Account
gone = record limited {
  id = 2;
  status = AccountStatus.deactivated;
  reset_at = none;
  blocked_at = none;
}

abbrev pub table : Table Account
table = put (put (λ id. none) 1 limited) 2 gone

abbrev pub plain_settings : Settings
plain_settings = record {
  soft_drain_enabled = true;
  thresholds = default_thresholds;
  usage_refresh_interval = 60;
  clean = λ s. s;
}

abbrev pub no_rows : Usage
no_rows = record { latest_primary = λ id. none; latest_secondary = λ id. none }

abbrev pub by_usage : SelectOptions
by_usage = record {
  prefer_earlier_reset = false;
  routing_strategy = usage_weighted;
  allow_backoff_fallback = true;
  deterministic_probe = false;
  primary_first_usage_weighted = false;
}

abbrev pub asks : SelectRequest
asks = record { select_options = by_usage; threshold_pct = 95; lb_settings = plain_settings }

abbrev pub start : LoadBalancer
start = record { rows = table; runtime = λ id. none; cache = new_cache 5000 }

abbrev pub one_input : SelectionInputs
one_input = record {
  offered = limited ∷ [];
  usage = no_rows;
  runtime_accounts = limited ∷ gone ∷ [];
  input_error = none;
}

-- While the first attempt goes on, another task moves the reset to nine seconds; the load after it
-- reads that row.
abbrev pub moved : Account
moved = record limited { reset_at = some 9000 }

abbrev pub after_move : SelectionInputs
after_move = record one_input { offered = moved ∷ [] }

abbrev pub busy_tasks : Tasks
busy_tasks = record {
  during = λ left b. if left == 3 then record b { rows = put b.rows 1 moved } else b;
  reload = λ left. after_move;
}

abbrev pub recovered : Account
recovered = record moved { status = AccountStatus.active; reset_at = none }

returns_recovered :
    (select_without_key drawing busy_tasks asks 10000 start one_input).1 ≡ selected recovered
unfolding select_without_key try_once attempt_loop chosen_in snapshot_of sync_all
    select_account_preferring_budget_safe preferred after_preferred state_above_budget_threshold
    build_states state_from_account quota_of apply_usage_quota apply_primary apply_secondary
    fallback_primary_reset effective_secondary select_account candidates available_of backing_off_of
    visit visited admit_status clear_cooldown hold_back within_backoff error_backoff guarding_reset
    clears_early cooldown_ready usage_entry_is_recent_enough prune_runtime evaluate_health_tier
    next_tier should_drain answer choose choose_usage effective_pool least least_from key_lt
    usage_sort_key update_status_if_current is_changed persist_selection_state
    persist_state_if_current secondary_capacity_for_plan normalize_account_plan_type
    sync_runtime_state sync_runtime differs enter_tier tier_from_runtime
returns_recovered = refl

select_without_key-IsServed_example :
    IsLastServed drawing busy_tasks asks 10000 3 start one_input
      (select_without_key drawing busy_tasks asks 10000 start one_input).0
      recovered
select_without_key-IsServed_example =
    select_without_key-IsServed drawing busy_tasks asks 10000 start one_input recovered (tt, tt)
      (λ n. (tt, tt)) returns_recovered

abbrev pub served_state : AccountState
served_state = record {
  account_id = 1;
  status = AccountStatus.active;
  used_percent = none;
  reset_at = none;
  blocked_at = some 2000;
  cooldown_until = none;
  secondary_used_percent = none;
  secondary_reset_at = none;
  last_error_at = none;
  last_selected_at = none;
  error_count = 0;
  deactivation_reason = none;
  plan_type = some "plus";
  capacity_credits = some 7560;
  health_tier = 0;
}

abbrev pub third : Account
third = record limited { id = 3; status = AccountStatus.active; reset_at = none; blocked_at = none }

abbrev pub third_state : AccountState
third_state = record served_state { account_id = 3; blocked_at = none }

chooses_limited :
    (select_account_preferring_budget_safe drawing by_usage 95 10000
      (build_states 10000 plain_settings no_rows (gone ∷ limited ∷ []) (λ id. none)).0).1.account
    ≡ some served_state
unfolding select_without_key try_once attempt_loop chosen_in snapshot_of sync_all
    select_account_preferring_budget_safe preferred after_preferred state_above_budget_threshold
    build_states state_from_account quota_of apply_usage_quota apply_primary apply_secondary
    fallback_primary_reset effective_secondary select_account candidates available_of backing_off_of
    visit visited admit_status clear_cooldown hold_back within_backoff error_backoff guarding_reset
    clears_early cooldown_ready usage_entry_is_recent_enough prune_runtime evaluate_health_tier
    next_tier should_drain answer choose choose_usage effective_pool least least_from key_lt
    usage_sort_key update_status_if_current is_changed persist_selection_state
    persist_state_if_current secondary_capacity_for_plan normalize_account_plan_type
    sync_runtime_state sync_runtime differs enter_tier tier_from_runtime
chooses_limited = refl

chosen_row_example :
    (account : Account) × In account (gone ∷ limited ∷ [])
    × (account.id ≡ 1)
    × (account.status ≢ AccountStatus.paused)
    × (account.status ≢ AccountStatus.deactivated)
chosen_row_example =
    chosen_row drawing by_usage 95 10000 plain_settings no_rows (gone ∷ limited ∷ []) (λ id. none)
      served_state chooses_limited

persist_selection_keeps_example :
    (persist_selection_state ((limited, served_state) ∷ []) (put table 1 moved)).0 1 ≡ some moved
persist_selection_keeps_example =
    persist_selection_keeps ((limited, served_state) ∷ []) (put table 1 moved) 1 moved refl
      (λ h. refl, tt)

none_stale : (persist_selection_state ((limited, served_state) ∷ []) table).1 ≡ []
unfolding persist_selection_state persist_state_if_current update_status_if_current is_changed
none_stale = refl

persist_selection-IsPersisted_example :
    IsPersisted
      (persist_selection_state ((limited, served_state) ∷ []) table).0
      limited
      served_state
persist_selection-IsPersisted_example =
    persist_selection-IsPersisted ((limited, served_state) ∷ []) table limited served_state (tt, tt)
      (inl refl) (λ m. (subst (In 1) none_stale m).0)

-- ===== src/LoadBalancer/States.antt =====
-- `_state_from_account` and `_build_states`: the state of an account for one selection, from its
-- row, its usage and what the process remembers. All reads of the clock give one value, `now`.
use Prim.Native.String.{String}
use codex_lb_mod.Base.{
  Bool, List, Option, Table, [], false, if◌then◌else◌, is_none, is_some, leb, ltb, max, none, not,
  or_default, or_else, put, some, truthy, ℕ, ◌&&◌, ◌*◌, ◌+◌, ◌==◌, ◌||◌, ◌∷◌,
}
use codex_lb_mod.Balancer.State.{AccountState, AccountStatus, same_status, seconds}
use codex_lb_mod.Balancer.Failures.{quota_exceeded_cooldown}
use codex_lb_mod.Balancer.Health.{Thresholds, draining, elapsed, evaluate_health_tier, healthy}
use codex_lb_mod.Quota.{QuotaInput, QuotaResult, apply_usage_quota}
use codex_lb_mod.LoadBalancer.Accounts.{Account, UsageHistory}
use codex_lb_mod.LoadBalancer.Plans.{secondary_capacity_for_plan, should_use_weekly_primary}

pub record RuntimeState : Type 0 where
  pub runtime_reset_at : Option ℕ
  pub runtime_cooldown_until : Option ℕ
  pub runtime_last_error_at : Option ℕ
  pub runtime_last_selected_at : Option ℕ
  pub runtime_error_count : ℕ
  pub version : ℕ
  pub runtime_blocked_at : Option ℕ
  pub tier : ℕ
  pub drain_entered_at : Option ℕ
  pub probe_success_streak : ℕ

abbrev pub new_runtime : RuntimeState
new_runtime = record {
  runtime_reset_at = none;
  runtime_cooldown_until = none;
  runtime_last_error_at = none;
  runtime_last_selected_at = none;
  runtime_error_count = 0;
  version = 0;
  runtime_blocked_at = none;
  tier = 0;
  drain_entered_at = none;
  probe_success_streak = 0;
}

-- The settings, and `str.strip` with `str.lower`.
pub record Settings : Type 0 where
  pub soft_drain_enabled : Bool
  pub thresholds : Thresholds
  pub usage_refresh_interval : ℕ
  pub clean : String → String

-- The fields of a usage row that may itself be missing.
abbrev pub field_of : (UsageHistory → Option ℕ) → Option UsageHistory → Option ℕ
field_of f none = none
field_of f (some e) = f e

-- `effective_secondary_entry`
unfoldable pub effective_secondary : Option UsageHistory → Option UsageHistory → Option UsageHistory
effective_secondary none secondary_entry = secondary_entry
effective_secondary (some p) secondary_entry =
    if should_use_weekly_primary p secondary_entry then some p else secondary_entry

unfoldable pub usage_entry_is_recent_enough : ℕ → ℕ → Option ℕ → Bool
usage_entry_is_recent_enough now interval none = false
usage_entry_is_recent_enough now interval (some recorded) =
    leb now (recorded + seconds (max (interval * 2) 180))

abbrev used_below : ℕ → Option ℕ → Bool
used_below bound none = false
used_below bound (some used) = ltb used bound

abbrev pub is_later : Option ℕ → Option ℕ → Bool
is_later (some a) (some b) = ltb b a
is_later _ _ = false

-- The account is past its quota, but recent usage shows a window that is not exhausted and ends
-- after the stored reset.
unfoldable pub clears_early :
    ℕ → Settings → AccountStatus → Option ℕ → Option ℕ → Option UsageHistory → Bool
unfolding usage_entry_is_recent_enough
clears_early now settings status reset blocked entry =
    same_status status AccountStatus.quota_exceeded
    && is_later reset (some now)
    && is_none blocked
    && usage_entry_is_recent_enough now settings.usage_refresh_interval
        (field_of (λ e. e.recorded_at) entry)
    && used_below 100 (field_of (λ e. e.used_percent) entry)
    && is_later (field_of (λ e. e.reset_at) entry) reset

unfoldable pub cooldown_ready : ℕ → AccountStatus → Option ℕ → RuntimeState → Bool
cooldown_ready now status blocked r =
    if same_status status AccountStatus.quota_exceeded
    then elapsed now quota_exceeded_cooldown blocked
    else elapsed now 0 r.runtime_cooldown_until && is_some r.runtime_blocked_at

abbrev freshness_entry :
    AccountStatus → Option UsageHistory → Option UsageHistory → Option UsageHistory
freshness_entry AccountStatus.quota_exceeded primary_entry secondary_entry = secondary_entry
freshness_entry AccountStatus.rate_limited primary_entry secondary_entry = primary_entry
freshness_entry _ primary_entry secondary_entry = none

-- The reset that still guards the account.
unfoldable pub guarding_reset :
    ℕ → Settings → Account → Option UsageHistory → Option UsageHistory → RuntimeState → Option ℕ
unfolding clears_early cooldown_ready
guarding_reset now settings a primary_entry secondary r =
    let stored = if truthy a.reset_at then a.reset_at else r.runtime_reset_at in
    let blocked = or_else a.blocked_at r.runtime_blocked_at in
    if clears_early now settings a.status stored blocked secondary
    then none
    else if cooldown_ready now a.status blocked r
        && is_later
            (field_of (λ e. e.recorded_at) (freshness_entry a.status primary_entry secondary))
            blocked
    then none
    else stored

abbrev is_blocked : AccountStatus → Bool
is_blocked status =
    same_status status AccountStatus.quota_exceeded || same_status status AccountStatus.rate_limited

-- `AccountState(…)` with the defaults of its fields.
abbrev bare_state : ℕ → AccountStatus → AccountState
bare_state id status = record {
  account_id = id;
  status = status;
  used_percent = none;
  reset_at = none;
  blocked_at = none;
  cooldown_until = none;
  secondary_used_percent = none;
  secondary_reset_at = none;
  last_error_at = none;
  last_selected_at = none;
  error_count = 0;
  deactivation_reason = none;
  plan_type = none;
  capacity_credits = none;
  health_tier = 0;
}

unfoldable pub tier_from_runtime :
    ℕ → Settings → ℕ → AccountStatus → Option ℕ → Option ℕ → RuntimeState → ℕ
tier_from_runtime now settings id status used secondary_used r =
    if settings.soft_drain_enabled
    then evaluate_health_tier settings.thresholds now r.drain_entered_at r.probe_success_streak
        (record (bare_state id status) {
          used_percent = used;
          secondary_used_percent = secondary_used;
          last_error_at = r.runtime_last_error_at;
          error_count = r.runtime_error_count;
          health_tier = r.tier;
        })
    else healthy

-- What the runtime remembers of the tier: when draining began, and no streak from before.
unfoldable pub enter_tier : ℕ → ℕ → RuntimeState → RuntimeState
enter_tier now new_tier r =
    if new_tier == healthy
    then record r { tier = new_tier; drain_entered_at = none; probe_success_streak = 0 }
    else if new_tier == draining && not (r.tier == draining)
    then record r { tier = new_tier; drain_entered_at = some now; probe_success_streak = 0 }
    else record r { tier = new_tier }

abbrev pub quota_input : Option UsageHistory → Option UsageHistory → Option ℕ → QuotaInput
quota_input primary_entry secondary reset = record {
  primary_used = field_of (λ e. e.used_percent) primary_entry;
  primary_reset = field_of (λ e. e.reset_at) primary_entry;
  primary_window_minutes = field_of (λ e. e.window_minutes) primary_entry;
  runtime_reset = reset;
  secondary_used = field_of (λ e. e.used_percent) secondary;
  secondary_reset = field_of (λ e. e.reset_at) secondary;
}

-- The status, percentage and reset that the usage gives.
unfoldable pub quota_of :
    ℕ → Settings → Account → Option UsageHistory → Option UsageHistory → RuntimeState → QuotaResult
quota_of now settings a primary_entry secondary r =
    apply_usage_quota now a.status (
      quota_input primary_entry secondary (guarding_reset now settings a primary_entry secondary r))

-- The state, and the runtime after the call.
unfoldable pub state_from_account :
    ℕ
    → Settings
    → Account
    → Option UsageHistory
    → Option UsageHistory
    → RuntimeState
    → AccountState × RuntimeState
state_from_account now settings a primary_entry secondary_entry r =
    let secondary = effective_secondary primary_entry secondary_entry in
    let secondary_used = field_of (λ e. e.used_percent) secondary in
    let q = quota_of now settings a primary_entry secondary r in
    let new_tier =
      tier_from_runtime now settings a.id q.result_status q.result_used secondary_used r in
    (
      record {
        account_id = a.id;
        status = q.result_status;
        used_percent = q.result_used;
        reset_at = q.result_reset;
        blocked_at =
            if is_blocked q.result_status then or_else a.blocked_at r.runtime_blocked_at else none;
        cooldown_until = r.runtime_cooldown_until;
        secondary_used_percent = secondary_used;
        secondary_reset_at = field_of (λ e. e.reset_at) secondary;
        last_error_at = r.runtime_last_error_at;
        last_selected_at = r.runtime_last_selected_at;
        error_count = r.runtime_error_count;
        deactivation_reason = a.deactivation_reason;
        plan_type = some a.plan_type;
        capacity_credits = secondary_capacity_for_plan settings.clean a.plan_type;
        health_tier = new_tier;
      },
      enter_tier now new_tier r,
    )

-- `runtime.setdefault(id, RuntimeState())`
abbrev pub runtime_of : Table RuntimeState → ℕ → RuntimeState
runtime_of runtime id = or_default (runtime id) new_runtime

pub record Usage : Type 0 where
  pub latest_primary : Table UsageHistory
  pub latest_secondary : Table UsageHistory

abbrev pub state_of :
    ℕ → Settings → Usage → Account → Table RuntimeState → AccountState × RuntimeState
state_of now settings usage a runtime =
    state_from_account now settings a (usage.latest_primary a.id) (usage.latest_secondary a.id)
      (runtime_of runtime a.id)

-- The states in the order of the accounts; the account map is the list of accounts, by id.
unfoldable pub build_states :
    ℕ
    → Settings
    → Usage
    → List Account
    → Table RuntimeState
    → List AccountState × Table RuntimeState
build_states now settings usage [] runtime = ([], runtime)
build_states now settings usage (a ∷ accounts) runtime =
    let (s, r) = state_of now settings usage a runtime in
    let (states, after) = build_states now settings usage accounts (put runtime a.id r) in
    (s ∷ states, after)

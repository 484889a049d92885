-- ===== src/LoadBalancer/Runtime.antt =====
-- What the process remembers of each account, `LoadBalancer._runtime`: `_prune_runtime`,
-- `_state_for`, `_sync_runtime_state` and `record_success`.
pub mod Versions
use codex_lb_mod.Base.{
  Bool, List, Option, Table, exists, false, if◌then◌else◌, ltb, none, not, or_else, put, some, true,
  ℕ, ◌+◌, ◌==◌, ◌||◌,
}
use codex_lb_mod.Balancer.State.{AccountState, same_status}
use codex_lb_mod.Balancer.Health.{probing}
use codex_lb_mod.LoadBalancer.Accounts.{Account, same_reason, same_time}
use codex_lb_mod.LoadBalancer.Plans.{secondary_capacity_for_plan}
use codex_lb_mod.LoadBalancer.States.{RuntimeState, Settings, runtime_of}

-- Only the given accounts are remembered.
unfoldable pub prune_runtime : List Account → Table RuntimeState → Table RuntimeState
prune_runtime accounts runtime id = if exists (λ a. a.id == id) accounts then runtime id else none

-- The state, for a runtime that `setdefault` has put in place.
unfoldable pub state_for : Settings → Account → RuntimeState → AccountState
state_for settings a r = record {
  account_id = a.id;
  status = a.status;
  used_percent = none;
  reset_at = r.runtime_reset_at;
  blocked_at = or_else a.blocked_at r.runtime_blocked_at;
  cooldown_until = r.runtime_cooldown_until;
  secondary_used_percent = none;
  secondary_reset_at = none;
  last_error_at = r.runtime_last_error_at;
  last_selected_at = r.runtime_last_selected_at;
  error_count = r.runtime_error_count;
  deactivation_reason = a.deactivation_reason;
  plan_type = some a.plan_type;
  capacity_credits = secondary_capacity_for_plan settings.clean a.plan_type;
  health_tier = 0;
}

abbrev pub touch : ℕ → RuntimeState → RuntimeState
touch now r = record r { runtime_last_selected_at = some now; version = r.version + 1 }

-- `dirty`, before the test of `selected`.
unfoldable pub differs : Account → AccountState → RuntimeState → Bool
differs a s r =
    not (same_time r.runtime_reset_at s.reset_at)
    || not (same_time r.runtime_cooldown_until s.cooldown_until)
    || not (same_time r.runtime_blocked_at s.blocked_at)
    || not (same_time r.runtime_last_error_at s.last_error_at)
    || not (r.runtime_error_count == s.error_count)
    || not (same_status a.status s.status)
    || not (same_reason a.deactivation_reason s.deactivation_reason)

abbrev pub take_over_state : AccountState → RuntimeState → RuntimeState
take_over_state s r = record r {
  runtime_reset_at = s.reset_at;
  runtime_cooldown_until = s.cooldown_until;
  runtime_blocked_at = s.blocked_at;
  runtime_last_error_at = s.last_error_at;
  runtime_error_count = s.error_count;
}

-- A runtime with another version than the expected one is kept.
abbrev pub is_expected : Option ℕ → ℕ → Bool
is_expected none n = true
is_expected (some expected) n = n == expected

-- The runtime afterwards, and whether the state was taken.
unfoldable pub sync_runtime :
    ℕ → Bool → Option ℕ → Account → AccountState → RuntimeState → RuntimeState × Bool
unfolding differs
sync_runtime now selected expected_version a s r =
    let taken = take_over_state s r in
    if is_expected expected_version r.version
    then (
      if selected
          then touch now taken
          else if differs a s r
          then record taken { version = r.version + 1 }
          else taken,
      true,
    )
    else (if selected then touch now r else r, false)

unfoldable pub sync_runtime_state :
    ℕ → Bool → Option ℕ → Account → AccountState → Table RuntimeState → Table RuntimeState × Bool
sync_runtime_state now selected expected_version a s runtime =
    let (r, taken) = sync_runtime now selected expected_version a s (runtime_of runtime a.id) in
    (put runtime a.id r, taken)

unfoldable pub success_of : RuntimeState → RuntimeState
success_of r =
    let cleared =
      if ltb 0 r.runtime_error_count
      then record r {
        runtime_error_count = 0;
        runtime_last_error_at = none;
        version = r.version + 1;
      }
      else r in
    if r.tier == probing
    then record cleared {
      probe_success_streak = r.probe_success_streak + 1;
      version = cleared.version + 1;
    }
    else cleared

-- `LoadBalancer.record_success`; an account that is not remembered stays so.
unfoldable pub record_upstream_success : ℕ → Table RuntimeState → Table RuntimeState
record_upstream_success id runtime = elim (runtime id) [
  | none ↦ runtime
  | some r ↦ put runtime id (success_of r)
]

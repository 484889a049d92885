-- ===== src/Quota.antt =====
-- `apply_usage_quota` of app/core/usage/quota.py. A call reads the clock once.
pub mod Laws
mod Tests
use codex_lb_mod.Base.{
  Option, if◌then◌else◌, is_some, leb, none, or_default, some, truthy, ℕ, ◌&&◌, ◌*◌, ◌+◌, ◌==◌,
  ◌||◌,
}
use codex_lb_mod.Balancer.State.{AccountStatus, ahead, same_status, seconds}

pub record QuotaInput : Type 0 where
  pub primary_used : Option ℕ
  pub primary_reset : Option ℕ
  pub primary_window_minutes : Option ℕ
  pub runtime_reset : Option ℕ
  pub secondary_used : Option ℕ
  pub secondary_reset : Option ℕ

-- The status, the percentage used and the reset time of the result.
pub record QuotaResult : Type 0 where
  pub result_status : AccountStatus
  pub result_used : Option ℕ
  pub result_reset : Option ℕ

abbrev default_window_minutes_primary : ℕ
default_window_minutes_primary = 300

-- `_fallback_primary_reset`; the default for a missing or zero window is not zero.
unfoldable pub fallback_primary_reset : ℕ → Option ℕ → Option ℕ
fallback_primary_reset now minutes =
    let window_minutes =
      if truthy minutes then or_default minutes 0 else default_window_minutes_primary in
    if window_minutes == 0 then none else some (now + seconds (window_minutes * 60))

-- The branch that ends a block: it is kept while the runtime's reset is ahead.
abbrev keep_or_clear :
    ℕ → AccountStatus → Option ℕ → AccountStatus → Option ℕ → AccountStatus × Option ℕ
keep_or_clear now blocked runtime_reset status reset_at =
    if same_status status blocked
    then if ahead now runtime_reset then (status, runtime_reset) else (AccountStatus.active, none)
    else (status, reset_at)

-- The part on the primary window.
unfoldable pub apply_primary : ℕ → QuotaInput → AccountStatus → Option ℕ → QuotaResult
unfolding fallback_primary_reset
apply_primary now q status reset_at = elim q.primary_used [
  | none ↦ record { result_status = status; result_used = none; result_reset = reset_at }
  | some used ↦
      let (kept, kept_reset) =
        keep_or_clear now AccountStatus.rate_limited q.runtime_reset status reset_at in
      let fallback = fallback_primary_reset now q.primary_window_minutes in
      if leb 100 used
      then record {
        result_status = AccountStatus.rate_limited;
        result_used = some 100;
        result_reset =
            if is_some q.primary_reset
            then q.primary_reset
            else if truthy fallback
            then fallback
            else reset_at;
      }
      else record { result_status = kept; result_used = some used; result_reset = kept_reset }
]

-- The part on the secondary window, for an account that is neither paused nor deactivated.
unfoldable pub apply_secondary : ℕ → QuotaInput → AccountStatus → QuotaResult
unfolding apply_primary
apply_secondary now q status = elim q.secondary_used [
  | none ↦ apply_primary now q status (
      if same_status status AccountStatus.quota_exceeded && is_some q.secondary_reset
      then q.secondary_reset
      else q.runtime_reset)
  | some used ↦
      let (kept, kept_reset) =
        keep_or_clear now AccountStatus.quota_exceeded q.runtime_reset status q.runtime_reset in
      let rest = apply_primary now q kept kept_reset in
      if leb 100 used
      then record {
        result_status = AccountStatus.quota_exceeded;
        result_used = some 100;
        result_reset = if is_some q.secondary_reset then q.secondary_reset else q.runtime_reset;
      }
      else rest
]

unfoldable pub apply_usage_quota : ℕ → AccountStatus → QuotaInput → QuotaResult
unfolding apply_secondary
apply_usage_quota now status q =
    let applied = apply_secondary now q status in
    if same_status status AccountStatus.deactivated || same_status status AccountStatus.paused
    then record {
      result_status = status;
      result_used = q.primary_used;
      result_reset = q.runtime_reset;
    }
    else applied

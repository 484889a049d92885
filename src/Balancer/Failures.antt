-- ===== src/Balancer/Failures.antt =====
-- What an upstream failure does to an account: the handlers of app/core/balancer/logic.py, with
-- `backoff_seconds` of app/core/utils/retry.py and the types of app/core/balancer/types.py.
pub mod Blocked
use Prim.Native.String.{String, ◌++◌ as str_append}
use text.Mathlib.Text.{◌==◌ as str_eq}
use codex_lb_mod.Base.{
  Bool, Option, false, if◌then◌else◌, leb, none, or_default, or_else, some, true, ℕ, ◌*◌, ◌+◌, ◌-◌,
  ◌/◌, ◌^◌,
}
use codex_lb_mod.Balancer.State.{AccountState, AccountStatus, seconds}

pub record UpstreamError : Type 0 where
  pub message : Option String
  pub resets_at : Option ℕ
  pub resets_in_seconds : Option ℕ

-- `parse_retry_after` searches the message with a regular expression: a parameter. The jitter that
-- `random.uniform` draws is in percent.
pub record Draw : Type 0 where
  pub parse_retry_after : String → Option ℕ
  pub jitter : ℕ

-- `int(…)` of a time.
abbrev pub whole_second : ℕ → ℕ
whole_second t = t / 1000 * 1000

unfoldable pub backoff_delay : ℕ → ℕ → ℕ
backoff_delay jitter attempt = 200 * 2 ^ (attempt - 1) * jitter / 100

unfoldable pub extract_reset_at : ℕ → UpstreamError → Option ℕ
extract_reset_at now error = elim error.resets_at [
  | some t ↦ some (whole_second t)
  | none ↦ elim error.resets_in_seconds [ some d ↦ some (whole_second (now + d)) | none ↦ none ]
]

-- `parse_retry_after(message) if message else None`
unfoldable stated_delay : Draw → UpstreamError → Option ℕ
stated_delay draw error = elim error.message [
  | none ↦ none
  | some text ↦ if str_eq text "" then none else draw.parse_retry_after text
]

-- The reads of the clock in one call give one value, `now`.
unfoldable pub handle_rate_limit : Draw → ℕ → UpstreamError → AccountState → AccountState
unfolding extract_reset_at stated_delay
handle_rate_limit draw now error s = record s {
  status = AccountStatus.rate_limited;
  error_count = s.error_count + 1;
  last_error_at = some now;
  blocked_at = some now;
  reset_at = or_else (extract_reset_at now error) s.reset_at;
  cooldown_until =
      some (
        now + or_default (stated_delay draw error) (backoff_delay draw.jitter (s.error_count + 1)));
}

abbrev pub quota_exceeded_cooldown : ℕ
quota_exceeded_cooldown = 120000

unfoldable pub handle_quota_exceeded : ℕ → UpstreamError → AccountState → AccountState
unfolding extract_reset_at
handle_quota_exceeded now error s = record s {
  status = AccountStatus.quota_exceeded;
  used_percent = some 100;
  blocked_at = some now;
  cooldown_until = some (now + quota_exceeded_cooldown);
  reset_at = some (or_default (extract_reset_at now error) (whole_second (now + seconds 3600)));
}

unfoldable pub permanent_failure_reason : String → String
permanent_failure_reason code =
    if str_eq code "refresh_token_expired"
    then "Refresh token expired - re-login required"
    else if str_eq code "refresh_token_reused"
    then "Refresh token was reused - re-login required"
    else if str_eq code "refresh_token_invalidated"
    then "Refresh token was revoked - re-login required"
    else if str_eq code "token_expired"
    then "Authentication token expired - re-login required"
    else if str_eq code "account_deactivated"
    then "Account has been deactivated"
    else if str_eq code "account_suspended"
    then "Account has been suspended"
    else if str_eq code "account_deleted"
    then "Account has been deleted"
    else str_append "Authentication failed: " code

unfoldable pub handle_permanent_failure : String → AccountState → AccountState
handle_permanent_failure code s = record s {
  status = AccountStatus.deactivated;
  deactivation_reason = some (permanent_failure_reason code);
  blocked_at = none;
}

pub data FailureClass : Type 0 where
  rate_limit quota retryable_transient non_retryable : FailureClass

pub data FailoverAction : Type 0 where
  failover_next surface : FailoverAction

abbrev is_retryable : FailureClass → Bool
is_retryable rate_limit = true
is_retryable quota = true
is_retryable retryable_transient = true
is_retryable non_retryable = false

unfoldable pub failover_decision : FailureClass → Bool → ℕ → FailoverAction
failover_decision failure_class downstream_visible candidates_remaining =
    if downstream_visible
    then surface
    else if leb candidates_remaining 0
    then surface
    else if is_retryable failure_class
    then failover_next
    else surface

-- ===== src/Resilience/CircuitBreaker.antt =====
-- `CircuitBreaker` of app/core/resilience/circuit_breaker.py. A section under the lock is one
-- function of the breaker; `call` is the sections that it runs before and after the awaited work.
pub mod Invariant
pub mod Recovery
pub mod Probes
use codex_lb_mod.Base.{
  Bool, List, Option, [], false, if◌then◌else◌, leb, ltb, none, some, true, ℕ, ◌&&◌, ◌+◌, ◌∷◌,
}

pub data CircuitState : Type 0 where
  closed opened half_open : CircuitState

pub record CircuitBreaker : Type 0 where
  pub state : CircuitState
  pub failure_count : ℕ
  pub success_count : ℕ
  pub last_failure_time : Option ℕ
  pub half_open_probe_in_flight : Bool
  pub failure_threshold : ℕ
  pub recovery_timeout : ℕ
  pub success_threshold : ℕ

unfoldable pub new_breaker : ℕ → ℕ → ℕ → CircuitBreaker
new_breaker failure_threshold recovery_timeout success_threshold = record {
  state = closed;
  failure_count = 0;
  success_count = 0;
  last_failure_time = none;
  half_open_probe_in_flight = false;
  failure_threshold = failure_threshold;
  recovery_timeout = recovery_timeout;
  success_threshold = success_threshold;
}

-- `t is not None and now - t >= timeout`
abbrev pub timed_out : ℕ → ℕ → Option ℕ → Bool
timed_out now timeout none = false
timed_out now timeout (some t) = leb (t + timeout) now

-- The property `state`: an open breaker shows as half open once its timeout is over.
unfoldable state_at : ℕ → CircuitBreaker → CircuitState
state_at now b = elim b.state [
  | closed ↦ closed
  | opened ↦ if timed_out now b.recovery_timeout b.last_failure_time then half_open else opened
  | half_open ↦ half_open
]

pub data Admission : Type 0 where
  rejected : Admission
  admitted : Bool → Admission

-- `pre_call_check`: whether the call is a probe, or the `CircuitBreakerOpenError`.
unfoldable pub pre_call_check : ℕ → CircuitBreaker → CircuitBreaker × Admission
unfolding state_at
pre_call_check now b = elim (state_at now b) [
  | opened ↦ (b, rejected)
  | half_open ↦
      if b.half_open_probe_in_flight
      then (b, rejected)
      else (record b { half_open_probe_in_flight = true }, admitted true)
  | closed ↦ (b, admitted false)
]

unfoldable pub release_half_open_probe : CircuitBreaker → CircuitBreaker
release_half_open_probe b = record b { half_open_probe_in_flight = false }

unfoldable pub record_success : ℕ → CircuitBreaker → CircuitBreaker
unfolding state_at
record_success now b = elim (state_at now b) [
  | half_open ↦
      if leb b.success_threshold (b.success_count + 1)
      then record b { state = closed; failure_count = 0; success_count = 0 }
      else record b { success_count = b.success_count + 1 }
  | closed ↦ if ltb 0 b.failure_count then record b { failure_count = 0 } else b
  | opened ↦ b
]

-- The exceptions that a call can end with: an HTTP response error with its status, a timeout, an
-- exception with a `status_code`, any other. A cancellation is no `Exception`.
pub data CallError : Type 0 where
  response_error status_error : ℕ → CallError
  timeout_error other_error : CallError

unfoldable pub is_server_error : CallError → Bool
is_server_error (response_error status) = leb 500 status
is_server_error (status_error status) = leb 500 status
is_server_error timeout_error = true
is_server_error other_error = true

unfoldable pub record_failure : ℕ → CallError → CircuitBreaker → CircuitBreaker
unfolding is_server_error
record_failure now exc b =
    if is_server_error exc
    then record b {
      failure_count = b.failure_count + 1;
      last_failure_time = some now;
      success_count = 0;
      state = if leb b.failure_threshold (b.failure_count + 1) then opened else b.state;
    }
    else b

pub data CallResult : Type 0 where
  succeeded cancelled : CallResult
  raised : CallError → CallResult

-- The `try`/`except` of `call`; the `finally` is `release_half_open_probe`, for a probe.
unfoldable pub record_result : ℕ → CallResult → CircuitBreaker → CircuitBreaker
unfolding record_success record_failure
record_result now succeeded b = record_success now b
record_result now cancelled b = b
record_result now (raised exc) b = record_failure now exc b

abbrev pub is_open : CircuitState → Bool
is_open opened = true
is_open closed = false
is_open half_open = false

unfoldable all_open : ℕ → List CircuitBreaker → Bool
all_open now [] = true
all_open now (b ∷ bs) = is_open (state_at now b) && all_open now bs

-- `are_all_account_circuit_breakers_open`, for the breakers of the accounts.
unfoldable are_all_account_circuit_breakers_open : ℕ → List CircuitBreaker → Bool
unfolding all_open
are_all_account_circuit_breakers_open now [] = false
are_all_account_circuit_breakers_open now (b ∷ bs) = all_open now (b ∷ bs)

-- ===== src/Resilience/CircuitBreaker/Invariant.antt =====
-- The states that a breaker reaches (app/core/resilience/circuit_breaker.py).
use codex_lb_mod.Base.{List, [], arith, false, is_some, refl, true, ℕ, ◌<◌, ◌∷◌, ◌≡◌, ◌≤◌}
use codex_lb_mod.Resilience.CircuitBreaker.{
  CallError, CallResult, CircuitBreaker, CircuitState, cancelled, closed, half_open, new_breaker,
  opened, pre_call_check, raised, record_failure, record_result, record_success,
  release_half_open_probe, succeeded,
}

-- What the counts are in each stored state. The source never stores half open.
abbrev StateFits : CircuitState → CircuitBreaker → Type 0
StateFits closed b = b.failure_count < b.failure_threshold
StateFits opened b = (b.failure_threshold ≤ b.failure_count) × (is_some b.last_failure_time ≡ true)
StateFits half_open b = ⊥

-- A closed breaker is below its failure threshold; an open one has reached it and knows when it
-- last failed; the successes are below theirs.
pub record IsValid (b : CircuitBreaker) : Type 0 where
  pub fits : StateFits b.state b
  pub few : b.success_count < b.success_threshold

-- The accesses that other tasks can interleave, each atomic under the lock.
pub data Access : Type 0 where
  check : ℕ → Access
  finish : ℕ → CallResult → Access
  release : Access

unfoldable pub access : Access → CircuitBreaker → CircuitBreaker
access (check now) b = (pre_call_check now b).0
access (finish now r) b = record_result now r b
access release b = release_half_open_probe b

unfoldable pub accesses : List Access → CircuitBreaker → CircuitBreaker
accesses [] b = b
accesses (a ∷ as') b = accesses as' (access a b)

check-IsValid : (now : ℕ) (b : CircuitBreaker) → IsValid b → IsValid (pre_call_check now b).0
unfolding pre_call_check
check-IsValid now b v = ground arith

success-IsValid :
    (now : ℕ) (b : CircuitBreaker)
    → 0 < b.failure_threshold
    → IsValid b
    → IsValid (record_success now b)
unfolding record_success
success-IsValid now b p v = ground arith

pub failure-IsValid :
    (now : ℕ) (exc : CallError) (b : CircuitBreaker)
    → 0 < b.success_threshold
    → IsValid b
    → IsValid (record_failure now exc b)
unfolding record_failure
failure-IsValid now exc b p v = ground arith

abbrev thresholds : CircuitBreaker → ℕ × ℕ × ℕ
thresholds b = (b.failure_threshold, b.recovery_timeout, b.success_threshold)

thresholds-access : (a : Access) (b : CircuitBreaker) → thresholds (access a b) ≡ thresholds b
unfolding access pre_call_check record_result release_half_open_probe record_success record_failure
thresholds-access (check now) b = ground arith
thresholds-access (finish now succeeded) b = ground arith
thresholds-access (finish now cancelled) b = ground arith
thresholds-access (finish now (raised exc)) b = ground arith
thresholds-access release b = refl

access-IsValid :
    (a : Access) (b : CircuitBreaker)
    → 0 < b.failure_threshold
    → 0 < b.success_threshold
    → IsValid b
    → IsValid (access a b)
unfolding access record_result release_half_open_probe
access-IsValid (check now) b p q v = check-IsValid now b v
access-IsValid (finish now succeeded) b p q v = success-IsValid now b p v
access-IsValid (finish now cancelled) b p q v = v
access-IsValid (finish now (raised exc)) b p q v = failure-IsValid now exc b q v
access-IsValid release b p q v = record { fits = fits_lem b v; few = v.few }
  where
    fits_lem :
        (c : CircuitBreaker)
        → IsValid c
        → StateFits c.state (record c { half_open_probe_in_flight = false })
    fits_lem c w = ground arith

accesses-IsValid :
    (as' : List Access) (b : CircuitBreaker)
    → 0 < b.failure_threshold
    → 0 < b.success_threshold
    → IsValid b
    → IsValid (accesses as' b)
unfolding accesses
accesses-IsValid [] b p q v = v
accesses-IsValid (a ∷ as') b p q v =
    accesses-IsValid as' (access a b) (ground (arith, thresholds-access a b))
      (ground (arith, thresholds-access a b)) (access-IsValid a b p q v)

-- However the tasks interleave their accesses to a new breaker with positive thresholds, its
-- counts fit its state: closed below the failure threshold, open at or above it with the time of
-- the last failure, and never stored as half open.
pub new_breaker-IsValid :
    (failures timeout successes : ℕ) (as' : List Access)
    → 0 < failures
    → 0 < successes
    → IsValid (accesses as' (new_breaker failures timeout successes))
unfolding new_breaker
new_breaker-IsValid failures timeout successes as' p q =
    accesses-IsValid as' (new_breaker failures timeout successes) p q (record { fits = p; few = q })

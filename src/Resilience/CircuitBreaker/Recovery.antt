-- ===== src/Resilience/CircuitBreaker/Recovery.antt =====
-- Opening and recovery (app/core/resilience/circuit_breaker.py).
use codex_lb_mod.Base.{
  All, Bool-cases, List, [], ap, arith, inl, inr, leb, length, ltb, ltb→lt, refl, some, true, ℕ,
  ◌+◌, ◌<◌, ◌∙◌, ◌∷◌, ◌≡◌, ◌≤◌,
}
use codex_lb_mod.Resilience.CircuitBreaker.{
  CallError, CircuitBreaker, closed, is_open, is_server_error, opened, pre_call_check,
  record_failure, record_success, rejected, timed_out,
}
use codex_lb_mod.Resilience.CircuitBreaker.Invariant.{IsValid, failure-IsValid}

-- Server failures in a row, at the given times.
unfoldable pub fail_all : List (ℕ × CallError) → CircuitBreaker → CircuitBreaker
fail_all [] b = b
fail_all ((now, exc) ∷ rest) b = fail_all rest (record_failure now exc b)

abbrev AllServer : List (ℕ × CallError) → Type 0
AllServer = All (λ f. is_server_error f.1 ≡ true)

fail_all-count :
    (fs : List (ℕ × CallError)) (b : CircuitBreaker)
    → AllServer fs
    → (fail_all fs b).failure_count ≡ b.failure_count + length fs
unfolding fail_all record_failure
fail_all-count [] b h = omega arith
fail_all-count ((now, exc) ∷ rest) b h =
    ground (arith, fail_all-count rest (record_failure now exc b) h.1)

fail_all-threshold :
    (fs : List (ℕ × CallError)) (b : CircuitBreaker)
    → (fail_all fs b).failure_threshold ≡ b.failure_threshold
unfolding fail_all record_failure
fail_all-threshold [] b = refl
fail_all-threshold ((now, exc) ∷ rest) b =
    ground (arith, fail_all-threshold rest (record_failure now exc b))

failure-successes :
    (now : ℕ) (exc : CallError) (b : CircuitBreaker)
    → 0 < b.success_threshold
    → 0 < (record_failure now exc b).success_threshold
unfolding record_failure
failure-successes now exc b p = ground arith

fail_all-IsValid :
    (fs : List (ℕ × CallError)) (b : CircuitBreaker)
    → 0 < b.success_threshold
    → IsValid b
    → IsValid (fail_all fs b)
unfolding fail_all
fail_all-IsValid [] b p v = v
fail_all-IsValid ((now, exc) ∷ rest) b p v =
    fail_all-IsValid rest (record_failure now exc b) (failure-successes now exc b p)
      (failure-IsValid now exc b p v)

is_open_of_valid :
    (b : CircuitBreaker) → IsValid b → is_open b.state ≡ leb b.failure_threshold b.failure_count
is_open_of_valid b v = ground arith

-- Server errors in a row leave a valid breaker open exactly when they bring its count to the
-- threshold.
pub opens_at_threshold :
    (fs : List (ℕ × CallError)) (b : CircuitBreaker)
    → 0 < b.success_threshold
    → IsValid b
    → AllServer fs
    → is_open (fail_all fs b).state ≡ leb b.failure_threshold (b.failure_count + length fs)
opens_at_threshold fs b p v h = rw (
  is_open_of_valid (fail_all fs b) (fail_all-IsValid fs b p v),
  fail_all-threshold fs b,
  fail_all-count fs b h,
)

-- Until its timeout is over an open breaker rejects every call and is not changed by it.
opened_rejects :
    (now t : ℕ) (b : CircuitBreaker)
    → b.state ≡ opened
    → b.last_failure_time ≡ some t
    → now < t + b.recovery_timeout
    → pre_call_check now b ≡ (b, rejected)
unfolding pre_call_check
opened_rejects now t b s l h = ground arith

-- A server error while a valid breaker is open or half open starts the timeout again.
pub failure_reopens :
    (now later : ℕ) (exc : CallError) (b : CircuitBreaker)
    → IsValid b
    → b.state ≡ opened
    → is_server_error exc ≡ true
    → later < now + b.recovery_timeout
    → (pre_call_check later (record_failure now exc b)).1 ≡ rejected
unfolding pre_call_check record_failure
failure_reopens now later exc b v s h k = ground arith

-- Successes, at the given times.
unfoldable pub succeed_all : List ℕ → CircuitBreaker → CircuitBreaker
succeed_all [] b = b
succeed_all (now ∷ rest) b = succeed_all rest (record_success now b)

succeed_all-closed :
    (ts : List ℕ) (b : CircuitBreaker) → b.state ≡ closed → (succeed_all ts b).state ≡ closed
unfolding succeed_all record_success
succeed_all-closed [] b h = h
succeed_all-closed (now ∷ rest) b h = succeed_all-closed rest (record_success now b) (ground arith)

record_success-last :
    (now : ℕ) (b : CircuitBreaker)
    → b.state ≡ opened
    → timed_out now b.recovery_timeout b.last_failure_time ≡ true
    → b.success_threshold ≤ b.success_count + 1
    → (record_success now b).state ≡ closed
unfolding record_success
record_success-last now b s t h = ground arith

record_success-next :
    (now : ℕ) (b : CircuitBreaker)
    → b.state ≡ opened
    → timed_out now b.recovery_timeout b.last_failure_time ≡ true
    → b.success_count + 1 < b.success_threshold
    → record_success now b ≡ record b { success_count = b.success_count + 1 }
unfolding record_success
record_success-next now b s t h = ground arith

-- Once the timeout of an open breaker is over, successes close it exactly when they bring its
-- count of successes to the threshold.
pub closes_at_threshold :
    (ts : List ℕ) (b : CircuitBreaker)
    → b.state ≡ opened
    → All (λ now. timed_out now b.recovery_timeout b.last_failure_time ≡ true) ts
    → b.success_count < b.success_threshold
    → is_open (succeed_all ts b).state ≡ ltb (b.success_count + length ts) b.success_threshold
unfolding succeed_all
closes_at_threshold [] b s t h = ground arith
closes_at_threshold (now ∷ rest) b s t h =
    elim (Bool-cases (ltb (b.success_count + 1) b.success_threshold)) [
      | inl more ↦
          ap (λ c. is_open (succeed_all rest c).state)
            (record_success-next now b s t.0 (ltb→lt _ _ more))
          ∙ closes_at_threshold rest (record b { success_count = b.success_count + 1 }) s t.1
              (ltb→lt _ _ more)
          ∙ ap (λ n. ltb n b.success_threshold) (omega arith)
      | inr last ↦
          ap is_open (
            succeed_all-closed rest (record_success now b)
              (record_success-last now b s t.0 (ground arith)))
          ∙ ground arith
    ]

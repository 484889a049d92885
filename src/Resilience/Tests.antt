-- ===== src/Resilience/Tests.antt =====
-- The circuit breaker and the retry budget at concrete values.
use codex_lb_mod.Base.{[], arith, false, length, none, refl, select, some, true, ◌∷◌, ◌≡◌, ◌≤◌}
use codex_lb_mod.Resilience.CircuitBreaker.{
  CircuitBreaker, closed, new_breaker, opened, pre_call_check, raised, timeout_error,
}
use codex_lb_mod.Resilience.CircuitBreaker.Invariant.{
  IsValid, accesses, check, finish, new_breaker-IsValid,
}
use codex_lb_mod.Resilience.CircuitBreaker.Probes.{enter, flag, here, next, one_probe}
use codex_lb_mod.Resilience.RetryBudget.{RetryBudget, is_recent}
use codex_lb_mod.Resilience.RetryBudget.Window.{grants, grants_bounded}

abbrev fresh : CircuitBreaker
fresh = record {
  state = closed;
  failure_count = 0;
  success_count = 0;
  last_failure_time = none;
  half_open_probe_in_flight = false;
  failure_threshold = 2;
  recovery_timeout = 1000;
  success_threshold = 2;
}

fresh-IsValid : IsValid fresh
fresh-IsValid = record { fits = omega arith; few = omega arith }

abbrev tripped : CircuitBreaker
tripped = record fresh { state = opened; failure_count = 2; last_failure_time = some 500 }

tripped-IsValid : IsValid tripped
tripped-IsValid = record { fits = (omega arith, refl); few = omega arith }

new_breaker-IsValid_example :
    IsValid (accesses (check 10 ∷ finish 20 (raised timeout_error) ∷ []) (new_breaker 2 1000 2))
new_breaker-IsValid_example =
    new_breaker-IsValid 2 1000 2 (check 10 ∷ finish 20 (raised timeout_error) ∷ []) (omega arith)
      (omega arith)

abbrev probed : CircuitBreaker
probed = record tripped { half_open_probe_in_flight = true }

one_probe_example : (1 ≤ 1) × (1 ≡ flag true)
unfolding pre_call_check
one_probe_example = one_probe tripped refl (
    next {q = record { breaker = tripped; calls = [] }}
      {r = record { breaker = probed; calls = true ∷ [] }} here (enter 1600 true refl))

abbrev budget : RetryBudget
budget = record { max_retries = 2; window = 1000; retry_timestamps = 100 ∷ 1500 ∷ [] }

grants_bounded_example :
    length (
      select (is_recent 900 1000) (
        grants
          (100 ∷ 200 ∷ 300 ∷ [])
          (record { max_retries = 2; window = 1000; retry_timestamps = [] })))
    ≤ 2
grants_bounded_example =
    grants_bounded 2 1000 0 900 (100 ∷ 200 ∷ 300 ∷ [])
      (omega arith, (omega arith, (omega arith, omega arith)))

-- ===== src/RateLimiter/Tests.antt =====
-- The rate limiter at a concrete table.
use codex_lb_mod.Base.{none, some, List, [], ◌∷◌, ◌≡◌, ◌≤◌}
use codex_lb_mod.RateLimiter.{
  Attempt, DatabaseRateLimiter, attempt, check, check_and_increment, check_and_record, count,
}
use codex_lb_mod.RateLimiter.Limit.{attempts_bounded, calls, increment}
use codex_lb_mod.RateLimiter.Checks.{checks_agree}

abbrev limiter : DatabaseRateLimiter
limiter = record { max_attempts = 2; window_seconds = 60; limiter_type = 1 }

abbrev first : Attempt
first = record { attempt_key = 5; attempt_type = 1; attempted_at = 10000 }

abbrev attempts : List Attempt
attempts = record first { attempted_at = 20000 } ∷ first ∷ []

attempts_bounded_example :
    count limiter 5
      (calls limiter ((10, increment 5) ∷ (10, increment 5) ∷ (10, increment 5) ∷ []) 0 []).0
      (calls limiter ((10, increment 5) ∷ (10, increment 5) ∷ (10, increment 5) ∷ []) 0 []).1
    ≤ 2
attempts_bounded_example =
    attempts_bounded limiter ((10, increment 5) ∷ (10, increment 5) ∷ (10, increment 5) ∷ []) 0 5

checks_agree_example :
    (check limiter 5 30000 30000 attempts ≡ (check_and_increment limiter 5 30000 attempts).1)
    × (check limiter 5 30000 30000 attempts ≡ (check_and_record limiter 5 30000 attempts).1)
    × ((check_and_record limiter 5 30000 attempts).0 ≡ attempt limiter 5 30000 ∷ attempts)
    × ((check_and_increment limiter 5 30000 attempts).0
        ≡ elim (check limiter 5 30000 30000 attempts) [
          | none ↦ (check_and_record limiter 5 30000 attempts).0
          | some hint ↦ attempts
        ])
checks_agree_example = checks_agree limiter 5 30000 attempts

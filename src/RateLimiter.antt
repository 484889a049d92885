-- ===== src/RateLimiter.antt =====
-- `DatabaseRateLimiter` of app/core/rate_limiter/db_rate_limiter.py. The table of attempts is a list,
-- newest first; keys and types are numbers; a call reads the clock once, but `check`, which reads it
-- again for the hint, has both times. The lock, or the single INSERT … SELECT, makes a call one step.
pub mod Limit
pub mod Checks
mod Tests
use codex_lb_mod.Base.{
  Bool, List, Option, [], if◌then◌else◌, leb, length, ltb, max, min, none, not, select, some, ℕ,
  ◌&&◌, ◌+◌, ◌-◌, ◌/◌, ◌==◌, ◌∷◌,
}
use codex_lb_mod.Balancer.State.{seconds}

pub record Attempt : Type 0 where
  pub attempt_key : ℕ
  pub attempt_type : ℕ
  pub attempted_at : ℕ

pub record DatabaseRateLimiter : Type 0 where
  pub max_attempts : ℕ
  pub window_seconds : ℕ
  pub limiter_type : ℕ

-- The constructor, which raises on a limit or a window that is not positive.
unfoldable new_limiter : ℕ → ℕ → ℕ → Option DatabaseRateLimiter
new_limiter max_attempts window_seconds type =
    if max_attempts == 0
    then none
    else if window_seconds == 0
    then none
    else some (record {
      max_attempts = max_attempts;
      window_seconds = window_seconds;
      limiter_type = type;
    })

abbrev pub same_key : DatabaseRateLimiter → ℕ → Attempt → Bool
same_key l key a = a.attempt_key == key && a.attempt_type == l.limiter_type

-- The condition of each query, with `attempted_at >= now - window`.
abbrev pub in_window : DatabaseRateLimiter → ℕ → ℕ → Attempt → Bool
in_window l key now a = same_key l key a && leb now (a.attempted_at + seconds l.window_seconds)

-- SELECT count(*)
abbrev pub count : DatabaseRateLimiter → ℕ → ℕ → List Attempt → ℕ
count l key now attempts = length (select (in_window l key now) attempts)

-- ORDER BY attempted_at ASC LIMIT 1
abbrev pub oldest : List Attempt → Option ℕ
oldest [] = none
oldest (a ∷ attempts) = elim (oldest attempts) [
  | none ↦ some a.attempted_at
  | some t ↦ some (min a.attempted_at t)
]

-- The hint of the error, at a second reading of the clock.
unfoldable pub retry_after : DatabaseRateLimiter → ℕ → Option ℕ → ℕ
retry_after l now none = l.window_seconds
retry_after l now (some t) = max 1 ((t + seconds l.window_seconds - now) / 1000)

abbrev hint_of : DatabaseRateLimiter → ℕ → ℕ → ℕ → List Attempt → ℕ
hint_of l key now later attempts =
    retry_after l later (oldest (select (in_window l key now) attempts))

-- The result of a call is `some` hint where it raises.
unfoldable pub check : DatabaseRateLimiter → ℕ → ℕ → ℕ → List Attempt → Option ℕ
check l key now later attempts =
    if leb l.max_attempts (count l key now attempts)
    then some (hint_of l key now later attempts)
    else none

abbrev pub attempt : DatabaseRateLimiter → ℕ → ℕ → Attempt
attempt l key now = record { attempt_key = key; attempt_type = l.limiter_type; attempted_at = now }

unfoldable pub check_and_increment :
    DatabaseRateLimiter → ℕ → ℕ → List Attempt → List Attempt × Option ℕ
check_and_increment l key now attempts =
    if ltb (count l key now attempts) l.max_attempts
    then (attempt l key now ∷ attempts, none)
    else (attempts, some (hint_of l key now now attempts))

unfoldable pub record_failure : DatabaseRateLimiter → ℕ → ℕ → List Attempt → List Attempt × Option ℕ
record_failure l key now attempts =
    let recorded = attempt l key now ∷ attempts in
    (
      recorded,
      if ltb l.max_attempts (count l key now recorded)
          then some (hint_of l key now now recorded)
          else none,
    )

unfoldable pub clear_for_key : DatabaseRateLimiter → ℕ → List Attempt → List Attempt
clear_for_key l key = select (λ a. not (same_key l key a))

-- The count and the oldest attempt are read before the new one is recorded.
unfoldable pub check_and_record :
    DatabaseRateLimiter → ℕ → ℕ → List Attempt → List Attempt × Option ℕ
check_and_record l key now attempts = (
  attempt l key now ∷ attempts,
  if leb l.max_attempts (count l key now attempts)
      then some (hint_of l key now now attempts)
      else none,
)

unfoldable pub cleanup : ℕ → ℕ → List Attempt → List Attempt
cleanup now older_than_seconds = select (λ a. leb now (a.attempted_at + seconds older_than_seconds))

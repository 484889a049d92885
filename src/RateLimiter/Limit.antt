-- ===== src/RateLimiter/Limit.antt =====
-- The bound that `DatabaseRateLimiter` keeps (app/core/rate_limiter/db_rate_limiter.py).
use codex_lb_mod.Base.{
  ==_iff, Bool, Bool-cases, List, [], arith, inl, inr, leb, length, ltb, not, select, subst, ℕ, ◌+◌,
  ◌==◌, ◌∷◌, ◌≤◌,
}
use codex_lb_mod.Balancer.State.{seconds}
use codex_lb_mod.RateLimiter.{
  Attempt, DatabaseRateLimiter, attempt, check_and_increment, cleanup, clear_for_key, count,
  in_window, same_key,
}

-- The calls that count failures only through `check_and_increment`.
pub data Call : Type 0 where
  increment clear : ℕ → Call
  sweep : ℕ → Call

unfoldable call : DatabaseRateLimiter → ℕ → Call → List Attempt → List Attempt
call l now (increment key) attempts = (check_and_increment l key now attempts).0
call l now (clear key) attempts = clear_for_key l key attempts
call l now (sweep older_than) attempts = cleanup now older_than attempts

-- A run of calls, each with the time that passed since the one before; the result has the clock.
unfoldable pub calls : DatabaseRateLimiter → List (ℕ × Call) → ℕ → List Attempt → ℕ × List Attempt
unfolding call
calls l [] now attempts = (now, attempts)
calls l ((passed, c) ∷ cs) now attempts =
    calls l cs (now + passed) (call l (now + passed) c attempts)

abbrev IsLimited : DatabaseRateLimiter → ℕ → List Attempt → Type 0
IsLimited l now attempts = (key : ℕ) → count l key now attempts ≤ l.max_attempts

count-later :
    (l : DatabaseRateLimiter) (key now passed : ℕ) (attempts : List Attempt)
    → count l key (now + passed) attempts ≤ count l key now attempts
count-later l key now passed [] = omega arith
count-later l key now passed (a ∷ rest) = ground (arith, count-later l key now passed rest)

select-fewer :
    (p q : Attempt → Bool) (attempts : List Attempt)
    → length (select p (select q attempts)) ≤ length (select p attempts)
select-fewer p q [] = omega arith
select-fewer p q (a ∷ rest) = ground (arith, select-fewer p q rest)

increment-IsLimited :
    (l : DatabaseRateLimiter) (now k : ℕ) (attempts : List Attempt)
    → IsLimited l now attempts
    → IsLimited l now (check_and_increment l k now attempts).0
unfolding check_and_increment
increment-IsLimited l now k attempts h key =
    elim (Bool-cases (ltb (count l k now attempts) l.max_attempts)) [
      | inr full ↦ rw (check_and_increment, full) (h key)
      | inl room ↦ elim (Bool-cases (k == key)) [
        | inl same ↦
            rw (check_and_increment, room)
              (subst (λ i. count l i now (attempt l k now ∷ attempts) ≤ l.max_attempts)
                ((==_iff k key).0 same) (ground arith))
        | inr other ↦ rw (check_and_increment, room) (ground (arith, h key))
      ]
    ]

call-IsLimited :
    (l : DatabaseRateLimiter) (now : ℕ) (c : Call) (attempts : List Attempt)
    → IsLimited l now attempts
    → IsLimited l now (call l now c attempts)
unfolding call check_and_increment clear_for_key cleanup
call-IsLimited l now (increment k) attempts h key = increment-IsLimited l now k attempts h key
call-IsLimited l now (clear k) attempts h key =
    ground (arith, h key, select-fewer (in_window l key now) (λ a. not (same_key l k a)) attempts)
call-IsLimited l now (sweep older) attempts h key = ground (
  arith,
  h key,
  select-fewer (in_window l key now) (λ a. leb now (a.attempted_at + seconds older)) attempts,
)

calls-IsLimited :
    (l : DatabaseRateLimiter) (cs : List (ℕ × Call)) (now : ℕ) (attempts : List Attempt)
    → IsLimited l now attempts
    → IsLimited l (calls l cs now attempts).0 (calls l cs now attempts).1
unfolding calls
calls-IsLimited l [] now attempts h = h
calls-IsLimited l ((passed, c) ∷ cs) now attempts h =
    calls-IsLimited l cs (now + passed) (call l (now + passed) c attempts) (
      call-IsLimited l (now + passed) c attempts
        (λ key. ground (arith, h key, count-later l key now passed attempts)))

-- From an empty table, however `check_and_increment`, `clear_for_key` and `cleanup` follow one
-- another at times that do not go back, the recorded attempts of a key within the window never
-- exceed the maximum.
pub attempts_bounded :
    (l : DatabaseRateLimiter) (cs : List (ℕ × Call)) (now key : ℕ)
    → count l key (calls l cs now []).0 (calls l cs now []).1 ≤ l.max_attempts
attempts_bounded l cs now key = calls-IsLimited l cs now [] (λ k. omega arith) key

-- ===== src/RateLimiter/Checks.antt =====
-- The calls of app/core/rate_limiter/db_rate_limiter.py agree with one another.
use codex_lb_mod.Base.{
  ==_iff, All, Bool, Bool-cases, List, Option, [], ap, arith, false, if◌then◌else◌, inl, inr, leb,
  ltb, none, not, or_default, refl, select, some, some_inj, subst, true, ℕ, ◌+◌, ◌<◌, ◌==◌, ◌∷◌,
  ◌≡◌, ◌≤◌,
}
use codex_lb_mod.Balancer.State.{seconds}
use codex_lb_mod.RateLimiter.{
  Attempt, DatabaseRateLimiter, attempt, check, check_and_increment, check_and_record, cleanup,
  clear_for_key, count, in_window, oldest, retry_after, same_key,
}

-- At one reading of the clock the three calls raise in the same tables, with the same hint. One that
-- does not raise records the attempt if it records at all; of those that raise, `check_and_record`
-- records the attempt all the same and `check_and_increment` leaves the table as it is.
pub checks_agree :
    (l : DatabaseRateLimiter) (key now : ℕ) (attempts : List Attempt)
    → (check l key now now attempts ≡ (check_and_increment l key now attempts).1)
      × (check l key now now attempts ≡ (check_and_record l key now attempts).1)
      × ((check_and_record l key now attempts).0 ≡ attempt l key now ∷ attempts)
      × ((check_and_increment l key now attempts).0 ≡ elim (check l key now now attempts) [
        | none ↦ (check_and_record l key now attempts).0
        | some hint ↦ attempts
      ])
unfolding check check_and_increment check_and_record
checks_agree l key now attempts =
    elim (Bool-cases (ltb (count l key now attempts) l.max_attempts)) [
      | inl room ↦ ground arith
      | inr full ↦ ground arith
    ]

-- The attempts of a query that another query keeps are all there after it.
select-select :
    (p q : Attempt → Bool) (attempts : List Attempt)
    → ((a : Attempt) → p a ≡ true → q a ≡ true)
    → select p (select q attempts) ≡ select p attempts
select-select p q [] h = refl
select-select p q (a ∷ rest) h = elim (Bool-cases (q a)) [
  | inl kept ↦ rw kept (ap (λ tail. if p a then a ∷ tail else tail) (select-select p q rest h))
  | inr gone ↦ elim (Bool-cases (p a)) [
    | inl taken ↦ absurd (cc (gone, h a taken))
    | inr missed ↦ rw (gone, missed) (select-select p q rest h)
  ]
]

select-disjoint :
    (p q : Attempt → Bool) (attempts : List Attempt)
    → ((a : Attempt) → q a ≡ true → p a ≡ false)
    → select p (select q attempts) ≡ []
select-disjoint p q [] h = refl
select-disjoint p q (a ∷ rest) h = elim (Bool-cases (q a)) [
  | inl kept ↦ rw (kept, h a kept) (select-disjoint p q rest h)
  | inr gone ↦ rw gone (select-disjoint p q rest h)
]

-- A cleanup of what is older than the window changes no check.
pub cleanup-check :
    (l : DatabaseRateLimiter) (key now later older_than : ℕ) (attempts : List Attempt)
    → l.window_seconds ≤ older_than
    → check l key now later (cleanup now older_than attempts) ≡ check l key now later attempts
unfolding check cleanup
cleanup-check l key now later older_than attempts h =
    rw
      (select-select (in_window l key now) (λ a. leb now (a.attempted_at + seconds older_than))
        attempts (λ a t. ground arith))
      refl

-- After `clear_for_key` no check of that key raises, where at least one attempt is allowed, and the
-- checks of every other key are as before.
pub clear_for_key-check :
    (l : DatabaseRateLimiter) (key other now later : ℕ) (attempts : List Attempt)
    → 0 < l.max_attempts
    → check l other now later (clear_for_key l key attempts)
      ≡ (if key == other then none else check l other now later attempts)
unfolding check clear_for_key
clear_for_key-check l key other now later attempts h = elim (Bool-cases (key == other)) [
  | inl same ↦
      rw
        (
          same,
          select-disjoint (in_window l other now) (λ a. not (same_key l key a)) attempts
              (λ a t. ground (arith, (==_iff key other).0 same)),
        )
        (ground arith)
  | inr differ ↦
      rw
        (
          differ,
          select-select (in_window l other now) (λ a. not (same_key l key a)) attempts
              (λ a t. ground arith),
        )
        refl
]

oldest-bound :
    (p : Attempt → Bool) (latest : ℕ) (attempts : List Attempt)
    → All (λ a. a.attempted_at ≤ latest) attempts
    → or_default (oldest (select p attempts)) 0 ≤ latest
oldest-bound p latest [] h = omega arith
oldest-bound p latest (a ∷ rest) h = ground (arith, oldest-bound p latest rest h.1)

retry_after-bounds :
    (l : DatabaseRateLimiter) (later : ℕ) (first : Option ℕ)
    → 0 < l.window_seconds
    → or_default first 0 ≤ later
    → (1 ≤ retry_after l later first) × (retry_after l later first ≤ l.window_seconds)
unfolding retry_after
retry_after-bounds l later none w h = (omega arith, omega arith)
retry_after-bounds l later (some t) w h = (omega arith, omega arith)

-- The hint of an error of `check` is at least one second and at most the window, where the window
-- is positive and no recorded attempt is later than the clock.
pub check-hint :
    (l : DatabaseRateLimiter) (key now later hint : ℕ) (attempts : List Attempt)
    → 0 < l.window_seconds
    → All (λ a. a.attempted_at ≤ later) attempts
    → check l key now later attempts ≡ some hint
    → (1 ≤ hint) × (hint ≤ l.window_seconds)
unfolding check
check-hint l key now later hint attempts w past h =
    elim (Bool-cases (leb l.max_attempts (count l key now attempts))) [
      | inr room ↦ cc (rw room at h)
      | inl full ↦
          subst (λ n. (1 ≤ n) × (n ≤ l.window_seconds)) (some_inj (rw full at h))
            (retry_after-bounds l later (oldest (select (in_window l key now) attempts)) w
              (oldest-bound (in_window l key now) later attempts past))
    ]

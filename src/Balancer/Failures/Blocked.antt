-- ===== src/Balancer/Failures/Blocked.antt =====
-- How long a failure keeps an account out of the selection (app/core/balancer/logic.py).
use Prim.Native.String.{String}
use codex_lb_mod.Base.{
  Bool, ap, arith, false, not, refl, some, suc, ℕ, ◌&&◌, ◌*◌, ◌+◌, ◌-◌, ◌<◌, ◌^◌, ◌↔◌, ◌≡◌, ◌≢◌,
  ◌≤◌,
}
use codex_lb_mod.Balancer.State.{AccountState, AccountStatus, ahead, due}
use codex_lb_mod.Balancer.Eligibility.{
  admit_status, clear_cooldown, hold_back, is_available, skipped, visit,
}
use codex_lb_mod.Balancer.Failures.{
  Draw, FailureClass, UpstreamError, backoff_delay, failover_decision, failover_next,
  handle_permanent_failure, handle_quota_exceeded, handle_rate_limit, non_retryable, quota,
  rate_limit, retryable_transient,
}

-- Whether a failure's reset and cooldown are both over.
abbrev pub is_over : ℕ → AccountState → Bool
is_over t s = due t s.reset_at && not (ahead t s.cooldown_until)

visit-rate_limited :
    (t : ℕ) (s : AccountState)
    → s.status ≡ AccountStatus.rate_limited
    → is_available (visit t s).1 ≡ is_over t s
unfolding visit admit_status clear_cooldown hold_back
visit-rate_limited t s h = ground arith

visit-quota_exceeded :
    (t c : ℕ) (s : AccountState)
    → s.status ≡ AccountStatus.quota_exceeded
    → s.cooldown_until ≡ some (suc c)
    → is_available (visit t s).1 ≡ is_over t s
unfolding visit admit_status clear_cooldown hold_back
visit-quota_exceeded t c s h k = ground arith

-- After a rate limit the account is available again exactly when the reset time is known and over,
-- and no cooldown lies ahead.
pub rate_limit_blocks :
    (draw : Draw) (now : ℕ) (error : UpstreamError) (s : AccountState) (t : ℕ)
    → is_available (visit t (handle_rate_limit draw now error s)).1
      ≡ is_over t (handle_rate_limit draw now error s)
unfolding handle_rate_limit
rate_limit_blocks draw now error s t =
    visit-rate_limited t (handle_rate_limit draw now error s) refl

-- After an exceeded quota the account is available again exactly when its reset is over and its
-- cooldown of 120 seconds is over; however many errors it had before.
pub quota_blocks :
    (now : ℕ) (error : UpstreamError) (s : AccountState) (t : ℕ)
    → is_available (visit t (handle_quota_exceeded now error s)).1
      ≡ is_over t (handle_quota_exceeded now error s)
unfolding handle_quota_exceeded
quota_blocks now error s t =
    visit-quota_exceeded t (now + 119999) (handle_quota_exceeded now error s) refl
      (ap some (omega arith))

-- A permanent failure keeps the account out at every time, and no visit changes it.
permanent_failure_blocks :
    (code : String) (s : AccountState) (t : ℕ)
    → visit t (handle_permanent_failure code s) ≡ (handle_permanent_failure code s, skipped)
unfolding visit admit_status handle_permanent_failure
permanent_failure_blocks code s t = refl

-- A request moves to another account exactly when nothing has reached the client, an account is
-- left, and the failure is of a retryable class.
failover_iff :
    (c : FailureClass) (visible : Bool) (left : ℕ)
    → (failover_decision c visible left ≡ failover_next)
      ↔ ((visible ≡ false) × (0 < left) × (c ≢ non_retryable))
unfolding failover_decision
failover_iff rate_limit visible left = ground arith
failover_iff quota visible left = ground arith
failover_iff retryable_transient visible left = ground arith
failover_iff non_retryable visible left = ground arith

-- The backoff stays within a tenth of 200 ms doubled for every earlier attempt, for a jitter
-- between 90 and 110 percent.
backoff_bounds :
    (jitter attempt : ℕ)
    → 90 ≤ jitter
    → jitter ≤ 110
    → (180 * 2 ^ (attempt - 1) ≤ backoff_delay jitter attempt)
      × (backoff_delay jitter attempt ≤ 220 * 2 ^ (attempt - 1))
unfolding backoff_delay
backoff_bounds jitter attempt h k = grind arith

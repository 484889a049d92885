-- ===== src/Quota/Laws.antt =====
-- What `apply_usage_quota` makes of a status (app/core/usage/quota.py).
use codex_lb_mod.Base.{
  Bool, Option, arith, false, if◌then◌else◌, leb, none, not, some, true, ℕ, ◌||◌, ◌≡◌, ◌⊎◌,
}
use codex_lb_mod.Balancer.State.{AccountStatus, ahead, same_status}
use codex_lb_mod.Quota.{
  QuotaInput, apply_primary, apply_secondary, apply_usage_quota, fallback_primary_reset,
}

abbrev pub exhausted : Option ℕ → Bool
exhausted none = false
exhausted (some used) = leb 100 used

abbrev pub managed : AccountStatus → Bool
managed status =
    not (same_status status AccountStatus.deactivated || same_status status AccountStatus.paused)

-- An exhausted window blocks an account that is neither paused nor deactivated, the secondary one
-- before the primary one, and its percentage becomes 100.
pub exhausted_blocks :
    (now : ℕ) (status : AccountStatus) (q : QuotaInput)
    → managed status ≡ true
    → exhausted q.secondary_used || exhausted q.primary_used ≡ true
    → ((apply_usage_quota now status q).result_status ≡ (
        if exhausted q.secondary_used
        then AccountStatus.quota_exceeded
        else AccountStatus.rate_limited))
      × ((apply_usage_quota now status q).result_used ≡ some 100)
unfolding apply_usage_quota apply_secondary apply_primary
exhausted_blocks now status q m h = ground arith

-- The rest is blocked only where it was: with no window exhausted, a status which the call changes
-- becomes active, without a reset time, from one of the two blocks, and not before its reset.
pub only_clears :
    (now : ℕ) (status : AccountStatus) (q : QuotaInput)
    → exhausted q.secondary_used || exhausted q.primary_used ≡ false
    → ((apply_usage_quota now status q).result_status ≡ status)
      ⊎ ((apply_usage_quota now status q).result_status ≡ AccountStatus.active)
        × ((apply_usage_quota now status q).result_reset ≡ none)
        × (ahead now q.runtime_reset ≡ false)
        × ((status ≡ AccountStatus.rate_limited) ⊎ (status ≡ AccountStatus.quota_exceeded))
unfolding apply_usage_quota apply_secondary apply_primary
only_clears now status q h = ground arith

-- A second call at the same time, on the status and the reset time of the first, changes nothing.
pub apply_twice :
    (now : ℕ) (status : AccountStatus) (q : QuotaInput)
    → apply_usage_quota now
        (apply_usage_quota now status q).result_status
        (record q { runtime_reset = (apply_usage_quota now status q).result_reset })
      ≡ apply_usage_quota now status q
unfolding apply_usage_quota apply_secondary apply_primary fallback_primary_reset
apply_twice now status q = ground arith

-- ===== src/LoadBalancer/Marks/Waits.antt =====
-- A rate limit that the upstream reports keeps the account out until its reset
-- (app/modules/proxy/load_balancer.py, app/core/usage/quota.py, app/core/balancer/logic.py).
use codex_lb_mod.Base.{
  Bool-cases, Option, Table, ap, arith, false, inl, inr, none, refl, some, suc, zero, ℕ, ◌<◌, ◌∙◌,
  ◌≡◌,
}
use codex_lb_mod.Balancer.State.{AccountState, AccountStatus}
use codex_lb_mod.Balancer.Eligibility.{admit_status, skipped, visit}
use codex_lb_mod.Balancer.Failures.{
  Draw, UpstreamError, extract_reset_at, handle_rate_limit, whole_second,
}
use codex_lb_mod.Quota.{QuotaInput, apply_primary, apply_secondary, apply_usage_quota}
use codex_lb_mod.Quota.Laws.{exhausted}
use codex_lb_mod.LoadBalancer.Accounts.{Account, UsageHistory}
use codex_lb_mod.LoadBalancer.Plans.{should_use_weekly_primary}
use codex_lb_mod.LoadBalancer.States.{
  RuntimeState, Settings, Usage, clears_early, cooldown_ready, effective_secondary, field_of,
  guarding_reset, is_later, quota_input, quota_of, runtime_of, state_from_account, state_of,
}
use codex_lb_mod.LoadBalancer.Runtime.{state_for}
use codex_lb_mod.LoadBalancer.Persist.{stored_time}
use codex_lb_mod.LoadBalancer.Marks.{LoadBalancer, mark_rate_limit}
use codex_lb_mod.LoadBalancer.Marks.Kept.{mark_with-held}

-- The latest usage is below its limit, and none of the primary window came after the block.
pub record IsNoReason (usage : Usage) (row : Account) : Type 0 where
  pub primary_left :
      exhausted (field_of (λ e. e.used_percent) (usage.latest_primary row.id)) ≡ false
  pub secondary_left :
      exhausted (field_of (λ e. e.used_percent) (usage.latest_secondary row.id)) ≡ false
  pub not_fresher :
      is_later (field_of (λ e. e.recorded_at) (usage.latest_primary row.id)) row.blocked_at ≡ false

guarding_reset-rate_limited :
    (now : ℕ) (settings : Settings) (row : Account) (primary_entry secondary : Option UsageHistory)
    (r : RuntimeState) (t u : ℕ)
    → row.status ≡ AccountStatus.rate_limited
    → row.reset_at ≡ some t
    → 0 < t
    → row.blocked_at ≡ some u
    → is_later (field_of (λ e. e.recorded_at) primary_entry) (some u) ≡ false
    → guarding_reset now settings row primary_entry secondary r ≡ some t
unfolding guarding_reset clears_early cooldown_ready
guarding_reset-rate_limited now settings row primary_entry secondary r zero u status reset positive
      blocked stale =
    absurd (omega arith)
guarding_reset-rate_limited now settings row primary_entry secondary r (suc t) u status reset
      positive blocked stale =
    rw (status, reset, blocked, stale) (ground arith)

apply_usage_quota-waits :
    (now t : ℕ) (status : AccountStatus) (q : QuotaInput)
    → status ≡ AccountStatus.rate_limited
    → exhausted q.primary_used ≡ false
    → exhausted q.secondary_used ≡ false
    → q.runtime_reset ≡ some t
    → now < t
    → ((apply_usage_quota now status q).result_status ≡ AccountStatus.rate_limited)
      × ((apply_usage_quota now status q).result_reset ≡ some t)
unfolding apply_usage_quota apply_secondary apply_primary
apply_usage_quota-waits now t status q e p s reset h = ground arith

visit-waits :
    (now t : ℕ) (s : AccountState)
    → s.status ≡ AccountStatus.rate_limited
    → s.reset_at ≡ some t
    → now < t
    → (visit now s).1 ≡ skipped
unfolding visit admit_status
visit-waits now t s status reset h = ground arith

effective_secondary-left :
    (primary_entry secondary_entry : Option UsageHistory)
    → exhausted (field_of (λ e. e.used_percent) primary_entry) ≡ false
    → exhausted (field_of (λ e. e.used_percent) secondary_entry) ≡ false
    → exhausted (field_of (λ e. e.used_percent) (effective_secondary primary_entry secondary_entry))
      ≡ false
unfolding effective_secondary
effective_secondary-left none secondary_entry p s = s
effective_secondary-left (some e) secondary_entry p s =
    elim (Bool-cases (should_use_weekly_primary e secondary_entry)) [
      | inl weekly ↦ rw weekly p
      | inr both ↦ rw both s
    ]

state_waits :
    (later : ℕ) (settings : Settings) (usage : Usage) (row : Account) (runtime : Table RuntimeState)
    (t u : ℕ)
    → row.status ≡ AccountStatus.rate_limited
    → row.reset_at ≡ some t
    → row.blocked_at ≡ some u
    → IsNoReason usage row
    → later < t
    → (visit later (state_of later settings usage row runtime).0).1 ≡ skipped
unfolding state_from_account quota_of
state_waits later settings usage row runtime t u status reset blocked free ahead_of =
    let r = runtime_of runtime row.id in
    let primary_entry = usage.latest_primary row.id in
    let secondary = effective_secondary primary_entry (usage.latest_secondary row.id) in
    let guard =
      guarding_reset-rate_limited later settings row primary_entry secondary r t u status reset
        (omega arith) blocked (rw blocked at free.not_fresher) in
    let (kept, same_reset) =
      apply_usage_quota-waits later t row.status
        (quota_input primary_entry secondary
          (guarding_reset later settings row primary_entry secondary r))
        status free.primary_left
        (effective_secondary-left primary_entry (usage.latest_secondary row.id) free.primary_left
          free.secondary_left)
        guard ahead_of in
    visit-waits later t (state_of later settings usage row runtime).0 kept same_reset ahead_of

stored_whole :
    (t : ℕ) → 0 < whole_second t → stored_time (some (whole_second t)) ≡ some (whole_second t)
stored_whole t h = ground arith

stored_now : (now : ℕ) → 0 < now → stored_time (some now) ≡ some (whole_second now)
stored_now now h = ground arith

handle_rate_limit-reset :
    (draw : Draw) (now t : ℕ) (error : UpstreamError) (s : AccountState)
    → error.resets_at ≡ some t
    → (handle_rate_limit draw now error s).reset_at ≡ some (whole_second t)
unfolding handle_rate_limit extract_reset_at
handle_rate_limit-reset draw now t error s e = rw e refl

handle_rate_limit-blocked :
    (draw : Draw) (now : ℕ) (error : UpstreamError) (s : AccountState)
    → ((handle_rate_limit draw now error s).status ≡ AccountStatus.rate_limited)
      × ((handle_rate_limit draw now error s).blocked_at ≡ some now)
unfolding handle_rate_limit
handle_rate_limit-blocked draw now error s = (refl, refl)

-- A rate limit that the upstream reports with the time of its reset: a selection before that time
-- on the row that the report leaves skips the account, whatever the process remembers, while the latest
-- usage shows no exhausted window, and none of the primary window was recorded after the report.
pub mark_rate_limit_waits :
    (draw : Draw) (now later t : ℕ) (settings : Settings) (error : UpstreamError)
    (account : Account) (b : LoadBalancer) (usage : Usage) (runtime : Table RuntimeState)
    → error.resets_at ≡ some t
    → 0 < now
    → later < whole_second t
    → IsNoReason usage (mark_rate_limit draw now settings error account b).1
    → (visit later
        (state_of later settings usage
          (mark_rate_limit draw now settings error account b).1
          runtime).0).1
      ≡ skipped
unfolding mark_rate_limit
mark_rate_limit_waits draw now later t settings error account b usage runtime e positive ahead_of
      free =
    let (status, reset, blocked) =
      mark_with-held (handle_rate_limit draw now error) now settings account b in
    let handled =
      handle_rate_limit-blocked draw now error
        (state_for settings account (runtime_of b.runtime account.id)) in
    state_waits later settings usage (mark_rate_limit draw now settings error account b).1 runtime
      (whole_second t) (whole_second now) (status ∙ handled.0)
      (reset
        ∙ ap stored_time (handle_rate_limit-reset draw now t error _ e)
        ∙ stored_whole t (omega arith))
      (blocked ∙ ap stored_time handled.1 ∙ stored_now now positive) free ahead_of

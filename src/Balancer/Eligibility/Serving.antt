-- ===== src/Balancer/Eligibility/Serving.antt =====
-- Who passes the loop of `select_account` (app/core/balancer/logic.py), and in what state.
use codex_lb_mod.Base.{Bool-cases, ap, arith, false, inl, inr, true, ℕ, ◌<◌, ◌∙◌, ◌≡◌, ◌≢◌}
use codex_lb_mod.Balancer.State.{AccountState, AccountStatus, ahead}
use codex_lb_mod.Balancer.Eligibility.{
  admit_status, available, clear_cooldown, hold_back, skipped, visit,
}

-- What an account needs in order to be used at a time.
pub record IsServing (current : ℕ) (s : AccountState) : Type 0 where
  pub is_active : s.status ≡ AccountStatus.active
  pub cooled : ahead current s.cooldown_until ≡ false

admit_status-refused :
    (current : ℕ) (s : AccountState)
    → (admit_status current s).1 ≡ false
    → admit_status current s ≡ (s, false)
unfolding admit_status
admit_status-refused current s h = ground arith

admitted-active :
    (current : ℕ) (s : AccountState)
    → (admit_status current s).1 ≡ true
    → (admit_status current s).0.status ≡ AccountStatus.active
unfolding admit_status
admitted-active current s h = ground arith

clear_cooldown-status :
    (current : ℕ) (s : AccountState) → (clear_cooldown current s).status ≡ s.status
unfolding clear_cooldown
clear_cooldown-status current s = ground arith

hold_back-status : (current : ℕ) (s : AccountState) → (hold_back current s).0.status ≡ s.status
unfolding hold_back
hold_back-status current s = ground arith

hold_back-ahead :
    (current : ℕ) (s : AccountState)
    → (hold_back current s).1 ≢ skipped
    → ahead current (hold_back current s).0.cooldown_until ≡ false
unfolding hold_back
hold_back-ahead current s h = ground arith

hold_back-errors :
    (current : ℕ) (s : AccountState)
    → (hold_back current s).1 ≡ available
    → (hold_back current s).0.error_count < 3
unfolding hold_back
hold_back-errors current s h = ground arith

pub visit-admitted :
    (current : ℕ) (s : AccountState)
    → (admit_status current s).1 ≡ true
    → visit current s ≡ hold_back current (clear_cooldown current (admit_status current s).0)
unfolding visit
visit-admitted current s h = rw h

pub visit-refused :
    (current : ℕ) (s : AccountState)
    → (admit_status current s).1 ≡ false
    → visit current s ≡ (s, skipped)
unfolding visit
visit-refused current s h = rw (admit_status-refused current s h)

pub admitted-status :
    (current : ℕ) (s : AccountState)
    → (admit_status current s).1 ≡ true
    → (visit current s).0.status ≡ AccountStatus.active
admitted-status current s admitted = rw (visit-admitted current s admitted) (
    hold_back-status current (clear_cooldown current (admit_status current s).0)
    ∙ clear_cooldown-status current (admit_status current s).0
    ∙ admitted-active current s admitted)

-- An account that is not skipped is admitted.
visit-not_skipped :
    (current : ℕ) (s : AccountState)
    → (visit current s).1 ≢ skipped
    → (admit_status current s).1 ≡ true
visit-not_skipped current s h = elim (Bool-cases (admit_status current s).1) [
  | inl admitted ↦ admitted
  | inr refused ↦ absurd (h (ap (λ v. v.1) (visit-refused current s refused)))
]

-- An account that is not skipped is active when the loop is over, and no cooldown lies ahead of it.
pub visit-IsServing :
    (current : ℕ) (s : AccountState)
    → (visit current s).1 ≢ skipped
    → IsServing current (visit current s).0
visit-IsServing current s h = record {
  is_active = admitted-status current s (visit-not_skipped current s h);
  cooled = ground (
    arith,
    visit-admitted current s (visit-not_skipped current s h),
    hold_back-ahead current (clear_cooldown current (admit_status current s).0),
  );
}

-- One that is available has fewer than three errors.
visit-errors :
    (current : ℕ) (s : AccountState)
    → (visit current s).1 ≡ available
    → (visit current s).0.error_count < 3
visit-errors current s h = elim (Bool-cases (admit_status current s).1) [
  | inl admitted ↦ ground (
    arith,
    visit-admitted current s admitted,
    hold_back-errors current (clear_cooldown current (admit_status current s).0),
  )
  | inr refused ↦ ground (arith, visit-refused current s refused)
]

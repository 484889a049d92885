-- ===== src/Balancer/Eligibility/Stable.antt =====
-- Repeating the loop changes nothing.
use codex_lb_mod.Base.{Bool-cases, arith, false, inl, inr, true, ℕ, ◌∙◌, ◌≡◌}
use codex_lb_mod.Balancer.State.{AccountState, AccountStatus, due}
use codex_lb_mod.Balancer.Eligibility.Serving.{admitted-status, visit-admitted, visit-refused}
use codex_lb_mod.Balancer.Eligibility.{admit_status, clear_cooldown, hold_back, visit}

admit_status-active :
    (current : ℕ) (s : AccountState)
    → s.status ≡ AccountStatus.active
    → admit_status current s ≡ (s, true)
unfolding admit_status
admit_status-active current s h = ground arith

clear_cooldown-not_due :
    (current : ℕ) (s : AccountState) → due current (clear_cooldown current s).cooldown_until ≡ false
unfolding clear_cooldown
clear_cooldown-not_due current s = ground arith

clear_cooldown-same :
    (current : ℕ) (s : AccountState)
    → due current s.cooldown_until ≡ false
    → clear_cooldown current s ≡ s
unfolding clear_cooldown
clear_cooldown-same current s h = rw h

hold_back-cooldown :
    (current : ℕ) (s : AccountState) → (hold_back current s).0.cooldown_until ≡ s.cooldown_until
unfolding hold_back
hold_back-cooldown current s = ground arith

hold_back-hold_back :
    (current : ℕ) (s : AccountState)
    → hold_back current (hold_back current s).0 ≡ hold_back current s
unfolding hold_back
hold_back-hold_back current s = ground arith

module _ (current : ℕ) (s : AccountState) (admitted : (admit_status current s).1 ≡ true) where
  still_active :
      (hold_back current (clear_cooldown current (admit_status current s).0)).0.status
      ≡ AccountStatus.active
  still_active = rw (visit-admitted current s admitted) at (admitted-status current s admitted)

  still_not_due :
      due current
        (hold_back current (clear_cooldown current (admit_status current s).0)).0.cooldown_until
      ≡ false
  still_not_due =
      rw (hold_back-cooldown current (clear_cooldown current (admit_status current s).0))
        (clear_cooldown-not_due current (admit_status current s).0)

visit-same :
    (current : ℕ) (s : AccountState)
    → s.status ≡ AccountStatus.active
    → due current s.cooldown_until ≡ false
    → visit current s ≡ hold_back current s
unfolding visit
visit-same current s a d = rw (admit_status-active current s a, clear_cooldown-same current s d)

-- After the loop, a second visit at the same time finds the same state and the same verdict.
pub visit-visit :
    (current : ℕ) (s : AccountState) → visit current (visit current s).0 ≡ visit current s
visit-visit current s = elim (Bool-cases (admit_status current s).1) [
  | inl admitted ↦ rw (visit-admitted current s admitted) (
      visit-same current _ (still_active current s admitted) (still_not_due current s admitted)
      ∙ hold_back-hold_back current (clear_cooldown current (admit_status current s).0))
  | inr refused ↦ rw (visit-refused current s refused) (visit-refused current s refused)
]

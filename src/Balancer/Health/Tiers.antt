-- ===== src/Balancer/Health/Tiers.antt =====
-- How an account moves between the tiers (app/core/balancer/logic.py).
use codex_lb_mod.Base.{
  Bool, Bool-cases, In, List, Option, [], arith, false, inl, inr, leb, leb→le, refl, subst, suc,
  sym, true, zero, ℕ, ◌++◌, ◌∷◌, ◌≡◌, ◌≤◌, ◌⊎◌,
}
use codex_lb_mod.Balancer.State.{AccountState, AccountStatus, same_status}
use codex_lb_mod.Balancer.Health.{
  Thresholds, elapsed, evaluate_health_tier, next_tier, should_drain,
}

-- One evaluation with its inputs: the clock, when the drain began, the successes in a row, and the
-- state whose tier is evaluated.
pub record Evaluation : Type 0 where
  pub current : ℕ
  pub drain_entered_at : Option ℕ
  pub streak : ℕ
  pub account : AccountState

abbrev pub evaluate : Thresholds → Evaluation → ℕ → ℕ
evaluate h e tier =
    evaluate_health_tier h e.current e.drain_entered_at e.streak
      (record account { health_tier = tier })
  where
    open e use {account}

-- The moves that an evaluation can make, with what each of them needs.
pub data TierStep (h : Thresholds) (e : Evaluation) : ℕ → ℕ → Type 0 where
  stay : {tier : ℕ} → TierStep h e tier tier
  drain : {tier : ℕ} → should_drain h e.current e.account ≡ true → TierStep h e tier 1
  probe :
      elapsed e.current h.probe_quiet e.drain_entered_at ≡ true
      → should_drain h e.current e.account ≡ false
      → TierStep h e 1 2
  recover :
      h.probe_success_streak_required ≤ e.streak
      → should_drain h e.current e.account ≡ false
      → TierStep h e 2 0

TierStep-active :
    (h : Thresholds) (e : Evaluation) (tier : ℕ) (d : Bool)
    → tier ≤ 2
    → should_drain h e.current e.account ≡ d
    → TierStep h e tier (next_tier h e.current e.drain_entered_at e.streak d tier)
unfolding next_tier
TierStep-active h e zero true b k = drain k
TierStep-active h e zero false b k = stay
TierStep-active h e (suc zero) true b k = drain k
TierStep-active h e (suc zero) false b k =
    elim (Bool-cases (elapsed e.current h.probe_quiet e.drain_entered_at)) [
      | inl quiet ↦ rw quiet (probe quiet k)
      | inr loud ↦ rw loud stay
    ]
TierStep-active h e (suc (suc zero)) true b k = drain k
TierStep-active h e (suc (suc zero)) false b k =
    elim (Bool-cases (leb h.probe_success_streak_required e.streak)) [
      | inl enough ↦ rw enough (recover (leb→le _ _ enough) k)
      | inr few ↦ rw few stay
    ]
TierStep-active h e (suc (suc (suc tier))) d b k = absurd (omega arith)

should_drain-tier :
    (h : Thresholds) (current : ℕ) (a : AccountState) (tier : ℕ)
    → should_drain h current a ≡ should_drain h current (record a { health_tier = tier })
unfolding should_drain
should_drain-tier h current a tier = refl

evaluate-active :
    (h : Thresholds) (e : Evaluation) (tier : ℕ)
    → same_status e.account.status AccountStatus.active ≡ true
    → evaluate h e tier
      ≡ next_tier h e.current e.drain_entered_at e.streak (should_drain h e.current e.account) tier
unfolding evaluate_health_tier
evaluate-active h e tier k = rw (k, should_drain-tier h e.current e.account tier)

evaluate-blocked :
    (h : Thresholds) (e : Evaluation) (tier : ℕ)
    → same_status e.account.status AccountStatus.active ≡ false
    → evaluate h e tier ≡ tier
unfolding evaluate_health_tier
evaluate-blocked h e tier k = rw k

-- An evaluation keeps the tier or makes one of three moves: to draining, only when the account
-- should drain; from draining to probing, only after the quiet period; from probing to healthy,
-- only after enough successes.
pub evaluate-TierStep :
    (h : Thresholds) (e : Evaluation) (tier : ℕ) → tier ≤ 2 → TierStep h e tier (evaluate h e tier)
evaluate-TierStep h e tier b =
    elim (Bool-cases (same_status e.account.status AccountStatus.active)) [
      | inl k ↦
          rw (evaluate-active h e tier k)
            (TierStep-active h e tier (should_drain h e.current e.account) b refl)
      | inr k ↦ rw (evaluate-blocked h e tier k) stay
    ]

-- The tier after each of a list of evaluations, the last one at the end.
unfoldable pub tiers : Thresholds → List Evaluation → ℕ → List ℕ
tiers h [] tier = []
tiers h (e ∷ es) tier = evaluate h e tier ∷ tiers h es (evaluate h e tier)

evaluate_draining : (h : Thresholds) (e : Evaluation) → (evaluate h e 1 ≡ 1) ⊎ (evaluate h e 1 ≡ 2)
unfolding evaluate_health_tier next_tier
evaluate_draining h e = ground arith

-- A draining account never becomes healthy before it has been probing: wherever the tiers after a
-- draining one reach 0, they have 2 further up.
pub probes_before_healthy :
    (h : Thresholds) (before : List Evaluation) (last : Evaluation)
    → In 0 (tiers h (before ++ last ∷ []) 1)
    → In 2 (tiers h before 1)
unfolding tiers
probes_before_healthy h [] last (inl e) = ground (arith, evaluate_draining h last)
probes_before_healthy h [] last (inr m) = absurd m.0
probes_before_healthy h (e ∷ es) last (inl z) = ground (arith, evaluate_draining h e)
probes_before_healthy h (e ∷ es) last (inr m) = elim (evaluate_draining h e) [
  | inl k ↦ inr (
      subst (λ t. In 2 (tiers h es t)) (sym k)
        (probes_before_healthy h es last (subst (λ t. In 0 (tiers h (es ++ last ∷ []) t)) k m)))
  | inr k ↦ inl k
]

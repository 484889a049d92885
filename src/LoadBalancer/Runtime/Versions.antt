-- ===== src/LoadBalancer/Runtime/Versions.antt =====
-- The version of what is remembered of an account (app/modules/proxy/load_balancer.py).
use codex_lb_mod.Base.{
  Bool, Bool-cases, Option, arith, false, inl, inr, not, refl, ℕ, ◌+◌, ◌==◌, ◌||◌, ◌≡◌, ◌⊎◌,
}
use codex_lb_mod.Balancer.State.{AccountState}
use codex_lb_mod.LoadBalancer.Accounts.{Account, same_time}
use codex_lb_mod.LoadBalancer.States.{RuntimeState}
use codex_lb_mod.LoadBalancer.Runtime.{differs, is_expected, sync_runtime, take_over_state}

kept_time : (a b : Option ℕ) → not (same_time a b) ≡ false → b ≡ a
kept_time a b h = ground arith

same_count : (m n : ℕ) → not (m == n) ≡ false → n ≡ m
same_count m n e = ground arith

first_five :
    (a b c d e f g : Bool)
    → a || b || c || d || e || f || g ≡ false
    → (a ≡ false) × (b ≡ false) × (c ≡ false) × (d ≡ false) × (e ≡ false)
first_five a b c d e f g h = ground arith

not_differs :
    (a : Account) (s : AccountState) (r : RuntimeState)
    → differs a s r ≡ false
    → take_over_state s r ≡ r
unfolding differs
not_differs a s r h =
    let (reset, cooldown, blocked, last_error, errors) =
      first_five (not (same_time r.runtime_reset_at s.reset_at))
        (not (same_time r.runtime_cooldown_until s.cooldown_until))
        (not (same_time r.runtime_blocked_at s.blocked_at))
        (not (same_time r.runtime_last_error_at s.last_error_at))
        (not (r.runtime_error_count == s.error_count)) _ _ h in
    cc (
      kept_time r.runtime_reset_at s.reset_at reset,
      kept_time r.runtime_cooldown_until s.cooldown_until cooldown,
      kept_time r.runtime_blocked_at s.blocked_at blocked,
      kept_time r.runtime_last_error_at s.last_error_at last_error,
      same_count r.runtime_error_count s.error_count errors,
    )

-- The version tells every change: what is remembered of an account is the same after a
-- synchronisation if its version is, and otherwise the version is one higher.
pub sync_runtime-version :
    (now : ℕ) (selected : Bool) (expected_version : Option ℕ) (a : Account) (s : AccountState)
    (r : RuntimeState)
    → ((sync_runtime now selected expected_version a s r).0 ≡ r)
      ⊎ ((sync_runtime now selected expected_version a s r).0.version ≡ r.version + 1)
unfolding sync_runtime
sync_runtime-version now selected expected_version a s r =
    elim (Bool-cases (is_expected expected_version r.version)) [
      | inr other ↦ elim (Bool-cases selected) [
        | inl chosen ↦ inr (rw (other, chosen) refl)
        | inr unchosen ↦ inl (rw (other, unchosen) refl)
      ]
      | inl same ↦ elim (Bool-cases selected) [
        | inl chosen ↦ inr (rw (same, chosen) refl)
        | inr unchosen ↦ elim (Bool-cases (differs a s r)) [
          | inl dirty ↦ inr (rw (same, unchosen, dirty) refl)
          | inr clean ↦ inl (rw (same, unchosen, clean) (not_differs a s r clean))
        ]
      ]
    ]

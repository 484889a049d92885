-- ===== src/Balancer/Select/Candidates.antt =====
-- The accounts among which `select_account` (app/core/balancer/logic.py) chooses.
use codex_lb_mod.Base.{
  Bool, In, List, Option, [], ap, false, if◌then◌else◌, inl, inr, map, none, refl, select, some,
  subst, sym, true, ℕ, ◌∙◌, ◌∷◌, ◌≡◌, ◌≢◌,
}
use codex_lb_mod.Balancer.State.{AccountState}
use codex_lb_mod.Balancer.Eligibility.{
  Verdict, available_of, backing_off_of, is_available, is_backing_off, skipped, verdicts, visit,
  visited,
}
use codex_lb_mod.Base.Member.{In-map, In-select, map-In}
use codex_lb_mod.Balancer.Ranking.{by_key, least}
use codex_lb_mod.Balancer.Ranking.Least.{least-In}
use codex_lb_mod.Balancer.Select.{backoff_expires_at, candidates, fallback_allowed, option_to_list}
use codex_lb_mod.Balancer.Eligibility.Serving.{IsServing, visit-IsServing}

-- Serving accounts that the call leaves behind.
abbrev pub Serves : ℕ → List AccountState → AccountState → Type 0
Serves current states a = In a (visited current states) × IsServing current a

visited-In :
    (current : ℕ) (s : AccountState) (states : List AccountState)
    → In s states
    → In (visit current s).0 (visited current states)
unfolding visited
visited-In current s states m = map-In (λ t. (visit current t).0) s states m

-- What a test on verdicts that refuses `skipped` lets through, serves.
kept-Serves :
    (test : Verdict → Bool) (current : ℕ) (a : AccountState) (states : List AccountState)
    → test skipped ≡ false
    → In a (map (λ v. v.0) (select (λ v. test v.1) (verdicts current states)))
    → Serves current states a
kept-Serves test current a states refuses m =
    let (v, n, e) = In-map (λ v. v.0) a (select (λ v. test v.1) (verdicts current states)) m in
    let (k, passes) = In-select (λ v. test v.1) v (verdicts current states) n in
    let (s, there, seen) = In-map (visit current) v states k in
    let same : (visit current s).0 ≡ a = ap (λ w. w.0) seen ∙ e in
    let not_skipped : (visit current s).1 ≢ skipped =
      λ h. cc (ap test h, ap (λ w. test w.1) seen) in
    (
      subst (λ b. In b (visited current states)) same (visited-In current s states there),
      subst (IsServing current) same (visit-IsServing current s not_skipped),
    )

available_of-Serves :
    (current : ℕ) (a : AccountState) (states : List AccountState)
    → In a (available_of current states)
    → Serves current states a
unfolding available_of
available_of-Serves current a states m = kept-Serves is_available current a states refl m

backing_off_of-Serves :
    (current : ℕ) (a : AccountState) (states : List AccountState)
    → In a (backing_off_of current states)
    → Serves current states a
unfolding backing_off_of
backing_off_of-Serves current a states m = kept-Serves is_backing_off current a states refl m

candidates-none :
    (allowed : Bool) (current : ℕ) (states : List AccountState)
    → available_of current states ≡ []
    → candidates allowed current states ≡ (
        if fallback_allowed allowed (visited current states) (backing_off_of current states)
        then option_to_list
            (least (by_key (λ s. backoff_expires_at s ∷ [])) (backing_off_of current states))
        else [])
unfolding candidates
candidates-none allowed current states e = rw (e, candidates)

pub candidates-some :
    (allowed : Bool) (current : ℕ) (states : List AccountState) (s : AccountState)
    (rest : List AccountState)
    → available_of current states ≡ s ∷ rest
    → candidates allowed current states ≡ s ∷ rest
unfolding candidates
candidates-some allowed current states s rest e = rw (e, candidates)

option_to_list-In :
    (o : Option AccountState) (a : AccountState) → In a (option_to_list o) → o ≡ some a
option_to_list-In none a m = absurd m.0
option_to_list-In (some b) a (inl e) = ap some e
option_to_list-In (some b) a (inr m) = absurd m.0

fallback-Serves :
    (allowed : Bool) (current : ℕ) (a : AccountState) (states : List AccountState)
    → In a (
        if allowed
        then option_to_list
            (least (by_key (λ s. backoff_expires_at s ∷ [])) (backing_off_of current states))
        else [])
    → Serves current states a
fallback-Serves true current a states m = backing_off_of-Serves current a states (
    least-In (by_key (λ s. backoff_expires_at s ∷ [])) (backing_off_of current states) (
      option_to_list-In
        (least (by_key (λ s. backoff_expires_at s ∷ [])) (backing_off_of current states)) a m))
fallback-Serves false current a states m = absurd m.0

pub candidates-Serves :
    (allowed : Bool) (current : ℕ) (a : AccountState) (states : List AccountState)
    → In a (candidates allowed current states)
    → Serves current states a
candidates-Serves allowed current a states m = go (available_of current states) refl
  where
    go : (l : List AccountState) → available_of current states ≡ l → Serves current states a
    go [] e =
        fallback-Serves _ current a states
          (subst (In a) (candidates-none allowed current states e) m)
    go (s ∷ rest) e =
        available_of-Serves current a states
          (subst (In a) (candidates-some allowed current states s rest e ∙ sym e) m)

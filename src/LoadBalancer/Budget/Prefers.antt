-- ===== src/LoadBalancer/Budget/Prefers.antt =====
-- Who the load balancer prefers: the accounts below the threshold, while one of them can serve
-- (app/modules/proxy/load_balancer.py).
use codex_lb_mod.Base.{
  ==_iff, Bool, Bool-cases, In, List, Option, [], ap, arith, false, if◌then◌else◌, inl, inr,
  is_some, length, none, not, refl, select, some, subst, sym, true, ℕ, ◌==◌, ◌||◌, ◌∷◌, ◌≡◌, ◌≢◌,
  ◌≤◌,
}
use codex_lb_mod.Base.Member.{In-map, In-select, map-In}
use codex_lb_mod.Balancer.State.{AccountState}
use codex_lb_mod.Balancer.Eligibility.{visit, visited}
use codex_lb_mod.Balancer.Eligibility.Serving.{IsServing}
use codex_lb_mod.Balancer.Ranking.{Host}
use codex_lb_mod.Balancer.Select.{
  SelectOptions, SelectionResult, candidates, is_empty, select_account,
}
use codex_lb_mod.Balancer.Select.Chosen.{select_account-IsServing}
use codex_lb_mod.Balancer.Select.Total.{DrawsInRange, refused, select_account-Outcome, served}
use codex_lb_mod.LoadBalancer.Budget.{
  after_preferred, fallback_options, first_options, preferred,
  select_account_preferring_budget_safe, state_above_budget_threshold, visit_safe,
}

module _ {ℓ} {A : Type ℓ} (p : A → Bool) where
  length-select : (xs : List A) → length (select p xs) ≤ length xs
  length-select [] = omega arith
  length-select (x ∷ xs) = elim (Bool-cases (p x)) [
    | inl h ↦ rw h (omega (arith, length-select xs))
    | inr h ↦ rw h (omega (arith, length-select xs))
  ]

  -- A filter that drops nothing keeps the list.
  select-all : (xs : List A) → length (select p xs) ≡ length xs → select p xs ≡ xs
  select-all [] e = refl
  select-all (x ∷ xs) e = elim (Bool-cases (p x)) [
    | inl h ↦ rw h (ap (λ ys. x ∷ ys) (select-all xs (kept h)))
    | inr h ↦ absurd (dropped h)
  ]
    where
      kept : p x ≡ true → length (select p xs) ≡ length xs
      kept h = let f = rw h at e in omega arith

      dropped : p x ≡ false → ⊥
      dropped h = let f = rw h at e in omega (arith, length-select xs)

pool_of_safe :
    (threshold : ℕ) (states : List AccountState)
    → (if length (preferred threshold states) == length states
        then states
        else preferred threshold states)
      ≡ preferred threshold states
unfolding preferred
pool_of_safe threshold states =
    elim (Bool-cases (length (preferred threshold states) == length states)) [
      | inl same ↦ rw same (
          sym (
            select-all _ states
              ((==_iff (length (preferred threshold states)) (length states)).0 same)))
      | inr less ↦ rw less refl
    ]

abbrev pub first_call : Host → SelectOptions → ℕ → ℕ → List AccountState → SelectionResult
first_call host o threshold now states =
    (select_account host (first_options o) now (preferred threshold states)).1

-- How the call goes: all states at once, the preferred ones with success or for lack of others, or
-- all of them after the preferred ones.
pub data Course (host : Host) (o : SelectOptions) (threshold now : ℕ) (states : List AccountState)
    (r : List AccountState × SelectionResult) : Type 0 where
  none_safe :
      is_empty (preferred threshold states) ≡ true
      → r ≡ select_account host (fallback_options o states) now states
      → Course host o threshold now states r
  first_only :
      r ≡ (after_preferred threshold now states, first_call host o threshold now states)
      → Course host o threshold now states r
  both :
      (first_call host o threshold now states).account ≡ none
      → r
        ≡ select_account host (fallback_options o states) now (after_preferred threshold now states)
      → Course host o threshold now states r

is_some-false : {A : Type 0} (o : Option A) (b : Bool) → is_some o || b ≡ false → o ≡ none
is_some-false none b h = refl
is_some-false (some a) b h = cc

pub select_preferring-Course :
    (host : Host) (o : SelectOptions) (threshold now : ℕ) (states : List AccountState)
    → Course host o threshold now states
        (select_account_preferring_budget_safe host o threshold now states)
unfolding select_account_preferring_budget_safe
select_preferring-Course host o threshold now states =
    elim (Bool-cases (is_empty (preferred threshold states))) [
      | inl empty ↦ none_safe empty (rw empty refl)
      | inr safe ↦
          elim (Bool-cases (
            is_some (first_call host o threshold now states).account
            || (length (preferred threshold states) == length states))) [
              | inl done ↦ first_only (rw (pool_of_safe threshold states, safe, done) refl)
              | inr more ↦
                  both (is_some-false _ _ more)
                    (rw (pool_of_safe threshold states, safe, more) refl)
            ]
    ]

visit_safe-In :
    (threshold now : ℕ) (a : AccountState) (states : List AccountState)
    → In a (visited now (preferred threshold states))
    → In a (after_preferred threshold now states)
unfolding after_preferred visited preferred
visit_safe-In threshold now a states m =
    let (s, n, e) = In-map (λ s. (visit now s).0) a (preferred threshold states) m in
    let (there, safe) =
      In-select (λ s. not (state_above_budget_threshold threshold s)) s states n in
    subst (λ x. In x (after_preferred threshold now states)) (rw safe e)
      (map-In (visit_safe threshold now) s states there)

-- A chosen account is one of the states as the call leaves them, it is active, and no cooldown lies
-- ahead of it.
pub select_preferring-IsServing :
    (host : Host) (o : SelectOptions) (threshold now : ℕ) (states : List AccountState)
    (a : AccountState)
    → (select_account_preferring_budget_safe host o threshold now states).1.account ≡ some a
    → In a (select_account_preferring_budget_safe host o threshold now states).0 × IsServing now a
unfolding select_account
select_preferring-IsServing host o threshold now states a e =
    elim (select_preferring-Course host o threshold now states) [
      | none_safe empty f ↦
          rw f (select_account-IsServing host (fallback_options o states) now states a (rw f at e))
      | both nothing f ↦ rw f (
          select_account-IsServing host (fallback_options o states) now
            (after_preferred threshold now states) a (rw f at e))
      | first_only f ↦
          let (m, serving) =
            select_account-IsServing host (first_options o) now (preferred threshold states) a
              (rw f at e) in
          rw f (visit_safe-In threshold now a states m, serving)
    ]

no_member :
    (a : AccountState) (now : ℕ) (l : List AccountState)
    → is_empty l ≡ true
    → In a (visited now l)
    → ⊥
unfolding visited
no_member a now [] empty m = m.0
no_member a now (s ∷ l) empty m = cc

-- Where `random.choices` draws in range: while an account below the threshold is a candidate, the
-- chosen account is one of those below the threshold, in its state after the visit.
pub select_preferring_safe :
    (host : Host) (o : SelectOptions) (threshold now : ℕ) (states : List AccountState)
    → DrawsInRange host
    → candidates o.allow_backoff_fallback now (preferred threshold states) ≢ []
    → (a : AccountState) × ((select_account_preferring_budget_safe host o threshold now
          states).1.account
        ≡ some a)
      × In a (visited now (preferred threshold states))
select_preferring_safe host o threshold now states law some_safe =
    elim (select_account-Outcome host (first_options o) now (preferred threshold states) law) [
      | refused nobody _ _ _ ↦ absurd (some_safe nobody)
      | served a e _ ↦
          let (m, _) =
            select_account-IsServing host (first_options o) now (preferred threshold states) a e in
          elim (select_preferring-Course host o threshold now states) [
            | none_safe empty f ↦ absurd (no_member a now (preferred threshold states) empty m)
            | first_only f ↦ (a, rw f e, m)
            | both nothing f ↦ absurd (cc (nothing, e))
          ]
    ]

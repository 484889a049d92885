-- ===== src/Balancer/Select/Total.antt =====
-- `select_account` (app/core/balancer/logic.py) answers: with an account, or with a message.
use codex_lb_mod.Base.{
  ==_iff, Bool, Bool-cases, In, List, Option, [], arith, false, if◌then◌else◌, inl, inr, length,
  map, min, none, refl, select, some, subst, sym, true, ℕ, ◌<◌, ◌==◌, ◌∙◌, ◌∷◌, ◌≡◌, ◌≢◌, ◌⊎◌,
}
use codex_lb_mod.Base.Member.{In-map, In-nonempty, get_elem?-some, length-map, map-In, select-In}
use codex_lb_mod.Balancer.State.{AccountState}
use codex_lb_mod.Balancer.Eligibility.{
  available, available_of, is_available, verdicts, visit, visited,
}
use codex_lb_mod.Balancer.Ranking.{
  Host, by_key, least, primary_usage_sort_key, probe_lt, remaining_secondary_credits,
  reset_bucket_days, reset_first_sort_key, round_robin_sort_key, usage_sort_key,
}
use codex_lb_mod.Balancer.Ranking.Least.{least-some}
use codex_lb_mod.Balancer.Select.{
  RoutingStrategy, SelectOptions, SelectionResult, answer, candidates, capacity_weighted, choose,
  choose_capacity, choose_usage, earliest, effective_pool, explain, least_bucket, or_list,
  prefer_earlier_reset_candidates, round_robin, select_account, select_capacity_weighted, sum,
  tier_is, usage_weighted,
}
use codex_lb_mod.Balancer.Select.Candidates.{candidates-some}
use codex_lb_mod.Balancer.Select.Hints.{IsCapped, explain-IsCapped}

-- `random.choices` draws one of the given positions where the weights have a positive sum.
abbrev pub DrawsInRange : Host → Type 0
DrawsInRange host = (weights : List ℕ) → 0 < sum weights → host.choices weights < length weights

abbrev Answers : {A : Type 0} → Option A → Type 0
Answers {A} o = (a : A) × (o ≡ some a)

least-Answers :
    (lt : AccountState → AccountState → Bool) (b : AccountState) (pool : List AccountState)
    → In b pool
    → Answers (least lt pool)
least-Answers lt b [] m = absurd m.0
least-Answers lt b (x ∷ xs) m = least-some lt x xs

capacity_weighted-Answers :
    (host : Host)
    → DrawsInRange host
    → (b : AccountState) (pool : List AccountState) → In b pool
    → Answers (select_capacity_weighted host pool)
unfolding select_capacity_weighted
capacity_weighted-Answers host law b pool m =
    let weights = map (remaining_secondary_credits host) pool in
    elim (Bool-cases (sum weights == 0)) [
      | inl spent ↦ rw spent (least-Answers (by_key usage_sort_key) b pool m)
      | inr left ↦ rw left (
          get_elem?-some pool (host.choices weights) (
            subst (λ n. host.choices weights < n)
              (length-map (remaining_secondary_credits host) pool) (law weights (ground arith))))
    ]

earliest-min :
    (t u : ℕ) (us : List ℕ)
    → In (earliest (min t u) us) (t ∷ u ∷ us)
    → In (earliest t (u ∷ us)) (t ∷ u ∷ us)
earliest-min t u us m = m

min-cases : (t u : ℕ) → (min t u ≡ t) ⊎ (min t u ≡ u)
min-cases t u = omega arith

earliest-In : (t : ℕ) (ts : List ℕ) → In (earliest t ts) (t ∷ ts)
earliest-In t [] = inl refl
earliest-In t (u ∷ us) = elim (earliest-In (min t u) us) [
  | inl e ↦ elim (min-cases t u) [
    | inl first ↦ inl (sym first ∙ e)
    | inr second ↦ inr (inl (sym second ∙ e))
  ]
  | inr m ↦ inr (inr m)
]

-- Some account has the earliest reset bucket.
earlier_reset-nonempty :
    (prefer : Bool) (current : ℕ) (b : AccountState) (pool : List AccountState)
    → In b pool
    → (a : AccountState) × In a
        (if prefer then prefer_earlier_reset_candidates current pool else pool)
unfolding prefer_earlier_reset_candidates
earlier_reset-nonempty false current b pool m = (b, m)
earlier_reset-nonempty true current b [] m = absurd m.0
earlier_reset-nonempty true current b (x ∷ xs) m =
    let (a, n, e) =
      In-map (reset_bucket_days current) (least_bucket current (x ∷ xs)) (x ∷ xs)
        (earliest-In (reset_bucket_days current x) (map (reset_bucket_days current) xs)) in
    (
      a,
      select-In (λ s. reset_bucket_days current s == least_bucket current (x ∷ xs)) a (x ∷ xs) n
          ((==_iff (reset_bucket_days current a) (least_bucket current (x ∷ xs))).1 e),
    )

choose_capacity-Answers :
    (host : Host)
    → DrawsInRange host
    → (o : SelectOptions) (current : ℕ) (b : AccountState) (pool : List AccountState) → In b pool
    → Answers (choose_capacity host o current pool)
unfolding choose_capacity
choose_capacity-Answers host law o current b pool m =
    let (a, n) = earlier_reset-nonempty o.prefer_earlier_reset current b pool m in
    elim (Bool-cases o.deterministic_probe) [
      | inl probes ↦ rw probes (least-Answers (probe_lt host) a _ n)
      | inr draws ↦ rw draws (capacity_weighted-Answers host law a _ n)
    ]

choose_usage-Answers :
    (o : SelectOptions) (current : ℕ) (b : AccountState) (pool : List AccountState)
    → In b pool
    → Answers (choose_usage o current pool)
unfolding choose_usage
choose_usage-Answers o current b pool m = elim (Bool-cases o.primary_first_usage_weighted) [
  | inl primary ↦ rw primary (least-Answers (by_key primary_usage_sort_key) b pool m)
  | inr secondary ↦ elim (Bool-cases o.prefer_earlier_reset) [
    | inl early ↦
        rw (secondary, early) (least-Answers (by_key (reset_first_sort_key current)) b pool m)
    | inr late ↦ rw (secondary, late) (least-Answers (by_key usage_sort_key) b pool m)
  ]
]

choose-Answers :
    (strategy : RoutingStrategy) (host : Host)
    → DrawsInRange host
    → (o : SelectOptions) (current : ℕ) (b : AccountState) (pool : List AccountState) → In b pool
    → Answers (choose strategy host o current pool)
unfolding choose
choose-Answers round_robin host law o current b pool m =
    least-Answers (by_key round_robin_sort_key) b pool m
choose-Answers capacity_weighted host law o current b pool m =
    choose_capacity-Answers host law o current b pool m
choose-Answers usage_weighted host law o current b pool m = choose_usage-Answers o current b pool m

or_list-nonempty :
    (xs : List AccountState) (b : AccountState) (ys : List AccountState)
    → In b ys
    → (a : AccountState) × In a (or_list xs ys)
or_list-nonempty [] b ys m = (b, m)
or_list-nonempty (x ∷ xs) b ys m = (x, inl refl)

effective_pool-nonempty :
    (b : AccountState) (pool : List AccountState)
    → In b pool
    → (a : AccountState) × In a (effective_pool pool)
unfolding effective_pool
effective_pool-nonempty b pool m =
    let (c, n) = or_list-nonempty (select (tier_is 1) pool) b pool m in
    let (d, k) = or_list-nonempty (select (tier_is 2) pool) c _ n in
    or_list-nonempty (select (tier_is 0) pool) d _ k

-- The two outcomes of a call: no candidate, with an explanation that names no wait above 300
-- seconds, or an account and no message.
pub data Outcome (current : ℕ) (states pool : List AccountState) (r : SelectionResult)
    : Type 0 where
  refused :
      pool ≡ []
      → r.account ≡ none
      → r.error_message ≡ some (explain current (visited current states))
      → IsCapped (explain current (visited current states))
      → Outcome current states pool r
  served :
      (a : AccountState)
      → r.account ≡ some a
      → r.error_message ≡ none
      → Outcome current states pool r

answer-Outcome :
    (host : Host) (o : SelectOptions) (current : ℕ) (states pool : List AccountState)
    → DrawsInRange host
    → Outcome current states pool (answer host o current (visited current states) pool)
unfolding answer
answer-Outcome host o current states [] law =
    refused refl refl refl (explain-IsCapped current (visited current states))
answer-Outcome host o current states (s ∷ rest) law =
    let (b, n) = effective_pool-nonempty s (s ∷ rest) (inl refl) in
    let (a, e) =
      choose-Answers o.routing_strategy host law o current b (effective_pool (s ∷ rest)) n in
    served a e refl

-- Where `random.choices` draws in range, a call has one of two outcomes: it refuses with an
-- explanation when there is no candidate, and a wait named there is at most 300 seconds; or it
-- returns an account and no message.
pub select_account-Outcome :
    (host : Host) (o : SelectOptions) (current : ℕ) (states : List AccountState)
    → DrawsInRange host
    → Outcome current states
        (candidates o.allow_backoff_fallback current states)
        (select_account host o current states).1
unfolding select_account
select_account-Outcome host o current states law =
    answer-Outcome host o current states (candidates o.allow_backoff_fallback current states) law

available-In :
    (current : ℕ) (b : AccountState) (states : List AccountState)
    → In b states
    → (visit current b).1 ≡ available
    → In (visit current b).0 (available_of current states)
unfolding available_of
available-In current b states m h =
    map-In (λ v. v.0) (visit current b) (select (λ v. is_available v.1) (verdicts current states))
      (select-In (λ v. is_available v.1) (visit current b) (verdicts current states)
        (map-In (visit current) b states m) (rw h))

candidates-nonempty :
    (allowed : Bool) (current : ℕ) (b : AccountState) (states : List AccountState)
    → In b states
    → (visit current b).1 ≡ available
    → candidates allowed current states ≢ []
candidates-nonempty allowed current b states m h e =
    let (x, xs, f) =
      In-nonempty (visit current b).0 (available_of current states)
        (available-In current b states m h) in
    cc (candidates-some allowed current states x xs f)

served_of_nonempty :
    (current : ℕ) (states pool : List AccountState) (r : SelectionResult)
    → Outcome current states pool r
    → pool ≢ []
    → (a : AccountState) × (r.account ≡ some a)
served_of_nonempty current states pool r (refused e _ _ _) h = absurd (h e)
served_of_nonempty current states pool r (served a e _) h = (a, e)

-- One account that the loop finds available is enough for a call to return an account, where
-- `random.choices` draws in range.
pub select_account_serves :
    (host : Host) (o : SelectOptions) (current : ℕ) (states : List AccountState) (b : AccountState)
    → DrawsInRange host
    → In b states
    → (visit current b).1 ≡ available
    → (a : AccountState) × ((select_account host o current states).1.account ≡ some a)
select_account_serves host o current states b law m h =
    served_of_nonempty current states (candidates o.allow_backoff_fallback current states)
      (select_account host o current states).1 (select_account-Outcome host o current states law)
      (candidates-nonempty o.allow_backoff_fallback current b states m h)

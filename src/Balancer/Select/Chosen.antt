-- ===== src/Balancer/Select/Chosen.antt =====
-- The account that `select_account` (app/core/balancer/logic.py) returns.
use codex_lb_mod.Base.{
  ==_iff, Bool, Bool-cases, In, List, [], arith, false, if◌then◌else◌, inl, inr, map, refl, select,
  some, subst, sym, true, ℕ, ◌==◌, ◌∷◌, ◌≡◌,
}
use codex_lb_mod.Balancer.State.{AccountState}
use codex_lb_mod.Balancer.Eligibility.{visited}
use codex_lb_mod.Base.Member.{In-get_elem?, In-select, select-In}
use codex_lb_mod.Balancer.Ranking.{
  Host, by_key, primary_usage_sort_key, probe_lt, remaining_secondary_credits, reset_first_sort_key,
  round_robin_sort_key, usage_sort_key,
}
use codex_lb_mod.Balancer.Ranking.Least.{least-In}
use codex_lb_mod.Balancer.Select.{
  RoutingStrategy, SelectOptions, answer, candidates, capacity_weighted, choose, choose_capacity,
  choose_usage, effective_pool, or_list, prefer_earlier_reset_candidates, round_robin,
  select_account, select_capacity_weighted, sum, tier_is, usage_weighted,
}
use codex_lb_mod.Balancer.Eligibility.Serving.{IsServing}
use codex_lb_mod.Balancer.Select.Candidates.{candidates-Serves}

or_list-In :
    (a : AccountState) (xs ys zs : List AccountState)
    → (In a xs → In a zs)
    → (In a ys → In a zs)
    → In a (or_list xs ys)
    → In a zs
or_list-In a [] ys zs left right m = right m
or_list-In a (x ∷ xs) ys zs left right m = left m

effective_pool-In :
    (a : AccountState) (pool : List AccountState) → In a (effective_pool pool) → In a pool
unfolding effective_pool
effective_pool-In a pool = or_list-In a (select (tier_is 0) pool) _ pool (of_tier 0) (
    or_list-In a (select (tier_is 2) pool) _ pool (of_tier 2)
      (or_list-In a (select (tier_is 1) pool) pool pool (of_tier 1) (λ m. m)))
  where
    of_tier : (tier : ℕ) → In a (select (tier_is tier) pool) → In a pool
    of_tier tier m = (In-select (tier_is tier) a pool m).0

abbrev after_healthy : List AccountState → List AccountState
after_healthy pool = or_list (select (tier_is 2) pool) (or_list (select (tier_is 1) pool) pool)

-- A healthy account among the candidates leaves only healthy ones in the pool.
effective_pool-healthy :
    (a b : AccountState) (pool : List AccountState)
    → In b pool
    → b.health_tier ≡ 0
    → In a (effective_pool pool)
    → a.health_tier ≡ 0
unfolding effective_pool
effective_pool-healthy a b pool there healthy m = go (select (tier_is 0) pool) refl
  where
    go : (l : List AccountState) → select (tier_is 0) pool ≡ l → a.health_tier ≡ 0
    go [] e = absurd ((subst (In b) e (select-In (tier_is 0) b pool there (ground arith))).0)
    go (s ∷ rest) e =
        (==_iff a.health_tier 0).0
          (In-select (tier_is 0) a pool
            (subst (In a) (sym e) (subst (λ l. In a (or_list l (after_healthy pool))) e m))).1

capacity_weighted-In :
    (host : Host) (a : AccountState) (pool : List AccountState)
    → select_capacity_weighted host pool ≡ some a
    → In a pool
unfolding select_capacity_weighted
capacity_weighted-In host a pool e =
    elim (Bool-cases (sum (map (remaining_secondary_credits host) pool) == 0)) [
      | inl spent ↦ least-In (by_key usage_sort_key) pool (rw spent at e)
      | inr left ↦
          In-get_elem? pool (host.choices (map (remaining_secondary_credits host) pool))
            (rw left at e)
    ]

earlier_reset-In :
    (prefer : Bool) (current : ℕ) (a : AccountState) (pool : List AccountState)
    → In a (if prefer then prefer_earlier_reset_candidates current pool else pool)
    → In a pool
unfolding prefer_earlier_reset_candidates
earlier_reset-In true current a pool m = (In-select _ a pool m).0
earlier_reset-In false current a pool m = m

choose_capacity-In :
    (host : Host) (o : SelectOptions) (current : ℕ) (a : AccountState) (pool : List AccountState)
    → choose_capacity host o current pool ≡ some a
    → In a pool
unfolding choose_capacity
choose_capacity-In host o current a pool e =
    earlier_reset-In o.prefer_earlier_reset current a pool
      (elim (Bool-cases o.deterministic_probe) [
        | inl probes ↦ least-In (probe_lt host) _ (rw probes at e)
        | inr draws ↦ capacity_weighted-In host a _ (rw draws at e)
      ])

choose_usage-In :
    (o : SelectOptions) (current : ℕ) (a : AccountState) (pool : List AccountState)
    → choose_usage o current pool ≡ some a
    → In a pool
unfolding choose_usage
choose_usage-In o current a pool e = elim (Bool-cases o.primary_first_usage_weighted) [
  | inl primary ↦ least-In (by_key primary_usage_sort_key) pool (rw primary at e)
  | inr secondary ↦ elim (Bool-cases o.prefer_earlier_reset) [
    | inl early ↦ least-In (by_key (reset_first_sort_key current)) pool (rw (secondary, early) at e)
    | inr late ↦ least-In (by_key usage_sort_key) pool (rw (secondary, late) at e)
  ]
]

choose-In :
    (strategy : RoutingStrategy) (host : Host) (o : SelectOptions) (current : ℕ) (a : AccountState)
    (pool : List AccountState)
    → choose strategy host o current pool ≡ some a
    → In a pool
unfolding choose
choose-In round_robin host o current a pool e = least-In (by_key round_robin_sort_key) pool e
choose-In capacity_weighted host o current a pool e = choose_capacity-In host o current a pool e
choose-In usage_weighted host o current a pool e = choose_usage-In o current a pool e

answer-In :
    (host : Host) (o : SelectOptions) (current : ℕ) (a : AccountState)
    (after pool : List AccountState)
    → (answer host o current after pool).account ≡ some a
    → In a (effective_pool pool)
unfolding answer
answer-In host o current a after [] e = cc
answer-In host o current a after (s ∷ rest) e =
    choose-In o.routing_strategy host o current a (effective_pool (s ∷ rest)) e

account_of_candidates :
    (host : Host) (o : SelectOptions) (current : ℕ) (states : List AccountState) (a : AccountState)
    → (select_account host o current states).1.account ≡ some a
    → In a (effective_pool (candidates o.allow_backoff_fallback current states))
unfolding select_account
account_of_candidates host o current states a e =
    answer-In host o current a (visited current states)
      (candidates o.allow_backoff_fallback current states) e

-- Whatever the strategy, the options and the draw: a chosen account is one of the given accounts in
-- its state after the loop, it is active, and no cooldown lies ahead of it.
pub select_account-IsServing :
    (host : Host) (o : SelectOptions) (current : ℕ) (states : List AccountState) (a : AccountState)
    → (select_account host o current states).1.account ≡ some a
    → In a (visited current states) × IsServing current a
select_account-IsServing host o current states a e =
    candidates-Serves o.allow_backoff_fallback current a states (
      effective_pool-In a (candidates o.allow_backoff_fallback current states)
        (account_of_candidates host o current states a e))

-- If some candidate is in the healthy tier, so is the chosen account.
pub select_account_prefers_healthy :
    (host : Host) (o : SelectOptions) (current : ℕ) (states : List AccountState)
    (a b : AccountState)
    → (select_account host o current states).1.account ≡ some a
    → In b (candidates o.allow_backoff_fallback current states)
    → b.health_tier ≡ 0
    → a.health_tier ≡ 0
select_account_prefers_healthy host o current states a b e m h =
    effective_pool-healthy a b (candidates o.allow_backoff_fallback current states) m h
      (account_of_candidates host o current states a e)

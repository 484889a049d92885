-- ===== src/Balancer/Select/Fair.antt =====
-- What the deterministic strategies of `select_account` (app/core/balancer/logic.py) minimise.
use codex_lb_mod.Base.{In, List, [], arith, false, some, true, ℕ, ◌∷◌, ◌≡◌, ◌≤◌}
use codex_lb_mod.Balancer.State.{AccountState}
use codex_lb_mod.Balancer.Eligibility.{visited}
use codex_lb_mod.Balancer.Ranking.{
  Host, by_key, key_lt, last_selected, probe_lt, remaining_secondary_credits, round_robin_sort_key,
}
use codex_lb_mod.Balancer.Ranking.Least.{by_key-IsWeakOrder, least-below, probe_lt-IsWeakOrder}
use codex_lb_mod.Balancer.Select.{
  SelectOptions, answer, candidates, capacity_weighted, choose, choose_capacity, effective_pool,
  round_robin, select_account,
}

answer_of_choose :
    (host : Host) (o : SelectOptions) (current : ℕ) (a : AccountState)
    (after pool : List AccountState)
    → (answer host o current after pool).account ≡ some a
    → choose o.routing_strategy host o current (effective_pool pool) ≡ some a
unfolding answer
answer_of_choose host o current a after [] e = cc
answer_of_choose host o current a after (s ∷ rest) e = e

key_lt-head : (x y : ℕ) (xs ys : List ℕ) → key_lt (y ∷ ys) (x ∷ xs) ≡ false → x ≤ y
unfolding key_lt
key_lt-head x y xs ys h = ground arith

probe_lt-credits :
    (host : Host) (a b : AccountState)
    → probe_lt host b a ≡ false
    → remaining_secondary_credits host b ≤ remaining_secondary_credits host a
unfolding probe_lt
probe_lt-credits host a b h = ground arith

module _ (host : Host) (o : SelectOptions) (current : ℕ) (states : List AccountState)
    (a b : AccountState) (chosen : (select_account host o current states).1.account ≡ some a)
    (other : In b (effective_pool (candidates o.allow_backoff_fallback current states))) where
  choice :
      choose o.routing_strategy host o current
        (effective_pool (candidates o.allow_backoff_fallback current states))
      ≡ some a
  unfolding select_account
  choice =
      answer_of_choose host o current a (visited current states)
        (candidates o.allow_backoff_fallback current states) chosen

  -- Round robin takes an account of the pool that was selected the longest ago.
  pub round_robin_oldest : o.routing_strategy ≡ round_robin → last_selected a ≤ last_selected b
  unfolding choose round_robin_sort_key
  round_robin_oldest h =
      key_lt-head (last_selected a) (last_selected b) (a.account_id ∷ []) (b.account_id ∷ []) (
        least-below (by_key round_robin_sort_key) (by_key-IsWeakOrder round_robin_sort_key)
          (effective_pool (candidates o.allow_backoff_fallback current states)) b
          (rw (h, choose) at choice) other)

  -- The deterministic capacity probe without a preference for early resets takes an account of the
  -- pool with the most remaining secondary credits.
  pub probe_most_credits :
      o.routing_strategy ≡ capacity_weighted
      → o.deterministic_probe ≡ true
      → o.prefer_earlier_reset ≡ false
      → remaining_secondary_credits host b ≤ remaining_secondary_credits host a
  unfolding choose choose_capacity
  probe_most_credits h p q = probe_lt-credits host a b (
      least-below (probe_lt host) (probe_lt-IsWeakOrder host)
        (effective_pool (candidates o.allow_backoff_fallback current states)) b
        (rw (h, choose, choose_capacity, p, q) at choice) other)

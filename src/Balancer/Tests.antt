-- ===== src/Balancer/Tests.antt =====
-- The balancer at concrete accounts.
use codex_lb_mod.Base.{In, List, [], arith, false, inl, inr, none, refl, some, true, ◌∷◌, ◌≡◌}
use codex_lb_mod.Balancer.State.{AccountState, AccountStatus}
use codex_lb_mod.Balancer.Eligibility.{
  admit_status, available_of, clear_cooldown, hold_back, visit, visited,
}
use codex_lb_mod.Balancer.Eligibility.Serving.{IsServing}
use codex_lb_mod.Balancer.Ranking.{Host, key_lt, least, round_robin_sort_key}
use codex_lb_mod.Balancer.Select.{
  RoutingStrategy, SelectOptions, candidates, capacity_weighted, choose, effective_pool,
  round_robin, select_account, usage_weighted,
}
use codex_lb_mod.Balancer.Select.Chosen.{select_account-IsServing}
use codex_lb_mod.Balancer.Select.Total.{
  DrawsInRange, Outcome, select_account-Outcome, select_account_serves,
}
use codex_lb_mod.Balancer.Failures.{Draw, UpstreamError}
use codex_lb_mod.Balancer.Health.{default_thresholds}
use codex_lb_mod.Balancer.Health.Tiers.{Evaluation, TierStep, evaluate, evaluate-TierStep}

abbrev idle : AccountState
idle = record {
  account_id = 1;
  status = AccountStatus.active;
  used_percent = some 40;
  reset_at = none;
  blocked_at = none;
  cooldown_until = none;
  secondary_used_percent = some 10;
  secondary_reset_at = some 90000000;
  last_error_at = none;
  last_selected_at = some 5000;
  error_count = 0;
  deactivation_reason = none;
  plan_type = some "plus";
  capacity_credits = some 1000;
  health_tier = 0;
}

abbrev busy : AccountState
busy = record idle {
  account_id = 2;
  used_percent = some 70;
  secondary_used_percent = some 60;
  last_selected_at = some 9000;
}

-- A rate limit whose reset is over.
abbrev recovering : AccountState
recovering = record idle {
  account_id = 3;
  status = AccountStatus.rate_limited;
  reset_at = some 8000;
  cooldown_until = some 9000;
  error_count = 2;
}

abbrev host : Host
host = record { normalize = λ s. s; choices = λ weights. 0 }

host_draws : DrawsInRange host
host_draws [] h = absurd (omega arith)
host_draws (w ∷ ws) h = omega arith

abbrev options : RoutingStrategy → SelectOptions
options strategy = record {
  prefer_earlier_reset = false;
  routing_strategy = strategy;
  allow_backoff_fallback = true;
  deterministic_probe = true;
  primary_first_usage_weighted = false;
}

abbrev accounts : List AccountState
accounts = busy ∷ idle ∷ []

select_account-IsServing_example : In idle (visited 10000 accounts) × IsServing 10000 idle
unfolding select_account candidates available_of visit admit_status hold_back clear_cooldown choose
    least effective_pool key_lt round_robin_sort_key
select_account-IsServing_example =
    select_account-IsServing host (options round_robin) 10000 accounts idle refl

select_account-Outcome_example :
    Outcome 10000 accounts
      (candidates true 10000 accounts)
      (select_account host (options capacity_weighted) 10000 accounts).1
select_account-Outcome_example =
    select_account-Outcome host (options capacity_weighted) 10000 accounts host_draws

select_account_serves_example :
    (a : AccountState) × ((select_account host (options usage_weighted) 10000 accounts).1.account
      ≡ some a)
unfolding visit admit_status hold_back clear_cooldown
select_account_serves_example =
    select_account_serves host (options usage_weighted) 10000 accounts idle host_draws
      (inr (inl refl)) refl

abbrev draw : Draw
draw = record { parse_retry_after = λ text. none; jitter = 100 }

abbrev limited : UpstreamError
limited = record { message = none; resets_at = some 20000; resets_in_seconds = none }

-- The quiet period is over, and the successes are enough.
abbrev quiet : Evaluation
quiet = record { current = 100000; drain_entered_at = some 10000; streak = 3; account = idle }

evaluate-TierStep_example :
    TierStep default_thresholds quiet 1 (evaluate default_thresholds quiet 1)
evaluate-TierStep_example = evaluate-TierStep default_thresholds quiet 1 (omega arith)

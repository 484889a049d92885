-- ===== src/Quota/Tests.antt =====
-- `apply_usage_quota` at concrete usages.
use codex_lb_mod.Base.{false, none, refl, some, ◌≡◌, ◌⊎◌}
use codex_lb_mod.Balancer.State.{AccountStatus, ahead}
use codex_lb_mod.Quota.{QuotaInput, apply_usage_quota}
use codex_lb_mod.Quota.Laws.{exhausted_blocks, only_clears}

abbrev spent : QuotaInput
spent = record {
  primary_used = some 100;
  primary_reset = some 50000;
  primary_window_minutes = some 300;
  runtime_reset = some 20000;
  secondary_used = some 40;
  secondary_reset = none;
}

abbrev spare : QuotaInput
spare = record spent { primary_used = some 60 }

exhausted_blocks_example :
    ((apply_usage_quota 10000 AccountStatus.active spent).result_status
      ≡ AccountStatus.rate_limited)
    × ((apply_usage_quota 10000 AccountStatus.active spent).result_used ≡ some 100)
exhausted_blocks_example = exhausted_blocks 10000 AccountStatus.active spent refl refl

only_clears_example :
    ((apply_usage_quota 30000 AccountStatus.rate_limited spare).result_status
      ≡ AccountStatus.rate_limited)
    ⊎ ((apply_usage_quota 30000 AccountStatus.rate_limited spare).result_status
        ≡ AccountStatus.active)
      × ((apply_usage_quota 30000 AccountStatus.rate_limited spare).result_reset ≡ none)
      × (ahead 30000 (some 20000) ≡ false)
      × ((AccountStatus.rate_limited ≡ AccountStatus.rate_limited)
          ⊎ (AccountStatus.rate_limited ≡ AccountStatus.quota_exceeded))
only_clears_example = only_clears 30000 AccountStatus.rate_limited spare refl

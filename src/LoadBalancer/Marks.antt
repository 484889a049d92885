-- ===== src/LoadBalancer/Marks.antt =====
-- The reports of what the upstream answered: `mark_rate_limit`, `mark_quota_exceeded`,
-- `mark_permanent_failure`, `record_error` and `record_errors` of
-- app/modules/proxy/load_balancer.py. The row that the caller holds is changed in place, so that it is a result.
pub mod Kept
pub mod Waits
use Prim.Native.String.{String}
use codex_lb_mod.Base.{Table, false, if◌then◌else◌, ltb, none, put, some, ℕ, ◌+◌, ◌==◌}
use codex_lb_mod.Balancer.State.{AccountState}
use codex_lb_mod.Balancer.Failures.{
  Draw, UpstreamError, handle_permanent_failure, handle_quota_exceeded, handle_rate_limit,
}
use codex_lb_mod.Balancer.Health.{probing}
use codex_lb_mod.LoadBalancer.Accounts.{Account}
use codex_lb_mod.LoadBalancer.Cache.{AccountSelectionCache, invalidate}
use codex_lb_mod.LoadBalancer.States.{RuntimeState, Settings, runtime_of}
use codex_lb_mod.LoadBalancer.Runtime.{state_for, sync_runtime_state}
use codex_lb_mod.LoadBalancer.Persist.{persist_state, persist_state_if_current}
use codex_lb_mod.LoadBalancer.Inputs.{SelectionInputs}

-- The table of accounts, what the process remembers, and the cache of inputs.
pub record LoadBalancer : Type 0 where
  pub rows : Table Account
  pub runtime : Table RuntimeState
  pub cache : AccountSelectionCache SelectionInputs

-- What the three marks have in common: a handler changes the state, which goes to the runtime and
-- to the row, and the cache is invalidated.
unfoldable pub mark_with :
    (AccountState → AccountState) → ℕ → Settings → Account → LoadBalancer → LoadBalancer × Account
mark_with handler now settings account b =
    let s = handler (state_for settings account (runtime_of b.runtime account.id)) in
    let (after, held) = persist_state account s b.rows in
    (
      record {
        rows = after;
        runtime = (sync_runtime_state now false none account s b.runtime).0;
        cache = invalidate b.cache;
      },
      held,
    )

unfoldable pub mark_rate_limit :
    Draw → ℕ → Settings → UpstreamError → Account → LoadBalancer → LoadBalancer × Account
mark_rate_limit draw now settings error = mark_with (handle_rate_limit draw now error) now settings

unfoldable pub mark_quota_exceeded :
    ℕ → Settings → UpstreamError → Account → LoadBalancer → LoadBalancer × Account
mark_quota_exceeded now settings error = mark_with (handle_quota_exceeded now error) now settings

unfoldable pub mark_permanent_failure :
    ℕ → Settings → String → Account → LoadBalancer → LoadBalancer × Account
mark_permanent_failure now settings code = mark_with (handle_permanent_failure code) now settings

abbrev reset_streak : RuntimeState → RuntimeState
reset_streak r = if r.tier == probing then record r { probe_success_streak = 0 } else r

-- The row is written only while it is as the caller holds it.
unfoldable pub record_errors : ℕ → Settings → ℕ → Account → LoadBalancer → LoadBalancer
record_errors now settings errors account b =
    let before = state_for settings account (runtime_of b.runtime account.id) in
    let s = record before { error_count = before.error_count + errors; last_error_at = some now } in
    let synced = (sync_runtime_state now false none account s b.runtime).0 in
    if ltb errors 1 then b else record b {
      rows = (persist_state_if_current account s b.rows).0;
      runtime = put synced account.id (reset_streak (runtime_of synced account.id));
    }

unfoldable pub record_error : ℕ → Settings → Account → LoadBalancer → LoadBalancer
record_error now settings = record_errors now settings 1

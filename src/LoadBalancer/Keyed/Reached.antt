-- ===== src/LoadBalancer/Keyed/Reached.antt =====
-- The attempts that `LoadBalancer.select_account` makes for a sticky key, and what is known of an
-- account that it returns (app/modules/proxy/load_balancer.py).
use codex_lb_mod.Base.{In, some, suc, true, ℕ, ◌≡◌}
use codex_lb_mod.Balancer.State.{AccountState, AccountStatus}
use codex_lb_mod.Balancer.Ranking.{Host}
use codex_lb_mod.LoadBalancer.Accounts.{Account}
use codex_lb_mod.LoadBalancer.Inputs.{SelectionInputs}
use codex_lb_mod.LoadBalancer.Keyed.{
  KeyRequest, KeyedAttempt, KeyedState, KeyedTasks, keyed_snapshot, keyed_states, try_keyed,
}
use codex_lb_mod.LoadBalancer.Persist.Selection.{IsPersisted}
use codex_lb_mod.LoadBalancer.Sticky.{StickyResult, select_with_stickiness}

-- Which attempts a run of the loop makes, with the state and the load that each starts with: the
-- first one, and after a stale attempt those that follow on what it left and on the next load.
pub data KeyedReaches (host : Host) (tasks : KeyedTasks) (q : KeyRequest) (now : ℕ)
    : ℕ → KeyedState → SelectionInputs → ℕ → KeyedState → SelectionInputs → Type 0 where
  this :
      (left : ℕ) (b : KeyedState) (inputs : SelectionInputs)
      → KeyedReaches host tasks q now left b inputs left b inputs
  later :
      (left : ℕ) (b : KeyedState) (inputs : SelectionInputs) (t : KeyedAttempt) (n : ℕ)
      (before : KeyedState) (last : SelectionInputs)
      → try_keyed host tasks q now (suc left) b inputs ≡ some t
      → t.keyed_stale ≡ true
      → KeyedReaches host tasks q now left t.keyed_state (tasks.next_load (suc left)) n before last
      → KeyedReaches host tasks q now (suc left) b inputs n before last

-- The state of an account with the status and the reason of the chosen one.
abbrev pub as_chosen : AccountState → AccountState → AccountState
as_chosen x s = record s { status = x.status; deactivation_reason = x.deactivation_reason }

-- What an attempt returns for the result of the sticky selection: the account of the chosen state,
-- whose row the load offered, and the state that is written for it.
pub record IsReturned (inputs : SelectionInputs) (r : StickyResult) (after : KeyedState)
    (a : Account) : Type 0 where
  pub loaded : Account
  pub chosen : AccountState
  pub found : AccountState
  pub was_chosen : r.selection.account ≡ some chosen
  pub is_loaded : In loaded inputs.offered
  pub is_own : loaded.id ≡ chosen.account_id
  pub made : a ≡ keyed_snapshot chosen r.states_after loaded
  pub is_found : In found r.states_after
  pub found_id : found.account_id ≡ chosen.account_id
  pub is_active : chosen.status ≡ AccountStatus.active
  pub is_current : IsPersisted after.core.rows loaded (as_chosen chosen found)

-- An account that is returned comes from the sticky selection of the last attempt of those that were
-- made, and the state afterwards is the one that this attempt left.
pub record IsLastReturned (host : Host) (tasks : KeyedTasks) (q : KeyRequest) (now left : ℕ)
    (b : KeyedState) (inputs : SelectionInputs) (after : KeyedState) (a : Account) : Type 0 where
  pub attempts_left : ℕ
  pub before : KeyedState
  pub last : SelectionInputs
  pub result : StickyResult
  pub last_attempt : KeyedAttempt
  pub reached : KeyedReaches host tasks q now left b inputs attempts_left before last
  pub is_tried : try_keyed host tasks q now attempts_left before last ≡ some last_attempt
  pub is_left : last_attempt.keyed_state ≡ after
  pub is_selected :
      select_with_stickiness host q.request_options now
        (some q.request_key)
        (some q.request_kind)
        last.offered
        (keyed_states q now before.core last).0
        before.mappings
      ≡ some result
  pub is_returned : IsReturned last result after a

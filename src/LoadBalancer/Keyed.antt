-- ===== src/LoadBalancer/Keyed.antt =====
-- The loop of `LoadBalancer.select_account` for a request with a sticky key
-- (app/modules/proxy/load_balancer.py). Other tasks act between the choice and the writes of an
-- attempt.
pub mod Returned
pub mod Reached
use mathlib.Core.Option
use codex_lb_mod.Base.{
  Bool, List, Option, Table, if◌then◌else◌, map, none, some, suc, zero, ℕ, ◌==◌,
}
use codex_lb_mod.Balancer.State.{AccountState}
use codex_lb_mod.Balancer.Ranking.{Host}
use codex_lb_mod.Balancer.Select.{Message}
use codex_lb_mod.LoadBalancer.Accounts.{Account}
use codex_lb_mod.LoadBalancer.Inputs.{SelectionInputs}
use codex_lb_mod.LoadBalancer.Loop.{
  AccountSelection, failure_of, find_account, finish, input_failed, map_account, not_selected,
  pairs, remembered, sync_all, was_stale,
}
use codex_lb_mod.LoadBalancer.Mappings.{StickySession, StickySessionKind}
use codex_lb_mod.LoadBalancer.Marks.{LoadBalancer}
use codex_lb_mod.LoadBalancer.Persist.{persist_selection_state, stored_time}
use codex_lb_mod.LoadBalancer.Runtime.{prune_runtime}
use codex_lb_mod.LoadBalancer.States.{RuntimeState, Settings, build_states}
use codex_lb_mod.LoadBalancer.Sticky.{
  StickyRequest, StickyResult, find_state, select_with_stickiness,
}

pub record KeyRequest : Type 0 where
  pub request_key : ℕ
  pub request_kind : StickySessionKind
  pub request_options : StickyRequest
  pub request_settings : Settings

-- The load balancer and the mappings, which other tasks change too.
pub record KeyedState : Type 0 where
  pub core : LoadBalancer
  pub mappings : List StickySession

pub record KeyedTasks : Type 0 where
  pub meanwhile : ℕ → KeyedState → KeyedState
  pub next_load : ℕ → SelectionInputs

-- The status and the reason of the result go to the state of its account.
abbrev pub take_result : Option AccountState → AccountState → AccountState
take_result none s = s
take_result (some a) s =
    if s.account_id == a.account_id
    then record s { status = a.status; deactivation_reason = a.deactivation_reason }
    else s

-- `selected_reset_at`
abbrev pub reset_after : AccountState → List AccountState → Account → Option ℕ
reset_after a states row = elim (find_state a.account_id states) as (λ _. Option ℕ) [
  | none ↦ row.reset_at
  | some s ↦ stored_time s.reset_at
]

unfoldable pub keyed_snapshot : AccountState → List AccountState → Account → Account
keyed_snapshot a states row = record row {
  status = a.status;
  deactivation_reason = a.deactivation_reason;
  reset_at = reset_after a states row;
}

abbrev pub keyed_snapshot_for :
    List Account → List AccountState → Option AccountState → Option Account
keyed_snapshot_for accounts states none = none
keyed_snapshot_for accounts states (some a) =
    map_account (keyed_snapshot a states) (find_account a.account_id accounts)

pub record KeyedAttempt : Type 0 where
  pub keyed_state : KeyedState
  pub keyed_selected : Option Account
  pub keyed_message : Option Message
  pub keyed_stale : Bool

-- The states that are built at the start of an attempt, with what is then remembered.
unfoldable pub keyed_states :
    KeyRequest → ℕ → LoadBalancer → SelectionInputs → List AccountState × Table RuntimeState
keyed_states q now b inputs =
    build_states now q.request_settings inputs.usage inputs.offered
      (prune_runtime (remembered inputs) b.runtime)

-- The rest of an attempt, for the result of the sticky selection.
unfoldable pub after_sticky :
    KeyedTasks
    → ℕ
    → ℕ
    → KeyedState
    → SelectionInputs
    → Table RuntimeState
    → StickyResult
    → KeyedAttempt
unfolding keyed_snapshot
after_sticky tasks now left b inputs runtime r =
    let account = r.selection.account in
    let synced = sync_all now account (pairs inputs.offered r.states_after) runtime in
    let changed =
      tasks.meanwhile left
        (record b { core = record b.core { runtime = synced }; mappings = r.mappings_after }) in
    let written =
      persist_selection_state (pairs inputs.offered (map (take_result account) r.states_after))
        changed.core.rows in
    let snapshot = keyed_snapshot_for inputs.offered r.states_after account in
    record {
      keyed_state = record changed { core = record changed.core { rows = written.0 } };
      keyed_selected = snapshot;
      keyed_message = r.selection.error_message;
      keyed_stale = was_stale snapshot written.1;
    }

unfoldable pub try_keyed :
    Host → KeyedTasks → KeyRequest → ℕ → ℕ → KeyedState → SelectionInputs → Option KeyedAttempt
unfolding keyed_states
try_keyed host tasks q now left b inputs =
    let (states, runtime) = keyed_states q now b.core inputs in
    Option.map (after_sticky tasks now left b inputs runtime) (
      select_with_stickiness host q.request_options now (some q.request_key) (some q.request_kind)
        inputs.offered states b.mappings)

abbrev pub keyed_answer : KeyedAttempt → AccountSelection
keyed_answer t =
    if t.keyed_stale then not_selected none else finish t.keyed_selected t.keyed_message

-- Attempts, with the number of those that may follow. `none` is the error of a missing kind.
unfoldable pub keyed_loop :
    Host
    → KeyedTasks
    → KeyRequest
    → ℕ
    → ℕ
    → KeyedState
    → SelectionInputs
    → Option (KeyedState × AccountSelection)
keyed_loop host tasks q now zero b inputs = elim (try_keyed host tasks q now zero b inputs) [
  | none ↦ none
  | some t ↦ some (t.keyed_state, keyed_answer t)
]
keyed_loop host tasks q now (suc left) b inputs =
    let next = tasks.next_load (suc left) in
    elim (try_keyed host tasks q now (suc left) b inputs) [
      | none ↦ none
      | some t ↦
          let rest = keyed_loop host tasks q now left t.keyed_state next in
          if t.keyed_stale
          then elim (failure_of next) as (λ _. Option (KeyedState × AccountSelection)) [
            | some error ↦ some (t.keyed_state, input_failed error)
            | none ↦ rest
          ]
          else some (t.keyed_state, finish t.keyed_selected t.keyed_message)
    ]

-- `_MAX_SELECTION_ATTEMPTS` is 4: three attempts may follow the first.
unfoldable pub select_with_key :
    Host
    → KeyedTasks
    → KeyRequest
    → ℕ
    → KeyedState
    → SelectionInputs
    → Option (KeyedState × AccountSelection)
unfolding keyed_loop
select_with_key host tasks q now b inputs = elim (failure_of inputs) [
  | some error ↦ some (b, input_failed error)
  | none ↦ keyed_loop host tasks q now 3 b inputs
]

-- ===== src/LoadBalancer/Loop.antt =====
-- The loop of `LoadBalancer.select_account` for a request without a sticky key
-- (app/modules/proxy/load_balancer.py). Other tasks act between the choice and the writes of an attempt, and
-- before the next load.
pub mod Ids
pub mod Reached
pub mod Served
use codex_lb_mod.Base.{
  Bool, List, Option, Table, [], exists, false, if◌then◌else◌, is_none, is_some, none, not, or_else,
  some, suc, true, zero, ℕ, ◌&&◌, ◌==◌, ◌||◌, ◌∷◌,
}
use codex_lb_mod.Balancer.State.{AccountState}
use codex_lb_mod.Balancer.Ranking.{Host}
use codex_lb_mod.Balancer.Select.{
  Message, SelectOptions, SelectionResult, is_empty, no_available_accounts, or_list,
}
use codex_lb_mod.LoadBalancer.Accounts.{Account, same_time}
use codex_lb_mod.LoadBalancer.Budget.{select_account_preferring_budget_safe}
use codex_lb_mod.LoadBalancer.Inputs.{InputError, SelectionInputs}
use codex_lb_mod.LoadBalancer.Marks.{LoadBalancer}
use codex_lb_mod.LoadBalancer.Persist.{persist_selection_state, stored_time}
use codex_lb_mod.LoadBalancer.Runtime.{prune_runtime, sync_runtime_state}
use codex_lb_mod.LoadBalancer.States.{RuntimeState, Settings, build_states, runtime_of}

-- What the other tasks do: to the load balancer during the attempt with a number of others left,
-- and what the load after it gives.
pub record Tasks : Type 0 where
  pub during : ℕ → LoadBalancer → LoadBalancer
  pub reload : ℕ → SelectionInputs

pub record SelectRequest : Type 0 where
  pub select_options : SelectOptions
  pub threshold_pct : ℕ
  pub lb_settings : Settings

pub data AccountSelection : Type 0 where
  selected : Account → AccountSelection
  not_selected : Option Message → AccountSelection
  input_failed : InputError → AccountSelection

-- `account_map.get(id)`: of two accounts with one id, a dictionary keeps the later one.
abbrev pub find_account : ℕ → List Account → Option Account
find_account id [] = none
find_account id (a ∷ accounts) =
    or_else (find_account id accounts) (if a.id == id then some a else none)

abbrev pub pair_with :
    Option Account → AccountState → List (Account × AccountState) → List (Account × AccountState)
pair_with none s states = states
pair_with (some a) s states = (a, s) ∷ states

-- The states, each with its account.
abbrev pub pairs : List Account → List AccountState → List (Account × AccountState)
pairs accounts [] = []
pairs accounts (s ∷ states) =
    pair_with (find_account s.account_id accounts) s (pairs accounts states)

abbrev is_chosen : Option AccountState → AccountState → Bool
is_chosen none s = false
is_chosen (some a) s = s.account_id == a.account_id

unfoldable pub sync_all :
    ℕ
    → Option AccountState
    → List (Account × AccountState)
    → Table RuntimeState
    → Table RuntimeState
sync_all now chosen [] runtime = runtime
sync_all now chosen ((a, s) ∷ states) runtime =
    sync_all now chosen states (sync_runtime_state now (is_chosen chosen s) none a s runtime).0

-- The row as it is returned: `blocked_at` stays as it was loaded.
unfoldable pub snapshot_of : AccountState → Account → Account
snapshot_of s a = record a {
  status = s.status;
  deactivation_reason = s.deactivation_reason;
  reset_at = stored_time s.reset_at;
}

abbrev pub map_account : (Account → Account) → Option Account → Option Account
map_account f none = none
map_account f (some a) = some (f a)

abbrev pub snapshot_for : List Account → Option AccountState → Option Account
snapshot_for accounts none = none
snapshot_for accounts (some s) = map_account (snapshot_of s) (find_account s.account_id accounts)

-- `any(…)` over what was remembered before the writes: an account whose block or errors changed.
abbrev pub recovered_at : Table RuntimeState → Table RuntimeState → Account → Bool
recovered_at before after a =
    let r = runtime_of before a.id in
    let r' = runtime_of after a.id in
    is_some (before a.id)
    && (not (same_time r'.runtime_reset_at r.runtime_reset_at)
        || not (same_time r'.runtime_cooldown_until r.runtime_cooldown_until)
        || not (r'.runtime_error_count == r.runtime_error_count)
        || not (same_time r'.runtime_last_error_at r.runtime_last_error_at))

abbrev is_no_account : Option Message → Bool
is_no_account (some no_available_accounts) = true
is_no_account _ = false

-- `selected_snapshot is not None and selected_snapshot.id in stale_account_ids`
abbrev pub was_stale : Option Account → List ℕ → Bool
was_stale none stale = false
was_stale (some a) stale = exists (λ id. id == a.id) stale

pub record Attempted : Type 0 where
  pub balancer : LoadBalancer
  pub snapshot : Option Account
  pub message : Option Message
  pub is_stale : Bool
  pub tries_again : Bool

-- `runtime_accounts or accounts`
abbrev pub remembered : SelectionInputs → List Account
remembered inputs = or_list inputs.runtime_accounts inputs.offered

-- The states of an attempt after the choice, and the choice.
unfoldable pub chosen_in :
    Host
    → SelectRequest
    → ℕ
    → LoadBalancer
    → SelectionInputs
    → (List AccountState × SelectionResult) × Table RuntimeState
chosen_in host q now b inputs =
    let (states, runtime) =
      build_states now q.lb_settings inputs.usage inputs.offered
        (prune_runtime (remembered inputs) b.runtime) in
    (
      select_account_preferring_budget_safe host q.select_options q.threshold_pct now states,
      runtime,
    )

unfoldable pub try_once :
    Host → Tasks → SelectRequest → ℕ → ℕ → LoadBalancer → SelectionInputs → Attempted
unfolding chosen_in sync_all snapshot_of
try_once host tasks q now left b inputs =
    let (choice, runtime) = chosen_in host q now b inputs in
    let r = choice.1 in
    let states = pairs inputs.offered choice.0 in
    let synced = sync_all now r.account states runtime in
    let changed = tasks.during left (record b { runtime = synced }) in
    let (rows_after, stale) = persist_selection_state states changed.rows in
    let snapshot = snapshot_for inputs.offered r.account in
    record {
      balancer = record changed { rows = rows_after };
      snapshot = snapshot;
      message = r.error_message;
      is_stale = was_stale snapshot stale;
      tries_again =
          (is_some snapshot && not (changed.cache.generation == b.cache.generation))
          || (is_none snapshot
              && is_no_account r.error_message
              && exists (recovered_at synced changed.runtime) (remembered inputs));
    }

abbrev pub finish : Option Account → Option Message → AccountSelection
finish none message = not_selected message
finish (some a) message = selected a

-- The answer of an attempt after which there is no other.
abbrev pub finish_last : Attempted → AccountSelection
finish_last t = if t.is_stale then not_selected none else finish t.snapshot t.message

-- `selection_inputs.error_code is not None and not selection_inputs.accounts`
abbrev pub failure_of : SelectionInputs → Option InputError
failure_of inputs = if is_empty inputs.offered then inputs.input_error else none

-- Attempts, with the number of those that may follow: the load balancer, and the answer.
unfoldable pub attempt_loop :
    Host
    → Tasks
    → SelectRequest
    → ℕ
    → ℕ
    → LoadBalancer
    → SelectionInputs
    → LoadBalancer × AccountSelection
attempt_loop host tasks q now zero b inputs =
    let t = try_once host tasks q now zero b inputs in (t.balancer, finish_last t)
attempt_loop host tasks q now (suc left) b inputs =
    let t = try_once host tasks q now (suc left) b inputs in
    let next = tasks.reload (suc left) in
    let rest = attempt_loop host tasks q now left t.balancer next in
    if t.is_stale || t.tries_again
    then elim (failure_of next) as (λ _. LoadBalancer × AccountSelection) [
      | some error ↦ (t.balancer, input_failed error)
      | none ↦ rest
    ]
    else (t.balancer, finish t.snapshot t.message)

-- `_MAX_SELECTION_ATTEMPTS` is 4: three attempts may follow the first.
unfoldable pub select_without_key :
    Host
    → Tasks
    → SelectRequest
    → ℕ
    → LoadBalancer
    → SelectionInputs
    → LoadBalancer × AccountSelection
unfolding attempt_loop
select_without_key host tasks q now b inputs = elim (failure_of inputs) [
  | some error ↦ (b, input_failed error)
  | none ↦ attempt_loop host tasks q now 3 b inputs
]

-- ===== src/LoadBalancer/Inputs.antt =====
-- What a selection starts from: `_load_selection_inputs` of app/modules/proxy/load_balancer.py with
-- its filters, and `account_plan_matches_allowed` of app/core/plan_types.py.
pub mod Offered
use Prim.Native.String.{String}
use text.Mathlib.Text.{◌==◌ as str_eq}
use codex_lb_mod.Base.{
  Bool, List, Option, Table, [], exists, false, if◌then◌else◌, is_none, is_some, leb, none, not,
  select, some, true, ℕ, ◌&&◌, ◌/◌, ◌==◌, ◌||◌, ◌∷◌,
}
use codex_lb_mod.Balancer.State.{AccountStatus, same_status}
use codex_lb_mod.Balancer.Select.{is_empty}
use codex_lb_mod.LoadBalancer.Accounts.{Account, UsageHistory}
use codex_lb_mod.LoadBalancer.States.{Usage}

-- The error codes, each with its message.
pub data InputError : Type 0 where
  no_plan_support_for_model additional_quota_data_unavailable
        no_additional_quota_eligible_accounts :
      InputError

pub record SelectionInputs : Type 0 where
  pub offered : List Account
  pub usage : Usage
  pub runtime_accounts : List Account
  pub input_error : Option InputError

-- The latest rows of the additional quota, and those that are fresh: by account and window.
pub record AdditionalUsage : Type 0 where
  pub all_primary : Table UsageHistory
  pub all_secondary : Table UsageHistory
  pub fresh_primary : Table UsageHistory
  pub fresh_secondary : Table UsageHistory

-- What the call asks for, with what the tables and the registry of models answer: `for_model` tells
-- a model that is not empty, `registered` that the registry has it, `allowed_plans` its plans in lower case, and
-- `additional` the usage of the quota that gates it, if one does.
pub record InputRequest : Type 0 where
  pub for_model : Bool
  pub registered : Bool
  pub allowed_plans : Option (List String)
  pub scope : Option (List ℕ)
  pub additional : Option AdditionalUsage

unfoldable pub selectable_accounts : List Account → List Account
selectable_accounts = select (λ a.
    not
      (same_status a.status AccountStatus.deactivated || same_status a.status AccountStatus.paused))

abbrev pub in_scope : Option (List ℕ) → Account → Bool
in_scope none a = true
in_scope (some ids) a = exists (λ id. id == a.id) ids

-- The plan itself, or one that it is equivalent to, is allowed.
unfoldable pub account_plan_matches_allowed : (String → String) → String → List String → Bool
account_plan_matches_allowed clean plan allowed =
    not (str_eq (clean plan) "")
    && (exists (str_eq (clean plan)) allowed
        || (str_eq (clean plan) "prolite" && exists (str_eq "pro") allowed))

abbrev pub plan_allowed : (String → String) → Option (List String) → Account → Bool
plan_allowed clean none a = true
plan_allowed clean (some allowed) a = account_plan_matches_allowed clean a.plan_type allowed

unfoldable pub filter_accounts_for_model :
    (String → String) → Option (List String) → List Account → List Account
filter_accounts_for_model clean allowed = select (plan_allowed clean allowed)

unfoldable pub additional_usage_is_exhausted : ℕ → UsageHistory → Bool
additional_usage_is_exhausted now e = elim e.used_percent [
  | none ↦ false
  | some used ↦ elim e.reset_at [
    | none ↦ leb 100 used
    | some t ↦ if leb (t / 1000) (now / 1000) then false else leb 100 used
  ]
]

pub data Eligibility : Type 0 where
  eligible quota_exhausted data_unavailable : Eligibility

abbrev entry_exhausted : ℕ → Option UsageHistory → Bool
entry_exhausted now none = false
entry_exhausted now (some e) = additional_usage_is_exhausted now e

unfoldable pub additional_quota_eligibility : ℕ → AdditionalUsage → ℕ → Eligibility
additional_quota_eligibility now u id =
    if is_none (u.all_primary id) && is_none (u.all_secondary id)
    then data_unavailable
    else if is_some (u.all_primary id) && is_none (u.fresh_primary id)
    then data_unavailable
    else if is_some (u.all_secondary id) && is_none (u.fresh_secondary id)
    then data_unavailable
    else if entry_exhausted now (u.fresh_primary id)
    then quota_exhausted
    else if entry_exhausted now (u.fresh_secondary id)
    then quota_exhausted
    else eligible

abbrev pub is_eligible : Eligibility → Bool
is_eligible eligible = true
is_eligible quota_exhausted = false
is_eligible data_unavailable = false

abbrev pub lacks_data : Eligibility → Bool
lacks_data data_unavailable = true
lacks_data eligible = false
lacks_data quota_exhausted = false

unfoldable pub filter_accounts_for_additional_limit :
    ℕ → AdditionalUsage → List Account → List Account × Option InputError
filter_accounts_for_additional_limit now u [] = ([], none)
filter_accounts_for_additional_limit now u (a ∷ accounts) =
    let left = select (λ b. is_eligible (additional_quota_eligibility now u b.id)) (a ∷ accounts) in
    if not (is_empty left)
    then (left, none)
    else if exists (λ b. lacks_data (additional_quota_eligibility now u b.id)) (a ∷ accounts)
    then ([], some additional_quota_data_unavailable)
    else ([], some no_additional_quota_eligible_accounts)

abbrev no_usage : Usage
no_usage = record { latest_primary = λ id. none; latest_secondary = λ id. none }

abbrev pub no_inputs : List Account → Option InputError → SelectionInputs
no_inputs all error = record {
  offered = [];
  usage = no_usage;
  runtime_accounts = all;
  input_error = error;
}

-- The end of the load: the accounts that are left, with the latest usage.
abbrev pub with_usage : Usage → List Account → List Account × Option InputError → SelectionInputs
with_usage latest all ([], error) = no_inputs all error
with_usage latest all (a ∷ accounts, error) = record {
  offered = a ∷ accounts;
  usage = latest;
  runtime_accounts = all;
  input_error = none;
}

abbrev pub filtered : ℕ → Option AdditionalUsage → List Account → List Account × Option InputError
filtered now none accounts = (accounts, none)
filtered now (some u) accounts = filter_accounts_for_additional_limit now u accounts

abbrev pub scoped : InputRequest → List Account → List Account
scoped q all = select (in_scope q.scope) (selectable_accounts all)

-- A load that does not find its answer in the cache, on all accounts and the latest usage.
unfoldable pub load_from_tables :
    ℕ → (String → String) → InputRequest → Usage → List Account → SelectionInputs
load_from_tables now clean q latest all =
    let before = scoped q all in
    let accounts =
      if q.for_model && q.registered
      then filter_accounts_for_model clean q.allowed_plans before
      else before in
    if q.for_model && is_empty accounts
    then if is_empty all
      then no_inputs all none
      else if is_empty before
      then no_inputs all none
      else no_inputs all (some no_plan_support_for_model)
    else with_usage latest all (filtered now q.additional accounts)

-- ===== src/LoadBalancer/Inputs/Offered.antt =====
-- The accounts that a load offers (`_load_selection_inputs` of app/modules/proxy/load_balancer.py).
use Prim.Native.String.{String}
use codex_lb_mod.Base.{
  Bool, Bool-cases, In, List, Option, [], ap, exists, if◌then◌else◌, inl, inr, is_none, is_some,
  leb, none, not, refl, Option-cases, ◌⊎◌, ◌<◌, ◌/◌, ◌≤◌, arith, ℕ, false, select, some, subst,
  true, ◌&&◌, ◌||◌, ◌∙◌, ◌∷◌, ◌≡◌,
}
use codex_lb_mod.Base.Member.{In-select}
use codex_lb_mod.Balancer.State.{AccountStatus, same_status}
use codex_lb_mod.Balancer.Select.{is_empty}
use codex_lb_mod.LoadBalancer.Accounts.{Account, UsageHistory}
use codex_lb_mod.LoadBalancer.States.{Usage}
use codex_lb_mod.LoadBalancer.Inputs.{
  AdditionalUsage, InputError, InputRequest, SelectionInputs, additional_quota_eligibility,
  additional_usage_is_exhausted, filter_accounts_for_additional_limit, filter_accounts_for_model,
  filtered, in_scope, is_eligible, lacks_data, load_from_tables, plan_allowed, scoped,
  selectable_accounts, with_usage,
}

abbrev eligible_for : ℕ → Option AdditionalUsage → Account → Bool
eligible_for now none a = true
eligible_for now (some u) a = is_eligible (additional_quota_eligibility now u a.id)

-- A usage below 100 percent, an unknown one, or one whose reset has come, in whole seconds.
abbrev pub HasRoom : ℕ → UsageHistory → Type 0
HasRoom now e =
    (e.used_percent ≡ none)
    ⊎ ((used : ℕ) × (e.used_percent ≡ some used) × (used < 100))
    ⊎ ((t : ℕ) × (e.reset_at ≡ some t) × (t / 1000 ≤ now / 1000))

-- A window with a fresh row that has room, or without any row.
abbrev pub IsOpen : ℕ → Option UsageHistory → Option UsageHistory → Type 0
IsOpen now latest fresh =
    ((e : UsageHistory) × (fresh ≡ some e) × HasRoom now e) ⊎ ((latest ≡ none) × (fresh ≡ none))

-- Both windows are open, and at least one of them has a row.
abbrev pub HasQuota : ℕ → Option AdditionalUsage → ℕ → Type 0
HasQuota now none id = Unit {0}
HasQuota now (some u) id =
    IsOpen now (u.all_primary id) (u.fresh_primary id)
    × IsOpen now (u.all_secondary id) (u.fresh_secondary id)
    × (is_some (u.all_primary id) || is_some (u.all_secondary id) ≡ true)

not_exhausted-HasRoom :
    (now : ℕ) (e : UsageHistory) → additional_usage_is_exhausted now e ≡ false → HasRoom now e
unfolding additional_usage_is_exhausted
not_exhausted-HasRoom now e h = elim (Option-cases e.used_percent) [
  | inl unknown ↦ inl unknown
  | inr (used, u) ↦ elim (Option-cases e.reset_at) [
    | inl never ↦ inr (inl (used, u, ground (arith, rw (u, never) at h)))
    | inr (t, r) ↦ elim (Bool-cases (leb (t / 1000) (now / 1000))) [
      | inl passed ↦ inr (inr (t, r, ground arith))
      | inr ahead ↦ inr (inl (used, u, ground (arith, rw (u, r, ahead) at h)))
    ]
  ]
]

abbrev exhausted : ℕ → Option UsageHistory → Bool
exhausted now none = false
exhausted now (some e) = additional_usage_is_exhausted now e

fresh-IsOpen :
    (now : ℕ) (latest fresh : Option UsageHistory)
    → is_some latest && is_none fresh ≡ false
    → exhausted now fresh ≡ false
    → IsOpen now latest fresh
fresh-IsOpen now latest (some e) known room = inl (e, refl, not_exhausted-HasRoom now e room)
fresh-IsOpen now none none known room = inr (refl, refl)
fresh-IsOpen now (some e) none known room = cc known

eligible-HasQuota :
    (now : ℕ) (additional : Option AdditionalUsage) (a : Account)
    → eligible_for now additional a ≡ true
    → HasQuota now additional a.id
unfolding additional_quota_eligibility
eligible-HasQuota now none a h = tt
eligible-HasQuota now (some u) a h = (
  fresh-IsOpen now (u.all_primary a.id) (u.fresh_primary a.id) (ground (arith, h))
      (ground (arith, h)),
  fresh-IsOpen now (u.all_secondary a.id) (u.fresh_secondary a.id) (ground (arith, h))
      (ground (arith, h)),
  ground (arith, h),
)

-- What is asked of an account that is offered.
pub record IsOffered (now : ℕ) (clean : String → String) (q : InputRequest) (a : Account)
    : Type 0 where
  pub is_managed :
      not (
        same_status a.status AccountStatus.deactivated || same_status a.status AccountStatus.paused)
      ≡ true
  pub is_in_scope : in_scope q.scope a ≡ true
  pub has_plan : q.for_model && q.registered ≡ true → plan_allowed clean q.allowed_plans a ≡ true
  pub has_quota : HasQuota now q.additional a.id

abbrev has_left : ℕ → AdditionalUsage → List Account → Bool
has_left now u accounts =
    not (is_empty (select (λ b. is_eligible (additional_quota_eligibility now u b.id)) accounts))

eligible-In :
    (now : ℕ) (u : AdditionalUsage) (a : Account) (accounts : List Account)
    → In a (filter_accounts_for_additional_limit now u accounts).0
    → In a (select (λ b. is_eligible (additional_quota_eligibility now u b.id)) accounts)
unfolding filter_accounts_for_additional_limit
eligible-In now u a [] m = m
eligible-In now u a (b ∷ accounts) m = elim (Bool-cases (has_left now u (b ∷ accounts))) [
  | inl some_left ↦ rw some_left at m
  | inr none_left ↦
      elim (Bool-cases
        (exists (λ c. lacks_data (additional_quota_eligibility now u c.id)) (b ∷ accounts))) [
          | inl lacking ↦ absurd ((rw (none_left, lacking) at m).0)
          | inr spent ↦ absurd ((rw (none_left, spent) at m).0)
        ]
]

filtered-In :
    (now : ℕ) (additional : Option AdditionalUsage) (a : Account) (accounts : List Account)
    → In a (filtered now additional accounts).0
    → In a accounts × (eligible_for now additional a ≡ true)
filtered-In now none a accounts m = (m, refl)
filtered-In now (some u) a accounts m = In-select _ a accounts (eligible-In now u a accounts m)

scoped-In :
    (q : InputRequest) (a : Account) (all : List Account)
    → In a (scoped q all)
    → In a all
      × (not (
            same_status a.status AccountStatus.deactivated
            || same_status a.status AccountStatus.paused)
          ≡ true)
      × (in_scope q.scope a ≡ true)
unfolding selectable_accounts
scoped-In q a all m =
    let (n, inside) = In-select (in_scope q.scope) a _ m in
    let (k, alive) = In-select _ a all n in (k, alive, inside)

with_usage-offered :
    (latest : Usage) (all accounts : List Account) (error : Option InputError)
    → (with_usage latest all (accounts, error)).offered ≡ accounts
with_usage-offered latest all [] error = refl
with_usage-offered latest all (a ∷ accounts) error = refl

-- The accounts after the filter by the model.
abbrev for_plan : (String → String) → InputRequest → List Account → List Account
for_plan clean q before =
    if q.for_model && q.registered
    then filter_accounts_for_model clean q.allowed_plans before
    else before

for_plan-In :
    (clean : String → String) (q : InputRequest) (a : Account) (before : List Account)
    → In a (for_plan clean q before)
    → In a before
      × (q.for_model && q.registered ≡ true → plan_allowed clean q.allowed_plans a ≡ true)
unfolding filter_accounts_for_model
for_plan-In clean q a before m = elim (Bool-cases (q.for_model && q.registered)) [
  | inl known ↦ let (n, ok) = In-select _ a before (rw known at m) in (n, λ h. ok)
  | inr unknown ↦ (rw unknown at m, λ h. cc (h, unknown))
]

-- How a load ends: with nothing, or with what the quota leaves of the filtered accounts.
data Loaded (now : ℕ) (clean : String → String) (q : InputRequest) (latest : Usage)
    (all : List Account) (r : SelectionInputs) : Type 0 where
  nothing : r.offered ≡ [] → Loaded now clean q latest all r
  leaves :
      r ≡ with_usage latest all (filtered now q.additional (for_plan clean q (scoped q all)))
      → Loaded now clean q latest all r

load-Loaded :
    (now : ℕ) (clean : String → String) (q : InputRequest) (latest : Usage) (all : List Account)
    → Loaded now clean q latest all (load_from_tables now clean q latest all)
unfolding load_from_tables
load-Loaded now clean q latest all =
    elim (Bool-cases (q.for_model && is_empty (for_plan clean q (scoped q all)))) [
      | inr go_on ↦ leaves (rw go_on refl)
      | inl stop ↦ elim (Bool-cases (is_empty all)) [
        | inl no_account ↦ nothing (rw (stop, no_account) refl)
        | inr accounts ↦ elim (Bool-cases (is_empty (scoped q all))) [
          | inl none_left ↦ nothing (rw (stop, accounts, none_left) refl)
          | inr left ↦ nothing (rw (stop, accounts, left) refl)
        ]
      ]
    ]

-- Every account that a load offers is one of the rows and passes each of the tests: it is neither
-- paused nor deactivated, in the scope, of a plan that serves the model where the registry knows the
-- model, and, where an additional quota gates the model, with a row of the quota in at least one
-- window, and in each window with a fresh row whose usage is unknown, below 100 percent or past its
-- reset, unless the window has no row.
pub load-IsOffered :
    (now : ℕ) (clean : String → String) (q : InputRequest) (latest : Usage) (all : List Account)
    (a : Account)
    → In a (load_from_tables now clean q latest all).offered
    → In a all × IsOffered now clean q a
load-IsOffered now clean q latest all a m = elim (load-Loaded now clean q latest all) [
  | nothing e ↦ absurd ((subst (In a) e m).0)
  | leaves e ↦
      let accounts = (filtered now q.additional (for_plan clean q (scoped q all))).0 in
      let (n, quota) =
        filtered-In now q.additional a (for_plan clean q (scoped q all))
          (subst (In a) (ap (λ r. r.offered) e ∙ with_usage-offered latest all accounts _) m) in
      let (k, plan) = for_plan-In clean q a (scoped q all) n in
      let (there, alive, inside) = scoped-In q a all k in
      (
        there,
        record {
          is_managed = alive;
          is_in_scope = inside;
          has_plan = plan;
          has_quota = eligible-HasQuota now q.additional a quota;
        },
      )
]

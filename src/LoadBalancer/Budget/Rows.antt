-- ===== src/LoadBalancer/Budget/Rows.antt =====
-- From the rows of the accounts to the chosen one: `_build_states`, then the selection
-- (app/modules/proxy/load_balancer.py).
use codex_lb_mod.Base.{
  Bool-cases, In, List, Table, [], ap, arith, inl, inr, map, not, refl, some, subst, sym, true, ℕ,
  ◌∙◌, ◌∷◌, ◌≡◌, ◌≢◌,
}
use codex_lb_mod.Base.Member.{In-map}
use codex_lb_mod.Balancer.State.{AccountState, AccountStatus}
use codex_lb_mod.Balancer.Eligibility.{admit_status, clear_cooldown, hold_back, visit, visited}
use codex_lb_mod.Balancer.Ranking.{Host}
use codex_lb_mod.Balancer.Select.{SelectOptions, select_account}
use codex_lb_mod.Quota.{QuotaInput, apply_usage_quota}
use codex_lb_mod.Quota.Laws.{managed}
use codex_lb_mod.LoadBalancer.Accounts.{Account}
use codex_lb_mod.LoadBalancer.States.{
  RuntimeState, Settings, Usage, build_states, quota_of, state_from_account, state_of,
}
use codex_lb_mod.LoadBalancer.Budget.{
  after_preferred, select_account_preferring_budget_safe, state_above_budget_threshold, visit_safe,
}
use codex_lb_mod.LoadBalancer.Budget.Prefers.{
  both, first_only, none_safe, select_preferring-Course, select_preferring-IsServing,
}

-- A state comes from another one of the same account, and only a managed one serves.
abbrev ComesFrom : AccountState → AccountState → Type 0
ComesFrom a s = (a.account_id ≡ s.account_id) × (managed a.status ≡ true → managed s.status ≡ true)

ComesFrom-trans : (a b c : AccountState) → ComesFrom a b → ComesFrom b c → ComesFrom a c
ComesFrom-trans a b c (same, from) (same', from') = (same ∙ same', λ h. from' (from h))

pub visit-ComesFrom : (now : ℕ) (s : AccountState) → ComesFrom (visit now s).0 s
unfolding visit admit_status clear_cooldown hold_back
visit-ComesFrom now s = (ground arith, ground arith)

pub visit_safe-ComesFrom :
    (threshold now : ℕ) (s : AccountState) → ComesFrom (visit_safe threshold now s) s
visit_safe-ComesFrom threshold now s =
    elim (Bool-cases (not (state_above_budget_threshold threshold s))) [
      | inl safe ↦ rw safe (visit-ComesFrom now s)
      | inr unsafe ↦ rw unsafe (refl, λ h. h)
    ]

abbrev Origin : List AccountState → AccountState → Type 0
Origin states a = (s : AccountState) × In s states × ComesFrom a s

mapped-Origin :
    (f : AccountState → AccountState) (states : List AccountState) (a : AccountState)
    → ((s : AccountState) → ComesFrom (f s) s)
    → In a (map f states)
    → Origin states a
mapped-Origin f states a law m =
    let (s, n, e) = In-map f a states m in (s, n, subst (λ x. ComesFrom x s) e (law s))

after-Origin :
    (threshold now : ℕ) (states : List AccountState) (a : AccountState)
    → In a (after_preferred threshold now states)
    → Origin states a
unfolding after_preferred
after-Origin threshold now states a m =
    mapped-Origin (visit_safe threshold now) states a (visit_safe-ComesFrom threshold now) m

visited-Origin :
    (now : ℕ) (states : List AccountState) (a : AccountState)
    → In a (visited now states)
    → Origin states a
unfolding visited
visited-Origin now states a m =
    mapped-Origin (λ s. (visit now s).0) states a (visit-ComesFrom now) m

select_preferring-Origin :
    (host : Host) (o : SelectOptions) (threshold now : ℕ) (states : List AccountState)
    (a : AccountState)
    → In a (select_account_preferring_budget_safe host o threshold now states).0
    → Origin states a
unfolding select_account
select_preferring-Origin host o threshold now states a m =
    elim (select_preferring-Course host o threshold now states) [
      | none_safe empty f ↦ visited-Origin now states a (rw f at m)
      | first_only f ↦ after-Origin threshold now states a (rw f at m)
      | both nothing f ↦
          let (s, n, from) =
            visited-Origin now (after_preferred threshold now states) a (rw f at m) in
          let (s', n', from') = after-Origin threshold now states s n in
          (s', n', ComesFrom-trans a s s' from from')
    ]

apply_usage_quota-managed :
    (now : ℕ) (status : AccountStatus) (q : QuotaInput)
    → managed (apply_usage_quota now status q).result_status ≡ true
    → managed status ≡ true
unfolding apply_usage_quota
apply_usage_quota-managed now status q h = elim (Bool-cases (managed status)) [
  | inl fine ↦ fine
  | inr down ↦ ground (arith, h, down)
]

state_of-managed :
    (now : ℕ) (settings : Settings) (usage : Usage) (account : Account)
    (runtime : Table RuntimeState)
    → managed (state_of now settings usage account runtime).0.status ≡ true
    → managed account.status ≡ true
unfolding state_from_account quota_of
state_of-managed now settings usage account runtime h =
    apply_usage_quota-managed now account.status _ h

-- The account of a built state.
abbrev RowOf : List Account → AccountState → Type 0
RowOf accounts s =
    (account : Account) × In account accounts
    × (account.id ≡ s.account_id)
    × (managed s.status ≡ true → managed account.status ≡ true)

build_states-RowOf :
    (now : ℕ) (settings : Settings) (usage : Usage) (accounts : List Account)
    (runtime : Table RuntimeState) (s : AccountState)
    → In s (build_states now settings usage accounts runtime).0
    → RowOf accounts s
unfolding build_states state_from_account
build_states-RowOf now settings usage [] runtime s m = absurd m.0
build_states-RowOf now settings usage (account ∷ accounts) runtime s (inl e) = (
  account,
  inl refl,
  ap (λ x. x.account_id) e,
  λ h.
      state_of-managed now settings usage account runtime
        (subst (λ x. managed x.status ≡ true) (sym e) h),
)
build_states-RowOf now settings usage (account ∷ accounts) runtime s (inr m) =
    let (row, n, same, law) = build_states-RowOf now settings usage accounts _ s m in
    (row, inr n, same, law)

-- Whatever the usage, the options and what the process remembers: an account that the load balancer
-- chooses is one of the given rows, and that row is neither paused nor deactivated.
pub chosen_row :
    (host : Host) (o : SelectOptions) (threshold now : ℕ) (settings : Settings) (usage : Usage)
    (accounts : List Account) (runtime : Table RuntimeState) (a : AccountState)
    → (select_account_preferring_budget_safe host o threshold now
        (build_states now settings usage accounts runtime).0).1.account
      ≡ some a
    → (account : Account) × In account accounts
      × (account.id ≡ a.account_id)
      × (account.status ≢ AccountStatus.paused)
      × (account.status ≢ AccountStatus.deactivated)
chosen_row host o threshold now settings usage accounts runtime a e =
    let states = (build_states now settings usage accounts runtime).0 in
    let (m, serving) = select_preferring-IsServing host o threshold now states a e in
    let (s, n, origin) = select_preferring-Origin host o threshold now states a m in
    let (same, from) = origin in
    let (account, there, id, managed_row) =
      build_states-RowOf now settings usage accounts runtime s n in
    let fine = managed_row (from (rw serving.is_active refl)) in
    (account, there, id ∙ sym same, λ h. cc (h, fine), λ h. cc (h, fine))

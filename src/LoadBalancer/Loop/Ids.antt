-- ===== src/LoadBalancer/Loop/Ids.antt =====
-- The ids of the accounts through an attempt (app/modules/proxy/load_balancer.py): the states keep
-- them in their order, and each state finds its account by its id.
use codex_lb_mod.Base.{
  ==_iff, All, Bool-cases, In, List, Option, Option-cases, Table, [], ap, inl, inr, map, none, refl,
  some, some_inj, subst, sym, ℕ, ◌==◌, ◌∙◌, ◌∷◌, ◌≡◌, ◌≢◌,
}
use codex_lb_mod.Balancer.State.{AccountState}
use codex_lb_mod.Balancer.Eligibility.{visit, visited}
use codex_lb_mod.Balancer.Ranking.{Host}
use codex_lb_mod.Balancer.Select.{SelectOptions, select_account}
use codex_lb_mod.LoadBalancer.Accounts.{Account}
use codex_lb_mod.LoadBalancer.Budget.{
  after_preferred, fallback_options, select_account_preferring_budget_safe, visit_safe,
}
use codex_lb_mod.LoadBalancer.Budget.Prefers.{both, first_only, none_safe, select_preferring-Course}
use codex_lb_mod.LoadBalancer.Budget.Rows.{visit-ComesFrom, visit_safe-ComesFrom}
use codex_lb_mod.LoadBalancer.States.{
  RuntimeState, Settings, Usage, build_states, state_from_account,
}
use codex_lb_mod.LoadBalancer.Persist.Selection.{HasDistinctIds, Without}
use codex_lb_mod.LoadBalancer.Loop.{find_account, pair_with, pairs}

-- No id stands twice.
abbrev pub IsDistinct : List ℕ → Type 0
IsDistinct [] = Unit
IsDistinct (id ∷ ids) = All (λ other. other ≢ id) ids × IsDistinct ids

abbrev pub ids_of : List AccountState → List ℕ
ids_of = map (λ s. s.account_id)

abbrev pub row_ids : List Account → List ℕ
row_ids = map (λ a. a.id)

cons_eq : (m n : ℕ) (ms ns : List ℕ) → m ≡ n → ms ≡ ns → m ∷ ms ≡ n ∷ ns
cons_eq m n ms ns e f = rw (e, f) refl

pub ids_of-map :
    (f : AccountState → AccountState) (states : List AccountState)
    → ((s : AccountState) → (f s).account_id ≡ s.account_id)
    → ids_of (map f states) ≡ ids_of states
ids_of-map f [] law = refl
ids_of-map f (s ∷ states) law = cons_eq _ _ _ _ (law s) (ids_of-map f states law)

ids_of-visited :
    (now : ℕ) (states : List AccountState) → ids_of (visited now states) ≡ ids_of states
unfolding visited
ids_of-visited now states =
    ids_of-map (λ s. (visit now s).0) states (λ s. (visit-ComesFrom now s).0)

ids_of-after :
    (threshold now : ℕ) (states : List AccountState)
    → ids_of (after_preferred threshold now states) ≡ ids_of states
unfolding after_preferred
ids_of-after threshold now states =
    ids_of-map (visit_safe threshold now) states (λ s. (visit_safe-ComesFrom threshold now s).0)

select_account-ids :
    (host : Host) (o : SelectOptions) (now : ℕ) (states : List AccountState)
    → ids_of (select_account host o now states).0 ≡ ids_of states
unfolding select_account
select_account-ids host o now states = ids_of-visited now states

pub select_preferring-ids :
    (host : Host) (o : SelectOptions) (threshold now : ℕ) (states : List AccountState)
    → ids_of (select_account_preferring_budget_safe host o threshold now states).0 ≡ ids_of states
select_preferring-ids host o threshold now states =
    elim (select_preferring-Course host o threshold now states) [
      | none_safe empty e ↦ rw e (select_account-ids host (fallback_options o states) now states)
      | first_only e ↦ rw e (ids_of-after threshold now states)
      | both nobody e ↦ rw e (
          select_account-ids host (fallback_options o states) now
            (after_preferred threshold now states)
          ∙ ids_of-after threshold now states)
    ]

pub build_states-ids :
    (now : ℕ) (settings : Settings) (usage : Usage) (accounts : List Account)
    (runtime : Table RuntimeState)
    → ids_of (build_states now settings usage accounts runtime).0 ≡ row_ids accounts
unfolding build_states state_from_account
build_states-ids now settings usage [] runtime = refl
build_states-ids now settings usage (a ∷ accounts) runtime =
    ap (λ ids. a.id ∷ ids) (build_states-ids now settings usage accounts _)

pub find_account-In :
    (id : ℕ) (accounts : List Account) (a : Account)
    → find_account id accounts ≡ some a
    → In a accounts × (a.id ≡ id)
find_account-In id [] a e = cc
find_account-In id (b ∷ accounts) a e = elim (Option-cases (find_account id accounts)) [
  | inr (c, found) ↦
      let (m, same) = find_account-In id accounts c found in
      subst (λ x. In x (b ∷ accounts) × (x.id ≡ id)) (some_inj (rw found at e)) (inr m, same)
  | inl missing ↦ elim (Bool-cases (b.id == id)) [
    | inl here ↦
        subst (λ x. In x (b ∷ accounts) × (x.id ≡ id)) (some_inj (rw (missing, here) at e))
          (inl refl, (==_iff b.id id).0 here)
    | inr there ↦ absurd (cc (rw (missing, there) at e))
  ]
]

pairs-Without :
    (accounts : List Account) (states : List AccountState) (id : ℕ)
    → All (λ other. other ≢ id) (ids_of states)
    → Without id (pairs accounts states)
pairs-Without accounts [] id none_of = tt
pairs-Without accounts (s ∷ states) id (differs, rest) =
    elim (Option-cases (find_account s.account_id accounts)) [
      | inl missing ↦ rw missing (pairs-Without accounts states id rest)
      | inr (a, e) ↦ rw e (
        λ h. differs (sym (find_account-In s.account_id accounts a e).1 ∙ h),
        pairs-Without accounts states id rest,
      )
    ]

pub pairs-HasDistinctIds :
    (accounts : List Account) (states : List AccountState)
    → IsDistinct (ids_of states)
    → HasDistinctIds (pairs accounts states)
pairs-HasDistinctIds accounts [] distinct = tt
pairs-HasDistinctIds accounts (s ∷ states) (differ, distinct) =
    elim (Option-cases (find_account s.account_id accounts)) [
      | inl missing ↦ rw missing (pairs-HasDistinctIds accounts states distinct)
      | inr (a, e) ↦ rw e (
        subst (λ id. Without id (pairs accounts states))
            (sym (find_account-In s.account_id accounts a e).1)
            (pairs-Without accounts states s.account_id differ),
        pairs-HasDistinctIds accounts states distinct,
      )
    ]

pair_with-In :
    (o : Option Account) (p : Account × AccountState) (s : AccountState)
    (ps : List (Account × AccountState))
    → In p ps
    → In p (pair_with o s ps)
pair_with-In none p s ps m = m
pair_with-In (some a) p s ps m = inr m

pub pairs-In :
    (accounts : List Account) (states : List AccountState) (s : AccountState) (a : Account)
    → In s states
    → find_account s.account_id accounts ≡ some a
    → In (a, s) (pairs accounts states)
pairs-In accounts [] s a m e = absurd m.0
pairs-In accounts (t ∷ states) s a (inr m) e =
    pair_with-In (find_account t.account_id accounts) (a, s) t (pairs accounts states)
      (pairs-In accounts states s a m e)
pairs-In accounts (t ∷ states) s a (inl same) e =
    rw (ap (λ x. find_account x.account_id accounts) same ∙ e) (inl (ap (λ x. (a, x)) same))

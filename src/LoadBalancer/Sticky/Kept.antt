-- ===== src/LoadBalancer/Sticky/Kept.antt =====
-- Where a sticky key leads after a selection (`_select_with_stickiness` of
-- app/modules/proxy/load_balancer.py).
use codex_lb_mod.Base.{
  ==_iff, Bool, Bool-cases, In, List, Option, Option-cases, [], ap, exists, false, if◌then◌else◌,
  inl, inr, is_some, none, refl, some, some_inj, subst, sym, true, ℕ, ◌&&◌, ◌==◌, ◌∙◌, ◌∷◌, ◌≡◌,
}
use codex_lb_mod.Balancer.State.{AccountState}
use codex_lb_mod.Balancer.Eligibility.{visit, visited}
use codex_lb_mod.Balancer.Ranking.{Host}
use codex_lb_mod.Balancer.Select.{select_account}
use codex_lb_mod.Balancer.Select.Chosen.{select_account-IsServing}
use codex_lb_mod.LoadBalancer.Accounts.{Account}
use codex_lb_mod.LoadBalancer.Budget.{select_account_preferring_budget_safe}
use codex_lb_mod.LoadBalancer.Budget.Rows.{visit-ComesFrom}
use codex_lb_mod.LoadBalancer.Mappings.{
  StickySession, StickySessionKind, delete_entry, upsert_entry,
}
use codex_lb_mod.LoadBalancer.Mappings.Entries.{mapping, mapping-delete, mapping-upsert}
use codex_lb_mod.LoadBalancer.Sticky.{
  StickyRequest, StickyResult, choose_any, fall_back, find_state, is_recoverable, options_for,
  renew_mapping, select_pinned,
}

-- A selection on one account gives that account, visited, or none.
pub select_pinned-state :
    (host : Host) (q : StickyRequest) (now : ℕ) (pinned : AccountState)
    → (select_pinned host q now pinned).0 ≡ (visit now pinned).0
unfolding select_pinned select_account visited
select_pinned-state host q now pinned = refl

In-one : (a b : AccountState) → In a (b ∷ []) → b ≡ a
In-one a b (inl e) = e
In-one a b (inr m) = absurd m.0

pub select_pinned-id :
    (host : Host) (q : StickyRequest) (now : ℕ) (pinned a : AccountState)
    → (select_pinned host q now pinned).1.account ≡ some a
    → a.account_id ≡ pinned.account_id
unfolding select_pinned select_account visited
select_pinned-id host q now pinned a e =
    let (m, _) = select_account-IsServing host (options_for q false false) now (pinned ∷ []) a e in
    ap (λ s. s.account_id) (sym (In-one a (visit now pinned).0 m)) ∙ (visit-ComesFrom now pinned).0

pub find_state-id :
    (id : ℕ) (states : List AccountState) (s : AccountState)
    → find_state id states ≡ some s
    → s.account_id ≡ id
find_state-id id [] s e = cc
find_state-id id (t ∷ states) s e = elim (Bool-cases (t.account_id == id)) [
  | inl here ↦
      subst (λ x. x.account_id ≡ id) (some_inj (rw here at e)) ((==_iff t.account_id id).0 here)
  | inr there ↦ find_state-id id states s (rw there at e)
]

-- Where the key leads: where it led before, nowhere, or to the account of the result.
pub data Leads (key : ℕ) (kind : StickySessionKind) (before : Option ℕ) (r : StickyResult)
    : Type 0 where
  as_before : mapping key kind r.mappings_after ≡ before → Leads key kind before r
  nowhere : mapping key kind r.mappings_after ≡ none → Leads key kind before r
  to_chosen :
      (a : AccountState)
      → r.selection.account ≡ some a
      → mapping key kind r.mappings_after ≡ some a.account_id
      → Leads key kind before r

module _ (host : Host) (q : StickyRequest) (now key : ℕ) (kind : StickySessionKind)
    (accounts : List Account) where
  abbrev chosen : List AccountState → Option AccountState
  chosen states =
      (select_account_preferring_budget_safe host (options_for q true false) q.budget_threshold_pct
        now states).1.account

  choose_any-none :
      (persist : Bool) (states : List AccountState) (rows : List StickySession)
      → chosen states ≡ none
      → (choose_any host q now key kind accounts persist states rows).mappings_after ≡ rows
  unfolding choose_any
  choose_any-none persist states rows e = rw (choose_any, e) refl

  choose_any-some :
      (persist : Bool) (states : List AccountState) (rows : List StickySession) (a : AccountState)
      → chosen states ≡ some a
      → (choose_any host q now key kind accounts persist states rows).mappings_after ≡ (
          if persist && exists (λ row. row.id == a.account_id) accounts
          then upsert_entry now key kind a.account_id rows
          else rows)
  unfolding choose_any
  choose_any-some persist states rows a e = rw (choose_any, e) refl

  choose_any-result :
      (persist : Bool) (states : List AccountState) (rows : List StickySession)
      → (choose_any host q now key kind accounts persist states rows).selection.account
        ≡ chosen states
  unfolding choose_any
  choose_any-result persist states rows = refl

  pub choose_any-Leads :
      (persist : Bool) (states : List AccountState) (rows : List StickySession)
      → Leads key kind
          (mapping key kind rows)
          (choose_any host q now key kind accounts persist states rows)
  choose_any-Leads persist states rows = elim (Option-cases (chosen states)) [
    | inl e ↦ as_before (ap (mapping key kind) (choose_any-none persist states rows e))
    | inr (a, e) ↦ elim (Bool-cases (persist && exists (λ row. row.id == a.account_id) accounts)) [
      | inl written ↦ to_chosen a (choose_any-result persist states rows ∙ e) (
          ap (mapping key kind) (rw written at (choose_any-some persist states rows a e))
          ∙ mapping-upsert now key kind a.account_id rows)
      | inr skip ↦
          as_before (ap (mapping key kind) (rw skip at (choose_any-some persist states rows a e)))
    ]
  ]

  pub choose_any-kept :
      (states : List AccountState) (rows : List StickySession)
      → (choose_any host q now key kind accounts false states rows).mappings_after ≡ rows
  choose_any-kept states rows = elim (Option-cases (chosen states)) [
    | inl e ↦ choose_any-none false states rows e
    | inr (a, e) ↦ choose_any-some false states rows a e
  ]

  -- From a key that leads nowhere.
  pub from_nowhere :
      (before : Option ℕ) (r : StickyResult) → Leads key kind none r → Leads key kind before r
  from_nowhere before r (as_before e) = nowhere e
  from_nowhere before r (nowhere e) = nowhere e
  from_nowhere before r (to_chosen a e f) = to_chosen a e f

  pub deleted-Leads :
      (states : List AccountState) (rows : List StickySession)
      → (key == 0) ≡ false
      → Leads key kind
          (mapping key kind rows)
          (choose_any host q now key kind accounts true states (delete_entry key kind rows).0)
  deleted-Leads states rows named = from_nowhere (mapping key kind rows) _ (
      subst
        (λ m.
          Leads key kind m
            (choose_any host q now key kind accounts true states (delete_entry key kind rows).0))
        (mapping-delete now key kind 0 rows named)
        (choose_any-Leads true states (delete_entry key kind rows).0))

  pub fall_back-Leads :
      (reallocate : Bool) (pinned : AccountState) (states : List AccountState)
      (rows : List StickySession)
      → (key == 0) ≡ false
      → Leads key kind
          (mapping key kind rows)
          (fall_back host q now key kind accounts reallocate pinned states rows)
  unfolding fall_back
  fall_back-Leads true pinned states rows named = deleted-Leads states rows named
  fall_back-Leads false pinned states rows named =
      elim (Bool-cases (is_recoverable pinned.status && is_some q.max_age)) [
        | inl keeps ↦ rw keeps (choose_any-Leads false states rows)
        | inr moves ↦ rw moves (choose_any-Leads true states rows)
      ]

  pub renewed-Leads :
      (account : ℕ) (rows : List StickySession) (r : StickyResult) (a : AccountState)
      → r.mappings_after ≡ renew_mapping q now key kind account rows
      → r.selection.account ≡ some a
      → a.account_id ≡ account
      → Leads key kind (mapping key kind rows) r
  renewed-Leads account rows r a e chose same = elim (Bool-cases (is_some q.max_age)) [
    | inl ages ↦ to_chosen a chose (
        ap (mapping key kind) (rw ages at e)
        ∙ mapping-upsert now key kind account rows
        ∙ ap some (sym same))
    | inr lasts ↦ as_before (ap (mapping key kind) (rw lasts at e))
  ]

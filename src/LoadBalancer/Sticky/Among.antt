-- ===== src/LoadBalancer/Sticky/Among.antt =====
-- The ids of the states and the account returned in the parts of a selection with a sticky key
-- (`_select_with_stickiness` of app/modules/proxy/load_balancer.py).
use codex_lb_mod.Base.{
  ==_iff, Bool, Bool-cases, In, List, [], ap, false, inl, inr, is_some, refl, some, some_inj, subst,
  sym, true, ℕ, ◌&&◌, ◌==◌, ◌∷◌, ◌≡◌,
}
use codex_lb_mod.Base.Member.{map-In}
use codex_lb_mod.Balancer.State.{AccountState, AccountStatus}
use codex_lb_mod.Balancer.Eligibility.{visited}
use codex_lb_mod.Balancer.Ranking.{Host}
use codex_lb_mod.Balancer.Select.{select_account}
use codex_lb_mod.Balancer.Select.Chosen.{select_account-IsServing}
use codex_lb_mod.LoadBalancer.Accounts.{Account}
use codex_lb_mod.LoadBalancer.Budget.{select_account_preferring_budget_safe}
use codex_lb_mod.LoadBalancer.Budget.Prefers.{select_preferring-IsServing}
use codex_lb_mod.LoadBalancer.Loop.Ids.{ids_of, select_preferring-ids}
use codex_lb_mod.LoadBalancer.Mappings.{StickySession, StickySessionKind, delete_entry}
use codex_lb_mod.LoadBalancer.Sticky.{
  StickyRequest, StickyResult, choose_any, fall_back, find_state, is_recoverable, options_for,
  replace_state, select_pinned,
}

-- An active account with one of the ids.
abbrev pub IsAmong : List ℕ → AccountState → Type 0
IsAmong ids a = (a.status ≡ AccountStatus.active) × In a.account_id ids

-- The states keep the ids, and an account that is returned is among them.
abbrev pub KeepsIds : List AccountState → StickyResult → Type 0
KeepsIds states r =
    (ids_of r.states_after ≡ ids_of states)
    × ((a : AccountState) → r.selection.account ≡ some a → IsAmong (ids_of states) a)

pub replace_state-ids :
    (new : AccountState) (states : List AccountState)
    → ids_of (replace_state new states) ≡ ids_of states
replace_state-ids new [] = refl
replace_state-ids new (s ∷ states) = elim (Bool-cases (s.account_id == new.account_id)) [
  | inl here ↦
      rw here (ap (λ id. id ∷ ids_of states) (sym ((==_iff s.account_id new.account_id).0 here)))
  | inr there ↦ rw there (ap (λ ids. s.account_id ∷ ids) (replace_state-ids new states))
]

pub find_state-In :
    (id : ℕ) (states : List AccountState) (s : AccountState)
    → find_state id states ≡ some s
    → In s.account_id (ids_of states)
find_state-In id [] s e = cc
find_state-In id (t ∷ states) s e = elim (Bool-cases (t.account_id == id)) [
  | inl here ↦ inl (ap (λ x. x.account_id) (some_inj (rw here at e)))
  | inr there ↦ inr (find_state-In id states s (rw there at e))
]

pub select_pinned-active :
    (host : Host) (q : StickyRequest) (now : ℕ) (pinned a : AccountState)
    → (select_pinned host q now pinned).1.account ≡ some a
    → a.status ≡ AccountStatus.active
unfolding select_pinned select_account visited
select_pinned-active host q now pinned a e =
    (select_account-IsServing host (options_for q false false) now (pinned ∷ []) a e).1.is_active

pub choose_any-KeepsIds :
    (host : Host) (q : StickyRequest) (now key : ℕ) (kind : StickySessionKind)
    (accounts : List Account) (persist : Bool) (states : List AccountState)
    (rows : List StickySession)
    → KeepsIds states (choose_any host q now key kind accounts persist states rows)
unfolding choose_any
choose_any-KeepsIds host q now key kind accounts persist states rows = (
  same,
  λ a e.
      let (m, serving) =
        select_preferring-IsServing host (options_for q true false) q.budget_threshold_pct now
          states a e in
      (serving.is_active, subst (In a.account_id) same (map-In (λ s. s.account_id) a _ m)),
)
  where
    same :
        ids_of
          (select_account_preferring_budget_safe host
            (options_for q true false)
            q.budget_threshold_pct
            now
            states).0
        ≡ ids_of states
    same = select_preferring-ids host (options_for q true false) q.budget_threshold_pct now states

pub fall_back-KeepsIds :
    (host : Host) (q : StickyRequest) (now key : ℕ) (kind : StickySessionKind)
    (accounts : List Account) (reallocate : Bool) (pinned : AccountState)
    (states : List AccountState) (rows : List StickySession)
    → KeepsIds states (fall_back host q now key kind accounts reallocate pinned states rows)
unfolding fall_back
fall_back-KeepsIds host q now key kind accounts true pinned states rows =
    choose_any-KeepsIds host q now key kind accounts true states (delete_entry key kind rows).0
fall_back-KeepsIds host q now key kind accounts false pinned states rows =
    elim (Bool-cases (is_recoverable pinned.status && is_some q.max_age)) [
      | inl keeps ↦ rw keeps (choose_any-KeepsIds host q now key kind accounts false states rows)
      | inr moves ↦ rw moves (choose_any-KeepsIds host q now key kind accounts true states rows)
    ]

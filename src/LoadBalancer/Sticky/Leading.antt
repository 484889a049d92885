-- ===== src/LoadBalancer/Sticky/Leading.antt =====
-- Where a sticky key leads after a selection, from step to step (`_select_with_stickiness` of
-- app/modules/proxy/load_balancer.py).
use codex_lb_mod.Base.{
  Bool, Bool-cases, List, Option, Option-cases, ap, false, inl, inr, is_some, none, not, or_default,
  refl, some, some_inj, subst, sym, true, ℕ, ◌&&◌, ◌+◌, ◌==◌, ◌||◌, ◌∙◌, ◌≡◌, ◌⊎◌,
}
use codex_lb_mod.Balancer.State.{AccountState, AccountStatus, same_status}
use codex_lb_mod.Balancer.Ranking.{Host}
use codex_lb_mod.Balancer.Select.{SelectionResult}
use codex_lb_mod.LoadBalancer.Accounts.{Account}
use codex_lb_mod.LoadBalancer.Budget.{select_account_preferring_budget_safe}
use codex_lb_mod.LoadBalancer.Budget.Rows.{visit-ComesFrom}
use codex_lb_mod.LoadBalancer.Mappings.{
  StickySession, StickySessionKind, delete_entry, get_account_id, get_entry, is_old,
}
use codex_lb_mod.LoadBalancer.Mappings.Entries.{mapping, mapping-delete}
use codex_lb_mod.LoadBalancer.Sticky.{
  PinnedStep, StickyRequest, StickyResult, after_try, budget_pressured, find_state, goes_on,
  grace_period, options_for, pool_also_exhausted, rate_limit_far_away, returns, select_mapped,
  select_pinned, select_with_stickiness, try_elsewhere, try_grace, try_pinned, with_step,
}
use codex_lb_mod.LoadBalancer.Sticky.Kept.{
  Leads, choose_any-Leads, deleted-Leads, fall_back-Leads, from_nowhere, renewed-Leads,
  select_pinned-id, select_pinned-state,
}

-- What is known of a step: the account that it returns is the pinned one.
abbrev ReturnsPinned : PinnedStep → Type 0
ReturnsPinned (returns pinned r states) =
    (a : AccountState) × (r.account ≡ some a) × (a.account_id ≡ pinned.account_id)
ReturnsPinned (goes_on pinned reallocate states) = Unit

is_some-some : {A : Type 0} (o : Option A) → is_some o ≡ true → (a : A) × (o ≡ some a)
is_some-some none h = cc
is_some-some (some a) h = (a, refl)

module _ (host : Host) (q : StickyRequest) (now : ℕ) where
  select_pinned-same_id :
      (pinned a : AccountState)
      → (select_pinned host q now pinned).1.account ≡ some a
      → a.account_id ≡ (select_pinned host q now pinned).0.account_id
  select_pinned-same_id pinned a e =
      select_pinned-id host q now pinned a e
      ∙ sym (
          ap (λ s. s.account_id) (select_pinned-state host q now pinned)
          ∙ (visit-ComesFrom now pinned).0)

  after_try-ReturnsPinned :
      (reallocate : Bool) (states : List AccountState) (pinned : AccountState)
      → ReturnsPinned (after_try reallocate states (select_pinned host q now pinned))
  after_try-ReturnsPinned reallocate states pinned =
      elim (Bool-cases (is_some (select_pinned host q now pinned).1.account)) [
        | inl chose ↦
            let (a, e) = is_some-some _ chose in rw chose (a, e, select_pinned-same_id pinned a e)
        | inr nobody ↦ rw nobody tt
      ]

  try_elsewhere-ReturnsPinned :
      (pinned : AccountState) (states : List AccountState)
      → ReturnsPinned (try_elsewhere host q now pinned states)
  unfolding try_elsewhere
  try_elsewhere-ReturnsPinned pinned states =
      elim (Bool-cases (budget_pressured q.budget_threshold_pct pinned)) [
        | inr far ↦ rw far tt
        | inl pressed ↦
            elim (Bool-cases (pool_also_exhausted q.budget_threshold_pct seen pool.1.account)) [
              | inl spent ↦ rw (pressed, spent) (after_try-ReturnsPinned true pool.0 seen)
              | inr better ↦ rw (pressed, better) tt
            ]
      ]
    where
      pool : List AccountState × SelectionResult
      pool =
          select_account_preferring_budget_safe host (options_for q true true)
            q.budget_threshold_pct now states

      seen : AccountState
      seen = or_default (find_state pinned.account_id pool.0) pinned

  try_pinned-ReturnsPinned :
      (kind : StickySessionKind) (pinned : AccountState) (states : List AccountState)
      → ReturnsPinned (try_pinned host q now kind pinned states)
  unfolding try_pinned
  try_pinned-ReturnsPinned kind pinned states =
      elim (Bool-cases
        (budget_pressured q.budget_threshold_pct pinned || rate_limit_far_away now kind pinned)) [
          | inl moves ↦ rw moves (try_elsewhere-ReturnsPinned pinned states)
          | inr stays ↦ rw stays (after_try-ReturnsPinned q.reallocate_sticky states pinned)
        ]

-- What a grace result is: the account of a later try.
try_grace-some :
    (host : Host) (q : StickyRequest) (now : ℕ) (reallocate : Bool) (pinned : AccountState)
    (r : SelectionResult)
    → try_grace host q now reallocate pinned ≡ some r
    → (a : AccountState) × (r.account ≡ some a) × (a.account_id ≡ pinned.account_id)
unfolding try_grace
try_grace-some host q now reallocate pinned r e =
    elim (Bool-cases (not reallocate && same_status pinned.status AccountStatus.rate_limited)) [
      | inr refuses ↦ absurd (cc (rw refuses at e))
      | inl tries ↦ elim (Bool-cases (is_some later.account)) [
        | inr nobody ↦ absurd (cc (rw (tries, nobody) at e))
        | inl chose ↦
            let (a, f) = is_some-some _ chose in
            let same = some_inj (rw (tries, chose) at e) in
            (
              a,
              subst (λ x. x.account ≡ some a) same f,
              select_pinned-id host q (now + grace_period) pinned a f,
            )
      ]
    ]
  where
    later : SelectionResult
    later = (select_pinned host q (now + grace_period) pinned).1

module _ (host : Host) (q : StickyRequest) (now key : ℕ) (kind : StickySessionKind)
    (accounts : List Account) (named : (key == 0) ≡ false) where
  with_step-Leads :
      (rows : List StickySession) (p : PinnedStep)
      → ReturnsPinned p
      → Leads key kind (mapping key kind rows) (with_step host q now key kind accounts rows p)
  unfolding with_step
  with_step-Leads rows (returns pinned r states) (a, chose, same) =
      renewed-Leads host q now key kind accounts pinned.account_id rows _ a refl chose same
  with_step-Leads rows (goes_on pinned reallocate states) known =
      elim (Option-cases (try_grace host q now reallocate pinned)) [
        | inl nobody ↦
            rw (with_step, nobody)
              (fall_back-Leads host q now key kind accounts reallocate pinned states rows named)
        | inr (r, e) ↦
            let (a, chose, same) = try_grace-some host q now reallocate pinned r e in
            rw (with_step, e)
              (renewed-Leads host q now key kind accounts pinned.account_id rows _ a refl chose
                same)
      ]

  select_mapped-Leads :
      (states : List AccountState) (rows : List StickySession) (existing : Option ℕ)
      → Leads key kind
          (mapping key kind rows)
          (select_mapped host q now key kind accounts states rows existing)
  unfolding select_mapped
  select_mapped-Leads states rows none =
      choose_any-Leads host q now key kind accounts true states rows
  select_mapped-Leads states rows (some existing) =
      elim (Option-cases (find_state existing states)) [
        | inl gone ↦
            rw (select_mapped, gone) (deleted-Leads host q now key kind accounts states rows named)
        | inr (pinned, e) ↦
            rw (select_mapped, e)
              (with_step-Leads rows _ (try_pinned-ReturnsPinned host q now kind pinned states))
      ]

  looked_up :
      (rows : List StickySession)
      → ((get_account_id now key kind q.max_age rows).0 ≡ rows)
        ⊎ ((get_account_id now key kind q.max_age rows).0 ≡ (delete_entry key kind rows).0)
  unfolding get_account_id
  looked_up rows = elim (Option-cases (get_entry key kind rows)) [
    | inl gone ↦ inl (rw (get_account_id, gone) refl)
    | inr (row, e) ↦ elim (Bool-cases (is_old now q.max_age row)) [
      | inl old ↦ inr (rw (get_account_id, e, old) refl)
      | inr young ↦ inl (rw (get_account_id, e, young) refl)
    ]
  ]

  -- For a key that is not empty, with its kind: after the call it leads where it led before, or
  -- nowhere, or to the account that the call returns. A call cannot give it another account.
  pub sticky-Leads :
      (states : List AccountState) (rows : List StickySession) (r : StickyResult)
      → select_with_stickiness host q now (some key) (some kind) accounts states rows ≡ some r
      → Leads key kind (mapping key kind rows) r
  unfolding select_with_stickiness
  sticky-Leads states rows r e =
      subst (Leads key kind (mapping key kind rows)) (some_inj (rw named at e))
        (elim (looked_up rows) [
          | inl same ↦
              subst (λ m. Leads key kind m (mapped looked)) (ap (mapping key kind) same)
                (select_mapped-Leads states looked existing)
          | inr deleted ↦ from_nowhere host q now key kind accounts (mapping key kind rows) _ (
              subst (λ m. Leads key kind m (mapped looked))
                (ap (mapping key kind) deleted ∙ mapping-delete now key kind 0 rows named)
                (select_mapped-Leads states looked existing))
        ])
    where
      looked : List StickySession
      looked = (get_account_id now key kind q.max_age rows).0

      existing : Option ℕ
      existing = (get_account_id now key kind q.max_age rows).1

      mapped : List StickySession → StickyResult
      mapped l = select_mapped host q now key kind accounts states l existing

-- ===== src/LoadBalancer/Sticky/Chosen.antt =====
-- The account that a selection with a sticky key returns, and the ids of the states after it
-- (`_select_with_stickiness` of app/modules/proxy/load_balancer.py).
use codex_lb_mod.Base.{
  Bool, Bool-cases, In, List, Option, Option-cases, ap, false, inl, inr, is_some, none, not,
  or_default, refl, some, some_inj, subst, sym, true, ℕ, ◌&&◌, ◌+◌, ◌==◌, ◌||◌, ◌∙◌, ◌≡◌,
}
use codex_lb_mod.Balancer.State.{AccountState, AccountStatus, same_status}
use codex_lb_mod.Balancer.Ranking.{Host}
use codex_lb_mod.Balancer.Select.{SelectionResult}
use codex_lb_mod.LoadBalancer.Accounts.{Account}
use codex_lb_mod.LoadBalancer.Budget.{select_account_preferring_budget_safe}
use codex_lb_mod.LoadBalancer.Budget.Rows.{visit-ComesFrom}
use codex_lb_mod.LoadBalancer.Loop.Ids.{ids_of, select_preferring-ids}
use codex_lb_mod.LoadBalancer.Mappings.{
  StickySession, StickySessionKind, delete_entry, get_account_id,
}
use codex_lb_mod.LoadBalancer.Sticky.{
  PinnedStep, StickyRequest, StickyResult, after_try, budget_pressured, find_state, goes_on,
  grace_period, options_for, pool_also_exhausted, rate_limit_far_away, replace_state, returns,
  select_mapped, select_pinned, select_with_stickiness, try_elsewhere, try_grace, try_pinned,
  with_step,
}
use codex_lb_mod.LoadBalancer.Sticky.Kept.{select_pinned-id, select_pinned-state}
use codex_lb_mod.LoadBalancer.Sticky.Among.{
  IsAmong, KeepsIds, choose_any-KeepsIds, fall_back-KeepsIds, find_state-In, replace_state-ids,
  select_pinned-active,
}

-- What is known of a step: its states keep the ids, its pinned account is among them, and so is the
-- account that it returns.
abbrev StepKeepsIds : List ℕ → PinnedStep → Type 0
StepKeepsIds ids (returns pinned r states) =
    (ids_of states ≡ ids) × ((a : AccountState) → r.account ≡ some a → IsAmong ids a)
StepKeepsIds ids (goes_on pinned reallocate states) =
    (ids_of states ≡ ids) × In pinned.account_id ids

module _ (host : Host) (q : StickyRequest) (now : ℕ) where
  select_pinned-IsAmong :
      (later : ℕ) (ids : List ℕ) (pinned a : AccountState)
      → In pinned.account_id ids
      → (select_pinned host q later pinned).1.account ≡ some a
      → IsAmong ids a
  select_pinned-IsAmong later ids pinned a m e = (
    select_pinned-active host q later pinned a e,
    subst (λ id. In id ids) (sym (select_pinned-id host q later pinned a e)) m,
  )

  after_try-KeepsIds :
      (ids : List ℕ) (reallocate : Bool) (states : List AccountState) (pinned : AccountState)
      → ids_of states ≡ ids
      → In pinned.account_id ids
      → StepKeepsIds ids (after_try reallocate states (select_pinned host q now pinned))
  after_try-KeepsIds ids reallocate states pinned same m =
      elim (Bool-cases (is_some (select_pinned host q now pinned).1.account)) [
        | inl chose ↦ rw chose (replaced, λ a e. select_pinned-IsAmong now ids pinned a m e)
        | inr nobody ↦ rw nobody (replaced, subst (λ id. In id ids) (sym same_id) m)
      ]
    where
      after : AccountState
      after = (select_pinned host q now pinned).0

      same_id : after.account_id ≡ pinned.account_id
      same_id =
          ap (λ s. s.account_id) (select_pinned-state host q now pinned)
          ∙ (visit-ComesFrom now pinned).0

      replaced : ids_of (replace_state after states) ≡ ids
      replaced = replace_state-ids after states ∙ same

  try_elsewhere-KeepsIds :
      (pinned : AccountState) (states : List AccountState)
      → In pinned.account_id (ids_of states)
      → StepKeepsIds (ids_of states) (try_elsewhere host q now pinned states)
  unfolding try_elsewhere
  try_elsewhere-KeepsIds pinned states m =
      elim (Bool-cases (budget_pressured q.budget_threshold_pct pinned)) [
        | inr far ↦ rw far (refl, m)
        | inl pressed ↦
            elim (Bool-cases (pool_also_exhausted q.budget_threshold_pct seen pool.1.account)) [
              | inl spent ↦
                  rw (pressed, spent)
                    (after_try-KeepsIds (ids_of states) true pool.0 seen same seen_in)
              | inr better ↦ rw (pressed, better) (same, seen_in)
            ]
      ]
    where
      pool : List AccountState × SelectionResult
      pool =
          select_account_preferring_budget_safe host (options_for q true true)
            q.budget_threshold_pct now states

      seen : AccountState
      seen = or_default (find_state pinned.account_id pool.0) pinned

      same : ids_of pool.0 ≡ ids_of states
      same = select_preferring-ids host (options_for q true true) q.budget_threshold_pct now states

      seen_in : In seen.account_id (ids_of states)
      seen_in = elim (Option-cases (find_state pinned.account_id pool.0)) [
        | inl missing ↦ rw missing m
        | inr (s, e) ↦
            rw e (subst (In s.account_id) same (find_state-In pinned.account_id pool.0 s e))
      ]

  try_pinned-KeepsIds :
      (kind : StickySessionKind) (pinned : AccountState) (states : List AccountState)
      → In pinned.account_id (ids_of states)
      → StepKeepsIds (ids_of states) (try_pinned host q now kind pinned states)
  unfolding try_pinned
  try_pinned-KeepsIds kind pinned states m =
      elim (Bool-cases
        (budget_pressured q.budget_threshold_pct pinned || rate_limit_far_away now kind pinned)) [
          | inl moves ↦ rw moves (try_elsewhere-KeepsIds pinned states m)
          | inr stays ↦
              rw stays (after_try-KeepsIds (ids_of states) q.reallocate_sticky states pinned refl m)
        ]

  try_grace-IsAmong :
      (ids : List ℕ) (reallocate : Bool) (pinned : AccountState) (r : SelectionResult)
      → In pinned.account_id ids
      → try_grace host q now reallocate pinned ≡ some r
      → (a : AccountState) → r.account ≡ some a
      → IsAmong ids a
  unfolding try_grace
  try_grace-IsAmong ids reallocate pinned r m e a chose =
      elim (Bool-cases (not reallocate && same_status pinned.status AccountStatus.rate_limited)) [
        | inr refuses ↦ absurd (cc (rw refuses at e))
        | inl tries ↦ elim (Bool-cases (is_some later.account)) [
          | inr nobody ↦ absurd (cc (rw (tries, nobody) at e))
          | inl found ↦
              select_pinned-IsAmong (now + grace_period) ids pinned a m
                (ap (λ x. x.account) (some_inj (rw (tries, found) at e)) ∙ chose)
        ]
      ]
    where
      later : SelectionResult
      later = (select_pinned host q (now + grace_period) pinned).1

module _ (host : Host) (q : StickyRequest) (now key : ℕ) (kind : StickySessionKind)
    (accounts : List Account) where
  with_step-KeepsIds :
      (states : List AccountState) (rows : List StickySession) (p : PinnedStep)
      → StepKeepsIds (ids_of states) p
      → KeepsIds states (with_step host q now key kind accounts rows p)
  unfolding with_step
  with_step-KeepsIds states rows (returns pinned r after) known = known
  with_step-KeepsIds states rows (goes_on pinned reallocate after) (same, m) =
      elim (Option-cases (try_grace host q now reallocate pinned)) [
        | inl nobody ↦
            let (kept, among) =
              fall_back-KeepsIds host q now key kind accounts reallocate pinned after rows in
            rw (with_step, nobody)
              (kept ∙ same, λ a e. subst (λ ids. IsAmong ids a) same (among a e))
        | inr (r, e) ↦
            rw (with_step, e)
              (
                same,
                λ a chose.
                    try_grace-IsAmong host q now (ids_of states) reallocate pinned r m e a chose,
              )
      ]

  select_mapped-KeepsIds :
      (states : List AccountState) (rows : List StickySession) (existing : Option ℕ)
      → KeepsIds states (select_mapped host q now key kind accounts states rows existing)
  unfolding select_mapped
  select_mapped-KeepsIds states rows none =
      choose_any-KeepsIds host q now key kind accounts true states rows
  select_mapped-KeepsIds states rows (some existing) =
      elim (Option-cases (find_state existing states)) [
        | inl gone ↦
            rw (select_mapped, gone)
              (choose_any-KeepsIds host q now key kind accounts true states
                (delete_entry key kind rows).0)
        | inr (pinned, e) ↦
            rw (select_mapped, e)
              (with_step-KeepsIds states rows _ (
                try_pinned-KeepsIds host q now kind pinned states
                  (find_state-In existing states pinned e)))
      ]

  -- For a key that is not empty: the call changes no id, and an account that it returns is active and
  -- one of the given ones.
  pub sticky-KeepsIds :
      (states : List AccountState) (rows : List StickySession) (r : StickyResult)
      → (key == 0) ≡ false
      → select_with_stickiness host q now (some key) (some kind) accounts states rows ≡ some r
      → KeepsIds states r
  unfolding select_with_stickiness
  sticky-KeepsIds states rows r named e = subst (KeepsIds states) (some_inj (rw named at e)) (
      select_mapped-KeepsIds states (get_account_id now key kind q.max_age rows).0
        (get_account_id now key kind q.max_age rows).1)

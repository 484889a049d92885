-- ===== src/LoadBalancer/Sticky/Outage.antt =====
-- A mapping with a time to live through an outage of its account (`_select_with_stickiness` of
-- app/modules/proxy/load_balancer.py).
use codex_lb_mod.Base.{
  Bool-cases, List, Option-cases, ap, arith, false, inl, inr, is_some, some, sym, true, ℕ, ◌||◌,
  ◌∙◌, ◌≡◌,
}
use codex_lb_mod.Balancer.State.{AccountState}
use codex_lb_mod.Balancer.Ranking.{Host}
use codex_lb_mod.LoadBalancer.Accounts.{Account}
use codex_lb_mod.Balancer.Eligibility.{admit_status, clear_cooldown, hold_back, visit}
use codex_lb_mod.LoadBalancer.Budget.Rows.{visit-ComesFrom}
use codex_lb_mod.LoadBalancer.Mappings.{StickySession, StickySessionKind}
use codex_lb_mod.LoadBalancer.Mappings.Entries.{mapping, mapping-upsert}
use codex_lb_mod.LoadBalancer.Sticky.{
  StickyRequest, budget_pressured, fall_back, find_state, goes_on, is_recoverable,
  rate_limit_far_away, renew_mapping, replace_state, select_mapped, select_pinned, try_grace,
  try_pinned, with_step,
}
use codex_lb_mod.LoadBalancer.Sticky.Kept.{choose_any-kept, find_state-id, select_pinned-state}

visit-recoverable :
    (now : ℕ) (s : AccountState)
    → is_recoverable s.status ≡ true
    → is_recoverable (visit now s).0.status ≡ true
unfolding visit admit_status clear_cooldown hold_back is_recoverable
visit-recoverable now s h = ground arith

module _ (host : Host) (q : StickyRequest) (now key : ℕ) (kind : StickySessionKind)
    (accounts : List Account) (ages : is_some q.max_age ≡ true) where
  renewed-mapping :
      (account : ℕ) (rows : List StickySession)
      → mapping key kind (renew_mapping q now key kind account rows) ≡ some account
  renewed-mapping account rows = rw ages (mapping-upsert now key kind account rows)

  fall_back-kept :
      (pinned : AccountState) (states : List AccountState) (rows : List StickySession)
      → is_recoverable pinned.status ≡ true
      → (fall_back host q now key kind accounts false pinned states rows).mappings_after ≡ rows
  unfolding fall_back
  fall_back-kept pinned states rows alive =
      rw (alive, ages) (choose_any-kept host q now key kind accounts states rows)

  -- The step of a pinned account that still is to be kept.
  with_step-kept :
      (pinned : AccountState) (states : List AccountState) (rows : List StickySession)
      → mapping key kind rows ≡ some pinned.account_id
      → is_recoverable pinned.status ≡ true
      → mapping key kind
          (with_step host q now key kind accounts rows (goes_on pinned false states)).mappings_after
        ≡ some pinned.account_id
  unfolding with_step
  with_step-kept pinned states rows leads alive =
      elim (Option-cases (try_grace host q now false pinned)) [
        | inl nobody ↦
            rw (with_step, nobody)
              (ap (mapping key kind) (fall_back-kept pinned states rows alive) ∙ leads)
        | inr (r, e) ↦ rw (with_step, e) (renewed-mapping pinned.account_id rows)
      ]

  -- A mapping with a time to live survives an outage: where its account is among the states and not
  -- paused or deactivated, is neither above the budget nor rate limited for ten minutes and more, and
  -- the caller does not ask to reallocate, the key leads to that account afterwards, also when
  -- another account serves the request.
  pub select_mapped_keeps :
      (states : List AccountState) (rows : List StickySession) (pinned : AccountState)
      (existing : ℕ)
      → q.reallocate_sticky ≡ false
      → mapping key kind rows ≡ some existing
      → find_state existing states ≡ some pinned
      → is_recoverable pinned.status ≡ true
      → budget_pressured q.budget_threshold_pct pinned || rate_limit_far_away now kind pinned
        ≡ false
      → mapping key kind
          (select_mapped host q now key kind accounts states rows (some existing)).mappings_after
        ≡ some existing
  unfolding select_mapped try_pinned
  select_mapped_keeps states rows pinned existing stays leads found alive calm =
      rw (select_mapped, found, calm, stays)
        (elim (Bool-cases (is_some (select_pinned host q now pinned).1.account)) [
          | inl chose ↦ rw chose (renewed-mapping after.account_id rows ∙ ap some same)
          | inr nobody ↦ rw nobody (
              with_step-kept after (replace_state after states) rows (leads ∙ ap some (sym same))
                still
              ∙ ap some same)
        ])
    where
      after : AccountState
      after = (select_pinned host q now pinned).0

      same : after.account_id ≡ existing
      same =
          ap (λ s. s.account_id) (select_pinned-state host q now pinned)
          ∙ (visit-ComesFrom now pinned).0
          ∙ find_state-id existing states pinned found

      still : is_recoverable after.status ≡ true
      still = rw (select_pinned-state host q now pinned) (visit-recoverable now pinned alive)

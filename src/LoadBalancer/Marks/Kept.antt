-- ===== src/LoadBalancer/Marks/Kept.antt =====
-- What a report leaves in the row of the account, and that a later selection respects it
-- (app/modules/proxy/load_balancer.py).
use Prim.Native.String.{String}
use codex_lb_mod.Base.{
  All, Bool, Bool-cases, In, List, Option, Table, ap, arith, false, inl, inr, not, put_self, refl,
  some, some_inj, sym, true, ℕ, ◌&&◌, ◌∙◌, ◌≡◌, ◌≢◌,
}
use codex_lb_mod.Balancer.State.{AccountState, AccountStatus, same_status}
use codex_lb_mod.Balancer.Failures.{handle_permanent_failure}
use codex_lb_mod.Balancer.Ranking.{Host}
use codex_lb_mod.Balancer.Select.{SelectOptions}
use codex_lb_mod.LoadBalancer.Accounts.{Account, columns_of, same_columns, same_time, update_status}
use codex_lb_mod.LoadBalancer.States.{RuntimeState, Settings, Usage, build_states, runtime_of}
use codex_lb_mod.LoadBalancer.Runtime.{state_for}
use codex_lb_mod.LoadBalancer.Persist.{
  columns_for, is_changed, persist_selection_state, persist_state, stored_time,
}
use codex_lb_mod.LoadBalancer.Persist.Selection.{persist_selection_keeps}
use codex_lb_mod.LoadBalancer.Marks.{LoadBalancer, mark_permanent_failure, mark_with}
use codex_lb_mod.LoadBalancer.Budget.{select_account_preferring_budget_safe}
use codex_lb_mod.LoadBalancer.Budget.Rows.{chosen_row}

same_status-eq : (a b : AccountStatus) → same_status a b ≡ true → a ≡ b
same_status-eq a b h = ground arith

same_time-eq : (a b : Option ℕ) → same_time a b ≡ true → a ≡ b
same_time-eq a b h = ground arith

-- The status and the two times of a row are those of a state.
abbrev IsMarked : AccountState → Account → Type 0
IsMarked s row =
    (row.status ≡ s.status)
    × (row.reset_at ≡ stored_time s.reset_at)
    × (row.blocked_at ≡ stored_time s.blocked_at)

and_left : (a b : Bool) → a && b ≡ true → a ≡ true
and_left a b h = ground arith

and_right : (a b : Bool) → a && b ≡ true → b ≡ true
and_right a b h = ground arith

same_columns-IsMarked :
    (row : Account) (s : AccountState)
    → same_columns (columns_of row) (columns_for s) ≡ true
    → IsMarked s row
same_columns-IsMarked row s h =
    let times = and_left _ _ h in
    (
      same_status-eq row.status s.status (and_left _ _ (and_left _ _ times)),
      same_time-eq row.reset_at (stored_time s.reset_at) (and_right _ _ times),
      same_time-eq row.blocked_at (stored_time s.blocked_at) (and_right _ _ h),
    )

not-false : (b : Bool) → not b ≡ false → b ≡ true
not-false b h = ground arith

-- The row that the caller holds afterwards.
persist_state-held :
    (account : Account) (s : AccountState) (t : Table Account)
    → IsMarked s (persist_state account s t).1
unfolding persist_state is_changed
persist_state-held account s t = elim (Bool-cases (is_changed account s)) [
  | inl changed ↦ rw changed (refl, refl, refl)
  | inr same ↦ rw same (same_columns-IsMarked account s (not-false _ same))
]

-- The row in the table, where it was the one that the caller held.
persist_state-row :
    (account : Account) (s : AccountState) (t : Table Account)
    → t account.id ≡ some account
    → (persist_state account s t).0 account.id ≡ some (persist_state account s t).1
unfolding persist_state update_status
persist_state-row account s t at = elim (Bool-cases (is_changed account s)) [
  | inl changed ↦ rw (changed, at, update_status) (put_self t account.id _)
  | inr same ↦ rw same at
]

pub mark_with-held :
    (handler : AccountState → AccountState) (now : ℕ) (settings : Settings) (account : Account)
    (b : LoadBalancer)
    → IsMarked
        (handler (state_for settings account (runtime_of b.runtime account.id)))
        (mark_with handler now settings account b).1
unfolding mark_with
mark_with-held handler now settings account b = persist_state-held account _ b.rows

mark_with-row :
    (handler : AccountState → AccountState) (now : ℕ) (settings : Settings) (account : Account)
    (b : LoadBalancer)
    → b.rows account.id ≡ some account
    → (mark_with handler now settings account b).0.rows account.id
      ≡ some (mark_with handler now settings account b).1
unfolding mark_with
mark_with-row handler now settings account b at = persist_state-row account _ b.rows at

-- A report of a permanent failure, made with the current row of the account, and then the writes of
-- a selection that was made on rows of the account which differ from the reported one in one of the
-- four columns that writes compare: whatever the usage, the options and the time, a selection on
-- rows of the table as it then is does not choose that account.
pub permanent_failure_not_chosen :
    (code : String) (now : ℕ) (settings : Settings) (account : Account) (b : LoadBalancer)
    (host : Host) (o : SelectOptions) (threshold later : ℕ) (usage : Usage)
    (states : List (Account × AccountState)) (accounts : List Account)
    (runtime : Table RuntimeState) (a : AccountState)
    → b.rows account.id ≡ some account
    → All
        (λ p.
          p.0.id ≡ account.id
          → same_columns
              (columns_of (mark_permanent_failure now settings code account b).1)
              (columns_of p.0)
            ≡ false)
        states
    → ((row : Account)
        → In row accounts
        → (persist_selection_state states
              (mark_permanent_failure now settings code account b).0.rows).0
            row.id
          ≡ some row)
    → (select_account_preferring_budget_safe host o threshold later
        (build_states later settings usage accounts runtime).0).1.account
      ≡ some a
    → a.account_id ≢ account.id
unfolding mark_permanent_failure handle_permanent_failure
permanent_failure_not_chosen code now settings account b host o threshold later usage states
      accounts runtime a at stale from_table e same =
    let (row, m, id, _, alive) =
      chosen_row host o threshold later settings usage accounts runtime a e in
    let marked = (mark_permanent_failure now settings code account b) in
    let found =
      persist_selection_keeps states marked.0.rows account.id marked.1
        (mark_with-row (handle_permanent_failure code) now settings account b at) stale in
    let (down, _, _) = mark_with-held (handle_permanent_failure code) now settings account b in
    alive (
      ap (λ r. r.status)
        (some_inj (
          sym (from_table row m)
          ∙ ap (persist_selection_state states marked.0.rows).0 (id ∙ same)
          ∙ found))
      ∙ down)

-- ===== src/LoadBalancer/Persist.antt =====
-- The writes of a state to its row: `_persist_state`, `_persist_state_if_current`,
-- `_persist_selection_state`, and the reports of failures that end in them. The row that the caller
-- holds, `account`, may be older than the row of the table.
pub mod Current
pub mod Selection
use codex_lb_mod.Base.{
  Bool, List, Option, Table, [], if◌then◌else◌, none, not, some, true, ℕ, ◌==◌, ◌∷◌,
}
use codex_lb_mod.Balancer.State.{AccountState}
use codex_lb_mod.Balancer.Failures.{whole_second}
use codex_lb_mod.LoadBalancer.Accounts.{
  Account, StatusColumns, columns_of, same_columns, update_status, update_status_if_current,
  write_columns,
}

-- `int(t) if t else None`
abbrev pub stored_time : Option ℕ → Option ℕ
stored_time none = none
stored_time (some t) = if t == 0 then none else some (whole_second t)

abbrev pub columns_for : AccountState → StatusColumns
columns_for s = record {
  new_status = s.status;
  new_reason = s.deactivation_reason;
  new_reset_at = stored_time s.reset_at;
  new_blocked_at = stored_time s.blocked_at;
}

-- `status_changed or reason_changed or reset_changed or blocked_changed`
unfoldable pub is_changed : Account → AccountState → Bool
is_changed account s = not (same_columns (columns_of account) (columns_for s))

-- The table, and the row that the caller holds afterwards.
unfoldable pub persist_state : Account → AccountState → Table Account → Table Account × Account
unfolding is_changed
persist_state account s t =
    if is_changed account s
    then ((update_status account.id (columns_for s) t).0, write_columns (columns_for s) account)
    else (t, account)

-- The table, the row that the caller holds afterwards, and whether the state was written or the
-- same already.
unfoldable pub persist_state_if_current :
    Account → AccountState → Table Account → Table Account × Account × Bool
unfolding is_changed
persist_state_if_current account s t =
    let (after, updated) =
      update_status_if_current account.id (columns_of account) (columns_for s) t in
    if is_changed account s
    then (after, if updated then write_columns (columns_for s) account else account, updated)
    else (t, account, true)

-- The loop over the selected states, each with its account: the table, and the ids of the accounts
-- whose rows had changed meanwhile.
unfoldable pub persist_selection_state :
    List (Account × AccountState) → Table Account → Table Account × List ℕ
persist_selection_state [] t = (t, [])
persist_selection_state ((account, s) ∷ states) t =
    let (after, held, current) = persist_state_if_current account s t in
    let (done, stale) = persist_selection_state states after in
    (done, if current then stale else account.id ∷ stale)

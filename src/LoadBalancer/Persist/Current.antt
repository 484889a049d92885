-- ===== src/LoadBalancer/Persist/Current.antt =====
-- What a compare-and-set write of a state does to the table of accounts: it writes over the row
-- that the caller has seen, or leaves the table alone (app/modules/proxy/load_balancer.py).
use codex_lb_mod.Base.{
  Bool, Bool-cases, Option-cases, Table, false, inl, inr, put, some, some_inj, subst, sym, true,
  ◌∙◌, ◌≡◌,
}
use codex_lb_mod.LoadBalancer.Accounts.{
  Account, columns_of, same_columns, update_status_if_current, write_columns,
}
use codex_lb_mod.Balancer.State.{AccountState}
use codex_lb_mod.LoadBalancer.Persist.{columns_for, is_changed, persist_state_if_current}

-- The row of an account is in the table with other columns than the caller holds, or is gone.
abbrev IsStale : Table Account → Account → Type 0
IsStale t account =
    (row : Account)
    → t account.id ≡ some row
    → same_columns (columns_of row) (columns_of account) ≡ false

-- The three outcomes of the call.
pub data Written (account : Account) (s : AccountState) (t : Table Account)
    (r : Table Account × Account × Bool) : Type 0 where
  kept : is_changed account s ≡ false → r ≡ (t, account, true) → Written account s t r
  wrote :
      (row : Account)
      → t account.id ≡ some row
      → same_columns (columns_of row) (columns_of account) ≡ true
      → r ≡ (
        put t account.id (write_columns (columns_for s) row),
        write_columns (columns_for s) account,
        true,
      )
      → Written account s t r
  lost : IsStale t account → r ≡ (t, account, false) → Written account s t r

pub persist_if_current-Written :
    (account : Account) (s : AccountState) (t : Table Account)
    → Written account s t (persist_state_if_current account s t)
unfolding persist_state_if_current update_status_if_current
persist_if_current-Written account s t = elim (Bool-cases (is_changed account s)) [
  | inr same ↦ kept same (rw same)
  | inl changed ↦ elim (Option-cases (t account.id)) [
    | inl gone ↦ lost (λ row at. cc (gone, at)) (rw (changed, gone, update_status_if_current))
    | inr (row, at) ↦ elim (Bool-cases (same_columns (columns_of row) (columns_of account))) [
      | inl current ↦ wrote row at current (rw (changed, at, current, update_status_if_current))
      | inr stale ↦
          lost
            (λ other found.
              subst (λ x. same_columns (columns_of x) (columns_of account) ≡ false)
                (some_inj (sym at ∙ found)) stale)
            (rw (changed, at, stale, update_status_if_current))
    ]
  ]
]

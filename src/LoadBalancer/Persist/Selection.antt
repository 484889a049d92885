-- ===== src/LoadBalancer/Persist/Selection.antt =====
-- The writes of a whole selection, one account after the other (`_persist_selection_state` of
-- app/modules/proxy/load_balancer.py).
use codex_lb_mod.Base.{
  ==_iff, All, Bool-cases, In, List, Table, [], ap, false, inl, inr, put_other, put_self, refl,
  some, some_inj, subst, sym, true, ℕ, ◌==◌, ◌∙◌, ◌∷◌, ◌≡◌, ◌≢◌, ◌⊎◌,
}
use codex_lb_mod.Balancer.State.{AccountState}
use codex_lb_mod.LoadBalancer.Accounts.{Account, columns_of, same_columns, write_columns}
use codex_lb_mod.LoadBalancer.Persist.{
  columns_for, is_changed, persist_selection_state, persist_state_if_current,
}
use codex_lb_mod.LoadBalancer.Persist.Current.{kept, lost, persist_if_current-Written, wrote}

-- No entry is about the account of the id.
abbrev pub Without : ℕ → List (Account × AccountState) → Type 0
Without id = All (λ p. p.0.id ≢ id)

abbrev pub HasDistinctIds : List (Account × AccountState) → Type 0
HasDistinctIds [] = Unit
HasDistinctIds ((account, s) ∷ states) = Without account.id states × HasDistinctIds states

-- The table after the first write.
abbrev step : Account → AccountState → Table Account → Table Account
step account s t = (persist_state_if_current account s t).0

persist_selection-table :
    (account : Account) (s : AccountState) (states : List (Account × AccountState))
    (t : Table Account)
    → (persist_selection_state ((account, s) ∷ states) t).0
      ≡ (persist_selection_state states (step account s t)).0
unfolding persist_selection_state
persist_selection-table account s states t = refl

differ :
    (account seen row : Account) (t : Table Account) (id : ℕ)
    → account.id ≡ id
    → t id ≡ some row
    → t account.id ≡ some seen
    → same_columns (columns_of seen) (columns_of account) ≡ true
    → same_columns (columns_of row) (columns_of account) ≢ false
differ account seen row t id same at found current stale = cc (
  ap (λ x. same_columns (columns_of x) (columns_of account))
      (some_inj (sym found ∙ ap t same ∙ at)),
  current,
  stale,
)

-- A write leaves a row alone that is another account's, or that the caller holds in another state.
step_keeps :
    (account : Account) (s : AccountState) (t : Table Account) (id : ℕ) (row : Account)
    → t id ≡ some row
    → (account.id ≡ id → same_columns (columns_of row) (columns_of account) ≡ false)
    → step account s t id ≡ some row
step_keeps account s t id row at law = elim (persist_if_current-Written account s t) [
  | kept same e ↦ rw (e, step) at
  | lost stale e ↦ rw (e, step) at
  | wrote seen found current e ↦ elim (Bool-cases (account.id == id)) [
    | inl same ↦ absurd (
        differ account seen row t id ((==_iff account.id id).0 same) at found current
          (law ((==_iff account.id id).0 same)))
    | inr differs ↦
        rw (e, step)
          (put_other t account.id _ id (λ h. cc ((==_iff account.id id).1 (sym h), differs)) ∙ at)
  ]
]

-- No lost update: a row which another task has changed since the selection read it, in one of the
-- four columns that the writes compare, is after all the writes of the selection as that task left it.
pub persist_selection_keeps :
    (states : List (Account × AccountState)) (t : Table Account) (id : ℕ) (row : Account)
    → t id ≡ some row
    → All (λ p. p.0.id ≡ id → same_columns (columns_of row) (columns_of p.0) ≡ false) states
    → (persist_selection_state states t).0 id ≡ some row
unfolding persist_selection_state
persist_selection_keeps [] t id row at law = at
persist_selection_keeps ((account, s) ∷ states) t id row at (law, laws) =
    persist_selection_keeps states (step account s t) id row (step_keeps account s t id row at law)
      laws

step-other :
    (account : Account) (s : AccountState) (t : Table Account) (id : ℕ)
    → account.id ≢ id
    → step account s t id ≡ t id
step-other account s t id differs = elim (persist_if_current-Written account s t) [
  | kept same e ↦ rw (e, step) refl
  | lost stale e ↦ rw (e, step) refl
  | wrote seen found current e ↦ rw (e, step) (put_other t account.id _ id (λ h. differs (sym h)))
]

persist_selection-other :
    (states : List (Account × AccountState)) (t : Table Account) (id : ℕ)
    → Without id states
    → (persist_selection_state states t).0 id ≡ t id
unfolding persist_selection_state
persist_selection-other [] t id none_of = refl
persist_selection-other ((account, s) ∷ states) t id (differs, rest) =
    persist_selection-other states (step account s t) id rest ∙ step-other account s t id differs

-- The row has the columns of the state.
abbrev pub HasColumns : Table Account → Account → AccountState → Type 0
HasColumns t account s =
    (row : Account) × (t account.id ≡ some row) × (columns_of row ≡ columns_for s)

-- What holds of an account that the writes did not report as stale.
abbrev pub IsPersisted : Table Account → Account → AccountState → Type 0
IsPersisted t account s = (is_changed account s ≡ false) ⊎ HasColumns t account s

step-IsPersisted :
    (account : Account) (s : AccountState) (t : Table Account)
    → (persist_state_if_current account s t).2 ≡ true
    → IsPersisted (step account s t) account s
step-IsPersisted account s t current = elim (persist_if_current-Written account s t) [
  | kept same e ↦ inl same
  | lost stale e ↦ absurd (cc (ap (λ r. r.2) e, current))
  | wrote seen found same e ↦
      inr (write_columns (columns_for s) seen, rw (e, step) (put_self t account.id _), refl)
]

persist_selection-stale_head :
    (account : Account) (s : AccountState) (states : List (Account × AccountState))
    (t : Table Account)
    → (persist_state_if_current account s t).2 ≡ false
    → In account.id (persist_selection_state ((account, s) ∷ states) t).1
unfolding persist_selection_state
persist_selection-stale_head account s states t missed = rw missed (inl refl)

persist_selection-stale_tail :
    (account : Account) (s : AccountState) (states : List (Account × AccountState))
    (t : Table Account) (id : ℕ)
    → In id (persist_selection_state states (step account s t)).1
    → In id (persist_selection_state ((account, s) ∷ states) t).1
unfolding persist_selection_state
persist_selection-stale_tail account s states t id m =
    elim (Bool-cases (persist_state_if_current account s t).2) [
      | inl current ↦ rw current m
      | inr missed ↦ rw missed (inr m)
    ]

-- For accounts with distinct ids: after the writes, an account that they do not report as stale
-- either had no change to write, or its row has the status, the reason and the two times of its state.
pub persist_selection-IsPersisted :
    (states : List (Account × AccountState)) (t : Table Account) (account : Account)
    (s : AccountState)
    → HasDistinctIds states
    → In (account, s) states
    → (In account.id (persist_selection_state states t).1 → ⊥)
    → IsPersisted (persist_selection_state states t).0 account s
unfolding persist_selection_state
persist_selection-IsPersisted [] t account s distinct m fresh = absurd m.0
persist_selection-IsPersisted ((a, b) ∷ states) t account s (others, distinct) (inr m) fresh =
    persist_selection-IsPersisted states (step a b t) account s distinct m
      (λ n. fresh (persist_selection-stale_tail a b states t account.id n))
persist_selection-IsPersisted ((a, b) ∷ states) t account s (others, distinct) (inl e) fresh =
    elim (Bool-cases (persist_state_if_current a b t).2) [
      | inr missed ↦ absurd (
          fresh (
            subst (λ p. In p.0.id (persist_selection_state ((a, b) ∷ states) t).1) e
              (persist_selection-stale_head a b states t missed)))
      | inl current ↦
          subst (λ p. IsPersisted (persist_selection_state states (step a b t)).0 p.0 p.1) e
            (elim (step-IsPersisted a b t current) [
              | inl same ↦ inl same
              | inr (row, at, columns) ↦
                  inr (row, persist_selection-other states (step a b t) a.id others ∙ at, columns)
            ])
    ]

-- ===== src/LoadBalancer/Keyed/Returned.antt =====
-- The account that `LoadBalancer.select_account` returns for a sticky key
-- (app/modules/proxy/load_balancer.py).
use codex_lb_mod.Base.{
  ==_iff, Bool-cases, In, List, Option, Option-cases, Table, ap, exists, false, inl, inr, map, none,
  refl, some, some_inj, subst, suc, sym, true, zero, ℕ, ◌==◌, ◌∙◌, ◌≡◌,
}
use codex_lb_mod.Base.Member.{In-map, map-In}
use codex_lb_mod.Balancer.State.{AccountState}
use codex_lb_mod.Balancer.Ranking.{Host}
use codex_lb_mod.LoadBalancer.Accounts.{Account}
use codex_lb_mod.LoadBalancer.Inputs.{SelectionInputs}
use codex_lb_mod.LoadBalancer.Loop.{failure_of, find_account, pairs, selected, sync_all, was_stale}
use codex_lb_mod.LoadBalancer.Loop.Ids.{
  IsDistinct, build_states-ids, find_account-In, ids_of, ids_of-map, pairs-HasDistinctIds, pairs-In,
  row_ids,
}
use codex_lb_mod.LoadBalancer.Loop.Served.{finish-selected, not_stale}
use codex_lb_mod.LoadBalancer.Keyed.{
  KeyRequest, KeyedAttempt, KeyedState, KeyedTasks, after_sticky, keyed_answer, keyed_loop,
  keyed_snapshot, keyed_snapshot_for, keyed_states, select_with_key, take_result, try_keyed,
}
use codex_lb_mod.LoadBalancer.Marks.{LoadBalancer}
use codex_lb_mod.LoadBalancer.Persist.{persist_selection_state}
use codex_lb_mod.LoadBalancer.Persist.Selection.{IsPersisted, persist_selection-IsPersisted}
use codex_lb_mod.LoadBalancer.States.{RuntimeState}
use codex_lb_mod.LoadBalancer.Sticky.{StickyResult, select_with_stickiness}
use codex_lb_mod.LoadBalancer.Sticky.Among.{KeepsIds}
use codex_lb_mod.LoadBalancer.Sticky.Chosen.{sticky-KeepsIds}
use codex_lb_mod.LoadBalancer.Keyed.Reached.{IsLastReturned, IsReturned, as_chosen, later, this}

keyed_snapshot-some :
    (accounts : List Account) (states : List AccountState) (o : Option AccountState) (a : Account)
    → keyed_snapshot_for accounts states o ≡ some a
    → (x : AccountState) × (row : Account) × (o ≡ some x)
      × (find_account x.account_id accounts ≡ some row)
      × (a ≡ keyed_snapshot x states row)
keyed_snapshot-some accounts states none a e = cc
keyed_snapshot-some accounts states (some x) a e =
    elim (Option-cases (find_account x.account_id accounts)) [
      | inl missing ↦ absurd (cc (rw missing at e))
      | inr (row, found) ↦ (x, row, refl, found, sym (some_inj (rw found at e)))
    ]

take_result-id :
    (o : Option AccountState) (s : AccountState) → (take_result o s).account_id ≡ s.account_id
take_result-id none s = refl
take_result-id (some a) s = elim (Bool-cases (s.account_id == a.account_id)) [
  | inl same ↦ rw same refl
  | inr other ↦ rw other refl
]

take_result-chosen :
    (o : Option AccountState) (x s : AccountState)
    → o ≡ some x
    → s.account_id ≡ x.account_id
    → take_result o s ≡ as_chosen x s
take_result-chosen o x s e same = rw (e, (==_iff s.account_id x.account_id).1 same) refl

module _ (tasks : KeyedTasks) (now left : ℕ) (b : KeyedState) (inputs : SelectionInputs) where
  after_sticky-IsReturned :
      (runtime : Table RuntimeState) (states : List AccountState) (r : StickyResult) (a : Account)
      → IsDistinct (row_ids inputs.offered)
      → ids_of states ≡ row_ids inputs.offered
      → KeepsIds states r
      → (after_sticky tasks now left b inputs runtime r).keyed_selected ≡ some a
      → (after_sticky tasks now left b inputs runtime r).keyed_stale ≡ false
      → IsReturned inputs r (after_sticky tasks now left b inputs runtime r).keyed_state a
  unfolding after_sticky keyed_snapshot
  after_sticky-IsReturned runtime states r a distinct ids (kept, among) e fresh =
      let (x, row, chosen, found, made) =
        keyed_snapshot-some inputs.offered r.states_after r.selection.account a e in
      let (serves, m) = among x chosen in
      let (s, n, same) =
        In-map (λ s. s.account_id) x.account_id r.states_after
          (subst (In x.account_id) (sym kept) m) in
      let id = take_result-id r.selection.account s ∙ same in
      record {
        loaded = row;
        chosen = x;
        found = s;
        was_chosen = chosen;
        is_loaded = (find_account-In x.account_id inputs.offered row found).0;
        is_own = (find_account-In x.account_id inputs.offered row found).1;
        made = made;
        is_found = n;
        found_id = same;
        is_active = serves;
        is_current =
            subst
              (IsPersisted
                (persist_selection_state (pairs inputs.offered taken) changed.core.rows).0 row)
              (take_result-chosen r.selection.account x s chosen same)
              (persist_selection-IsPersisted (pairs inputs.offered taken) changed.core.rows row
                (take_result r.selection.account s)
                (pairs-HasDistinctIds inputs.offered taken
                  (subst IsDistinct (sym taken_ids) distinct))
                (pairs-In inputs.offered taken (take_result r.selection.account s) row
                  (map-In (take_result r.selection.account) s r.states_after n)
                  (ap (λ i. find_account i inputs.offered) id ∙ found))
                (not_stale row.id stale (
                  ap (λ y. exists (λ i. i == y.id) stale) (sym made)
                  ∙ subst (λ o. was_stale o stale ≡ false) e fresh)));
      }
    where
      taken : List AccountState
      taken = map (take_result r.selection.account) r.states_after

      taken_ids : ids_of taken ≡ row_ids inputs.offered
      taken_ids =
          ids_of-map (take_result r.selection.account) r.states_after
            (take_result-id r.selection.account)
          ∙ kept
          ∙ ids

      changed : KeyedState
      changed = tasks.meanwhile left (record b {
        core = record b.core {
          runtime = sync_all now r.selection.account (pairs inputs.offered r.states_after) runtime;
        };
        mappings = r.mappings_after;
      })

      stale : List ℕ
      stale = (persist_selection_state (pairs inputs.offered taken) changed.core.rows).1

module _ (host : Host) (tasks : KeyedTasks) (q : KeyRequest) (now : ℕ)
    (named : (q.request_key == 0) ≡ false) where
  keyed_states-ids :
      (b : LoadBalancer) (inputs : SelectionInputs)
      → ids_of (keyed_states q now b inputs).0 ≡ row_ids inputs.offered
  unfolding keyed_states
  keyed_states-ids b inputs = build_states-ids now q.request_settings inputs.usage inputs.offered _

  -- Where an attempt returns an account and is not stale, the run that ends with it does.
  try_keyed-IsReturned :
      (left : ℕ) (b after : KeyedState) (inputs : SelectionInputs) (t : KeyedAttempt) (a : Account)
      → IsDistinct (row_ids inputs.offered)
      → try_keyed host tasks q now left b inputs ≡ some t
      → t.keyed_selected ≡ some a
      → t.keyed_stale ≡ false
      → t.keyed_state ≡ after
      → IsLastReturned host tasks q now left b inputs after a
  unfolding try_keyed
  try_keyed-IsReturned left b after inputs t a distinct e chosen fresh ends =
      elim (Option-cases sticky) [
        | inl raised ↦ absurd (cc (rw (try_keyed, raised) at e))
        | inr (r, f) ↦
            let same = some_inj (rw (try_keyed, f) at e) in
            record {
              attempts_left = left;
              before = b;
              last = inputs;
              result = r;
              last_attempt = t;
              reached = this left b inputs;
              is_tried = e;
              is_left = ends;
              is_selected = f;
              is_returned =
                  subst (λ x. IsReturned inputs r x a) (ap (λ x. x.keyed_state) same ∙ ends)
                    (after_sticky-IsReturned tasks now left b inputs runtime states r a distinct
                      (keyed_states-ids b.core inputs)
                      (sticky-KeepsIds host q.request_options now q.request_key q.request_kind
                        inputs.offered states b.mappings r named f)
                      (ap (λ x. x.keyed_selected) same ∙ chosen)
                      (ap (λ x. x.keyed_stale) same ∙ fresh));
            }
      ]
    where
      states : List AccountState
      states = (keyed_states q now b.core inputs).0

      runtime : Table RuntimeState
      runtime = (keyed_states q now b.core inputs).1

      sticky : Option StickyResult
      sticky =
          select_with_stickiness host q.request_options now (some q.request_key)
            (some q.request_kind) inputs.offered states b.mappings

  later_returned :
      (left : ℕ) (b after : KeyedState) (inputs : SelectionInputs) (t : KeyedAttempt) (a : Account)
      → try_keyed host tasks q now (suc left) b inputs ≡ some t
      → t.keyed_stale ≡ true
      → IsLastReturned host tasks q now left t.keyed_state (tasks.next_load (suc left)) after a
      → IsLastReturned host tasks q now (suc left) b inputs after a
  later_returned left b after inputs t a e stale known = record {
    attempts_left = known.attempts_left;
    before = known.before;
    last = known.last;
    result = known.result;
    last_attempt = known.last_attempt;
    reached = later left b inputs t _ _ _ e stale known.reached;
    is_tried = known.is_tried;
    is_left = known.is_left;
    is_selected = known.is_selected;
    is_returned = known.is_returned;
  }

  keyed_loop-IsReturned :
      (left : ℕ) (b after : KeyedState) (inputs : SelectionInputs) (a : Account)
      → IsDistinct (row_ids inputs.offered)
      → ((n : ℕ) → IsDistinct (row_ids (tasks.next_load n).offered))
      → keyed_loop host tasks q now left b inputs ≡ some (after, selected a)
      → IsLastReturned host tasks q now left b inputs after a
  unfolding keyed_loop
  keyed_loop-IsReturned zero b after inputs a distinct law e =
      elim (Option-cases (try_keyed host tasks q now zero b inputs)) [
        | inl raised ↦ absurd (cc (rw (keyed_loop, raised) at e))
        | inr (t, f) ↦
            let ends = some_inj (rw (keyed_loop, f) at e) in
            let answered : keyed_answer t ≡ selected a = ap (λ p. p.1) ends in
            elim (Bool-cases t.keyed_stale) [
              | inl stale ↦ absurd (cc (rw stale at answered))
              | inr fresh ↦
                  try_keyed-IsReturned zero b after inputs t a distinct f
                    (finish-selected t.keyed_selected t.keyed_message a (rw fresh at answered))
                    fresh (ap (λ p. p.0) ends)
            ]
      ]
  keyed_loop-IsReturned (suc left) b after inputs a distinct law e =
      elim (Option-cases (try_keyed host tasks q now (suc left) b inputs)) [
        | inl raised ↦ absurd (cc (rw (keyed_loop, raised) at e))
        | inr (t, f) ↦ elim (Bool-cases t.keyed_stale) [
          | inr fresh ↦
              let ends = some_inj (rw (keyed_loop, f, fresh) at e) in
              try_keyed-IsReturned (suc left) b after inputs t a distinct f
                (finish-selected t.keyed_selected t.keyed_message a (ap (λ p. p.1) ends)) fresh
                (ap (λ p. p.0) ends)
          | inl stale ↦ elim (Option-cases (failure_of (tasks.next_load (suc left)))) [
            | inr (error, failed) ↦
                absurd (cc (ap (λ p. p.1) (some_inj (rw (keyed_loop, f, stale, failed) at e))))
            | inl fine ↦ later_returned left b after inputs t a f stale (
                keyed_loop-IsReturned left t.keyed_state after (tasks.next_load (suc left)) a
                  (law (suc left)) law (rw (keyed_loop, f, stale, fine) at e))
          ]
        ]
      ]

  -- For a sticky key that is not empty, and whatever other tasks do to the accounts and the mappings
  -- during the at most four attempts: an account that the call returns is that of the state chosen by
  -- the sticky selection of the last attempt, which is active, and its row was offered by the load of
  -- that attempt, the given one or one of those between the attempts; and in the table that the
  -- attempt leaves its row has the status of the chosen state and the times of the account's state
  -- after the selection, or they were no change to the row that was loaded. No load may offer an
  -- account twice.
  pub select_with_key-IsReturned :
      (b after : KeyedState) (inputs : SelectionInputs) (a : Account)
      → IsDistinct (row_ids inputs.offered)
      → ((n : ℕ) → IsDistinct (row_ids (tasks.next_load n).offered))
      → select_with_key host tasks q now b inputs ≡ some (after, selected a)
      → IsLastReturned host tasks q now 3 b inputs after a
  unfolding select_with_key
  select_with_key-IsReturned b after inputs a distinct law e =
      elim (Option-cases (failure_of inputs)) [
        | inr (error, failed) ↦
            absurd (cc (ap (λ p. p.1) (some_inj (rw (select_with_key, failed) at e))))
        | inl fine ↦
            keyed_loop-IsReturned 3 b after inputs a distinct law (rw (select_with_key, fine) at e)
      ]

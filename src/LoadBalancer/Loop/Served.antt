-- ===== src/LoadBalancer/Loop/Served.antt =====
-- The account that the loop of `LoadBalancer.select_account` returns
-- (app/modules/proxy/load_balancer.py).
use codex_lb_mod.Base.{
  ==_iff, Bool, Bool-cases, In, List, Option, Option-cases, [], ap, arith, exists, false, inl, inr,
  none, refl, some, some_inj, subst, suc, sym, true, zero, ℕ, ◌==◌, ◌||◌, ◌∙◌, ◌∷◌, ◌≡◌,
}
use codex_lb_mod.Balancer.State.{AccountState}
use codex_lb_mod.Balancer.Eligibility.Serving.{IsServing}
use codex_lb_mod.Balancer.Ranking.{Host}
use codex_lb_mod.Balancer.Select.{Message, SelectionResult}
use codex_lb_mod.LoadBalancer.Accounts.{Account}
use codex_lb_mod.LoadBalancer.Budget.Prefers.{select_preferring-IsServing}
use codex_lb_mod.LoadBalancer.Inputs.{SelectionInputs}
use codex_lb_mod.LoadBalancer.Marks.{LoadBalancer}
use codex_lb_mod.LoadBalancer.Persist.{persist_selection_state}
use codex_lb_mod.LoadBalancer.Persist.Selection.{persist_selection-IsPersisted}
use codex_lb_mod.LoadBalancer.Loop.{
  SelectRequest, Tasks, attempt_loop, chosen_in, failure_of, find_account, finish, pairs,
  select_without_key, selected, snapshot_for, snapshot_of, sync_all, try_once, was_stale,
}
use codex_lb_mod.LoadBalancer.Loop.Ids.{
  IsDistinct, build_states-ids, find_account-In, ids_of, pairs-HasDistinctIds, pairs-In, row_ids,
  select_preferring-ids,
}
use codex_lb_mod.LoadBalancer.Loop.Reached.{IsLastServed, IsServed, later, this}

pub or_false : (a b : Bool) → a || b ≡ false → (a ≡ false) × (b ≡ false)
or_false a b h = ground arith

pub not_stale : (id : ℕ) (ids : List ℕ) → exists (λ other. other == id) ids ≡ false → In id ids → ⊥
not_stale id [] e m = m.0
not_stale id (x ∷ ids) e (inl same) =
    cc ((==_iff x id).1 same, (or_false (x == id) (exists (λ other. other == id) ids) e).0)
not_stale id (x ∷ ids) e (inr m) =
    not_stale id ids (or_false (x == id) (exists (λ other. other == id) ids) e).1 m

snapshot_for-some :
    (accounts : List Account) (o : Option AccountState) (a : Account)
    → snapshot_for accounts o ≡ some a
    → (s : AccountState) × (row : Account) × (o ≡ some s)
      × (find_account s.account_id accounts ≡ some row)
      × (a ≡ snapshot_of s row)
snapshot_for-some accounts none a e = cc
snapshot_for-some accounts (some s) a e = elim (Option-cases (find_account s.account_id accounts)) [
  | inl missing ↦ absurd (cc (rw missing at e))
  | inr (row, found) ↦ (s, row, refl, found, sym (some_inj (rw found at e)))
]

pub finish-selected :
    (o : Option Account) (message : Option Message) (a : Account)
    → finish o message ≡ selected a
    → o ≡ some a
finish-selected none message a e = cc
finish-selected (some b) message a e = ground (arith, e)

module _ (host : Host) (tasks : Tasks) (q : SelectRequest) (now : ℕ) where
  chosen_in-ids :
      (b : LoadBalancer) (inputs : SelectionInputs)
      → ids_of (chosen_in host q now b inputs).0.0 ≡ row_ids inputs.offered
  unfolding chosen_in
  chosen_in-ids b inputs =
      select_preferring-ids host q.select_options q.threshold_pct now _
      ∙ build_states-ids now q.lb_settings inputs.usage inputs.offered _

  chosen_in-IsServing :
      (b : LoadBalancer) (inputs : SelectionInputs) (s : AccountState)
      → (chosen_in host q now b inputs).0.1.account ≡ some s
      → In s (chosen_in host q now b inputs).0.0 × IsServing now s
  unfolding chosen_in
  chosen_in-IsServing b inputs s e =
      select_preferring-IsServing host q.select_options q.threshold_pct now _ s e

  try_once-IsServed :
      (left : ℕ) (b : LoadBalancer) (inputs : SelectionInputs) (a : Account)
      → IsDistinct (row_ids inputs.offered)
      → (try_once host tasks q now left b inputs).snapshot ≡ some a
      → (try_once host tasks q now left b inputs).is_stale ≡ false
      → IsServed host q now b inputs (try_once host tasks q now left b inputs).balancer a
  unfolding try_once snapshot_of
  try_once-IsServed left b inputs a distinct e fresh =
      let (s, row, chosen, found, made) = snapshot_for-some inputs.offered choice.1.account a e in
      let (m, serving) = chosen_in-IsServing b inputs s chosen in
      record {
        row = row;
        state = s;
        was_chosen = chosen;
        same_id = (find_account-In s.account_id inputs.offered row found).1;
        made = made;
        is_offered = (find_account-In s.account_id inputs.offered row found).0;
        is_serving = serving;
        is_persisted =
            persist_selection-IsPersisted (pairs inputs.offered choice.0) changed.rows row s
              (pairs-HasDistinctIds inputs.offered choice.0
                (subst IsDistinct (sym (chosen_in-ids b inputs)) distinct))
              (pairs-In inputs.offered choice.0 s row m found)
              (not_stale row.id stale (
                ap (λ x. exists (λ id. id == x.id) stale) (sym made)
                ∙ subst (λ o. was_stale o stale ≡ false) e fresh));
      }
    where
      choice : List AccountState × SelectionResult
      choice = (chosen_in host q now b inputs).0

      changed : LoadBalancer
      changed = tasks.during left (record b {
        runtime =
            sync_all now choice.1.account (pairs inputs.offered choice.0)
              (chosen_in host q now b inputs).1;
      })

      stale : List ℕ
      stale = (persist_selection_state (pairs inputs.offered choice.0) changed.rows).1

  this_served :
      (left : ℕ) (b : LoadBalancer) (inputs : SelectionInputs) (a : Account)
      → IsDistinct (row_ids inputs.offered)
      → (try_once host tasks q now left b inputs).snapshot ≡ some a
      → (try_once host tasks q now left b inputs).is_stale ≡ false
      → IsLastServed host tasks q now left b inputs
          (try_once host tasks q now left b inputs).balancer
          a
  this_served left b inputs a distinct e fresh = record {
    attempts_left = left;
    before = b;
    last = inputs;
    reached = this left b inputs;
    is_left = refl;
    is_served = try_once-IsServed left b inputs a distinct e fresh;
  }

  later_served :
      (left : ℕ) (b after : LoadBalancer) (inputs : SelectionInputs) (a : Account)
      → (try_once host tasks q now (suc left) b inputs).is_stale
          || (try_once host tasks q now (suc left) b inputs).tries_again
        ≡ true
      → IsLastServed host tasks q now left
          (try_once host tasks q now (suc left) b inputs).balancer
          (tasks.reload (suc left))
          after
          a
      → IsLastServed host tasks q now (suc left) b inputs after a
  later_served left b after inputs a again found = record {
    attempts_left = found.attempts_left;
    before = found.before;
    last = found.last;
    reached = later left b inputs _ _ _ again found.reached;
    is_left = found.is_left;
    is_served = found.is_served;
  }

  attempt_loop-IsServed :
      (left : ℕ) (b : LoadBalancer) (inputs : SelectionInputs) (a : Account)
      → IsDistinct (row_ids inputs.offered)
      → ((n : ℕ) → IsDistinct (row_ids (tasks.reload n).offered))
      → (attempt_loop host tasks q now left b inputs).1 ≡ selected a
      → IsLastServed host tasks q now left b inputs
          (attempt_loop host tasks q now left b inputs).0
          a
  unfolding attempt_loop
  attempt_loop-IsServed zero b inputs a distinct law e =
      elim (Bool-cases (try_once host tasks q now zero b inputs).is_stale) [
        | inl stale ↦ absurd (cc (rw stale at e))
        | inr fresh ↦
            this_served zero b inputs a distinct (finish-selected _ _ a (rw fresh at e)) fresh
      ]
  attempt_loop-IsServed (suc left) b inputs a distinct law e =
      elim (Bool-cases (
        (try_once host tasks q now (suc left) b inputs).is_stale
        || (try_once host tasks q now (suc left) b inputs).tries_again)) [
          | inr ends ↦ rw ends (
              this_served (suc left) b inputs a distinct (finish-selected _ _ a (rw ends at e))
                (or_false _ _ ends).0)
          | inl again ↦ elim (Option-cases (failure_of (tasks.reload (suc left)))) [
            | inr (error, failed) ↦ absurd (cc (rw (again, failed) at e))
            | inl fine ↦
                rw (again, fine)
                  (later_served left b _ inputs a again (
                    attempt_loop-IsServed left _ (tasks.reload (suc left)) a (law (suc left)) law
                      (rw (again, fine) at e)))
          ]
        ]

-- Of the call without a sticky key, which makes at most four attempts, and whatever other tasks do
-- between the choice and the writes of each: an account that it returns is that of the state chosen
-- by the last attempt it makes, its row was offered by the load of that attempt, which is the given
-- one or one of those between the attempts, and the state serves; and its row in the table that the
-- attempt leaves has the status and times of the state, or the state was no change to the row that
-- was loaded. No load may offer an account twice.
pub select_without_key-IsServed :
    (host : Host) (tasks : Tasks) (q : SelectRequest) (now : ℕ) (b : LoadBalancer)
    (inputs : SelectionInputs) (a : Account)
    → IsDistinct (row_ids inputs.offered)
    → ((n : ℕ) → IsDistinct (row_ids (tasks.reload n).offered))
    → (select_without_key host tasks q now b inputs).1 ≡ selected a
    → IsLastServed host tasks q now 3 b inputs (select_without_key host tasks q now b inputs).0 a
unfolding select_without_key
select_without_key-IsServed host tasks q now b inputs a distinct law e =
    elim (Option-cases (failure_of inputs)) [
      | inr (error, failed) ↦ absurd (cc (rw (select_without_key, failed) at e))
      | inl fine ↦
          rw (select_without_key, fine)
            (attempt_loop-IsServed host tasks q now 3 b inputs a distinct law
              (rw (select_without_key, fine) at e))
    ]

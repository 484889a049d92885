-- ===== src/Bridge/Tests.antt =====
-- One session and two instances.
use codex_lb_mod.Base.{
  Option, [], false, if◌then◌else◌, none, refl, some, true, ℕ, ◌==◌, ◌∷◌, ◌≡◌, ◌⊎◌,
}
use codex_lb_mod.Bridge.{
  BridgeDb, Claim, Session, SessionState, claim_found, claim_session, get_session, refuses,
  take_over,
}
use codex_lb_mod.Bridge.Writes.{
  Renewal, changed, commit_changes, holds, read_held, release_row, release_session, write_row,
}
use codex_lb_mod.Bridge.Takeover.{IsHeldByOther, IsTaken, claim_session-cases}
use codex_lb_mod.Bridge.Fencing.{
  Bridges, claim, commit, commit_at, fenced, next, operate, release, renew, stop,
}

abbrev claim_of : ℕ → Option ℕ → Claim
claim_of instance account = record {
  instance_id = instance;
  lease_ttl = 30000;
  claim_account = account;
  claim_model = some 1;
  claim_tier = none;
  claim_turn = some 11;
  claim_response = none;
  allow_takeover = true;
}

abbrev owned : Session
owned = record {
  owner_instance_id = some 1;
  owner_epoch = 4;
  lease_expires_at = some 60000;
  state = SessionState.active;
  account_id = some 8;
  model = some 1;
  service_tier = none;
  latest_turn_state = none;
  latest_response_id = none;
  latest_input_item_count = none;
  latest_input_full_fingerprint = none;
  last_seen_at = 20000;
  closed_at = none;
}

abbrev one_session : BridgeDb
one_session = record {
  ids = λ k. if k == 3 then some 30 else none;
  sessions = λ i. if i == 30 then some owned else none;
  aliases = record { alias_session = 30; alias_key = 77 } ∷ [];
}

claim_session-cases_example :
    (get_session 3 (claim_session 40000 (claim_of 2 (some 8)) 31 3 one_session).0
      ≡ some (claim_session 40000 (claim_of 2 (some 8)) 31 3 one_session).1)
    × (IsTaken 40000
          (claim_of 2 (some 8))
          (claim_session 40000 (claim_of 2 (some 8)) 31 3 one_session).1
        ⊎ ((claim_session 40000 (claim_of 2 (some 8)) 31 3 one_session).0 ≡ one_session)
          × IsHeldByOther 40000 2 (claim_session 40000 (claim_of 2 (some 8)) 31 3 one_session).1)
claim_session-cases_example = claim_session-cases 40000 (claim_of 2 (some 8)) 31 3 one_session

abbrev taken : Session
taken = take_over 40000 (claim_of 2 (some 8)) owned

abbrev renewal : Renewal
renewal = record {
  renew_ttl = 30000;
  renew_turn = none;
  renew_response = none;
  renew_count = none;
  renew_fingerprint = none;
  renew_state = none;
}

-- The first instance reads its row for a release; before the commit the second one takes the row.
abbrev begun : Bridges
begun = operate 35000 (release 30 1 4 true) (record { db = one_session; pending = [] })

abbrev lost : Bridges
lost = operate 40000 (claim (claim_of 2 (some 8)) 31 3) begun

abbrev committed : Bridges
committed = operate 41000 (commit 0) lost

abbrev back : Bridges
back = operate 50000 (claim (claim_of 1 (some 8)) 31 3) committed

abbrev evicted : Session
evicted = record taken {
  owner_instance_id = none;
  lease_expires_at = some 35000;
  last_seen_at = 35000;
  state = SessionState.draining;
}

-- The late commit takes the row from its new owner.
late_release : committed.db.sessions 30 ≡ some evicted
unfolding operate commit_at commit_changes write_row changed release_row read_held claim_session
    claim_found take_over refuses
late_release = refl

late_release_session :
    (release_session 35000 30 1 4 true
        (λ db. (claim_session 40000 (claim_of 2 (some 8)) 31 3 db).0)
        one_session).sessions
      30
    ≡ some evicted
unfolding release_session commit_changes write_row changed release_row read_held claim_session
    claim_found take_over refuses
late_release_session = refl

late_fresh : committed.db.sessions 31 ≡ none
unfolding operate commit_at commit_changes read_held claim_session claim_found refuses
late_fresh = refl

fenced_example :
    ((u : Session) × (back.db.sessions 30 ≡ some u) × (holds u 1 4 ≡ false))
    × (operate 55000 (renew 30 1 4 renewal) back ≡ back)
    × (operate 55000 (release 30 1 4 true) back ≡ back)
unfolding operate claim_session claim_found take_over refuses read_held
fenced_example =
    fenced begun lost back 30 1 4 owned taken 55000 renewal true
      (next 40000 (claim (claim_of 2 (some 8)) 31 3) begun lost refl (stop lost))
      (next 41000 (commit 0) lost back tt
        (next 50000 (claim (claim_of 1 (some 8)) 31 3) committed back late_fresh (stop back)))
      refl refl refl refl

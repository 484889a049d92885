-- ===== src/Bridge/Writes.antt =====
-- `renew_session`, `release_session` and `mark_owner_draining` of
-- app/modules/proxy/durable_bridge_repository.py, which write rows that they read without a lock.
use mathlib.Core.Option
use codex_lb_mod.Base.{
  Bool, Option, Table, if◌then◌else◌, is_some, none, or_default, or_else, put, some, ℕ, ◌&&◌, ◌==◌,
}
use codex_lb_mod.Bridge.{
  BridgeDb, Session, SessionState, is_owner, lease_end, same_option, same_state,
}

-- The arguments of `renew_session` but the session, the instance and the epoch.
pub record Renewal : Type 0 where
  pub renew_ttl : ℕ
  pub renew_turn : Option ℕ
  pub renew_response : Option ℕ
  pub renew_count : Option ℕ
  pub renew_fingerprint : Option ℕ
  pub renew_state : Option SessionState

-- `row.owner_instance_id == instance_id and row.owner_epoch == owner_epoch`
abbrev pub holds : Session → ℕ → ℕ → Bool
holds s instance epoch = is_owner s instance && s.owner_epoch == epoch

-- The input's columns: set together, and cleared with a response that comes without both.
abbrev renewed_input : Renewal → Option ℕ → Option ℕ → Option ℕ
renewed_input r new old =
    if is_some r.renew_count && is_some r.renew_fingerprint
    then new
    else if is_some r.renew_response
    then none
    else old

-- The assignments of `renew_session`, `release_session` and `mark_owner_draining` to a row as read.
unfoldable pub renew_row : ℕ → Renewal → Session → Session
renew_row now r s = record s {
  lease_expires_at = some (lease_end now r.renew_ttl);
  last_seen_at = now;
  latest_turn_state = or_else r.renew_turn s.latest_turn_state;
  latest_response_id = or_else r.renew_response s.latest_response_id;
  latest_input_item_count = renewed_input r r.renew_count s.latest_input_item_count;
  latest_input_full_fingerprint =
      renewed_input r r.renew_fingerprint s.latest_input_full_fingerprint;
  state = or_default r.renew_state s.state;
}

unfoldable pub release_row : ℕ → Bool → Session → Session
release_row now drains s = record s {
  owner_instance_id = none;
  lease_expires_at = some now;
  last_seen_at = now;
  state = if drains then SessionState.draining else SessionState.closed;
  closed_at = if drains then none else some now;
}

unfoldable pub drain_row : ℕ → Session → Session
drain_row now s = record s { state = SessionState.draining; last_seen_at = now }

-- These three read rows without a lock and write by the primary key at the commit, with other
-- transactions between: what is to be written, with the rows as they were read.
pub data Change : Type 0 where
  renews : ℕ → Renewal → Change
  releases : ℕ → Bool → Change
  drains : ℕ → Change

pub record PendingWrite : Type 0 where
  pub reads : Table Session
  pub change : Change

unfoldable pub changed : Change → Session → Session
unfolding renew_row release_row drain_row
changed (renews now r) s = renew_row now r s
changed (releases now draining) s = release_row now draining s
changed (drains now) s = drain_row now s

-- The UPDATE of a flush has the columns whose new value differs from the one that was read.
abbrev write_option : Option ℕ → Option ℕ → Option ℕ → Option ℕ
write_option old new current = if same_option old new then current else new

abbrev write_number : ℕ → ℕ → ℕ → ℕ
write_number old new current = if old == new then current else new

unfoldable pub write_row : Session → Session → Session → Session
write_row old new s = record {
  owner_instance_id = write_option old.owner_instance_id new.owner_instance_id s.owner_instance_id;
  owner_epoch = write_number old.owner_epoch new.owner_epoch s.owner_epoch;
  lease_expires_at = write_option old.lease_expires_at new.lease_expires_at s.lease_expires_at;
  state = if same_state old.state new.state then s.state else new.state;
  account_id = write_option old.account_id new.account_id s.account_id;
  model = write_option old.model new.model s.model;
  service_tier = write_option old.service_tier new.service_tier s.service_tier;
  latest_turn_state = write_option old.latest_turn_state new.latest_turn_state s.latest_turn_state;
  latest_response_id =
      write_option old.latest_response_id new.latest_response_id s.latest_response_id;
  latest_input_item_count =
      write_option old.latest_input_item_count new.latest_input_item_count
        s.latest_input_item_count;
  latest_input_full_fingerprint =
      write_option old.latest_input_full_fingerprint new.latest_input_full_fingerprint
        s.latest_input_full_fingerprint;
  last_seen_at = write_number old.last_seen_at new.last_seen_at s.last_seen_at;
  closed_at = write_option old.closed_at new.closed_at s.closed_at;
}

-- `_commit_writer_section`
unfoldable pub commit_changes : PendingWrite → BridgeDb → BridgeDb
unfolding write_row changed
commit_changes p db = record db {
  sessions = λ id. elim (p.reads id) [
    | none ↦ db.sessions id
    | some old ↦ Option.map (write_row old (changed p.change old)) (db.sessions id)
  ];
}

-- The first part of `renew_session` and `release_session`: `none` is the early return, for a row
-- that is missing or that the caller does not hold at its epoch.
unfoldable pub read_held : ℕ → ℕ → ℕ → Change → BridgeDb → Option PendingWrite
read_held id instance epoch change db = elim (db.sessions id) [
  | none ↦ none
  | some s ↦
      if holds s instance epoch
      then some (record { reads = put (λ i. none) id s; change = change })
      else none
]

-- The first part of `mark_owner_draining`.
unfoldable pub read_active : ℕ → ℕ → BridgeDb → PendingWrite
read_active now instance db = record {
  reads = λ id. elim (db.sessions id) [
    | none ↦ none
    | some s ↦
        if is_owner s instance && same_state s.state SessionState.active then some s else none
  ];
  change = drains now;
}

-- The whole calls, with what the other transactions do between the read and the commit.
unfoldable pub renew_session : ℕ → ℕ → ℕ → ℕ → Renewal → (BridgeDb → BridgeDb) → BridgeDb → BridgeDb
unfolding read_held commit_changes
renew_session now id instance epoch r meanwhile db =
    elim (read_held id instance epoch (renews now r) db) [
      | none ↦ db
      | some p ↦ commit_changes p (meanwhile db)
    ]

unfoldable pub release_session : ℕ → ℕ → ℕ → ℕ → Bool → (BridgeDb → BridgeDb) → BridgeDb → BridgeDb
unfolding read_held commit_changes
release_session now id instance epoch draining meanwhile db =
    elim (read_held id instance epoch (releases now draining) db) [
      | none ↦ db
      | some p ↦ commit_changes p (meanwhile db)
    ]

-- Without the number of rows that it returns.
unfoldable pub mark_owner_draining : ℕ → ℕ → (BridgeDb → BridgeDb) → BridgeDb → BridgeDb
unfolding read_active commit_changes
mark_owner_draining now instance meanwhile db =
    commit_changes (read_active now instance db) (meanwhile db)

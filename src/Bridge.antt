-- ===== src/Bridge.antt =====
-- The leases of app/modules/proxy/durable_bridge_repository.py: which instance owns a bridged
-- session.
-- Sessions are a table by their id, with the unique index on (kind, hash, scope) as a table from a
-- key to an id; an alias's key stands for its (kind, hash, scope). Ids, keys, instances, accounts,
-- models and states of turns are numbers, times are milliseconds. The row lock of PostgreSQL makes
-- a claim one step; the retry of a lost INSERT finds the winner's row.
pub mod Writes
pub mod Moves
pub mod Fencing
pub mod Takeover
pub mod Aliases
mod Tests
use mathlib.Core.Option
use codex_lb_mod.Base.{
  Bool, List, Option, Table, [], false, if◌then◌else◌, is_some, leb, max, none, not, or_default,
  or_else, put, select, some, true, ℕ, ◌&&◌, ◌+◌, ◌==◌, ◌||◌, ◌∷◌,
}

pub data SessionState : Type 0 where
  active draining closed : SessionState

pub record Session : Type 0 where
  pub owner_instance_id : Option ℕ
  pub owner_epoch : ℕ
  pub lease_expires_at : Option ℕ
  pub state : SessionState
  pub account_id : Option ℕ
  pub model : Option ℕ
  pub service_tier : Option ℕ
  pub latest_turn_state : Option ℕ
  pub latest_response_id : Option ℕ
  pub latest_input_item_count : Option ℕ
  pub latest_input_full_fingerprint : Option ℕ
  pub last_seen_at : ℕ
  pub closed_at : Option ℕ

pub record Alias : Type 0 where
  pub alias_session : ℕ
  pub alias_key : ℕ

pub record BridgeDb : Type 0 where
  pub ids : Table ℕ
  pub sessions : Table Session
  pub aliases : List Alias

-- The arguments of `claim_session` but the key.
pub record Claim : Type 0 where
  pub instance_id : ℕ
  pub lease_ttl : ℕ
  pub claim_account : Option ℕ
  pub claim_model : Option ℕ
  pub claim_tier : Option ℕ
  pub claim_turn : Option ℕ
  pub claim_response : Option ℕ
  pub allow_takeover : Bool

abbrev pub same_state : SessionState → SessionState → Bool
same_state SessionState.active SessionState.active = true
same_state SessionState.draining SessionState.draining = true
same_state SessionState.closed SessionState.closed = true
same_state _ _ = false

-- `a == b` on optional columns.
abbrev pub same_option : Option ℕ → Option ℕ → Bool
same_option none none = true
same_option (some a) (some b) = a == b
same_option _ _ = false

-- now + timedelta(seconds=max(1.0, ttl))
abbrev pub lease_end : ℕ → ℕ → ℕ
lease_end now ttl = now + max 1000 ttl

abbrev pub is_owner : Session → ℕ → Bool
is_owner s instance = same_option s.owner_instance_id (some instance)

abbrev lease_expired : ℕ → Session → Bool
lease_expired now s = elim s.lease_expires_at [ none ↦ true | some t ↦ leb t now ]

-- The early return: another instance holds a live lease, and no takeover is allowed.
unfoldable pub refuses : ℕ → Claim → Session → Bool
refuses now c s =
    not (is_owner s c.instance_id)
    && not c.allow_takeover
    && not (lease_expired now s)
    && same_state s.state SessionState.active

unfoldable pub new_session : ℕ → Claim → Session
new_session now c = record {
  owner_instance_id = some c.instance_id;
  owner_epoch = 1;
  lease_expires_at = some (lease_end now c.lease_ttl);
  state = SessionState.active;
  account_id = c.claim_account;
  model = c.claim_model;
  service_tier = c.claim_tier;
  latest_turn_state = c.claim_turn;
  latest_response_id = c.claim_response;
  latest_input_item_count = none;
  latest_input_full_fingerprint = none;
  last_seen_at = now;
  closed_at = none;
}

abbrev pub account_changed : Claim → Session → Bool
account_changed c s = not (same_option s.account_id c.claim_account)

-- Where a claim sets the turn state, and where it sets the response with the input's columns.
abbrev sets : Claim → Session → Option ℕ → Bool
sets c s latest =
    account_changed c s
    || is_some latest
    || not (is_owner s c.instance_id) && same_state s.state SessionState.closed

-- The writes of a claim to a row that is there.
unfoldable pub take_over : ℕ → Claim → Session → Session
take_over now c s = record {
  owner_instance_id = some c.instance_id;
  owner_epoch = if is_owner s c.instance_id then s.owner_epoch else s.owner_epoch + 1;
  lease_expires_at = some (lease_end now c.lease_ttl);
  state = SessionState.active;
  account_id = c.claim_account;
  model = c.claim_model;
  service_tier = c.claim_tier;
  latest_turn_state = if sets c s c.claim_turn then c.claim_turn else s.latest_turn_state;
  latest_response_id = if sets c s c.claim_response then c.claim_response else s.latest_response_id;
  latest_input_item_count = if sets c s c.claim_response then none else s.latest_input_item_count;
  latest_input_full_fingerprint =
      if sets c s c.claim_response then none else s.latest_input_full_fingerprint;
  last_seen_at = now;
  closed_at = none;
}

-- `_clear_aliases_for_session`
unfoldable pub clear_aliases_for_session : ℕ → List Alias → List Alias
clear_aliases_for_session session_id = select (λ a. not (a.alias_session == session_id))

unfoldable pub claim_found : ℕ → Claim → ℕ → Session → BridgeDb → BridgeDb × Session
unfolding take_over refuses clear_aliases_for_session
claim_found now c id s db =
    let taken = take_over now c s in
    if refuses now c s then (db, s) else (
      record db {
        sessions = put db.sessions id taken;
        aliases =
            if account_changed c s then clear_aliases_for_session id db.aliases else db.aliases;
      },
      taken,
    )

-- `claim_session`; the id of a new row is an argument. A key whose row is missing is a new key.
unfoldable pub claim_session : ℕ → Claim → ℕ → ℕ → BridgeDb → BridgeDb × Session
unfolding claim_found new_session
claim_session now c new_id key db =
    let created = new_session now c in
    let insert : BridgeDb × Session = (
      record db { ids = put db.ids key new_id; sessions = put db.sessions new_id created },
      created,
    ) in
    elim (db.ids key) [
      | none ↦ insert
      | some id ↦ elim (db.sessions id) [ none ↦ insert | some s ↦ claim_found now c id s db ]
    ]

-- The row of a key, which `get_session` reads.
abbrev pub get_session : ℕ → BridgeDb → Option Session
get_session key db = elim (db.ids key) [ none ↦ none | some id ↦ db.sessions id ]

unfoldable pub set_alias : ℕ → ℕ → List Alias → List Alias
set_alias session_id key [] = record { alias_session = session_id; alias_key = key } ∷ []
set_alias session_id key (a ∷ rest) =
    let set_rest = set_alias session_id key rest in
    if a.alias_key == key then record a { alias_session = session_id } ∷ rest else a ∷ set_rest

-- `upsert_alias`: INSERT … ON CONFLICT (alias_kind, alias_hash, api_key_scope) DO UPDATE
unfoldable pub upsert_alias : ℕ → ℕ → BridgeDb → BridgeDb
unfolding set_alias
upsert_alias session_id key db = record db { aliases = set_alias session_id key db.aliases }

unfoldable pub find_alias : ℕ → List Alias → Option ℕ
find_alias key [] = none
find_alias key (a ∷ rest) = if a.alias_key == key then some a.alias_session else find_alias key rest

-- `resolve_alias`
unfoldable pub resolve_alias : ℕ → BridgeDb → Option Session
unfolding find_alias
resolve_alias key db = elim (find_alias key db.aliases) [ none ↦ none | some id ↦ db.sessions id ]

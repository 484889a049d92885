-- ===== src/Bridge/Takeover.antt =====
-- When a claim takes a session (app/modules/proxy/durable_bridge_repository.py).
use codex_lb_mod.Base.{
  Bool-cases, Option-cases, arith, false, if◌then◌else◌, inl, inr, put, put_self, refl, some, true,
  ℕ, ◌+◌, ◌<◌, ◌∙◌, ◌≡◌, ◌≢◌, ◌≤◌, ◌⊎◌,
}
use codex_lb_mod.Bridge.{
  BridgeDb, Claim, Session, SessionState, account_changed, claim_found, claim_session,
  clear_aliases_for_session, get_session, lease_end, new_session, refuses, take_over,
}

-- A claim that is refused: another instance's lease is live.
abbrev pub IsHeldByOther : ℕ → ℕ → Session → Type 0
IsHeldByOther now instance s =
    (s.owner_instance_id ≢ some instance)
    × ((t : ℕ) × (s.lease_expires_at ≡ some t) × (now < t))
    × (s.state ≡ SessionState.active)

abbrev pub IsTaken : ℕ → Claim → Session → Type 0
IsTaken now c s =
    (s.owner_instance_id ≡ some c.instance_id)
    × ((t : ℕ) × (s.lease_expires_at ≡ some t) × (now + 1000 ≤ t))
    × (s.state ≡ SessionState.active)
    × (s.account_id ≡ c.claim_account)

take_over-IsTaken : (now : ℕ) (c : Claim) (s : Session) → IsTaken now c (take_over now c s)
unfolding take_over
take_over-IsTaken now c s = (refl, (lease_end now c.lease_ttl, refl, omega arith), refl, refl)

new_session-IsTaken : (now : ℕ) (c : Claim) → IsTaken now c (new_session now c)
unfolding new_session
new_session-IsTaken now c = (refl, (lease_end now c.lease_ttl, refl, omega arith), refl, refl)

refuses-IsHeldByOther :
    (now : ℕ) (c : Claim) (s : Session) → refuses now c s ≡ true → IsHeldByOther now c.instance_id s
unfolding refuses
refuses-IsHeldByOther now c s h = ground arith

get_session-found :
    (key id : ℕ) (s : Session) (db : BridgeDb)
    → db.ids key ≡ some id
    → db.sessions id ≡ some s
    → get_session key db ≡ some s
get_session-found key id s db at row = rw (get_session, at, row) refl

-- The three ways that a claim goes.
abbrev inserted : ℕ → Claim → ℕ → ℕ → BridgeDb → BridgeDb × Session
inserted now c new_id key db = (
  record db { ids = put db.ids key new_id; sessions = put db.sessions new_id (new_session now c) },
  new_session now c,
)

abbrev taken_over : ℕ → Claim → ℕ → Session → BridgeDb → BridgeDb × Session
taken_over now c id s db = (
  record db {
    sessions = put db.sessions id (take_over now c s);
    aliases = if account_changed c s then clear_aliases_for_session id db.aliases else db.aliases;
  },
  take_over now c s,
)

pub data ClaimStep (now : ℕ) (c : Claim) (new_id key : ℕ) (db : BridgeDb) : Type 0 where
  inserts :
      claim_session now c new_id key db ≡ inserted now c new_id key db
      → ClaimStep now c new_id key db
  keeps :
      (id : ℕ) (s : Session)
      → db.ids key ≡ some id
      → db.sessions id ≡ some s
      → refuses now c s ≡ true
      → claim_session now c new_id key db ≡ (db, s)
      → ClaimStep now c new_id key db
  takes :
      (id : ℕ) (s : Session)
      → db.ids key ≡ some id
      → db.sessions id ≡ some s
      → claim_session now c new_id key db ≡ taken_over now c id s db
      → ClaimStep now c new_id key db

pub claim_found-takes :
    (now : ℕ) (c : Claim) (id : ℕ) (s : Session) (db : BridgeDb)
    → refuses now c s ≡ false
    → claim_found now c id s db ≡ taken_over now c id s db
unfolding claim_found
claim_found-takes now c id s db h = rw (claim_found, h) refl

pub claim_session-found :
    (now : ℕ) (c : Claim) (new_id key id : ℕ) (s : Session) (db : BridgeDb)
    → db.ids key ≡ some id
    → db.sessions id ≡ some s
    → claim_session now c new_id key db ≡ claim_found now c id s db
unfolding claim_session
claim_session-found now c new_id key id s db at row = rw (claim_session, at, row) refl

pub claim_session-ClaimStep :
    (now : ℕ) (c : Claim) (new_id key : ℕ) (db : BridgeDb) → ClaimStep now c new_id key db
unfolding claim_session
claim_session-ClaimStep now c new_id key db = elim (Option-cases (db.ids key)) [
  | inl fresh ↦ inserts (rw (claim_session, fresh) refl)
  | inr (id, at) ↦ elim (Option-cases (db.sessions id)) [
    | inl missing ↦ inserts (rw (claim_session, at, missing) refl)
    | inr (s, row) ↦ elim (Bool-cases (refuses now c s)) [
      | inl refused ↦
          keeps id s at row refused
            (claim_session-found now c new_id key id s db at row ∙ rw (claim_found, refused) refl)
      | inr free ↦ takes id s at row (
          claim_session-found now c new_id key id s db at row
          ∙ claim_found-takes now c id s db free)
    ]
  ]
]

-- `claim_session` returns the row that the table then has for the key. Either the claimant owns it,
-- for at least a second and with its account, or nothing changed, and the row is another instance's,
-- active and with a lease that has not ended.
pub claim_session-cases :
    (now : ℕ) (c : Claim) (new_id key : ℕ) (db : BridgeDb)
    → (get_session key (claim_session now c new_id key db).0
        ≡ some (claim_session now c new_id key db).1)
      × (IsTaken now c (claim_session now c new_id key db).1
          ⊎ ((claim_session now c new_id key db).0 ≡ db)
            × IsHeldByOther now c.instance_id (claim_session now c new_id key db).1)
claim_session-cases now c new_id key db = elim (claim_session-ClaimStep now c new_id key db) [
  | inserts e ↦ rw e (
    get_session-found key new_id (new_session now c) (inserted now c new_id key db).0
        (put_self db.ids key new_id) (put_self db.sessions new_id (new_session now c)),
    inl (new_session-IsTaken now c),
  )
  | keeps id s at row refused e ↦
      rw e (get_session-found key id s db at row, inr (refl, refuses-IsHeldByOther now c s refused))
  | takes id s at row e ↦ rw e (
    get_session-found key id (take_over now c s) (taken_over now c id s db).0 at
        (put_self db.sessions id (take_over now c s)),
    inl (take_over-IsTaken now c s),
  )
]

-- ===== src/Bridge/Aliases.antt =====
-- The aliases of a session (app/modules/proxy/durable_bridge_repository.py).
use codex_lb_mod.Base.{
  Bool-cases, List, Option, [], arith, false, if◌then◌else◌, inl, inr, refl, some, ℕ, ◌==◌, ◌∷◌,
  ◌≡◌, ◌≢◌,
}
use codex_lb_mod.Bridge.Takeover.{claim_found-takes, claim_session-found}
use codex_lb_mod.Bridge.{
  Alias, BridgeDb, Claim, Session, claim_session, clear_aliases_for_session, find_alias, refuses,
  resolve_alias, same_option, set_alias, upsert_alias,
}

find-set_alias :
    (id key other : ℕ) (aliases : List Alias)
    → find_alias other (set_alias id key aliases)
      ≡ (if key == other then some id else find_alias other aliases)
unfolding find_alias set_alias
find-set_alias id key other [] = ground arith
find-set_alias id key other (a ∷ rest) = ground (arith, find-set_alias id key other rest)

-- After `upsert_alias` the alias resolves to the session, whatever it stood for before, and every
-- other alias resolves as before.
pub resolve-upsert :
    (id key other : ℕ) (db : BridgeDb)
    → resolve_alias other (upsert_alias id key db)
      ≡ (if key == other then db.sessions id else resolve_alias other db)
unfolding resolve_alias upsert_alias
resolve-upsert id key other db = elim (Bool-cases (key == other)) [
  | inl same ↦ rw (resolve_alias, find-set_alias id key other db.aliases, same) refl
  | inr differ ↦ rw (resolve_alias, find-set_alias id key other db.aliases, differ) refl
]

find-clear :
    (id key : ℕ) (aliases : List Alias)
    → find_alias key (clear_aliases_for_session id aliases) ≢ some id
unfolding find_alias clear_aliases_for_session
find-clear id key [] h = cc
find-clear id key (a ∷ rest) h = ground (arith, find-clear id key rest)

different : (a b : Option ℕ) → a ≢ b → same_option a b ≡ false
different a b h = ground arith

-- A claim that takes an existing session over to another account leaves no alias of that session.
account_change_clears :
    (now : ℕ) (c : Claim) (new_id key id : ℕ) (s : Session) (db : BridgeDb) (alias : ℕ)
    → db.ids key ≡ some id
    → db.sessions id ≡ some s
    → refuses now c s ≡ false
    → s.account_id ≢ c.claim_account
    → find_alias alias (claim_session now c new_id key db).0.aliases ≢ some id
account_change_clears now c new_id key id s db alias at row free changed h =
    find-clear id alias db.aliases (
      rw
        (
          claim_session-found now c new_id key id s db at row,
          claim_found-takes now c id s db free,
          different s.account_id c.claim_account changed,
        )
        at h)

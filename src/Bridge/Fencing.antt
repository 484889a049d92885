-- ===== src/Bridge/Fencing.antt =====
-- An owner whose epoch is over can no longer write (app/modules/proxy/durable_bridge_repository.py).
use codex_lb_mod.Base.{
  ==_iff, Bool, Bool-cases, List, Option, Option-cases, ap, arith, false, if◌then◌else◌, inl, inr,
  none, put, [], ◌∷◌, zero, suc, refl, some, some_inj, subst, sym, true, ℕ, ◌*◌, ◌<◌, ◌==◌, ◌∙◌,
  ◌≡◌, ◌≤◌,
}
use codex_lb_mod.Bridge.Takeover.{claim_session-ClaimStep, inserts, keeps, takes}
use codex_lb_mod.Bridge.{
  Alias, BridgeDb, Claim, Session, account_changed, claim_session, clear_aliases_for_session,
  take_over, upsert_alias,
}
use codex_lb_mod.Bridge.Writes.{
  Change, PendingWrite, Renewal, changed, commit_changes, holds, read_active, read_held, releases,
  renews, write_row,
}
use codex_lb_mod.Bridge.Moves.{
  Moves, Moves-refl, Moves-trans, rank, take_over-Moves, write_row-Moves,
}

-- The operations on sessions, those that write late in two parts: the first, and the commit of one
-- of the writes that are pending.
pub data Operation : Type 0 where
  claim : Claim → ℕ → ℕ → Operation
  renew : ℕ → ℕ → ℕ → Renewal → Operation
  release : ℕ → ℕ → ℕ → Bool → Operation
  drain : ℕ → Operation
  commit : ℕ → Operation
  alias : ℕ → ℕ → Operation

-- The database with the writes of the calls that are under way.
pub record Bridges : Type 0 where
  pub db : BridgeDb
  pub pending : List PendingWrite

abbrev pub begin_write : Option PendingWrite → Bridges → Bridges
begin_write none w = w
begin_write (some p) w = record w { pending = p ∷ w.pending }

unfoldable pub commit_at : ℕ → List PendingWrite → BridgeDb → Bridges
unfolding commit_changes
commit_at k [] db = record { db = db; pending = [] }
commit_at zero (p ∷ rest) db = record { db = commit_changes p db; pending = rest }
commit_at (suc k) (p ∷ rest) db =
    let after = commit_at k rest db in record after { pending = p ∷ after.pending }

unfoldable pub operate : ℕ → Operation → Bridges → Bridges
unfolding commit_at
operate now (claim c new_id key) w = record w { db = (claim_session now c new_id key w.db).0 }
operate now (renew id instance epoch r) w =
    begin_write (read_held id instance epoch (renews now r) w.db) w
operate now (release id instance epoch draining) w =
    begin_write (read_held id instance epoch (releases now draining) w.db) w
operate now (drain instance) w = begin_write (some (read_active now instance w.db)) w
operate now (commit k) w = commit_at k w.pending w.db
operate now (alias id key) w = record w { db = upsert_alias id key w.db }

-- A new row gets an id that no row has.
abbrev pub IsFresh : Operation → BridgeDb → Type 0
IsFresh (claim c new_id key) db = db.sessions new_id ≡ none
IsFresh _ db = Unit {0}

-- A row of a table that is there stays there, and moves.
abbrev KeepsRow : BridgeDb → BridgeDb → ℕ → Session → Type 0
KeepsRow db db' id s = (t : Session) × (db'.sessions id ≡ some t) × Moves s t

put-KeepsRow :
    (db : BridgeDb) (other id : ℕ) (f : Session → Session) (r s : Session) (aliases : List Alias)
    → ((t : Session) → Moves t (f t))
    → db.sessions other ≡ some r
    → db.sessions id ≡ some s
    → KeepsRow db (record db { sessions = put db.sessions other (f r); aliases = aliases }) id s
put-KeepsRow db other id f r s aliases law at row = elim (Bool-cases (other == id)) [
  | inr differ ↦ rw (differ, row) (s, refl, Moves-refl s)
  | inl same ↦ rw same (
    f r,
    refl,
    subst (λ t. Moves t (f r)) (some_inj (sym at ∙ ap db.sessions ((==_iff other id).0 same) ∙ row))
        (law r),
  )
]

commit-KeepsRow :
    (p : PendingWrite) (db : BridgeDb) (id : ℕ) (s : Session)
    → db.sessions id ≡ some s
    → KeepsRow db (commit_changes p db) id s
unfolding commit_changes
commit-KeepsRow p db id s row = elim (Option-cases (p.reads id)) [
  | inl unread ↦ rw unread (s, row, Moves-refl s)
  | inr (old, read) ↦
      rw (read, row) (write_row old (changed p.change old) s, refl, write_row-Moves p.change old s)
]

commit_at-KeepsRow :
    (k : ℕ) (pending : List PendingWrite) (db : BridgeDb) (id : ℕ) (s : Session)
    → db.sessions id ≡ some s
    → KeepsRow db (commit_at k pending db).db id s
unfolding commit_at
commit_at-KeepsRow k [] db id s row = (s, row, Moves-refl s)
commit_at-KeepsRow zero (p ∷ rest) db id s row = commit-KeepsRow p db id s row
commit_at-KeepsRow (suc k) (p ∷ rest) db id s row = commit_at-KeepsRow k rest db id s row

begin_write-db : (o : Option PendingWrite) (w : Bridges) → (begin_write o w).db ≡ w.db
begin_write-db none w = refl
begin_write-db (some p) w = refl

begin-KeepsRow :
    (o : Option PendingWrite) (w : Bridges) (id : ℕ) (s : Session)
    → w.db.sessions id ≡ some s
    → KeepsRow w.db (begin_write o w).db id s
begin-KeepsRow o w id s row = rw (begin_write-db o w) (s, row, Moves-refl s)

claim-KeepsRow :
    (now : ℕ) (c : Claim) (new_id key : ℕ) (db : BridgeDb) (id : ℕ) (s : Session)
    → db.sessions new_id ≡ none
    → db.sessions id ≡ some s
    → KeepsRow db (claim_session now c new_id key db).0 id s
claim-KeepsRow now c new_id key db id s fresh row =
    elim (claim_session-ClaimStep now c new_id key db) [
      | inserts e ↦ elim (Bool-cases (new_id == id)) [
        | inr differ ↦ rw (e, differ) (s, row, Moves-refl s)
        | inl same ↦ absurd (cc (fresh, row, (==_iff new_id id).0 same))
      ]
      | keeps found r at here refused e ↦ rw e (s, row, Moves-refl s)
      | takes found r at here e ↦ rw e (
          put-KeepsRow db found id (take_over now c) r s
            (if account_changed c r then clear_aliases_for_session found db.aliases else db.aliases)
            (take_over-Moves now c) here row)
    ]

operate-KeepsRow :
    (now : ℕ) (op : Operation) (w : Bridges) (id : ℕ) (s : Session)
    → IsFresh op w.db
    → w.db.sessions id ≡ some s
    → KeepsRow w.db (operate now op w).db id s
unfolding operate upsert_alias
operate-KeepsRow now (claim c new_id key) w id s fresh row =
    claim-KeepsRow now c new_id key w.db id s fresh row
operate-KeepsRow now (renew other i epoch r) w id s fresh row = begin-KeepsRow _ w id s row
operate-KeepsRow now (release other i epoch draining) w id s fresh row = begin-KeepsRow _ w id s row
operate-KeepsRow now (drain i) w id s fresh row = (s, row, Moves-refl s)
operate-KeepsRow now (commit k) w id s fresh row = commit_at-KeepsRow k w.pending w.db id s row
operate-KeepsRow now (alias other key) w id s fresh row = (s, row, Moves-refl s)

-- Runs of operations.
pub data Run : Bridges → Bridges → Type 0 where
  stop : (w : Bridges) → Run w w
  next :
      (now : ℕ) (op : Operation) (w w' : Bridges)
      → IsFresh op w.db
      → Run (operate now op w) w'
      → Run w w'

Run-KeepsRow :
    (w w' : Bridges) (id : ℕ) (s : Session)
    → Run w w'
    → w.db.sessions id ≡ some s
    → KeepsRow w.db w'.db id s
Run-KeepsRow w w' id s (stop _) row = (s, row, Moves-refl s)
Run-KeepsRow w w' id s (next now op _ _ fresh run) row =
    let (t, at, moved) = operate-KeepsRow now op w id s fresh row in
    let (u, here, again) = Run-KeepsRow (operate now op w) w' id t run at in
    (u, here, Moves-trans s t u moved again)

holds-rank : (s : Session) (i epoch : ℕ) → holds s i epoch ≡ true → rank s ≡ 2 * epoch
holds-rank s i epoch h = ground arith

holds-Moves :
    (s t : Session) (i epoch : ℕ)
    → Moves s t
    → holds s i epoch ≡ true
    → holds t i epoch ≡ false
    → rank s < rank t
holds-Moves s t i epoch (inl (o, e)) h lost = absurd (cc (h, lost, o, e))
holds-Moves s t i epoch (inr less) h lost = less

Moves-rank : (s t : Session) → Moves s t → rank s ≤ rank t
Moves-rank s t h = ground arith

holds-over :
    (s t u : Session) (i epoch : ℕ)
    → holds s i epoch ≡ true
    → rank s < rank t
    → rank t ≤ rank u
    → holds u i epoch ≡ false
holds-over s t u i epoch held less more = elim (Bool-cases (holds u i epoch)) [
  | inr over ↦ over
  | inl back ↦
      let start = holds-rank s i epoch held in
      let finish = holds-rank u i epoch back in absurd (omega arith)
]

refused :
    (id instance epoch : ℕ) (c : Change) (w : Bridges) (u : Session)
    → w.db.sessions id ≡ some u
    → holds u instance epoch ≡ false
    → begin_write (read_held id instance epoch c w.db) w ≡ w
unfolding read_held
refused id instance epoch c w u row over = rw (row, over, read_held) refl

-- An owner that lost a session stays fenced off, also where renewals, releases and drainings commit
-- late, on rows that others have written since they were read: if an instance held the row at an
-- epoch, and did not at some later point of the run, then it holds the row at that epoch at no
-- point after that, and a renewal or a release with that epoch that begins there, also when the
-- instance owns the session again, changes nothing and leaves nothing to be written. In the run a
-- new row gets an id that no row has.
pub fenced :
    (a b c : Bridges) (id instance epoch : ℕ) (s t : Session) (now : ℕ) (r : Renewal)
    (draining : Bool)
    → Run a b
    → Run b c
    → a.db.sessions id ≡ some s
    → holds s instance epoch ≡ true
    → b.db.sessions id ≡ some t
    → holds t instance epoch ≡ false
    → ((u : Session) × (c.db.sessions id ≡ some u) × (holds u instance epoch ≡ false))
      × (operate now (renew id instance epoch r) c ≡ c)
      × (operate now (release id instance epoch draining) c ≡ c)
unfolding operate
fenced a b c id instance epoch s t now r draining first second row held later lost =
    let (t', at, moved) = Run-KeepsRow a b id s first row in
    let (u, here, again) = Run-KeepsRow b c id t second later in
    let less =
      holds-Moves s t instance epoch (subst (Moves s) (some_inj (sym at ∙ later)) moved) held
        lost in
    let over = holds-over s t u instance epoch held less (Moves-rank t u again) in
    (
      (u, here, over),
      refused id instance epoch (renews now r) c u here over,
      refused id instance epoch (releases now draining) c u here over,
    )

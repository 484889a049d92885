-- ===== src/LoadBalancer/Mappings.antt =====
-- The mappings from a sticky key to an account: `StickySession` of app/db/models.py and
-- `StickySessionsRepository` of app/modules/proxy/sticky_repository.py. The key 0 is the empty one.
pub mod Entries
use codex_lb_mod.Base.{
  Bool, List, Option, [], exists, false, if◌then◌else◌, length, ltb, none, not, select, some, true,
  ℕ, ◌&&◌, ◌+◌, ◌==◌, ◌∷◌,
}
use codex_lb_mod.Balancer.State.{seconds}

pub data StickySessionKind : Type 0 where
  codex_session sticky_thread prompt_cache : StickySessionKind

abbrev pub same_kind : StickySessionKind → StickySessionKind → Bool
same_kind codex_session codex_session = true
same_kind sticky_thread sticky_thread = true
same_kind prompt_cache prompt_cache = true
same_kind _ _ = false

pub record StickySession : Type 0 where
  pub sticky_key : ℕ
  pub sticky_kind : StickySessionKind
  pub mapped_account : ℕ
  pub mapped_at : ℕ
  pub mapping_updated_at : ℕ

abbrev pub is_entry : ℕ → StickySessionKind → StickySession → Bool
is_entry key kind row = (row.sticky_key == key) && same_kind row.sticky_kind kind

abbrev pub first_entry : ℕ → StickySessionKind → List StickySession → Option StickySession
first_entry key kind [] = none
first_entry key kind (row ∷ rows) =
    let rest = first_entry key kind rows in if is_entry key kind row then some row else rest

unfoldable pub get_entry : ℕ → StickySessionKind → List StickySession → Option StickySession
get_entry key kind rows = if key == 0 then none else first_entry key kind rows

-- The rows, and whether one was there.
unfoldable pub delete_entry : ℕ → StickySessionKind → List StickySession → List StickySession × Bool
delete_entry key kind rows =
    if key == 0
    then (rows, false)
    else (select (λ r. not (is_entry key kind r)) rows, exists (is_entry key kind) rows)

abbrev pub is_old : ℕ → Option ℕ → StickySession → Bool
is_old now none row = false
is_old now (some max_age) row = ltb (row.mapping_updated_at + seconds max_age) now

-- The rows, and the account; a mapping that is too old is deleted.
unfoldable pub get_account_id :
    ℕ → ℕ → StickySessionKind → Option ℕ → List StickySession → List StickySession × Option ℕ
get_account_id now key kind max_age rows = elim (get_entry key kind rows) [
  | none ↦ (rows, none)
  | some row ↦
      if is_old now max_age row
      then ((delete_entry key kind rows).0, none)
      else (rows, some row.mapped_account)
]

abbrev pub remap : ℕ → ℕ → StickySession → StickySession
remap now account row = record row { mapped_account = account; mapping_updated_at = now }

abbrev pub new_entry : ℕ → ℕ → StickySessionKind → ℕ → StickySession
new_entry now key kind account = record {
  sticky_key = key;
  sticky_kind = kind;
  mapped_account = account;
  mapped_at = now;
  mapping_updated_at = now;
}

-- INSERT … ON CONFLICT (key, kind) DO UPDATE
unfoldable pub upsert_entry :
    ℕ → ℕ → StickySessionKind → ℕ → List StickySession → List StickySession
upsert_entry now key kind account [] = new_entry now key kind account ∷ []
upsert_entry now key kind account (row ∷ rows) =
    let rest = upsert_entry now key kind account rows in
    if is_entry key kind row then remap now account row ∷ rows else row ∷ rest

abbrev of_kind : Option StickySessionKind → StickySession → Bool
of_kind none row = true
of_kind (some kind) row = same_kind row.sticky_kind kind

abbrev pub is_purged : ℕ → Option StickySessionKind → StickySession → Bool
is_purged cutoff kind row = ltb row.mapping_updated_at cutoff && of_kind kind row

-- The rows that stay, and how many were deleted.
unfoldable pub purge_before :
    ℕ → Option StickySessionKind → List StickySession → List StickySession × ℕ
purge_before cutoff kind rows =
    (select (λ r. not (is_purged cutoff kind r)) rows, length (select (is_purged cutoff kind) rows))

unfoldable pub purge_prompt_cache_before : ℕ → List StickySession → List StickySession × ℕ
purge_prompt_cache_before cutoff = purge_before cutoff (some prompt_cache)

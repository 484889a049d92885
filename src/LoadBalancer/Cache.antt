-- ===== src/LoadBalancer/Cache.antt =====
-- `AccountSelectionCache` of app/modules/proxy/account_cache.py: what a selection loaded, kept for a
-- while, unless the accounts changed since the load began. A key is a number.
pub mod Generations
use codex_lb_mod.Base.{
  Bool, Option, Table, false, if◌then◌else◌, leb, none, not, put, some, ℕ, ◌+◌, ◌==◌,
}

pub record CachedInputs (A : Type 0) : Type 0 where
  pub data_of : A
  pub expires_at : ℕ

pub record AccountSelectionCache (A : Type 0) : Type 0 where
  pub ttl : ℕ
  pub cached : Table (CachedInputs A)
  pub generation : ℕ

abbrev other_generation : Option ℕ → ℕ → Bool
other_generation none current = false
other_generation (some g) current = not (g == current)

module _ {A : Type 0} where
  abbrev pub new_cache : ℕ → AccountSelectionCache A
  new_cache ttl = record { ttl = ttl; cached = λ key. none; generation = 0 }

  abbrev unexpired : ℕ → CachedInputs A → Option A
  unexpired now entry = if leb entry.expires_at now then none else some entry.data_of

  unfoldable pub get_cached : ℕ → ℕ → AccountSelectionCache A → Option A
  get_cached now key c =
      let found = elim (c.cached key) as (λ _. Option A) [
        | none ↦ none
        | some entry ↦ unexpired now entry
      ] in
      if c.ttl == 0 then none else found

  unfoldable pub set_cached :
      ℕ → ℕ → A → Option ℕ → AccountSelectionCache A → AccountSelectionCache A
  set_cached now key inputs loaded c =
      if other_generation loaded c.generation then c else record c {
        cached = put c.cached key (record { data_of = inputs; expires_at = now + c.ttl });
      }

  unfoldable pub invalidate : AccountSelectionCache A → AccountSelectionCache A
  invalidate c = record c { generation = c.generation + 1; cached = λ key. none }

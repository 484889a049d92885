-- ===== src/LoadBalancer/Cache/Generations.antt =====
-- A load that began before an invalidation is never served after it
-- (app/modules/proxy/account_cache.py).
use codex_lb_mod.Base.{All, List, [], arith, false, none, refl, some, ℕ, ◌<◌, ◌==◌, ◌∷◌, ◌≡◌, ◌≤◌}
use codex_lb_mod.LoadBalancer.Cache.{AccountSelectionCache, get_cached, invalidate, set_cached}

-- What other tasks do to the cache: one ends a load and stores it under the generation that it
-- read when the load began, or one invalidates.
pub data CacheStep (A : Type 0) : Type 0 where
  stores : ℕ → ℕ → A → ℕ → CacheStep A
  invalidates : CacheStep A

module _ {A : Type 0} where
  abbrev pub cache_step : CacheStep A → AccountSelectionCache A → AccountSelectionCache A
  cache_step (stores now key inputs loaded) c = set_cached now key inputs (some loaded) c
  cache_step invalidates c = invalidate c

  abbrev pub run_cache : List (CacheStep A) → AccountSelectionCache A → AccountSelectionCache A
  run_cache [] c = c
  run_cache (e ∷ es) c = run_cache es (cache_step e c)

  -- The load of a step began under at most the given generation.
  abbrev pub BeganBy : ℕ → CacheStep A → Type 0
  BeganBy g (stores now key inputs loaded) = loaded ≤ g
  BeganBy g invalidates = Unit

  -- Nothing is stored, and the generation is beyond the given one.
  abbrev IsCleared : ℕ → AccountSelectionCache A → Type 0
  IsCleared g c = (g < c.generation) × ((key : ℕ) → c.cached key ≡ none)

  cache_step-IsCleared :
      (g : ℕ) (e : CacheStep A) (c : AccountSelectionCache A)
      → BeganBy g e
      → IsCleared g c
      → IsCleared g (cache_step e c)
  unfolding set_cached invalidate
  cache_step-IsCleared g (stores now key inputs loaded) c began (beyond, empty) =
      rw (differs) (beyond, empty)
    where
      differs : (loaded == c.generation) ≡ false
      differs = ground arith
  cache_step-IsCleared g invalidates c began (beyond, empty) = (omega arith, λ key. refl)

  run_cache-IsCleared :
      (g : ℕ) (es : List (CacheStep A)) (c : AccountSelectionCache A)
      → All (BeganBy g) es
      → IsCleared g c
      → IsCleared g (run_cache es c)
  run_cache-IsCleared g [] c began cleared = cleared
  run_cache-IsCleared g (e ∷ es) c (began, rest) cleared =
      run_cache-IsCleared g es (cache_step e c) rest (cache_step-IsCleared g e c began cleared)

  -- After an invalidation, and whatever invalidations and stores follow it whose loads began
  -- before it, the cache answers nothing, at any time and for any key.
  pub invalidate-get_cached :
      (c : AccountSelectionCache A) (es : List (CacheStep A)) (now key : ℕ)
      → All (BeganBy c.generation) es
      → get_cached now key (run_cache es (invalidate c)) ≡ none
  unfolding get_cached invalidate
  invalidate-get_cached c es now key began =
      let (beyond, empty) =
        run_cache-IsCleared c.generation es (invalidate c) began (omega arith, λ k. refl) in
      rw (empty key) (ground arith)

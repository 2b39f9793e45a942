-- ===== src/QueryCache/Interleaved.antt =====
-- querycache.go and vf.go: lookups of many goroutines, interleaved with registrations of virtual
-- functions. A lookup that misses loads the generation, computes its entry against the registry of
-- that moment, and inserts it under the mutex; a registration swaps the registry and then clears
-- the cache. Registries are numbered in the order of the swaps.
pub mod Fresh
use mathlib.Core.Path.{ap, subst}
use sequel.Base.{
  Bool, ℕ, suc, ◌+◌, ◌%◌, ◌^◌, ◌≤◌, ◌<◌, ◌≡◌, refl, sym, true, false, List, [], ◌∷◌, ◌++◌, some,
  none, arith, ◌==◌, Bool-cases, inl, inr,
}
use sequel.QueryCache.Invariant.{IsValid, insert-IsValid, new_query_cache-IsValid, same_entries}
use sequel.QueryCache.{
  Eq, Prepared, Cache, new_query_cache, load, insert, clear, allocate, write_flag,
}

-- A lookup under way: `generation` is loaded, and then the entry is computed.
pub data Flight (K V : Type 0) : Type 0 where
  started : K → ℕ → Flight K V
  computed : Prepared K V → ℕ → Flight K V

-- `version` is the number of the current registry; `cleared` is what it was at the last clear.
pub record World (K V : Type 0) : Type 0 where
  pub version : ℕ
  pub cleared : ℕ
  pub cache : Cache K V
  pub flights : List (Flight K V)

module _ {K V : Type 0} ⦃e : Eq K⦄ (prepare : ℕ → K → V) where
  -- One atomic action of some goroutine. The generation is taken not to wrap around.
  pub data Step : World K V → World K V → Type 0 where
    hit :
        (w : World K V) (k : K) (p : Prepared K V)
        → load k w.cache.entries ≡ some p
        → Step w
            (record w { cache = record w.cache { flags = write_flag w.cache.flags p.id true } })
    miss :
        (w : World K V) (k : K)
        → load k w.cache.entries ≡ none
        → Step w (record w { flights = started k w.cache.generation ∷ w.flights })
    compute :
        (w : World K V) (before after : List (Flight K V)) (k : K) (g : ℕ)
        → w.flights ≡ before ++ (started k g ∷ after)
        → Step w (record w {
          cache = (allocate (prepare w.version) k w.cache).0;
          flights = before ++ (computed (allocate (prepare w.version) k w.cache).1 g ∷ after);
        })
    finish :
        (w : World K V) (before after : List (Flight K V)) (marks : ℕ → ℕ → Bool)
        (pq r : Prepared K V) (g : ℕ) (t : Cache K V)
        → w.flights ≡ before ++ (computed pq g ∷ after)
        → insert marks w.cache pq g ≡ some (t, r)
        → Step w (record w { cache = t; flights = before ++ after })
    swap : (w : World K V) → Step w (record w { version = w.version + 1 })
    clean :
        (w : World K V)
        → w.cache.generation + 1 < 2 ^ 64
        → Step w (record w { cleared = w.version; cache = clear w.cache })

  pub data Reach (w : World K V) : World K V → Type 0 where
    here : Reach w w
    next : {u v : World K V} → Reach w u → Step u v → Reach w v

-- ===== src/QueryCache/Interleaved/Fresh.antt =====
-- querycache.go: an entry that the cache holds is no older than the last clear.
use mathlib.Core.Path.{ap, subst}
use sequel.Base.{
  Bool, ℕ, suc, ◌+◌, ◌%◌, ◌^◌, ◌≤◌, ◌<◌, ◌≡◌, refl, sym, false, List, [], ◌∷◌, ◌++◌, some, arith,
  ◌==◌, Bool-cases, inl, inr,
}
use sequel.QueryCache.Invariant.{IsValid, insert-IsValid, new_query_cache-IsValid, same_entries}
use sequel.QueryCache.{Eq, Prepared, Cache, new_query_cache, load, insert, clear, allocate}
use sequel.QueryCache.Interleaved.{
  Flight, started, computed, World, Step, hit, miss, compute, finish, swap, clean, Reach, here,
  next,
}

module _ {K V : Type 0} ⦃e : Eq K⦄ (prepare : ℕ → K → V) where
  -- The entry is what some registry no older than number `n` makes of its key.
  abbrev pub NoOlder : ℕ → Prepared K V → Type 0
  NoOlder n p = (m : ℕ) × (n ≤ m) × (p.value ≡ prepare m p.key)

  abbrev InFlight : ℕ → ℕ → Flight K V → Type 0
  InFlight generation cleared (started k g) = g ≤ generation
  InFlight generation cleared (computed p g) =
      (g ≤ generation) × (g ≡ generation → NoOlder cleared p)

  abbrev AllInFlight : ℕ → ℕ → List (Flight K V) → Type 0
  AllInFlight generation cleared [] = Unit {0}
  AllInFlight generation cleared (f ∷ fs) =
      InFlight generation cleared f × AllInFlight generation cleared fs

  AllInFlight-replace :
      (g c : ℕ) (before : List (Flight K V)) (f : Flight K V) (after new : List (Flight K V))
      → (AllInFlight g c after → InFlight g c f → AllInFlight g c new)
      → AllInFlight g c (before ++ (f ∷ after))
      → AllInFlight g c (before ++ new)
  AllInFlight-replace g c [] f after new put h = put h.1 h.0
  AllInFlight-replace g c (x ∷ before) f after new put h =
      (h.0, AllInFlight-replace g c before f after new put h.1)

  -- After a clear no generation that was loaded before is current.
  AllInFlight-clear :
      (g c n : ℕ) (fs : List (Flight K V)) → AllInFlight g c fs → AllInFlight (suc g) n fs
  AllInFlight-clear g c n [] h = tt
  AllInFlight-clear g c n (started k i ∷ fs) h = (omega arith, AllInFlight-clear g c n fs h.1)
  AllInFlight-clear g c n (computed p i ∷ fs) h =
      ((omega (arith, h.0.0), λ now. absurd (omega (arith, h.0.0))), AllInFlight-clear g c n fs h.1)

  pub record IsFresh (w : World K V) : Type 0 where
    pub valid : IsValid (NoOlder w.cleared) w.cache
    pub order : w.cleared ≤ w.version
    pub flying : AllInFlight w.cache.generation w.cleared w.flights

  -- The lookup that is about to insert, as the invariant knows it.
  AllInFlight-at :
      (g c : ℕ) (before : List (Flight K V)) (f : Flight K V) (after : List (Flight K V))
      → AllInFlight g c (before ++ (f ∷ after))
      → InFlight g c f
  AllInFlight-at g c [] f after h = h.0
  AllInFlight-at g c (x ∷ before) f after h = AllInFlight-at g c before f after h.1

  finish-IsFresh :
      (w : World K V) (before after : List (Flight K V)) (marks : ℕ → ℕ → Bool)
      (pq r : Prepared K V) (g : ℕ) (t : Cache K V)
      → w.flights ≡ before ++ (computed pq g ∷ after)
      → insert marks w.cache pq g ≡ some (t, r)
      → IsFresh w
      → IsFresh (record w { cache = t; flights = before ++ after })
  unfolding insert
  finish-IsFresh w before after marks pq r g t h i f = elim (Bool-cases (w.cache.generation == g)) [
    | inl current ↦
        let mine =
          AllInFlight-at w.cache.generation w.cleared before (computed pq g) after
            (rw h at f.flying) in
        let (u, s, done, valid, size, same, _, _, _) =
          insert-IsValid (NoOlder w.cleared) marks w.cache pq g f.valid (mine.1 (ground arith)) in
        let eq : u ≡ t = cc in
        record {
          valid = subst (IsValid (NoOlder w.cleared)) eq valid;
          order = f.order;
          flying =
              rw (sym (ap Cache.generation eq), same)
                (AllInFlight-replace w.cache.generation w.cleared before (computed pq g) after after
                  (λ rest old. rest) (rw h at f.flying));
        }
    | inr stale ↦
        let eq : w.cache ≡ t = not_inserted stale in
        record {
          valid = subst (IsValid (NoOlder w.cleared)) eq f.valid;
          order = f.order;
          flying = rw (sym (ap Cache.generation eq)) (
              AllInFlight-replace w.cache.generation w.cleared before (computed pq g) after after
                (λ rest old. rest) (rw h at f.flying));
        }
  ]
    where
      not_inserted : (w.cache.generation == g) ≡ false → w.cache ≡ t
      not_inserted stale = let j : some (w.cache, pq) ≡ some (t, r) = rw (stale, insert) at i in cc

  Step-IsFresh : {w u : World K V} → Step prepare w u → IsFresh w → IsFresh u
  unfolding allocate clear load
  Step-IsFresh (hit w k p h) f = record {
    valid = same_entries (NoOlder w.cleared) w.cache f.valid;
    order = f.order;
    flying = f.flying;
  }
  Step-IsFresh (miss w k h) f = record {
    valid = f.valid;
    order = f.order;
    flying = (omega arith, f.flying);
  }
  Step-IsFresh (compute w before after k g h) f = record {
    valid = same_entries (NoOlder w.cleared) w.cache f.valid;
    order = f.order;
    flying =
        AllInFlight-replace w.cache.generation w.cleared before (started k g) after _
          (λ rest old. ((old, λ _. (w.version, f.order, refl)), rest)) (rw h at f.flying);
  }
  Step-IsFresh (finish w before after marks pq r g t h i) f =
      finish-IsFresh w before after marks pq r g t h i f
  Step-IsFresh (swap w) f = record {
    valid = f.valid;
    order = omega (arith, f.order);
    flying = f.flying;
  }
  Step-IsFresh (clean w small) f = record {
    valid = cleared_valid;
    order = omega arith;
    flying =
        rw next_generation
          (AllInFlight-clear w.cache.generation w.cleared w.version w.flights f.flying);
  }
    where
      next_generation : (w.cache.generation + 1) % 2 ^ 64 ≡ suc w.cache.generation
      next_generation = omega (arith, small)

      cleared_valid : IsValid (NoOlder w.version) (clear w.cache)
      cleared_valid = record {
        positive = f.valid.positive;
        bounded = omega arith;
        hand_in = f.valid.positive;
        distinct = tt;
        agree = λ k. refl;
        held = λ k p h. cc;
      }

  Reach-IsFresh : {w u : World K V} → Reach prepare w u → IsFresh w → IsFresh u
  Reach-IsFresh here f = f
  Reach-IsFresh (next r s) f = Step-IsFresh s (Reach-IsFresh r f)

  Step-cleared :
      {w u : World K V} → Step prepare w u → w.cleared ≤ w.version → w.cleared ≤ u.cleared
  Step-cleared (clean w small) h = h
  Step-cleared (hit w k p e) h = omega arith
  Step-cleared (miss w k e) h = omega arith
  Step-cleared (compute w before after k g e) h = omega arith
  Step-cleared (finish w before after marks pq r g t e i) h = omega arith
  Step-cleared (swap w) h = omega arith

  Reach-cleared : {w u : World K V} → Reach prepare w u → IsFresh w → w.cleared ≤ u.cleared
  Reach-cleared here f = omega arith
  Reach-cleared (next r s) f =
      omega (arith, Reach-cleared r f, Step-cleared s (Reach-IsFresh r f).order)

  -- The program starts with registry 0, an empty cache and no lookup under way.
  abbrev pub initial : ℕ → World K V
  initial n = record { version = 0; cleared = 0; cache = new_query_cache n; flights = [] }

  pub initial-IsFresh : (n : ℕ) → 0 < n → IsFresh (initial n)
  unfolding new_query_cache
  initial-IsFresh n h = record {
    valid = new_query_cache-IsValid (NoOlder 0) n h;
    order = omega arith;
    flying = tt;
  }

  -- However the actions of the goroutines interleave, from a cache of positive capacity and while the
  -- generation does not wrap around: at any
  -- time after a registration has cleared the cache, an entry that the cache holds was computed
  -- against the registry of the moment of that clear, or a later one.
  pub clean-NoOlder :
      (n : ℕ) (w u : World K V) (k : K) (p : Prepared K V)
      → 0 < n
      → w.cache.generation + 1 < 2 ^ 64
      → Reach prepare (initial n) w
      → Reach prepare (record w { cleared = w.version; cache = clear w.cache }) u
      → load k u.cache.entries ≡ some p
      → NoOlder w.version p
  clean-NoOlder n w u k p h small before after found =
      let fresh = Step-IsFresh (clean w small) (Reach-IsFresh before (initial-IsFresh n h)) in
      let (m, newer, made) = (Reach-IsFresh after fresh).valid.held k p found in
      (m, omega (arith, newer, Reach-cleared after fresh), made)

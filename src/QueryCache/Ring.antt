-- ===== src/QueryCache/Ring.antt =====
-- querycache.go: the ring as a map from keys to entries.
use sequel.Base.{
  ℕ, zero, suc, ◌≡◌, refl, false, List, [], ◌∷◌, ◌++◌, Option, none, some, arith, if◌then◌else◌,
  get_elem?, set,
}
use sequel.QueryCache.{Eq, Prepared, load, delete, store}

module _ {K V : Type 0} ⦃e : Eq K⦄ where
  -- The first entry of the ring that has a key.
  abbrev pub find : K → List (Prepared K V) → Option (Prepared K V)
  find k [] = none
  find k (p ∷ ps) = if e.beq p.key k then some p else find k ps

  -- No two entries of the ring have one key.
  abbrev pub Distinct : List (Prepared K V) → Type 0
  Distinct [] = Unit {0}
  Distinct (p ∷ ps) = (find p.key ps ≡ none) × Distinct ps

  pub load-delete :
      (k j : K) (m : List (K × Prepared K V))
      → load j (delete k m) ≡ (if e.beq k j then none else load j m)
  unfolding load delete
  load-delete k j [] = ground arith
  load-delete k j ((i, p) ∷ m) =
      ground (arith, load-delete k j m, e.beq_iff i k, e.beq_iff i j, e.beq_iff k j)

  pub load-store :
      (k j : K) (p : Prepared K V) (m : List (K × Prepared K V))
      → load j (store k p m) ≡ (if e.beq k j then some p else load j m)
  unfolding load store
  load-store k j p m = ground (arith, load-delete k j m)

  pub find-concat :
      (k : K) (p : Prepared K V) (ps : List (Prepared K V))
      → find p.key ps ≡ none
      → find k (ps ++ (p ∷ [])) ≡ (if e.beq p.key k then some p else find k ps)
  find-concat k p [] h = refl
  find-concat k p (q ∷ qs) h =
      ground
        (arith, find-concat k p qs, e.beq_iff p.key k, e.beq_iff q.key k, e.beq_iff q.key p.key)

  pub Distinct-concat :
      (p : Prepared K V) (ps : List (Prepared K V))
      → find p.key ps ≡ none
      → Distinct ps
      → Distinct (ps ++ (p ∷ []))
  Distinct-concat p [] h d = (refl, tt)
  Distinct-concat p (q ∷ qs) h d = (
    ground (arith, find-concat q.key p qs, e.beq_iff p.key q.key, e.beq_iff q.key p.key),
    Distinct-concat p qs (ground arith) d.1,
  )

  find-none_beq :
      (k : K) (i : ℕ) (v : Prepared K V) (ps : List (Prepared K V))
      → get_elem? ps i ≡ some v
      → find k ps ≡ none
      → e.beq v.key k ≡ false
  find-none_beq k i v [] g h = cc
  find-none_beq k zero v (q ∷ qs) g h = let same : q ≡ v = cc in ground (arith, same)
  find-none_beq k (suc i) v (q ∷ qs) g h = find-none_beq k i v qs g (ground arith)

  -- Replacing an entry takes its key out of the map and puts the new key in.
  pub find-set :
      (k : K) (i : ℕ) (p v : Prepared K V) (ps : List (Prepared K V))
      → Distinct ps
      → get_elem? ps i ≡ some v
      → find p.key ps ≡ none
      → find k (set ps i p)
        ≡ (if e.beq p.key k then some p else if e.beq v.key k then none else find k ps)
  find-set k i p v [] d g h = cc
  find-set k zero p v (q ∷ qs) d g h =
      let same : q ≡ v = cc in
      let gone = d.0 in ground (arith, same, e.beq_iff q.key k, e.beq_iff v.key k)
  find-set k (suc i) p v (q ∷ qs) d g h =
      let other = find-none_beq q.key i v qs g d.0 in
      ground (
        arith,
        other,
        find-set k i p v qs d.1 g,
        e.beq_iff q.key k,
        e.beq_iff p.key k,
        e.beq_iff v.key k,
        e.beq_iff q.key p.key,
        e.beq_iff v.key q.key,
      )

  pub Distinct-set :
      (i : ℕ) (p v : Prepared K V) (ps : List (Prepared K V))
      → Distinct ps
      → get_elem? ps i ≡ some v
      → find p.key ps ≡ none
      → Distinct (set ps i p)
  Distinct-set i p v [] d g h = cc
  Distinct-set zero p v (q ∷ qs) d g h = (ground arith, d.1)
  Distinct-set (suc i) p v (q ∷ qs) d g h = (
    ground (arith, find-set q.key i p v qs, e.beq_iff p.key q.key, e.beq_iff q.key p.key),
    Distinct-set i p v qs d.1 g (ground arith),
  )

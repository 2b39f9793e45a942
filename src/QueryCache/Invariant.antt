-- ===== src/QueryCache/Invariant.antt =====
-- querycache.go: the well-formedness of the cache, which every operation keeps.
use native.Mathlib.Nat.{mod-lt}
use mathlib.Core.Path.{subst}
use sequel.Base.{
  ℕ, ◌+◌, ◌%◌, ◌≤◌, ◌<◌, ◌≡◌, ◌≢◌, refl, Bool, true, false, List, [], ◌∷◌, ◌++◌, none, some, arith,
  ltb, ◌==◌, length, length-append, length-set, get_elem?, set, Bool-cases, Option-cases,
  eq_of_some, ◌⊎◌, inl, inr,
}
use sequel.QueryCache.Ring.{
  find, Distinct, load-delete, load-store, find-concat, Distinct-concat, find-set, Distinct-set,
}
use sequel.QueryCache.Sweep.{Swept, sweep-ends}
use sequel.QueryCache.{
  Eq, Prepared, Cache, new_query_cache, load, delete, store, evict, place, insert, clear, allocate,
  lookup, write_flag,
}

module _ {K V : Type 0} ⦃e : Eq K⦄ (Q : Prepared K V → Type 0) where
  -- The map and the ring hold the same entries, one for each key, at most `capacity` of them,
  -- the hand points into the ring.
  pub record IsValid (c : Cache K V) : Type 0 where
    pub positive : 0 < c.capacity
    pub bounded : length c.ring ≤ c.capacity
    pub hand_in : c.hand < c.capacity
    pub distinct : Distinct c.ring
    pub agree : (k : K) → load k c.entries ≡ find k c.ring
    pub held : (k : K) (p : Prepared K V) → load k c.entries ≡ some p → Q p

  pub new_query_cache-IsValid : (n : ℕ) → 0 < n → IsValid (new_query_cache {K = K} {V = V} n)
  unfolding new_query_cache load
  new_query_cache-IsValid n h = record {
    positive = h;
    bounded = omega arith;
    hand_in = h;
    distinct = tt;
    agree = λ k. refl;
    held = λ k p h. cc;
  }

  pub clear-IsValid : (c : Cache K V) → IsValid c → IsValid (clear c)
  unfolding clear load
  clear-IsValid c v = record {
    positive = v.positive;
    bounded = omega arith;
    hand_in = v.positive;
    distinct = tt;
    agree = λ k. refl;
    held = λ k p h. cc;
  }

  Swept-IsValid : (c t : Cache K V) → Swept c t → IsValid c → IsValid t
  Swept-IsValid c t s v = record {
    positive = ground (arith, v.positive, s.capacity_is);
    bounded = ground (arith, v.bounded, s.capacity_is, s.ring_is);
    hand_in = ground (arith, s.hand_in, s.capacity_is);
    distinct = rw s.ring_is v.distinct;
    agree = λ k. rw (s.ring_is, s.entries_is) (v.agree k);
    held = λ k p h. v.held k p (rw s.entries_is at h);
  }

  stored_held :
      (pq : Prepared K V) (k : K) (p : Prepared K V) (m : List (K × Prepared K V))
      → Q pq
      → (load k m ≡ some p → Q p)
      → load k (store pq.key pq m) ≡ some p
      → Q p
  stored_held pq k p m ok_new old h = elim (Bool-cases (e.beq pq.key k)) [
    | inl same ↦
        let new : pq ≡ p = eq_of_some pq p (ground (arith, load-store pq.key k pq m, h, same)) in
        subst Q new ok_new
    | inr other ↦ old (ground (arith, load-store pq.key k pq m, h, other))
  ]

  abbrev evicted : Prepared K V → Cache K V → Prepared K V → Cache K V
  evicted pq t victim = record t {
    entries = delete victim.key t.entries;
    ring = set t.ring t.hand pq;
    hand = (t.hand + 1) % t.capacity;
  }

  evict-IsValid :
      (pq : Prepared K V) (t : Cache K V) (victim : Prepared K V)
      → IsValid t
      → get_elem? t.ring t.hand ≡ some victim
      → find pq.key t.ring ≡ none
      → Q pq
      → (evict pq t ≡ some (evicted pq t victim))
        × IsValid (record (evicted pq t victim) {
          entries = store pq.key pq (delete victim.key t.entries);
        })
  unfolding evict
  evict-IsValid pq t victim v at h ok_new = (
    rw (at, evict),
    record {
      positive = v.positive;
      bounded = rw (length-set t.ring t.hand pq) v.bounded;
      hand_in = mod-lt (t.hand + 1) v.positive;
      distinct = Distinct-set t.hand pq victim t.ring v.distinct at h;
      agree = λ k. ground (
        arith,
        load-store pq.key k pq (delete victim.key t.entries),
        load-delete victim.key k t.entries,
        find-set k t.hand pq victim t.ring v.distinct at h,
        v.agree k,
      );
      held = λ k p m.
          stored_held pq k p (delete victim.key t.entries) ok_new
            (λ f. v.held k p (ground (arith, load-delete victim.key k t.entries, f))) m;
    },
  )

  place-IsValid :
      (marks : ℕ → ℕ → Bool) (pq : Prepared K V) (c : Cache K V)
      → IsValid c
      → find pq.key c.ring ≡ none
      → Q pq
      → (t : Cache K V) × (place marks pq c ≡ some t)
        × IsValid (record t { entries = store pq.key pq t.entries })
        × (t.capacity ≡ c.capacity)
        × (t.generation ≡ c.generation)
  unfolding place
  place-IsValid marks pq c v h ok_new = elim (Bool-cases (ltb (length c.ring) c.capacity)) [
    | inl room ↦
        let size = length-append c.ring (pq ∷ []) in
        (
          record c { ring = c.ring ++ (pq ∷ []) },
          rw room refl,
          record {
            positive = v.positive;
            bounded = ground arith;
            hand_in = v.hand_in;
            distinct = Distinct-concat pq c.ring h v.distinct;
            agree = λ k.
                ground
                  (arith, load-store pq.key k pq c.entries, find-concat k pq c.ring h, v.agree k);
            held = λ k p m. stored_held pq k p c.entries ok_new (λ f. v.held k p f) m;
          },
          refl,
          refl,
        )
    | inr full ↦
        let (t, q, done, s, at) = sweep-ends marks c v.hand_in (ground (arith, v.bounded)) in
        let still = evict-IsValid pq t q (Swept-IsValid c t s v) at (rw s.ring_is h) ok_new in
        (
          evicted pq t q,
          rw full (rw (done, place) still.0),
          still.1,
          s.capacity_is,
          s.generation_is,
        )
  ]

  pub key_of_find :
      (k : K) (p : Prepared K V) (ps : List (Prepared K V)) → find k ps ≡ some p → p.key ≡ k
  key_of_find k p [] h = cc
  key_of_find k p (q ∷ qs) h = elim (Bool-cases (e.beq q.key k)) [
    | inl same ↦
        let this : q ≡ p = eq_of_some q p (rw same at h) in rw (← this) ((e.beq_iff q.key k).0 same)
    | inr other ↦ key_of_find k p qs (rw other at h)
  ]

  -- Of an entry with the property that the entries of the cache have, and a valid cache, whatever hits mark while the
  -- hand sweeps: inserting
  -- never panics and keeps the cache valid. With the generation unchanged the key is then
  -- found, at the entry that is returned, which has that key; with another generation nothing is
  -- inserted, and the entry that was handed in is returned.
  pub insert-IsValid :
      (marks : ℕ → ℕ → Bool) (c : Cache K V) (pq : Prepared K V) (generation : ℕ)
      → IsValid c
      → Q pq
      → (t : Cache K V) × (r : Prepared K V) × (insert marks c pq generation ≡ some (t, r))
        × IsValid t
        × (t.capacity ≡ c.capacity)
        × (t.generation ≡ c.generation)
        × (r.key ≡ pq.key)
        × Q r
        × (((c.generation ≡ generation) × (load pq.key t.entries ≡ some r))
            ⊎ ((c.generation ≢ generation) × (t ≡ c) × (r ≡ pq)))
  unfolding insert
  insert-IsValid marks c pq generation v ok_new = elim (Bool-cases (c.generation == generation)) [
    | inr stale ↦
        (c, pq, rw (stale, insert), v, refl, refl, refl, ok_new, inr (ground arith, refl, refl))
    | inl current ↦ elim (Option-cases (load pq.key c.entries)) [
      | inr (p, hit) ↦ (
        c,
        p,
        rw (current, insert) (rw (hit, insert)),
        v,
        refl,
        refl,
        key_of_find pq.key p c.ring (rw (v.agree pq.key) at hit),
        v.held pq.key p hit,
        inl (ground arith, hit),
      )
      | inl miss ↦
          let (t, placed, valid, size, same) =
            place-IsValid marks pq c v (rw (v.agree pq.key) at miss) ok_new in
          (
            record t { entries = store pq.key pq t.entries },
            pq,
            rw (current, insert) (rw (miss, insert) (rw (placed, insert))),
            valid,
            size,
            same,
            refl,
            ok_new,
            inl (
              ground arith,
              ground (arith, load-store pq.key pq.key pq t.entries, e.beq_iff pq.key pq.key),
            ),
          )
    ]
  ]

  -- The flags and the supply of identities play no part.
  pub same_entries :
      (c : Cache K V) {flags : ℕ → Bool} {fresh : ℕ}
      → IsValid c
      → IsValid (record c { flags = flags; fresh = fresh })
  same_entries c u = record {
    positive = u.positive;
    bounded = u.bounded;
    hand_in = u.hand_in;
    distinct = u.distinct;
    agree = u.agree;
    held = u.held;
  }

  -- `lookup`, where every entry that `prepare` makes has the property: it does not panic, keeps the
  -- cache valid and answers with an entry of the key, which the cache then holds.
  pub lookup-IsValid :
      (marks : ℕ → ℕ → Bool) (prepare : K → V) (c : Cache K V) (k : K)
      → IsValid c
      → ((n : ℕ) → Q (record { id = n; key = k; value = prepare k }))
      → (t : Cache K V) × (r : Prepared K V) × (lookup marks prepare c k ≡ some (t, r))
        × IsValid t
        × (r.key ≡ k)
        × Q r
        × (load k t.entries ≡ some r)
  unfolding lookup allocate
  lookup-IsValid marks prepare c k v made = elim (Option-cases (load k c.entries)) [
    | inr (p, hit) ↦ elim (Bool-cases (c.flags p.id)) [
      | inl set ↦ (
        c,
        p,
        rw (uncached, lookup) (rw (hit, lookup) (rw (set, lookup))),
        v,
        key_of_find k p c.ring (rw (v.agree k) at hit),
        v.held k p hit,
        hit,
      )
      | inr unset ↦ (
        record c { flags = write_flag c.flags p.id true },
        p,
        rw (uncached, lookup) (rw (hit, lookup) (rw (unset, lookup))),
        same_entries c v,
        key_of_find k p c.ring (rw (v.agree k) at hit),
        v.held k p hit,
        hit,
      )
    ]
    | inl miss ↦
        let (grown, pq) = allocate prepare k c in
        let (t, r, done, valid, size, same_gen, same_key, good, found) =
          insert-IsValid marks grown pq c.generation (same_entries c v) (made c.fresh) in
        (
          t,
          r,
          rw (uncached, lookup) (rw (miss, lookup) done),
          valid,
          same_key,
          good,
          now_found found,
        )
  ]
    where
      uncached : (c.capacity == 0) ≡ false
      uncached = ground (arith, v.positive)

      now_found :
          {t u : Cache K V} {r s : Prepared K V}
          → ((c.generation ≡ c.generation) × (load k t.entries ≡ some r))
            ⊎ ((c.generation ≢ c.generation) × (t ≡ u) × (r ≡ s))
          → load k t.entries ≡ some r
      now_found (inl (_, h)) = h
      now_found (inr (no_match, _, _)) = absurd (no_match refl)

-- ===== src/Tests/Caching.antt =====
-- querycache.go: runs of the cache, and of goroutines that share it.
use sequel.Base.{
  Bool, ℕ, ◌+◌, ◌*◌, ◌≤◌, ◌≡◌, ◌≢◌, refl, true, [], ◌∷◌, some, arith, ◌==◌, ==_iff, ◌⊎◌,
}
use sequel.QueryCache.Interleaved.Fresh.{initial, clean-NoOlder}
use sequel.QueryCache.Interleaved.{
  started, computed, World, Reach, here, next, miss, compute, finish, swap,
}
use sequel.QueryCache.Invariant.{IsValid, insert-IsValid, lookup-IsValid}
use sequel.QueryCache.Sweep.{quiet}
use sequel.QueryCache.{Eq, Prepared, Cache, load, insert, lookup, clear, allocate, caching}

instance number_key : Eq ℕ
number_key = record { beq = ◌==◌; beq_iff = ==_iff }

-- What registry `m` makes of key `k`.
abbrev made : ℕ → ℕ → ℕ
made m k = 100 * m + k

abbrev entry : ℕ → ℕ → Prepared ℕ ℕ
entry i k = record { id = i; key = k; value = made 0 k }

-- A full cache of two entries, both marked.
abbrev full : Cache ℕ ℕ
full = record {
  capacity = 2;
  entries = (1, entry 0 1) ∷ (2, entry 1 2) ∷ [];
  ring = entry 0 1 ∷ entry 1 2 ∷ [];
  hand = 1;
  generation = 7;
  flags = λ _. true;
  fresh = 2;
}

full-IsValid : IsValid (λ p. p.value ≡ made 0 p.key) full
unfolding caching number_key
full-IsValid = record {
  positive = omega arith;
  bounded = omega arith;
  hand_in = omega arith;
  distinct = (refl, (refl, tt));
  agree = λ k. refl;
  held = λ k p h. ground arith;
}

-- Hits that mark every entry again behind every round.
abbrev busy : ℕ → ℕ → Bool
busy rounds i = true

insert-IsValid_example :
    (t : Cache ℕ ℕ) × (r : Prepared ℕ ℕ) × (insert busy full (entry 2 3) 7 ≡ some (t, r))
    × IsValid (λ p. p.value ≡ made 0 p.key) t
    × (t.capacity ≡ 2)
    × (t.generation ≡ 7)
    × (r.key ≡ 3)
    × (r.value ≡ made 0 r.key)
    × (((full.generation ≡ 7) × (load 3 t.entries ≡ some r))
        ⊎ ((full.generation ≢ 7) × (t ≡ full) × (r ≡ entry 2 3)))
insert-IsValid_example =
    insert-IsValid (λ p. p.value ≡ made 0 p.key) busy full (entry 2 3) 7 full-IsValid refl

lookup-IsValid_example :
    (t : Cache ℕ ℕ) × (r : Prepared ℕ ℕ) × (lookup busy (made 0) full 3 ≡ some (t, r))
    × IsValid (λ p. p.value ≡ made 0 p.key) t
    × (r.key ≡ 3)
    × (r.value ≡ made 0 r.key)
    × (load 3 t.entries ≡ some r)
lookup-IsValid_example =
    lookup-IsValid (λ p. p.value ≡ made 0 p.key) busy (made 0) full 3 full-IsValid (λ n. refl)

-- A lookup of 5 misses, and registry 1 is swapped in.
abbrev w1 : World ℕ ℕ
w1 = record (initial made 2) { flights = started 5 0 ∷ [] }

abbrev w2 : World ℕ ℕ
w2 = record w1 { version = 1 }

before_clean : Reach made (initial made 2) w2
unfolding caching number_key
before_clean = next (next here (miss (initial made 2) 5 refl)) (swap w1)

-- The cache is cleared; another lookup of 5 misses, computes and inserts.
abbrev w3 : World ℕ ℕ
w3 = record w2 { cleared = w2.version; cache = clear w2.cache }

abbrev p5 : Prepared ℕ ℕ
p5 = record { id = 0; key = 5; value = 105 }

abbrev w4 : World ℕ ℕ
w4 = record w3 { flights = started 5 1 ∷ started 5 0 ∷ [] }

abbrev w5 : World ℕ ℕ
w5 = record w4 {
  cache = (allocate (made 1) 5 w4.cache).0;
  flights = computed p5 1 ∷ started 5 0 ∷ [];
}

abbrev held : Cache ℕ ℕ
held = record w5.cache { entries = (5, p5) ∷ []; ring = p5 ∷ [] }

abbrev w6 : World ℕ ℕ
w6 = record w5 { cache = held; flights = started 5 0 ∷ [] }

after_clean : Reach made w3 w6
unfolding caching number_key
after_clean =
    next (next (next here (miss w3 5 refl)) (compute w4 [] (started 5 0 ∷ []) 5 1 refl))
      (finish w5 [] (started 5 0 ∷ []) quiet p5 p5 1 held refl refl)

clean-NoOlder_example : (m : ℕ) × (1 ≤ m) × (105 ≡ made m 5)
unfolding caching number_key
clean-NoOlder_example =
    clean-NoOlder made 2 w2 w6 5 p5 (omega arith) (omega arith) before_clean after_clean refl

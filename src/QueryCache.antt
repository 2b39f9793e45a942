-- ===== src/QueryCache.antt =====
-- querycache.go: the cache of prepared statements, which evicts by CLOCK. An object that a program
-- allocates has an identity, `id`; the only field of a prepared query that is written after its
-- construction, `referenced`, is kept by identity in `flags`, so that the map and the ring share it.
-- `none` is a Go panic, an index out of range.
pub mod Ring
pub mod Sweep
pub mod Invariant
pub mod Interleaved
use sequel.Base.{
  ◌||◌, ℕ, zero, suc, ◌+◌, ◌*◌, ◌%◌, ◌^◌, ◌≡◌, ◌↔◌, Bool, true, false, List, [], ◌∷◌, ◌++◌, Option,
  none, some, ltb, ◌==◌, if◌then◌else◌, length, get_elem?, set,
}

-- Keys that can be compared.
pub record Eq (K : Type 0) : Type 0 where
  pub beq : K → K → Bool
  pub beq_iff : (a b : K) → (beq a b ≡ true) ↔ (a ≡ b)

-- `preparedQuery`: its key, and in `value` all that its construction derives from the key.
pub record Prepared (K V : Type 0) : Type 0 where
  pub id : ℕ
  pub key : K
  pub value : V

-- `queryCache`, with the flags of the objects and the next identity to be allocated.
pub record Cache (K V : Type 0) : Type 0 where
  pub capacity : ℕ
  pub entries : List (K × Prepared K V)
  pub ring : List (Prepared K V)
  pub hand : ℕ
  pub generation : ℕ
  pub flags : ℕ → Bool
  pub fresh : ℕ

-- `newQueryCache` of a capacity that is not negative.
unfoldable pub new_query_cache : {K V : Type 0} → ℕ → Cache K V
new_query_cache capacity = record {
  capacity = capacity;
  entries = [];
  ring = [];
  hand = 0;
  generation = 0;
  flags = λ _. false;
  fresh = 0;
}

abbrev pub write_flag : (ℕ → Bool) → ℕ → Bool → ℕ → Bool
write_flag flags i b j = if i == j then b else flags j

-- What hits have marked, and what was marked before.
abbrev pub re_marked : (ℕ → Bool) → (ℕ → Bool) → ℕ → Bool
re_marked marks flags i = marks i || flags i

module _ {K V : Type 0} ⦃e : Eq K⦄ where
  -- `entries.Load`
  unfoldable pub load : K → List (K × Prepared K V) → Option (Prepared K V)
  load k [] = none
  load k ((j, p) ∷ m) = if e.beq j k then some p else load k m

  -- `entries.Delete`
  unfoldable pub delete : K → List (K × Prepared K V) → List (K × Prepared K V)
  delete k [] = []
  delete k ((j, p) ∷ m) = if e.beq j k then delete k m else (j, p) ∷ delete k m

  -- `entries.Store`
  unfoldable pub store : K → Prepared K V → List (K × Prepared K V) → List (K × Prepared K V)
  store k p m = (k, p) ∷ delete k m

  -- The bounded sweep of `insert`, for `rounds` rounds. Hits mark entries without the lock: `marks` says which
  -- ones behind a round, by the number of rounds that are left.
  unfoldable pub sweep : (ℕ → ℕ → Bool) → ℕ → Cache K V → Option (Cache K V)
  sweep marks zero c = some c
  sweep marks (suc rounds) c = elim (get_elem? c.ring c.hand) [
    | none ↦ none
    | some p ↦ elim (c.flags p.id) [
      | false ↦ some c
      | true ↦ sweep marks rounds (record c {
        flags = re_marked (marks rounds) (write_flag c.flags p.id false);
        hand = (c.hand + 1) % c.capacity;
      })
    ]
  ]

  -- The `else` of `insert`: the entry under the hand goes.
  unfoldable pub evict : Prepared K V → Cache K V → Option (Cache K V)
  evict pq c = elim (get_elem? c.ring c.hand) [
    | none ↦ none
    | some victim ↦ some (record c {
      entries = delete victim.key c.entries;
      ring = set c.ring c.hand pq;
      hand = (c.hand + 1) % c.capacity;
    })
  ]

  -- The room that `insert` makes for a new entry, in the ring.
  unfoldable pub place : (ℕ → ℕ → Bool) → Prepared K V → Cache K V → Option (Cache K V)
  place marks pq c =
      if ltb (length c.ring) c.capacity
      then some (record c { ring = c.ring ++ (pq ∷ []) })
      else elim (sweep marks (2 * c.capacity) c) [ none ↦ none | some c' ↦ evict pq c' ]

  -- `insert`
  unfoldable pub insert :
      (ℕ → ℕ → Bool) → Cache K V → Prepared K V → ℕ → Option (Cache K V × Prepared K V)
  insert marks c pq generation = elim (c.generation == generation) [
    | false ↦ some (c, pq)
    | true ↦ elim (load pq.key c.entries) [
      | some p ↦ some (c, p)
      | none ↦ elim (place marks pq c) [
        | none ↦ none
        | some c' ↦ some (record c' { entries = store pq.key pq c'.entries }, pq)
      ]
    ]
  ]

  -- `clear`; the generation is a uint64.
  unfoldable pub clear : Cache K V → Cache K V
  clear c = record c { generation = (c.generation + 1) % 2 ^ 64; entries = []; ring = []; hand = 0 }

  -- A new object: `newPreparedQuery` of a key, where `prepare` derives all of its fields.
  unfoldable pub allocate : (K → V) → K → Cache K V → Cache K V × Prepared K V
  allocate prepare k c = (
    record c { fresh = c.fresh + 1; flags = write_flag c.flags c.fresh false },
    record { id = c.fresh; key = k; value = prepare k },
  )

  -- `lookup`, run by one goroutine with no other in between but for the hits that mark entries in a sweep.
  unfoldable pub lookup :
      (ℕ → ℕ → Bool) → (K → V) → Cache K V → K → Option (Cache K V × Prepared K V)
  lookup marks prepare c k =
      let (grown, pq) = allocate prepare k c in
      elim (c.capacity == 0) [
        | true ↦ some (grown, pq)
        | false ↦ elim (load k c.entries) [
          | some p ↦
              some
                (if c.flags p.id then c else record c { flags = write_flag c.flags p.id true }, p)
          | none ↦ insert marks grown pq c.generation
        ]
      ]

-- Opens the operations, for evaluation at concrete inputs.
unfoldable pub caching : Unit {0}
unfolding new_query_cache load delete store sweep evict place insert clear allocate lookup
caching = tt

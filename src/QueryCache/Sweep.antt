-- ===== src/QueryCache/Sweep.antt =====
-- querycache.go: the sweep of the eviction hand over a full ring.
use native.Mathlib.Nat.{mod-lt}
use sequel.Base.{
  ℕ, zero, suc, ◌+◌, ◌*◌, ◌%◌, ◌≤◌, ◌<◌, ◌≡◌, refl, ap, Bool, false, List, [], ◌∷◌, some, arith,
  if◌then◌else◌, length, get_elem?, Bool-cases, inl, inr,
}
use sequel.QueryCache.{Eq, Prepared, Cache, re_marked, sweep, write_flag}

pub get_elem?-lt {ℓ} :
    {A : Type ℓ} (xs : List A) (i : ℕ) → i < length xs → (x : A) × (get_elem? xs i ≡ some x)
get_elem?-lt [] i h = absurd (omega arith)
get_elem?-lt (x ∷ xs) zero h = (x, refl)
get_elem?-lt (x ∷ xs) (suc i) h = get_elem?-lt xs i (omega arith)

-- No hit marks an entry.
abbrev pub quiet : ℕ → ℕ → Bool
quiet rounds i = false

module _ {K V : Type 0} ⦃e : Eq K⦄ where
  -- What a sweep leaves alone, and where its hand stands.
  pub record Swept (c t : Cache K V) : Type 0 where
    pub capacity_is : t.capacity ≡ c.capacity
    pub entries_is : t.entries ≡ c.entries
    pub ring_is : t.ring ≡ c.ring
    pub generation_is : t.generation ≡ c.generation
    pub hand_in : t.hand < c.capacity

  abbrev pub swept_once : (ℕ → Bool) → Cache K V → Prepared K V → Cache K V
  swept_once marks c p = record c {
    flags = re_marked marks (write_flag c.flags p.id false);
    hand = (c.hand + 1) % c.capacity;
  }

  -- On a full ring a sweep does not panic, whatever hits mark meanwhile.
  pub sweep-Swept :
      (marks : ℕ → ℕ → Bool) (rounds : ℕ) (c : Cache K V)
      → c.hand < c.capacity
      → c.capacity ≤ length c.ring
      → (t : Cache K V) × (sweep marks rounds c ≡ some t) × Swept c t
  unfolding sweep
  sweep-Swept marks zero c h l = (
    c,
    refl,
    record {
      capacity_is = refl;
      entries_is = refl;
      ring_is = refl;
      generation_is = refl;
      hand_in = h;
    },
  )
  sweep-Swept marks (suc rounds) c h l =
      let (p, at) = get_elem?-lt c.ring c.hand (omega arith) in
      elim (Bool-cases (c.flags p.id)) [
        | inr clear ↦ (
          c,
          rw (at, sweep) (rw (clear, sweep)),
          record {
            capacity_is = refl;
            entries_is = refl;
            ring_is = refl;
            generation_is = refl;
            hand_in = h;
          },
        )
        | inl set ↦
            let next = swept_once (marks rounds) c p in
            let (t, done, s) =
              sweep-Swept marks rounds next (mod-lt (c.hand + 1) (omega arith)) l in
            (
              t,
              rw (at, sweep) (rw (set, sweep) done),
              record {
                capacity_is = s.capacity_is;
                entries_is = s.entries_is;
                ring_is = s.ring_is;
                generation_is = s.generation_is;
                hand_in = s.hand_in;
              },
            )
      ]

  -- It ends at an entry.
  pub sweep-ends :
      (marks : ℕ → ℕ → Bool) (c : Cache K V)
      → c.hand < c.capacity
      → length c.ring ≡ c.capacity
      → (t : Cache K V) × (q : Prepared K V) × (sweep marks (2 * c.capacity) c ≡ some t)
        × Swept c t
        × (get_elem? t.ring t.hand ≡ some q)
  sweep-ends marks c h l =
      let (t, done, s) = sweep-Swept marks (2 * c.capacity) c h (omega arith) in
      let sizes = ap length s.ring_is in
      let inside = s.hand_in in
      let (q, at) = get_elem?-lt t.ring t.hand (omega arith) in (t, q, done, s, at)

  -- How many entries of the ring are marked.
  count_set : (ℕ → Bool) → List (Prepared K V) → ℕ
  count_set flags [] = 0
  count_set flags (p ∷ ps) = (if flags p.id then 1 else 0) + count_set flags ps

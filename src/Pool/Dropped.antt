-- ===== src/Pool/Dropped.antt =====
-- db.go: Close drops a testing database just when it closes its last handle.
use sequel.Base.{
  ℕ, zero, suc, ◌+◌, ◌-◌, ◌<◌, ◌≡◌, ◌≢◌, ◌⊎◌, inl, inr, refl, sym, ap, ◌∙◌, Bool, true, false, not,
  ◌||◌, List, [], ◌∷◌, Option, none, some, Bytes, contains, index, has_prefix, equal, equal-eq,
  equal_refl, get_elem?, ◌==◌, if◌then◌else◌, arith, Bool-cases, eq_of_some,
}
use mathlib.Core.Path.{subst}
use sequel.Base.Cases.{if_intro, if_cases, option_cases}
use sequel.Driver.{Driver, physical_driver_name}
use sequel.Pool.Counted.{
  counts, holds, held, Counted, held-set, update-less, write-Counted, open_db-Counted,
  open_singleton-Counted,
}
use sequel.Pool.{
  Handle, Pools, Engine, update, write_handle, adjust_connection_limits, testing_key, is_leftover,
  testing_database_name_of, retain_testing_database, singleton_of, open_handle, open_db,
  open_singleton, maybe_drop, close_handle, close_db,
}

-- A call of Open, of OpenSingleton, or of Close for a handle by its number.
pub data PoolCall : Type 0 where
  open_call singleton_call : Driver → Bytes → PoolCall
  close_call : ℕ → PoolCall

abbrev pub no_pools : Pools
no_pools = record { handles = []; singletons = λ k. none; refs = λ k. 0; anchors = λ k. false }

-- The database `k` had `before` open handles and has `after`: it was dropped with its last handle, or it
-- was not dropped, and had no handle or still has one.
abbrev pub Verdict : Bytes → ℕ → ℕ → Option Bytes → Type 0
Verdict k before after dropped =
    ((dropped ≡ some k) × (0 < before) × (after ≡ 0))
    ⊎ ((dropped ≢ some k) × ((before ≡ 0) ⊎ (0 < after)))

is_live : (up b : Bool) → (not up || b) ≡ false → up ≡ true
is_live true b h = refl
is_live false b h = absurd cc

none_or_some : (n : ℕ) → (n ≡ 0) ⊎ (0 < n)
none_or_some zero = inl refl
none_or_some (suc n) = inr (omega arith)

same-Verdict :
    (k : Bytes) (before after : ℕ) (dropped : Option Bytes)
    → dropped ≢ some k
    → before ≡ after
    → Verdict k before after dropped
same-Verdict k before after dropped not_dropped same = inr (
  not_dropped,
  elim (none_or_some before) [ inl h ↦ inl h | inr h ↦ inr (omega (arith, h, same)) ],
)

none≢key : (k : Bytes) → none ≢ some k
none≢key k = λ h. cc

differs : {j k : Bytes} → equal k j ≡ false → j ≢ k
differs {j} {k} e h = let a = ap (equal k) h in let b = equal_refl k in absurd cc

module _ (g : Engine) where
  unfoldable pub perform_pool : PoolCall → Pools → Pools
  perform_pool (open_call d name) p = (open_db g d name p).0
  perform_pool (singleton_call d name) p = (open_singleton g d name p).0
  perform_pool (close_call i) p = (close_db g i p).0

  unfoldable pub perform_pools : List PoolCall → Pools → Pools
  perform_pools [] p = p
  perform_pools (c ∷ cs) p = perform_pools cs (perform_pool c p)

  -- The counts when a handle was closed that is still counted.
  abbrev StillCounted : Option Bytes → Pools → Type 0
  StillCounted key p = (k : Bytes) → p.refs k ≡ held g k p.handles + counts k key

  less-Counted :
      (j : Bytes) (p : Pools) (anchors : Bytes → Bool)
      → StillCounted (some j) p
      → Counted g (record p { refs = update p.refs j (p.refs j - 1); anchors = anchors })
  less-Counted j p anchors c = record {
    counted =
        λ k. let now = update-less p.refs k j in let before = c k in omega (arith, now, before);
  }

  -- What is left of the count of `j`.
  left_count :
      (j : Bytes) (p : Pools)
      → StillCounted (some j) p
      → update p.refs j (p.refs j - 1) j ≡ held g j p.handles
  left_count j p c =
      let now = update-less p.refs j j in
      let before = c j in
      let one : counts j (some j) ≡ 1 = rw (equal_refl j) refl in omega (arith, now, before, one)

  -- The verdict on another database than the one whose handle was closed.
  other-Verdict :
      (j k : Bytes) (hs : List Handle) (dropped : Option Bytes)
      → dropped ≢ some k
      → equal k j ≡ false
      → Verdict k (held g k hs + counts k (some j)) (held g k hs) dropped
  other-Verdict j k hs dropped kept other =
      let none_less : counts k (some j) ≡ 0 = rw other refl in
      same-Verdict k (held g k hs + counts k (some j)) (held g k hs) dropped kept
        (omega (arith, none_less))

  -- The verdict when the closed handle was the last one on `j`.
  last-Verdict :
      (j k : Bytes) (p : Pools)
      → StillCounted (some j) p
      → (update p.refs j (p.refs j - 1) j == 0) ≡ true
      → Verdict k (held g k p.handles + counts k (some j)) (held g k p.handles) (some j)
  last-Verdict j k p c last = elim (Bool-cases (equal k j)) [
    | inr e ↦ other-Verdict j k p.handles (some j) (λ h. differs e (eq_of_some j k h)) e
    | inl e ↦
        let same = equal-eq k j e in
        let left = left_count j p c in
        let one : counts k (some j) ≡ 1 = rw e refl in
        let gone : held g k p.handles ≡ 0 =
          ap (λ i. held g i p.handles) same ∙ sym left ∙ ground (arith, last) in
        inl (ap some (sym same), omega (arith, one), gone)
  ]

  -- The verdict when other handles on `j` are open.
  more-Verdict :
      (j k : Bytes) (p : Pools)
      → StillCounted (some j) p
      → (update p.refs j (p.refs j - 1) j == 0) ≡ false
      → Verdict k (held g k p.handles + counts k (some j)) (held g k p.handles) none
  more-Verdict j k p c more = elim (Bool-cases (equal k j)) [
    | inr e ↦ other-Verdict j k p.handles none (none≢key k) e
    | inl e ↦
        let same = equal-eq k j e in
        let left = left_count j p c in
        let kept : 0 < update p.refs j (p.refs j - 1) j = ground (arith, more) in
        let here : held g k p.handles ≡ held g j p.handles = ap (λ i. held g i p.handles) same in
        inr (none≢key k, inr (omega (arith, kept, left, here)))
  ]

  maybe_drop-Counted :
      (h : Handle) (p : Pools)
      → StillCounted (testing_key g h.driver h.dsn) p
      → Counted g (maybe_drop g h p).0
        × ((k : Bytes)
            → Verdict k
                (held g k p.handles + counts k (testing_key g h.driver h.dsn))
                (held g k (maybe_drop g h p).0.handles)
                (maybe_drop g h p).1)
  unfolding maybe_drop
  maybe_drop-Counted h p c =
      let key = testing_key g h.driver h.dsn in
      let Q : Pools × Option Bytes → Type 0 = λ r.
        Counted g r.0
        × ((k : Bytes)
            → Verdict k (held g k p.handles + counts k key) (held g k r.0.handles) r.1) in
      option_cases Q key
        (λ no. (
          record {
            counted = λ k.
                let now = c k in
                let zero : counts k key ≡ 0 = ap (counts k) no in omega (arith, now, zero);
          },
          λ k.
              same-Verdict k _ _ none (none≢key k)
                (let zero : counts k key ≡ 0 = ap (counts k) no in omega (arith, zero)),
        ))
        (λ j found.
          let still : StillCounted (some j) p =
            λ k. c k ∙ ap (λ m. held g k p.handles + counts k m) found in
          if_cases Q (update p.refs j (p.refs j - 1) j == 0)
            (λ last. (
              less-Counted j p (update p.anchors j false) still,
              λ k. rw found (last-Verdict j k p still last),
            ))
            (λ more.
              (less-Counted j p p.anchors still, λ k. rw found (more-Verdict j k p still more))))

  -- What Close does to the counts, and the verdict on every testing database.
  Closed : Pools → Pools × Option Bytes → Type 0
  Closed p r =
      Counted g r.0 × ((k : Bytes) → Verdict k (held g k p.handles) (held g k r.0.handles) r.1)

  unchanged-Closed : (p : Pools) → Counted g p → Closed p (p, none)
  unfolding Closed
  unchanged-Closed p c =
      (c, λ k. same-Verdict k (held g k p.handles) (held g k p.handles) none (none≢key k) refl)

  -- The handle stays open, for those that still refer to it.
  adjusted-Closed :
      (i : ℕ) (h new : Handle) (p : Pools)
      → Counted g p
      → get_elem? p.handles i ≡ some h
      → ((k : Bytes) → holds g k new ≡ holds g k h)
      → Closed p (write_handle i new p, none)
  unfolding Closed
  adjusted-Closed i h new p c at same = (
    write-Counted g i h new p c at same,
    λ k.
        let moved = held-set g k p.handles i h new at in
        let equal = same k in same-Verdict k _ _ none (none≢key k) (omega (arith, moved, equal)),
  )

  -- The last reference to a handle is gone.
  ended-Closed :
      (i : ℕ) (h new : Handle) (p : Pools)
      → Counted g p
      → get_elem? p.handles i ≡ some h
      → h.is_open ≡ true
      → ((k : Bytes) → holds g k new ≡ 0)
      → Closed p (maybe_drop g h (write_handle i new p))
  unfolding Closed
  ended-Closed i h new p c at up none_held =
      let key = testing_key g h.driver h.dsn in
      let q = write_handle i new p in
      let before : (k : Bytes) → held g k p.handles ≡ held g k q.handles + counts k key = λ k.
        let moved = held-set g k p.handles i h new at in
        let was : holds g k h ≡ counts k key = ap (λ b. if b then counts k key else 0) up in
        let gone = none_held k in omega (arith, moved, was, gone) in
      let ended = maybe_drop-Counted h q (λ k. c.counted k ∙ before k) in
      (
        ended.0,
        λ k.
            subst (λ n. Verdict k n (held g k (maybe_drop g h q).0.handles) (maybe_drop g h q).1)
              (sym (before k)) (ended.1 k),
      )

  close_handle-Closed :
      (i : ℕ) (h : Handle) (p : Pools)
      → Counted g p
      → get_elem? p.handles i ≡ some h
      → Closed p (close_handle g i h p)
  unfolding close_handle adjust_connection_limits
  close_handle-Closed i h p c at =
      if_cases (Closed p) (not h.is_open || h.ref_count == 0) (λ over. unchanged-Closed p c)
        (λ live.
          if_intro (Closed p) (h.ref_count - 1 == 0)
            (ended-Closed i h (record h { is_open = false; ref_count = h.ref_count - 1 }) p c at
              (is_live h.is_open (h.ref_count == 0) live) (λ k. refl))
            (adjusted-Closed i h _ p c at (λ k. refl)))

  close_db-Closed : (i : ℕ) (p : Pools) → Counted g p → Closed p (close_db g i p)
  unfolding close_db
  close_db-Closed i p c =
      option_cases (Closed p) (get_elem? p.handles i) (λ missing. unchanged-Closed p c)
        (λ h at. close_handle-Closed i h p c at)

  perform_pools-Counted :
      (cs : List PoolCall) (p : Pools) → Counted g p → Counted g (perform_pools cs p)
  unfolding perform_pools perform_pool Closed
  perform_pools-Counted [] p c = c
  perform_pools-Counted (open_call d name ∷ cs) p c =
      perform_pools-Counted cs (open_db g d name p).0 (open_db-Counted g d name p c)
  perform_pools-Counted (singleton_call d name ∷ cs) p c =
      perform_pools-Counted cs (open_singleton g d name p).0 (open_singleton-Counted g d name p c)
  perform_pools-Counted (close_call i ∷ cs) p c =
      perform_pools-Counted cs (close_db g i p).0 (close_db-Closed i p c).0

  -- After any calls of Open, OpenSingleton and Close, the count of every testing database is the number of
  -- its open handles. The next Close either drops the database, which then had an open handle and has
  -- none left, or does not drop it, and then it had none or still has one.
  pub perform_pools-dropped :
      (cs : List PoolCall) (i : ℕ) (k : Bytes)
      → let p = perform_pools cs no_pools in
        let closed = close_db g i p in
        (p.refs k ≡ held g k p.handles)
        × Verdict k (held g k p.handles) (held g k closed.0.handles) closed.1
  unfolding Closed
  perform_pools-dropped cs i k =
      let c = perform_pools-Counted cs no_pools record { counted = λ j. refl } in
      (c.counted k, (close_db-Closed i (perform_pools cs no_pools) c).1 k)

-- Opens the calls, for evaluation at concrete inputs.
unfoldable pub pooling : Unit {0}
unfolding equal contains index has_prefix physical_driver_name is_leftover adjust_connection_limits
    testing_database_name_of testing_key retain_testing_database open_db singleton_of open_handle
    open_singleton maybe_drop close_handle close_db perform_pool perform_pools
pooling = tt

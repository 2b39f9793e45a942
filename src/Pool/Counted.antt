-- ===== src/Pool/Counted.antt =====
-- db.go: a testing database is counted by its open handles, and dropped with the last of them.
use sequel.Base.{
  ℕ, zero, suc, ◌+◌, ◌-◌, ◌≡◌, inl, inr, refl, sym, ap, ◌∙◌, false, ◌&&◌, List, [], ◌∷◌, ◌++◌,
  Option, none, some, Bytes, equal, equal-eq, get_elem?, set, ◌==◌, if◌then◌else◌, arith,
  Bool-cases,
}
use sequel.Base.Cases.{if_intro, if_cases, option_intro, option_cases}
use sequel.Driver.{Driver, is_sqlite}
use sequel.Pool.{
  Handle, Pools, Engine, update, opened, write_handle, adjust_connection_limits, testing_key,
  retain_testing_database, open_db, singleton_of, open_handle, open_singleton,
}

-- 1 for the key of a database.
abbrev pub counts : Bytes → Option Bytes → ℕ
counts k none = 0
counts k (some j) = if equal k j then 1 else 0

module _ (g : Engine) where
  -- What an open handle adds to the count of a testing database.
  abbrev pub holds : Bytes → Handle → ℕ
  holds k h = if h.is_open then counts k (testing_key g h.driver h.dsn) else 0

  -- The open handles on a testing database.
  abbrev pub held : Bytes → List Handle → ℕ
  held k [] = 0
  held k (h ∷ hs) = holds k h + held k hs

  -- The count of every testing database is that of its open handles.
  pub record Counted (p : Pools) : Type 0 where
    pub counted : (k : Bytes) → p.refs k ≡ held k p.handles

  held-append :
      (k : Bytes) (hs : List Handle) (h : Handle) → held k (hs ++ (h ∷ [])) ≡ held k hs + holds k h
  held-append k [] h = omega arith
  held-append k (x ∷ hs) h = omega (arith, held-append k hs h)

  pub held-set :
      (k : Bytes) (hs : List Handle) (i : ℕ) (old new : Handle)
      → get_elem? hs i ≡ some old
      → held k (set hs i new) + holds k old ≡ held k hs + holds k new
  held-set k [] i old new h = absurd cc
  held-set k (x ∷ hs) zero old new h =
      let same : x ≡ old = cc in
      let eq : holds k x ≡ holds k old = ap (holds k) same in omega (arith, eq)
  held-set k (x ∷ hs) (suc i) old new h = omega (arith, held-set k hs i old new h)

update-more : (f : Bytes → ℕ) (k j : Bytes) → update f j (f j + 1) k ≡ f k + counts k (some j)
update-more f k j = elim (Bool-cases (equal k j)) [
  | inl e ↦ rw e (ap (λ i. f i + 1) (sym (equal-eq k j e)))
  | inr e ↦ rw e (omega arith)
]

pub update-less : (f : Bytes → ℕ) (k j : Bytes) → update f j (f j - 1) k ≡ f k - counts k (some j)
update-less f k j = elim (Bool-cases (equal k j)) [
  | inl e ↦ rw e (ap (λ i. f i - 1) (sym (equal-eq k j e)))
  | inr e ↦ rw e (omega arith)
]

-- Behind a retained database: one more handle is counted.
abbrev Retained : Option Bytes → Pools → Option Pools → Type 0
Retained key p none = Unit {0}
Retained key p (some q) =
    (q.handles ≡ p.handles) × ((k : Bytes) → q.refs k ≡ p.refs k + counts k key)

retained_intro :
    (P : Pools × Option ℕ → Type 0) (key : Option Bytes) (p : Pools) (m : Option Pools)
    {x : Pools × Option ℕ} {f : Pools → Pools × Option ℕ}
    → Retained key p m
    → P x
    → ((q : Pools)
        → q.handles ≡ p.handles
        → ((k : Bytes) → q.refs k ≡ p.refs k + counts k key)
        → P (f q))
    → P (elim m [ none ↦ x | some q ↦ f q ])
retained_intro P key p none r s t = s
retained_intro P key p (some q) r s t = t q r.0 r.1

module _ (g : Engine) where
  retain-Retained :
      (d : Driver) (dsn : Bytes) (p : Pools)
      → Retained (testing_key g d dsn) p (retain_testing_database g d dsn p)
  unfolding retain_testing_database
  retain-Retained d dsn p =
      option_cases (Retained (testing_key g d dsn) p) (testing_key g d dsn)
        (λ no. (refl, λ k. rw no (omega arith)))
        (λ j found.
          let more : (k : Bytes)
              → update p.refs j (p.refs j + 1) k ≡ p.refs k + counts k (testing_key g d dsn) =
            λ k. rw found (update-more p.refs k j) in
          if_intro (Retained (testing_key g d dsn) p) (p.refs j == 0 && is_sqlite d)
            (if_intro (Retained (testing_key g d dsn) p) (g.opens p d dsn && g.pings p d dsn)
              (refl, more) tt)
            (refl, more))

  -- A new handle behind a retained database.
  retained-Counted :
      (d : Driver) (dsn : Bytes) (p q : Pools)
      → Counted g p
      → q.handles ≡ p.handles
      → ((k : Bytes) → q.refs k ≡ p.refs k + counts k (testing_key g d dsn))
      → Counted g (record q { handles = q.handles ++ (opened d dsn ∷ []) })
  retained-Counted d dsn p q c same more = record {
    counted = λ k.
        let size = held-append g k q.handles (opened d dsn) in
        let old : held g k q.handles ≡ held g k p.handles = ap (held g k) same in
        let now = more k in let before = c.counted k in omega (arith, size, old, now, before);
  }

  pub open_db-Counted :
      (driver : Driver) (name : Bytes) (p : Pools)
      → Counted g p
      → Counted g (open_db g driver name p).0
  unfolding open_db
  open_db-Counted driver name p c =
      let Q : Pools × Option ℕ → Type 0 = λ r. Counted g r.0 in
      option_intro Q (g.normalize driver name) c (λ (found : Driver × Bytes).
        let (d, dsn) = found in
        if_intro Q (g.opens p d dsn)
          (retained_intro Q (testing_key g d dsn) p (retain_testing_database g d dsn p)
            (retain-Retained d dsn p) c (λ q same more. retained-Counted d dsn p q c same more))
          c)

  -- A handle is replaced by one that counts the same.
  pub write-Counted :
      (i : ℕ) (old new : Handle) (p : Pools)
      → Counted g p
      → get_elem? p.handles i ≡ some old
      → ((k : Bytes) → holds g k new ≡ holds g k old)
      → Counted g (write_handle i new p)
  write-Counted i old new p c at same = record {
    counted = λ k.
        let moved = held-set g k p.handles i old new at in
        let equal = same k in let before = c.counted k in omega (arith, moved, equal, before);
  }

  -- A closed handle is opened, behind a retained database.
  reopened-Counted :
      (i : ℕ) (old new : Handle) (p q : Pools)
      → Counted g p
      → get_elem? p.handles i ≡ some old
      → old.is_open ≡ false
      → ((k : Bytes) → holds g k new ≡ counts k (testing_key g old.driver old.dsn))
      → q.handles ≡ p.handles
      → ((k : Bytes) → q.refs k ≡ p.refs k + counts k (testing_key g old.driver old.dsn))
      → Counted g (write_handle i new q)
  reopened-Counted i old new p q c at closed now same more = record {
    counted = λ k.
        let moved = held-set g k q.handles i old new (ap (λ l. get_elem? l i) same ∙ at) in
        let left : held g k q.handles ≡ held g k p.handles = ap (held g k) same in
        let none : holds g k old ≡ 0 =
          ap (λ b. if b then counts k (testing_key g old.driver old.dsn) else 0) closed in
        let new_count = now k in
        let added = more k in
        let before = c.counted k in omega (arith, moved, left, none, new_count, added, before);
  }

  open_handle-Counted :
      (i : ℕ) (h : Handle) (p : Pools)
      → Counted g p
      → get_elem? p.handles i ≡ some h
      → Counted g (open_handle g i h p).0
  unfolding open_handle adjust_connection_limits
  open_handle-Counted i h p c at =
      let Q : Pools × Option ℕ → Type 0 = λ r. Counted g r.0 in
      if_cases Q h.is_open (λ up. write-Counted i h _ p c at (λ k. refl))
        (λ closed.
          if_intro Q (g.opens p h.driver h.dsn)
            (retained_intro Q (testing_key g h.driver h.dsn) p
              (retain_testing_database g h.driver h.dsn p) (retain-Retained h.driver h.dsn p) c
              (λ q same more. reopened-Counted i h _ p q c at closed (λ k. refl) same more))
            c)

  singleton_of-Counted :
      (d : Driver) (dsn : Bytes) (p : Pools) → Counted g p → Counted g (singleton_of g d dsn p).0
  unfolding singleton_of
  singleton_of-Counted d dsn p c =
      option_intro {A = Pools × ℕ} (λ (r : Pools × ℕ). Counted g r.0) (p.singletons (g.hash_str _))
        record {
          counted = λ k.
              let size =
                held-append g k p.handles
                  (record (opened d dsn) { is_open = false; ref_count = 0 }) in
              let before = c.counted k in omega (arith, size, before);
        }
        (λ (i : ℕ). c)

  pub open_singleton-Counted :
      (driver : Driver) (name : Bytes) (p : Pools)
      → Counted g p
      → Counted g (open_singleton g driver name p).0
  unfolding open_singleton
  open_singleton-Counted driver name p c =
      let Q : Pools × Option ℕ → Type 0 = λ r. Counted g r.0 in
      option_intro Q (g.normalize driver name) c (λ (found : Driver × Bytes).
        let made = singleton_of g found.0 found.1 p in
        let first = singleton_of-Counted found.0 found.1 p c in
        option_cases Q (get_elem? made.0.handles made.1) (λ no. first)
          (λ (h : Handle) at. open_handle-Counted made.1 h made.0 first at))

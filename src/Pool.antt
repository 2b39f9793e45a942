-- ===== src/Pool.antt =====
-- db.go: the handles on databases that Open and OpenSingleton give out, the counts of their references and of the
-- handles on each testing database, and Close. A call is an atomic action. The handle through which a testing
-- database is dropped on its server is left out; the dropping itself is what Close reports.
pub mod Counted
pub mod Dropped
pub mod Driven
use sequel.Base.{
  ℕ, zero, suc, ◌+◌, ◌-◌, ◌*◌, Bool, true, false, not, ◌&&◌, ◌||◌, List, [], ◌∷◌, ◌++◌, Option,
  none, some, Bytes, codes, equal, contains, has_prefix, length, get_elem?, set, drop, is_digit,
  leb, ◌==◌, if◌then◌else◌,
}
use sequel.Driver.{Driver, sqlite, is_sqlite, physical_driver_name}
use sequel.Migration.Statements.{driver_name}

-- `DB`: the pool is open or closed, and its limits are those that were set: of the open connections, and of
-- the idle ones.
pub record Handle : Type 0 where
  pub driver : Driver
  pub dsn : Bytes
  pub is_open : Bool
  pub ref_count : ℕ
  pub limits : Option (ℕ × ℕ)

-- The handles in the order of their making, and the maps `singletonsMap`, `testingDBRefs` and
-- `testingAnchors`.
pub record Pools : Type 0 where
  pub handles : List Handle
  pub singletons : Bytes → Option ℕ
  pub refs : Bytes → ℕ
  pub anchors : Bytes → Bool

-- What the drivers make of data source names, whether a pool opens, whether a first connection to a
-- database can be made, and the hash of a text. The two may differ from state to state.
pub record Engine : Type 0 where
  pub normalize : Driver → Bytes → Option (Driver × Bytes)
  pub database_name : Driver → Bytes → Option Bytes
  pub server_address : Driver → Bytes → Bytes
  pub opens : Pools → Driver → Bytes → Bool
  pub pings : Pools → Driver → Bytes → Bool
  pub hash_str : Bytes → Bytes

abbrev pub all_lower_names : Bytes → Bool
all_lower_names [] = true
all_lower_names (c ∷ cs) =
    ((leb b'a' c && leb c b'z') || (is_digit c || c == b'_')) && all_lower_names cs

abbrev pub is_hour_name : Bytes → Bool
is_hour_name (c ∷ (d ∷ (e ∷ rest))) =
    (leb b'0' c && leb c b'2') && (is_digit d && (e == b'_' && all_lower_names rest))
is_hour_name _ = false

-- `leftoverTestingDatabasePattern`
unfoldable pub is_leftover : Bytes → Bool
is_leftover name = has_prefix name (codes "testing_") && is_hour_name (drop 8 name)

abbrev pub ceil_sqrt_from : ℕ → ℕ → ℕ → ℕ
ceil_sqrt_from zero k n = k
ceil_sqrt_from (suc fuel) k n =
    let more = ceil_sqrt_from fuel (k + 1) n in if leb n (k * k) then k else more

-- `adjustConnectionLimits`: the open and the idle connections of a handle.
unfoldable pub adjust_connection_limits : Handle → Handle
adjust_connection_limits h =
    let idle = ceil_sqrt_from h.ref_count 0 h.ref_count in
    record h { limits = some (idle * 2 + 2, idle) }

abbrev pub update {ℓ} : {A : Type ℓ} → (Bytes → A) → Bytes → A → Bytes → A
update f k v j = if equal j k then v else f j

abbrev pub write_handle : ℕ → Handle → Pools → Pools
write_handle i h p = record p { handles = set p.handles i h }

abbrev pub count : Bytes → Pools → Pools
count k p = record p { refs = update p.refs k (p.refs k + 1) }

abbrev pub anchored : Bytes → Pools → Pools
anchored k p = record p { anchors = update p.anchors k true }

abbrev pub opened : Driver → Bytes → Handle
opened d dsn = record { driver = d; dsn = dsn; is_open = true; ref_count = 1; limits = none }

module _ (g : Engine) where
  -- `testingDatabaseNameOf`
  unfoldable pub testing_database_name_of : Driver → Bytes → Option Bytes
  testing_database_name_of d dsn = elim (contains dsn (codes "testing_")) [
    | false ↦ none
    | true ↦ elim (g.database_name d dsn) [
      | none ↦ none
      | some name ↦ if is_leftover name then some name else none
    ]
  ]

  -- `testingDatabaseKey` of the database that a data source name names.
  unfoldable pub testing_key : Driver → Bytes → Option Bytes
  testing_key d dsn = elim (testing_database_name_of d dsn) [
    | none ↦ none
    | some name ↦ some (
        driver_name (physical_driver_name d)
        ++ (codes "|" ++ (g.server_address d dsn ++ (codes "|" ++ name))))
  ]

  -- `retainTestingDatabase`, none for an error.
  unfoldable pub retain_testing_database : Driver → Bytes → Pools → Option Pools
  retain_testing_database d dsn p = elim (testing_key d dsn) [
    | none ↦ some p
    | some k ↦
        if p.refs k == 0 && is_sqlite d
        then (if g.opens p d dsn && g.pings p d dsn then some (count k (anchored k p)) else none)
        else some (count k p)
  ]

  -- `Open`, with the number of its handle.
  unfoldable pub open_db : Driver → Bytes → Pools → Pools × Option ℕ
  open_db driver name p = elim (g.normalize driver name) [
    | none ↦ (p, none)
    | some (d, dsn) ↦
        if g.opens p d dsn
        then (elim (retain_testing_database d dsn p) [
          | none ↦ (p, none)
          | some q ↦
              (record q { handles = q.handles ++ (opened d dsn ∷ []) }, some (length q.handles))
        ])
        else (p, none)
  ]

  -- The handle of a singleton, which is made if there is none.
  unfoldable pub singleton_of : Driver → Bytes → Pools → Pools × ℕ
  singleton_of d dsn p =
      let key = g.hash_str (driver_name d ++ (codes "|" ++ dsn)) in
      elim (p.singletons key) [
        | some i ↦ (p, i)
        | none ↦ (
          record p {
            handles = p.handles ++ (record (opened d dsn) { is_open = false; ref_count = 0 } ∷ []);
            singletons = update p.singletons key (some (length p.handles));
          },
          length p.handles,
        )
      ]

  -- `OpenSingleton` on the handle `h`, which has the number `i`. It was made for the data source name that is
  -- asked for, as long as `hashStr` does not collide.
  unfoldable pub open_handle : ℕ → Handle → Pools → Pools × Option ℕ
  open_handle i h p =
      if h.is_open
      then (
        write_handle i (adjust_connection_limits (record h { ref_count = h.ref_count + 1 })) p,
        some i,
      )
      else if g.opens p h.driver h.dsn
      then (elim (retain_testing_database h.driver h.dsn p) [
        | none ↦ (p, none)
        | some q ↦ (
          write_handle i (adjust_connection_limits (record h { is_open = true; ref_count = 1 })) q,
          some i,
        )
      ])
      else (p, none)

  -- `OpenSingleton`, with the number of its handle.
  unfoldable pub open_singleton : Driver → Bytes → Pools → Pools × Option ℕ
  open_singleton driver name p = elim (g.normalize driver name) [
    | none ↦ (p, none)
    | some (d, dsn) ↦
        let (q, i) = singleton_of d dsn p in
        elim (get_elem? q.handles i) [ none ↦ (q, none) | some h ↦ open_handle i h q ]
  ]

  -- `maybeDropTestingDatabase`, with the key of the database when it was dropped.
  unfoldable pub maybe_drop : Handle → Pools → Pools × Option Bytes
  maybe_drop h p = elim (testing_key h.driver h.dsn) [
    | none ↦ (p, none)
    | some k ↦
        let q = record p { refs = update p.refs k (p.refs k - 1) } in
        if q.refs k == 0
        then (record q { anchors = update q.anchors k false }, some k)
        else (q, none)
  ]

  -- `Close` of the handle `h`, which has the number `i`.
  unfoldable pub close_handle : ℕ → Handle → Pools → Pools × Option Bytes
  close_handle i h p =
      if not h.is_open || h.ref_count == 0
      then (p, none)
      else (let less = record h { ref_count = h.ref_count - 1 } in
          if less.ref_count == 0
          then maybe_drop h (write_handle i (record less { is_open = false }) p)
          else (write_handle i (adjust_connection_limits less) p, none))

  -- `Close`, with the key of the testing database that it dropped.
  unfoldable pub close_db : ℕ → Pools → Pools × Option Bytes
  close_db i p = elim (get_elem? p.handles i) [ none ↦ (p, none) | some h ↦ close_handle i h p ]

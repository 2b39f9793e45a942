-- ===== src/Source/Database.antt =====
-- db.go: setting the database of a SQLite data source name, and reading it back.
use sequel.Base.{
  ◌≡◌, refl, [], ◌∷◌, ◌++◌, none, arith, ◌⊎◌, Bool-cases, Bytes, codes, ◌==◌, index_byte,
  Option-cases, inl, inr,
}
use sequel.Source.{
  cut_prefix, trim_prefix, before_query, from_query, sqlite_database_name, set_sqlite_database,
}

from_query-cases : (s : Bytes) → (from_query s ≡ []) ⊎ ((t : Bytes) × (from_query s ≡ b'?' ∷ t))
unfolding from_query
from_query-cases [] = inl refl
from_query-cases (c ∷ cs) = elim (Bool-cases (c == b'?')) [
  | inl mark ↦ rw mark (inr (cs, ground (arith, mark)))
  | inr other ↦ rw other (from_query-cases cs)
]

before_query-append :
    (name s : Bytes) → index_byte name b'?' ≡ none → before_query (name ++ from_query s) ≡ name
unfolding before_query index_byte
before_query-append [] s h = elim (from_query-cases s) [
  | inl done ↦ rw done refl
  | inr (t, query) ↦ rw query refl
]
before_query-append (c ∷ cs) s h = ground (arith, before_query-append cs s)

before_query-none : (name : Bytes) → index_byte name b'?' ≡ none → before_query name ≡ name
unfolding before_query index_byte
before_query-none [] h = refl
before_query-none (c ∷ cs) h = ground (arith, before_query-none cs)

-- A database name without '?' and that does not begin with "file:", once set in a data source name, is the
-- database that the new name is found to have, whatever the old one was.
pub sqlite_database_name-set_sqlite_database :
    (dsn name : Bytes)
    → index_byte name b'?' ≡ none
    → cut_prefix (codes "file:") name ≡ none
    → sqlite_database_name (set_sqlite_database dsn name) ≡ name
unfolding sqlite_database_name set_sqlite_database trim_prefix
sqlite_database_name-set_sqlite_database dsn name h k =
    elim (Option-cases (cut_prefix (codes "file:") dsn)) [
      | inl plain ↦ rw (plain, set_sqlite_database) (rw (k, trim_prefix) (before_query-none name h))
      | inr (rest, uri) ↦
          rw (uri, set_sqlite_database) (unfold cut_prefix in before_query-append name rest h)
    ]

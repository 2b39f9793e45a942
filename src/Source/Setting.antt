-- ===== src/Source/Setting.antt =====
-- db.go: setting the database of a data source name, and reading it back, with every driver.
use sequel.Base.{
  ℕ, ◌≡◌, refl, sym, [], ◌∷◌, ◌++◌, none, Bytes, codes, index_byte, Option-cases, inl, inr,
}
use sequel.Driver.{Driver, mysql, mariadb, pgx, cockroachdb, mssql, sqlite, other}
use sequel.Source.{cut_prefix, trim_prefix, trim_mysql_scheme, set_sqlite_database}
use sequel.Source.Database.{sqlite_database_name-set_sqlite_database}
use sequel.Source.Parsers.{
  Session, Parsed, parsed, Read, rejected, accepted, Parsers, and_then, with_database,
  database_name_of, database_name_from_data_source_name, set_database_in_data_source_name,
}

-- What the parsers are relied on for: a field that was set is read, and what is printed is parsed to the same
-- fields. `Valid` are the configurations that ParseDSN returns, also with another database. `Plain` are the
-- URLs with a host, whose path begins with '/' or is empty, so that String leaves it; a path that begins with '/'
-- keeps a URL plain.
pub record Lawful {Config Url : Type 0} (p : Parsers Config Url) : Type 1 where
  pub Plain : Url → Type 0
  pub Valid : Config → Type 0
  pub dsn_valid : (dsn : Bytes) (cfg : Config) → p.parse_dsn dsn ≡ accepted cfg → Valid cfg
  pub db_name_valid : (n : Bytes) (cfg : Config) → Valid cfg → Valid (p.with_db_name n cfg)
  pub db_name_set : (n : Bytes) (cfg : Config) → p.db_name (p.with_db_name n cfg) ≡ n
  pub format_some : (cfg : Config) → ¬ (p.format_dsn cfg ≡ [])
  pub format_parsed :
      (cfg : Config)
      → Valid cfg
      → (again : Config) × (p.parse_dsn (p.format_dsn cfg) ≡ accepted again)
        × (p.db_name again ≡ p.db_name cfg)
  pub path_set : (path : Bytes) (u : Url) → p.url_path (p.with_path path u) ≡ path
  pub path_plain : (path : Bytes) (u : Url) → Plain u → Plain (p.with_path (b'/' ∷ path) u)
  pub query_set_get : (k v : Bytes) (u : Url) → p.query_get k (p.query_set k v u) ≡ v
  pub query_del_get : (k : Bytes) (u : Url) → p.query_get k (p.query_del k u) ≡ []
  pub query_set_plain : (k v : Bytes) (u : Url) → Plain u → Plain (p.query_set k v u)
  pub query_del_plain : (k : Bytes) (u : Url) → Plain u → Plain (p.query_del k u)
  pub url_some : (u : Url) → Plain u → ¬ (p.url_string u ≡ [])
  pub url_parsed :
      (u : Url)
      → Plain u
      → (again : Url) × (p.url_parse (p.url_string u) ≡ accepted again)
        × (p.url_path again ≡ p.url_path u)
        × ((k : Bytes) → p.query_get k again ≡ p.query_get k u)

-- A name that a database of the driver may have: with SQLite it is a path.
abbrev pub IsName : Driver → Bytes → Type 0
IsName sqlite name =
    (index_byte name b'?' ≡ none) × (cut_prefix (codes "file:") name ≡ none) × ¬ (name ≡ [])
IsName _ name = Unit

chained :
    {A B : Type 0} (r : Read A) (f : A → Parsed B) {out : B}
    → and_then r f ≡ parsed out
    → (a : A) × (r ≡ accepted a) × (f a ≡ parsed out)
chained (rejected e) f h = cc
chained (accepted a) f h = (a, refl, h)

parsed-injective : {A : Type 0} {x y : A} → parsed x ≡ parsed y → x ≡ y
parsed-injective h = cc

pub cons-some : {c : ℕ} {cs : Bytes} → ¬ (c ∷ cs ≡ [])
cons-some h = cc

module _ {Config Url : Type 0} (p : Parsers Config Url) (laws : Lawful p) where
  -- The new name is one that the driver takes: for MySQL it is not taken for one with a scheme.
  abbrev pub IsAccepted : Driver → Bytes → Type 0
  IsAccepted mysql text = trim_mysql_scheme text ≡ text
  IsAccepted mariadb text = trim_mysql_scheme text ≡ text
  IsAccepted pgx text = (session : Session) × (p.pgx_parse text ≡ accepted session)
  IsAccepted cockroachdb text = (session : Session) × (p.pgx_parse text ≡ accepted session)
  IsAccepted mssql text = p.mssql_parse text ≡ accepted tt
  IsAccepted _ text = Unit

  named_of :
      (d : Driver) (text : Bytes) {out : Parsed Bytes}
      → ¬ (text ≡ [])
      → database_name_of p d text ≡ out
      → database_name_from_data_source_name p d text ≡ out
  named_of d [] some_text h = absurd (some_text refl)
  named_of d (c ∷ cs) some_text h = h

  mysql_named :
      (name : Bytes) (cfg : Config)
      → laws.Valid cfg
      → and_then
          (p.parse_dsn (p.format_dsn (p.with_db_name name cfg)))
          (λ again. parsed (p.db_name again))
        ≡ parsed name
  mysql_named name cfg valid =
      let (again, reads, same) =
        laws.format_parsed (p.with_db_name name cfg) (laws.db_name_valid name cfg valid) in
      rw (reads, same, laws.db_name_set name cfg) refl

  path_named :
      (name : Bytes) (u : Url)
      → laws.Plain u
      → and_then
          (p.url_parse (p.url_string (p.with_path (codes "/" ++ name) u)))
          (λ again. parsed (trim_prefix (codes "/") (p.url_path again)))
        ≡ parsed name
  path_named name u plain =
      let (again, reads, same, query) =
        laws.url_parsed (p.with_path (codes "/" ++ name) u) (laws.path_plain name u plain) in
      rw (reads, same, laws.path_set (codes "/" ++ name) u) (unfold trim_prefix cut_prefix in refl)

  with_database-get :
      (name : Bytes) (u : Url) → p.query_get (codes "database") (with_database p name u) ≡ name
  with_database-get [] u = laws.query_del_get (codes "database") u
  with_database-get (c ∷ cs) u = laws.query_set_get (codes "database") (c ∷ cs) u

  with_database-Plain :
      (name : Bytes) (u : Url) → laws.Plain u → laws.Plain (with_database p name u)
  with_database-Plain [] u = laws.query_del_plain (codes "database") u
  with_database-Plain (c ∷ cs) u = laws.query_set_plain (codes "database") (c ∷ cs) u

  query_named :
      (name : Bytes) (u : Url)
      → laws.Plain u
      → and_then
          (p.url_parse (p.url_string (with_database p name u)))
          (λ again. parsed (p.query_get (codes "database") again))
        ≡ parsed name
  query_named name u plain =
      let (again, reads, same, query) =
        laws.url_parsed (with_database p name u) (with_database-Plain name u plain) in
      rw (reads, query (codes "database"), with_database-get name u) refl

  -- What parses as a URL is plain.
  abbrev pub IsPlainUrl : Bytes → Type 0
  IsPlainUrl dsn = (u : Url) → p.url_parse dsn ≡ accepted u → laws.Plain u

  -- With the drivers whose names are read as URLs.
  abbrev pub IsPlain : Driver → Bytes → Type 0
  IsPlain pgx dsn = IsPlainUrl dsn
  IsPlain cockroachdb dsn = IsPlainUrl dsn
  IsPlain mssql dsn = IsPlainUrl dsn
  IsPlain _ dsn = Unit

  mysql_read :
      (dsn name text : Bytes)
      → and_then
          (p.parse_dsn (trim_mysql_scheme dsn))
          (λ cfg. parsed (p.format_dsn (p.with_db_name name cfg)))
        ≡ parsed text
      → trim_mysql_scheme text ≡ text
      → ¬ (text ≡ [])
        × (and_then (p.parse_dsn (trim_mysql_scheme text)) (λ again. parsed (p.db_name again))
            ≡ parsed name)
  mysql_read dsn name text set takes =
      let (cfg, reads, prints) =
        chained (p.parse_dsn (trim_mysql_scheme dsn))
          (λ cfg. parsed (p.format_dsn (p.with_db_name name cfg))) set in
      let printed : p.format_dsn (p.with_db_name name cfg) ≡ text = parsed-injective prints in
      (
        rw (sym printed) (laws.format_some (p.with_db_name name cfg)),
        rw (takes, sym printed)
            (mysql_named name cfg (laws.dsn_valid (trim_mysql_scheme dsn) cfg reads)),
      )

  path_read :
      (dsn name text : Bytes)
      → IsPlainUrl dsn
      → and_then (p.pgx_parse dsn) (λ session.
        and_then (p.url_parse dsn) (λ u. parsed (p.url_string (p.with_path (codes "/" ++ name) u))))
        ≡ parsed text
      → (session : Session) × (p.pgx_parse text ≡ accepted session)
      → ¬ (text ≡ [])
        × (and_then (p.pgx_parse text) (λ session.
              and_then (p.url_parse text) (λ u. parsed (trim_prefix (codes "/") (p.url_path u))))
            ≡ parsed name)
  path_read dsn name text plain set (session, takes) =
      let (before, valid, rest) = chained (p.pgx_parse dsn) _ set in
      let (u, reads, prints) = chained (p.url_parse dsn) _ rest in
      let printed : p.url_string (p.with_path (codes "/" ++ name) u) ≡ text =
        parsed-injective prints in
      (
        rw (sym printed) (laws.url_some _ (laws.path_plain name u (plain u reads))),
        rw takes (rw (sym printed) (path_named name u (plain u reads))),
      )

  query_read :
      (dsn name text : Bytes)
      → IsPlainUrl dsn
      → and_then (p.mssql_parse dsn) (λ valid.
        and_then (p.url_parse dsn) (λ u. parsed (p.url_string (with_database p name u))))
        ≡ parsed text
      → p.mssql_parse text ≡ accepted tt
      → ¬ (text ≡ [])
        × (and_then (p.mssql_parse text) (λ valid.
              and_then (p.url_parse text) (λ u. parsed (p.query_get (codes "database") u)))
            ≡ parsed name)
  query_read dsn name text plain set takes =
      let (before, valid, rest) = chained (p.mssql_parse dsn) _ set in
      let (u, reads, prints) = chained (p.url_parse dsn) _ rest in
      let printed : p.url_string (with_database p name u) ≡ text = parsed-injective prints in
      (
        rw (sym printed) (laws.url_some _ (with_database-Plain name u (plain u reads))),
        rw takes (rw (sym printed) (query_named name u (plain u reads))),
      )

  file_read :
      (dsn name text : Bytes)
      → IsName sqlite name
      → set_sqlite_database dsn name ≡ text
      → ¬ (text ≡ []) × (database_name_of p sqlite text ≡ parsed name)
  unfolding set_sqlite_database
  file_read dsn name text (plain, bare, some_name) set = (
    rw (sym set) (elim (Option-cases (cut_prefix (codes "file:") dsn)) [
      | inl none_cut ↦ rw (none_cut, set_sqlite_database) some_name
      | inr (rest, cut) ↦ rw (cut, set_sqlite_database) (λ e. absurd (cons-some e))
    ]),
    rw (sym set, sqlite_database_name-set_sqlite_database dsn name plain bare) refl,
  )

  -- With parsers that read back what they print: where setting the database of a data source name succeeds,
  -- with any driver, and the driver takes the new name, the database that is read of the new name is the one
  -- that was set. For PostgreSQL and SQL Server the old name is a URL with a host, if it parses as one;
  -- MySQL's new name does not begin with a scheme; and SQLite's database is a path that is not empty, has no
  -- '?' and does not begin with "file:".
  pub set_database-read :
      (d : Driver) (dsn name text : Bytes)
      → IsName d name
      → IsPlain d dsn
      → set_database_in_data_source_name p d dsn name ≡ parsed text
      → IsAccepted d text
      → database_name_from_data_source_name p d text ≡ parsed name
  set_database-read d [] name text named plain set takes = cc
  set_database-read mysql (c ∷ cs) name text named plain set takes =
      let (some_text, reads) = mysql_read (c ∷ cs) name text set takes in
      named_of mysql text some_text reads
  set_database-read mariadb (c ∷ cs) name text named plain set takes =
      let (some_text, reads) = mysql_read (c ∷ cs) name text set takes in
      named_of mariadb text some_text reads
  set_database-read pgx (c ∷ cs) name text named plain set takes =
      let (some_text, reads) = path_read (c ∷ cs) name text plain set takes in
      named_of pgx text some_text reads
  set_database-read cockroachdb (c ∷ cs) name text named plain set takes =
      let (some_text, reads) = path_read (c ∷ cs) name text plain set takes in
      named_of cockroachdb text some_text reads
  set_database-read mssql (c ∷ cs) name text named plain set takes =
      let (some_text, reads) = query_read (c ∷ cs) name text plain set takes in
      named_of mssql text some_text reads
  set_database-read sqlite (c ∷ cs) name text named plain set takes =
      let (some_text, reads) = file_read (c ∷ cs) name text named (parsed-injective set) in
      named_of sqlite text some_text reads
  set_database-read (other o) (c ∷ cs) name text named plain set takes = cc

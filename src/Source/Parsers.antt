-- ===== src/Source/Parsers.antt =====
-- db.go: data source names through the parsers of the drivers, which are parameters. An error of a parser is
-- a text; that a message quotes the name, redacted, is left out.
use sequel.Base.{
  itoa, ℕ, Bool, false, not, ◌&&◌, ◌||◌, List, [], ◌∷◌, ◌++◌, Option, none, some, Bytes, codes,
  equal, contains, if◌then◌else◌,
}
use sequel.Driver.{Driver, mysql, mariadb, pgx, cockroachdb, mssql, sqlite, other}
use sequel.Source.{
  to_postgres_scheme, trim_mysql_scheme, lower_scheme, infer_driver_name, sqlite_database_name,
  set_sqlite_database, with_busy_timeout, pin_session_time_zone_utc, trim_prefix, lower_byte,
}

pub data SourceFault : Type 0 where
  empty_dsn no_driver : SourceFault
  unparsed : Bytes → SourceFault
  unsupported : Driver → SourceFault

pub data Parsed {ℓ} (T : Type ℓ) : Type ℓ where
  failed : SourceFault → Parsed T
  parsed : T → Parsed T

-- What a parser of a driver says of a name: its error, or what it read.
pub data Read {ℓ} (T : Type ℓ) : Type ℓ where
  rejected : Bytes → Read T
  accepted : T → Read T

-- The fields of a `pgx.ConnConfig` that sequel reads.
pub record Session : Type 0 where
  pub runtime_params : List (Bytes × Bytes)
  pub host : Bytes
  pub port : ℕ

-- The parsers and printers of the drivers and of net/url. `Config` is the `mysql.Config`, with the fields that
-- sequel sets; `Url` is the `url.URL`; of what msdsn parses,
-- sequel reads nothing.
pub record Parsers (Config Url : Type 0) : Type 0 where
  pub parse_dsn : Bytes → Read Config
  pub format_dsn : Config → Bytes
  pub db_name : Config → Bytes
  pub with_db_name : Bytes → Config → Config
  pub net : Config → Bytes
  pub addr : Config → Bytes
  pub with_param : Bytes → Bytes → Config → Config
  pub pgx_parse : Bytes → Read Session
  pub mssql_parse : Bytes → Read (Unit {0})
  pub url_parse : Bytes → Read Url
  pub url_string : Url → Bytes
  pub url_host : Url → Bytes
  pub url_path : Url → Bytes
  pub with_path : Bytes → Url → Url
  pub query_get : Bytes → Url → Bytes
  pub query_set : Bytes → Bytes → Url → Url
  pub query_del : Bytes → Url → Url
  pub matches_options : Bytes → Bool
  pub getenv : Bytes → Bytes

abbrev pub and_then : {A B : Type 0} → Read A → (A → Parsed B) → Parsed B
and_then (rejected e) f = failed (unparsed e)
and_then (accepted a) f = f a

module _ {Config Url : Type 0} (p : Parsers Config Url) where
  -- `databaseNameFromDataSourceName`, of a name that is not empty.
  abbrev pub database_name_of : Driver → Bytes → Parsed Bytes
  database_name_of mysql dsn =
      and_then (p.parse_dsn (trim_mysql_scheme dsn)) (λ cfg. parsed (p.db_name cfg))
  database_name_of mariadb dsn =
      and_then (p.parse_dsn (trim_mysql_scheme dsn)) (λ cfg. parsed (p.db_name cfg))
  database_name_of pgx dsn =
      and_then (p.pgx_parse dsn) (λ session.
        and_then (p.url_parse dsn) (λ u. parsed (trim_prefix (codes "/") (p.url_path u))))
  database_name_of cockroachdb dsn =
      and_then (p.pgx_parse dsn) (λ session.
        and_then (p.url_parse dsn) (λ u. parsed (trim_prefix (codes "/") (p.url_path u))))
  database_name_of mssql dsn =
      and_then (p.mssql_parse dsn)
        (λ valid. and_then (p.url_parse dsn) (λ u. parsed (p.query_get (codes "database") u)))
  database_name_of sqlite dsn = parsed (sqlite_database_name dsn)
  database_name_of (other name) dsn = failed (unsupported (other name))

  -- `databaseNameFromDataSourceName`
  abbrev pub database_name_from_data_source_name : Driver → Bytes → Parsed Bytes
  database_name_from_data_source_name d [] = failed empty_dsn
  database_name_from_data_source_name d (c ∷ cs) = database_name_of d (c ∷ cs)

  -- The query of a SQL Server name with another database.
  abbrev pub with_database : Bytes → Url → Url
  with_database [] u = p.query_del (codes "database") u
  with_database (c ∷ cs) u = p.query_set (codes "database") (c ∷ cs) u

  -- `setDatabaseInDataSourceName`, of a name that is not empty.
  abbrev pub set_database_of : Driver → Bytes → Bytes → Parsed Bytes
  set_database_of mysql dsn name =
      and_then (p.parse_dsn (trim_mysql_scheme dsn))
        (λ cfg. parsed (p.format_dsn (p.with_db_name name cfg)))
  set_database_of mariadb dsn name =
      and_then (p.parse_dsn (trim_mysql_scheme dsn))
        (λ cfg. parsed (p.format_dsn (p.with_db_name name cfg)))
  set_database_of pgx dsn name = and_then (p.pgx_parse dsn) (λ session.
      and_then (p.url_parse dsn) (λ u. parsed (p.url_string (p.with_path (codes "/" ++ name) u))))
  set_database_of cockroachdb dsn name = and_then (p.pgx_parse dsn) (λ session.
      and_then (p.url_parse dsn) (λ u. parsed (p.url_string (p.with_path (codes "/" ++ name) u))))
  set_database_of mssql dsn name =
      and_then (p.mssql_parse dsn)
        (λ valid. and_then (p.url_parse dsn) (λ u. parsed (p.url_string (with_database name u))))
  set_database_of sqlite dsn name = parsed (set_sqlite_database dsn name)
  set_database_of (other d) dsn name = failed (unsupported (other d))

  -- `setDatabaseInDataSourceName`
  abbrev pub set_database_in_data_source_name : Driver → Bytes → Bytes → Parsed Bytes
  set_database_in_data_source_name d [] name = failed empty_dsn
  set_database_in_data_source_name d (c ∷ cs) name = set_database_of d (c ∷ cs) name

  -- `strings.ToLower`
  abbrev pub to_lower : Bytes → Bytes
  to_lower [] = []
  to_lower (c ∷ cs) = lower_byte c ∷ to_lower cs

  -- The loop of `callerChoseTimeZone` over the parameters of a session.
  abbrev pub sets_time_zone : List (Bytes × Bytes) → Bool
  sets_time_zone [] = false
  sets_time_zone ((k, v) ∷ rest) =
      equal (to_lower k) (codes "timezone")
      || ((equal (to_lower k) (codes "options") && p.matches_options v) || sets_time_zone rest)

  abbrev pub says_time_zone : Bytes → Bool
  says_time_zone dsn =
      contains (to_lower dsn) (codes "timezone")
      || (not (equal (p.getenv (codes "PGTZ")) [])
          || contains (to_lower (p.getenv (codes "PGOPTIONS"))) (codes "timezone"))

  -- `callerChoseTimeZone`
  abbrev pub caller_chose_time_zone : Bytes → Bool
  caller_chose_time_zone dsn = elim (p.pgx_parse dsn) [
    | rejected e ↦ says_time_zone dsn
    | accepted session ↦ sets_time_zone session.runtime_params
  ]

  -- The parameters that `normalizeDriverAndDSN` sets for MySQL.
  abbrev pub with_timeouts : Config → Config
  with_timeouts cfg = p.with_param (codes "writeTimeout") (codes "8s") (
      p.with_param (codes "readTimeout") (codes "8s") (
        p.with_param (codes "timeout") (codes "4s")
          (p.with_param (codes "parseTime") (codes "true") cfg)))

  -- The switch of `normalizeDriverAndDSN`.
  abbrev pub normalize_for : Driver → Bytes → Parsed Bytes
  normalize_for mysql dsn =
      and_then (p.parse_dsn (trim_mysql_scheme dsn))
        (λ cfg. parsed (p.format_dsn (with_timeouts cfg)))
  normalize_for mariadb dsn =
      and_then (p.parse_dsn (trim_mysql_scheme dsn))
        (λ cfg. parsed (p.format_dsn (with_timeouts cfg)))
  normalize_for pgx dsn =
      parsed (pin_session_time_zone_utc caller_chose_time_zone (to_postgres_scheme dsn))
  normalize_for cockroachdb dsn =
      parsed (pin_session_time_zone_utc caller_chose_time_zone (to_postgres_scheme dsn))
  normalize_for sqlite dsn = parsed (with_busy_timeout dsn)
  normalize_for _ dsn = parsed dsn

  -- The driver that a name is opened with: sqlite3 is another name of sqlite, and no name asks for the
  -- driver that the data source name tells.
  abbrev pub resolve_driver : Driver → Bytes → Option Driver
  resolve_driver (other d) dsn =
      if equal d (codes "sqlite3")
      then some sqlite
      else if equal d []
      then infer_driver_name dsn
      else some (other d)
  resolve_driver d dsn = some d

  abbrev pub paired : Driver → Parsed Bytes → Parsed (Driver × Bytes)
  paired d (failed e) = failed e
  paired d (parsed dsn) = parsed (d, dsn)

  abbrev pub normalize_resolved : Option Driver → Bytes → Parsed (Driver × Bytes)
  normalize_resolved none dsn = failed no_driver
  normalize_resolved (some d) dsn = paired d (normalize_for d dsn)

  -- `normalizeDriverAndDSN`
  abbrev pub normalize_driver_and_dsn : Driver → Bytes → Parsed (Driver × Bytes)
  normalize_driver_and_dsn d [] = failed empty_dsn
  normalize_driver_and_dsn d (c ∷ cs) =
      normalize_resolved (resolve_driver d (lower_scheme (c ∷ cs))) (lower_scheme (c ∷ cs))

  -- `serverAddress`
  abbrev pub server_address_of : Driver → Bytes → Bytes
  server_address_of mysql dsn = elim (p.parse_dsn (trim_mysql_scheme dsn)) [
    | rejected e ↦ []
    | accepted cfg ↦ p.net cfg ++ (codes "(" ++ (p.addr cfg ++ codes ")"))
  ]
  server_address_of mariadb dsn = elim (p.parse_dsn (trim_mysql_scheme dsn)) [
    | rejected e ↦ []
    | accepted cfg ↦ p.net cfg ++ (codes "(" ++ (p.addr cfg ++ codes ")"))
  ]
  server_address_of pgx dsn = elim (p.pgx_parse (to_postgres_scheme dsn)) [
    | rejected e ↦ []
    | accepted session ↦ session.host ++ (codes ":" ++ itoa session.port)
  ]
  server_address_of cockroachdb dsn = elim (p.pgx_parse (to_postgres_scheme dsn)) [
    | rejected e ↦ []
    | accepted session ↦ session.host ++ (codes ":" ++ itoa session.port)
  ]
  server_address_of mssql dsn = elim (p.url_parse dsn) [
    | rejected e ↦ []
    | accepted u ↦ p.url_host u
  ]
  server_address_of _ dsn = []

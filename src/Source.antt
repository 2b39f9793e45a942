-- ===== src/Source.antt =====
-- db.go: data source names, and the drivers that they name. Letter case is that of ASCII: a name outside of
-- ASCII is longer in bytes than the scheme whose letters it folds to.
pub mod Scheme
pub mod Database
pub mod Parsers
pub mod Setting
use sequel.Lex.{lexing}
use sequel.Base.{
  ℕ, ◌+◌, Bool, true, false, not, ◌&&◌, ◌||◌, List, [], ◌∷◌, ◌++◌, reverse, Option, none, some,
  Bytes, codes, take, drop, leb, ◌==◌, equal, contains, has_prefix, if◌then◌else◌,
}
use sequel.Driver.{Driver, mysql, mariadb, pgx, cockroachdb, mssql, sqlite}

-- `strings.CutPrefix`
unfoldable pub cut_prefix : Bytes → Bytes → Option Bytes
cut_prefix [] s = some s
cut_prefix (p ∷ ps) [] = none
cut_prefix (p ∷ ps) (c ∷ cs) = if c == p then cut_prefix ps cs else none

-- `strings.TrimPrefix`
unfoldable pub trim_prefix : Bytes → Bytes → Bytes
trim_prefix part s = elim (cut_prefix part s) [ none ↦ s | some rest ↦ rest ]

-- `strings.HasSuffix`
unfoldable pub has_suffix : Bytes → Bytes → Bool
has_suffix s part = has_prefix (reverse s) (reverse part)

-- `toPostgresScheme`
unfoldable pub to_postgres_scheme : Bytes → Bytes
to_postgres_scheme dsn = elim (cut_prefix (codes "cockroachdb://") dsn) [
  | some rest ↦ codes "postgres://" ++ rest
  | none ↦ dsn
]

-- `trimMySQLScheme`
unfoldable pub trim_mysql_scheme : Bytes → Bytes
trim_mysql_scheme dsn = elim (cut_prefix (codes "mysql://") dsn) [
  | some rest ↦ rest
  | none ↦ trim_prefix (codes "mariadb://") dsn
]

-- `cutPostgresScheme`
unfoldable pub cut_postgres_scheme : Bytes → Option Bytes
cut_postgres_scheme dsn = elim (cut_prefix (codes "postgres://") dsn) [
  | some rest ↦ some rest
  | none ↦ cut_prefix (codes "postgresql://") dsn
]

abbrev pub lower_byte : ℕ → ℕ
lower_byte c = if leb b'A' c && leb c b'Z' then c + 32 else c

-- What follows a scheme in any letter case; the scheme is in lower case.
unfoldable pub cut_fold : Bytes → Bytes → Option Bytes
cut_fold [] s = some s
cut_fold (p ∷ ps) [] = none
cut_fold (p ∷ ps) (c ∷ cs) = if lower_byte c == p then cut_fold ps cs else none

-- `knownSchemes`
abbrev pub known_schemes : List Bytes
known_schemes =
    codes "cockroachdb://"
    ∷ codes "mariadb://"
    ∷ codes "mysql://"
    ∷ codes "postgres://"
    ∷ codes "postgresql://"
    ∷ codes "sqlserver://"
    ∷ []

unfoldable pub lower_of : List Bytes → Bytes → Bytes
lower_of [] dsn = dsn
lower_of (scheme ∷ schemes) dsn = elim (cut_fold scheme dsn) [
  | some rest ↦ scheme ++ rest
  | none ↦ lower_of schemes dsn
]

-- `lowerScheme`
unfoldable pub lower_scheme : Bytes → Bytes
lower_scheme dsn = lower_of known_schemes dsn

-- tcp, tcp4, tcp6 or unix, and an opening parenthesis.
unfoldable pub is_network : Bytes → Bool
is_network s =
    has_prefix s (codes "tcp(")
    || (has_prefix s (codes "tcp4(")
        || (has_prefix s (codes "tcp6(") || has_prefix s (codes "unix(")))

-- `mySQLNetworkPattern`: a network behind an '@' that no '/' stands before.
unfoldable pub names_network : Bytes → Bool
names_network [] = false
names_network (c ∷ cs) =
    let later = names_network cs in
    if c == b'/' then false else (c == b'@' && is_network cs) || later

-- The loop of `inferDriverName` over the schemes.
unfoldable pub driver_of_scheme : List (Bytes × Driver) → Bytes → Option Driver
driver_of_scheme [] dsn = none
driver_of_scheme ((scheme, d) ∷ schemes) dsn =
    if has_prefix dsn scheme then some d else driver_of_scheme schemes dsn

abbrev pub scheme_drivers : List (Bytes × Driver)
scheme_drivers =
    (codes "cockroachdb://", cockroachdb)
    ∷ (codes "mariadb://", mariadb)
    ∷ (codes "mysql://", mysql)
    ∷ (codes "postgres://", pgx)
    ∷ (codes "postgresql://", pgx)
    ∷ (codes "sqlserver://", mssql)
    ∷ (codes "file:", sqlite)
    ∷ []

-- What `inferDriverName` makes of a name without a scheme.
unfoldable pub driver_of_format : Bytes → Option Driver
driver_of_format dsn =
    if equal dsn (codes ":memory:")
    then some sqlite
    else if has_suffix dsn (codes ".db")
        || (has_suffix dsn (codes ".sqlite") || has_suffix dsn (codes ".sqlite3"))
    then some sqlite
    else if contains dsn (codes "tcp(")
    then some mysql
    else if contains dsn (codes ":3306")
    then some mysql
    else if contains dsn (codes ":5432")
    then some pgx
    else if contains dsn (codes ":26257")
    then some cockroachdb
    else if contains dsn (codes ":1433")
    then some mssql
    else none

abbrev first_of : Option Driver → Option Driver → Option Driver
first_of (some d) other = some d
first_of none other = other

abbrev infer_lowered : Bytes → Option Driver
infer_lowered dsn =
    if has_prefix dsn (codes "file:") && names_network dsn
    then some mysql
    else first_of (driver_of_scheme scheme_drivers dsn) (driver_of_format dsn)

-- `inferDriverName`, none for the empty name.
unfoldable pub infer_driver_name : Bytes → Option Driver
infer_driver_name dsn = if equal dsn [] then none else infer_lowered (lower_scheme dsn)

-- The text in front of the first '?', and the text from it on.
unfoldable pub before_query : Bytes → Bytes
before_query [] = []
before_query (c ∷ cs) = if c == b'?' then [] else c ∷ before_query cs

unfoldable pub from_query : Bytes → Bytes
from_query [] = []
from_query (c ∷ cs) = if c == b'?' then c ∷ cs else from_query cs

-- `databaseNameFromDataSourceName` for SQLite, of a name that is not empty.
unfoldable pub sqlite_database_name : Bytes → Bytes
sqlite_database_name dsn = before_query (trim_prefix (codes "file:") dsn)

-- `setDatabaseInDataSourceName` for SQLite, of a name that is not empty.
unfoldable pub set_sqlite_database : Bytes → Bytes → Bytes
set_sqlite_database dsn name = elim (cut_prefix (codes "file:") dsn) [
  | some rest ↦ codes "file:" ++ (name ++ from_query rest)
  | none ↦ name
]

-- What `normalizeDriverAndDSN` adds to a data source name of SQLite.
unfoldable pub with_busy_timeout : Bytes → Bytes
with_busy_timeout dsn =
    if contains dsn (codes "busy_timeout")
    then dsn
    else if contains dsn (codes "?")
    then dsn ++ codes "&_pragma=busy_timeout(2000)"
    else dsn ++ codes "?_pragma=busy_timeout(2000)"

-- Behind the userinfo: everything before an '@' in front of the first '/'.
unfoldable pub behind_userinfo : Bytes → Bytes → Bytes
behind_userinfo whole [] = whole
behind_userinfo whole (c ∷ cs) =
    let rest = behind_userinfo whole cs in
    if c == b'@' then cs else if c == b'/' then whole else rest

-- `pinSessionTimeZoneUTC`; `chose` is `callerChoseTimeZone`, which asks the driver and the environment.
unfoldable pub pin_session_time_zone_utc : (Bytes → Bool) → Bytes → Bytes
pin_session_time_zone_utc chose dsn =
    if has_prefix dsn (codes "registeredConnConfig") || chose dsn
    then dsn
    else elim (cut_postgres_scheme dsn) [
      | none ↦ codes "timezone=UTC " ++ dsn
      | some rest ↦
          if not (contains (behind_userinfo rest rest) (codes "?"))
          then dsn ++ codes "?timezone=UTC"
          else if has_suffix dsn (codes "?") || has_suffix dsn (codes "&")
          then dsn ++ codes "timezone=UTC"
          else dsn ++ codes "&timezone=UTC"
    ]

-- Opens the data source names, for evaluation at concrete inputs.
unfoldable pub sourcing : Unit {0}
unfolding lexing equal contains cut_prefix trim_prefix has_suffix to_postgres_scheme
    trim_mysql_scheme cut_postgres_scheme cut_fold lower_of lower_scheme is_network names_network
    driver_of_scheme driver_of_format infer_driver_name before_query from_query sqlite_database_name
    set_sqlite_database with_busy_timeout behind_userinfo pin_session_time_zone_utc
sourcing = tt

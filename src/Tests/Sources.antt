-- ===== src/Tests/Sources.antt =====
-- db.go: data source names with parsers of a small format.
use sequel.Base.{itoa, true, some, ℕ, zero, suc, ◌≡◌, refl, false, [], ◌∷◌, Bytes, codes}
use sequel.Driver.{pgx, mssql}
use sequel.Pool.Driven.{driven}
use sequel.Pool.{testing_key}
use sequel.Pool.Dropped.{pooling}
use sequel.Source.{sourcing}
use sequel.Source.Parsers.{
  Session, parsed, Read, rejected, accepted, Parsers, set_database_in_data_source_name,
  database_name_from_data_source_name,
}
use sequel.Source.Setting.{Lawful, cons-some, set_database-read}

-- A URL is a path and the value of its query, printed with the bytes of the path moved up by one, behind
-- which a zero stands.
abbrev print_url : Bytes × Bytes → Bytes
print_url ([], query) = 0 ∷ query
print_url (c ∷ cs, query) = suc c ∷ print_url (cs, query)

abbrev put_byte : ℕ → Read (Bytes × Bytes) → Read (Bytes × Bytes)
put_byte c (rejected e) = rejected e
put_byte c (accepted (path, query)) = accepted (c ∷ path, query)

abbrev read_url : Bytes → Read (Bytes × Bytes)
read_url [] = rejected []
read_url (zero ∷ query) = accepted ([], query)
read_url (suc c ∷ cs) = put_byte c (read_url cs)

print_url-read : (path query : Bytes) → read_url (print_url (path, query)) ≡ accepted (path, query)
print_url-read [] query = refl
print_url-read (c ∷ cs) query = rw (print_url-read cs query) refl

abbrev read_config : Bytes → Read Bytes
read_config [] = rejected []
read_config (c ∷ cs) = accepted cs

abbrev session : Session
session = record { runtime_params = []; host = codes "h"; port = 5432 }

abbrev small : Parsers Bytes (Bytes × Bytes)
small = record {
  parse_dsn = read_config;
  format_dsn = λ cfg. b'/' ∷ cfg;
  db_name = λ cfg. cfg;
  with_db_name = λ n cfg. n;
  net = λ cfg. codes "tcp";
  addr = λ cfg. codes "h:3306";
  with_param = λ k v cfg. cfg;
  pgx_parse = λ dsn. accepted session;
  mssql_parse = λ dsn. accepted tt;
  url_parse = read_url;
  url_string = print_url;
  url_host = λ u. codes "h";
  url_path = λ u. u.0;
  with_path = λ path u. (path, u.1);
  query_get = λ k u. u.1;
  query_set = λ k v u. (u.0, v);
  query_del = λ k u. (u.0, []);
  matches_options = λ v. false;
  getenv = λ v. [];
}

print_url-some : (path query : Bytes) → ¬ (print_url (path, query) ≡ [])
print_url-some [] query h = cc
print_url-some (c ∷ cs) query h = cc

abbrev small-Lawful : Lawful small
small-Lawful = record {
  Plain = λ u. Unit;
  Valid = λ cfg. Unit;
  dsn_valid = λ dsn cfg reads. tt;
  db_name_valid = λ n cfg valid. tt;
  db_name_set = λ n cfg. refl;
  format_some = λ cfg h. cons-some h;
  format_parsed = λ cfg valid. (cfg, refl, refl);
  path_set = λ path u. refl;
  path_plain = λ path u plain. tt;
  query_set_get = λ k v u. refl;
  query_del_get = λ k u. refl;
  query_set_plain = λ k v u plain. tt;
  query_del_plain = λ k u plain. tt;
  url_some = λ u plain. print_url-some u.0 u.1;
  url_parsed = λ u plain. (u, print_url-read u.0 u.1, refl, λ k. refl);
}

set_database-read_example :
    database_name_from_data_source_name small pgx (print_url (codes "/new", codes "q"))
    ≡ parsed (codes "new")
set_database-read_example =
    set_database-read small small-Lawful pgx (print_url (codes "/old", codes "q")) (codes "new")
      (print_url (codes "/new", codes "q")) tt (λ u reads. tt) refl (session, refl)

mssql_run :
    set_database_in_data_source_name small mssql (print_url (codes "/", codes "old")) (codes "new")
    ≡ parsed (print_url (codes "/", codes "new"))
mssql_run = refl

key_run :
    testing_key
      (driven small (λ q d dsn. true) (λ q d dsn. true) (λ s. s))
      pgx
      (print_url (codes "/testing_01_a", codes "testing_"))
    ≡ some (codes "pgx|h:5432|testing_01_a")
unfolding pooling sourcing itoa
key_run = refl

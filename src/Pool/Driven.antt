-- ===== src/Pool/Driven.antt =====
-- db.go: the pools with what the program makes of data source names, over the parsers of the drivers.
use sequel.Base.{Bool, Option, none, some, Bytes}
use sequel.Driver.{Driver}
use sequel.Pool.{Pools, Engine}
use sequel.Source.Parsers.{
  Parsed, failed, parsed, Parsers, normalize_driver_and_dsn, database_name_from_data_source_name,
  server_address_of,
}

abbrev value_of {ℓ} : {T : Type ℓ} → Parsed T → Option T
value_of (failed e) = none
value_of (parsed value) = some value

-- Whether a pool opens, whether its first connection is made, and the hash stay parameters.
abbrev pub driven :
    {Config Url : Type 0}
    → Parsers Config Url
    → (Pools → Driver → Bytes → Bool)
    → (Pools → Driver → Bytes → Bool)
    → (Bytes → Bytes)
    → Engine
driven p opens pings hash_str = record {
  normalize = λ d dsn. value_of (normalize_driver_and_dsn p d dsn);
  database_name = λ d dsn. value_of (database_name_from_data_source_name p d dsn);
  server_address = server_address_of p;
  opens = opens;
  pings = pings;
  hash_str = hash_str;
}

-- ===== src/Tests/Pools.antt =====
-- db.go: runs of Open, OpenSingleton and Close.
use sequel.Base.{◌≡◌, refl, true, false, List, [], ◌∷◌, none, some, Bytes, codes}
use sequel.Driver.{sqlite}
use sequel.Pool.{Engine, is_leftover, adjust_connection_limits, opened, close_db}
use sequel.Pool.Counted.{held}
use sequel.Pool.Dropped.{
  PoolCall, open_call, singleton_call, close_call, no_pools, Verdict, perform_pools,
  perform_pools-dropped, pooling,
}

abbrev engine : Engine
engine = record {
  normalize = λ d dsn. some (d, dsn);
  database_name = λ d dsn. some dsn;
  server_address = λ d dsn. [];
  opens = λ p d dsn. true;
  pings = λ p d dsn. true;
  hash_str = λ s. s;
}

abbrev name : Bytes
name = codes "testing_12_abc"

abbrev key : Bytes
key = codes "sqlite||testing_12_abc"

-- Two handles on one database, a singleton twice.
abbrev calls : List PoolCall
calls =
    open_call sqlite name
    ∷ singleton_call sqlite name
    ∷ singleton_call sqlite name
    ∷ close_call 0
    ∷ close_call 1
    ∷ []

perform_pools-dropped_example :
    ((perform_pools engine calls no_pools).refs key
      ≡ held engine key (perform_pools engine calls no_pools).handles)
    × Verdict key
        (held engine key (perform_pools engine calls no_pools).handles)
        (held engine key (close_db engine 1 (perform_pools engine calls no_pools)).0.handles)
        (close_db engine 1 (perform_pools engine calls no_pools)).1
perform_pools-dropped_example = perform_pools-dropped engine calls 1 key

-- One handle is left, and closing it drops the database.
dropped_run : (close_db engine 1 (perform_pools engine calls no_pools)).1 ≡ some key
unfolding pooling
dropped_run = refl

not_dropped : (close_db engine 0 (perform_pools engine calls no_pools)).1 ≡ none
unfolding pooling
not_dropped = refl

leftover_minutes : is_leftover (codes "testing_33_abc") ≡ false
unfolding pooling
leftover_minutes = refl

limits_of_26 :
    (adjust_connection_limits (record (opened sqlite name) { ref_count = 26 })).limits
    ≡ some (14, 6)
unfolding pooling
limits_of_26 = refl

-- ===== src/Source/Scheme.antt =====
-- db.go: the driver that `inferDriverName` tells from a scheme, in any letter case.
use sequel.Base.{◌≡◌, Bool, true, false, not, ◌||◌, List, [], ◌∷◌, ◌⊎◌, Bytes, codes, ◌==◌}
use sequel.Driver.{Driver, mysql, mariadb, pgx, cockroachdb, mssql}
use sequel.Source.{lower_byte}

-- The schemes of servers, with their drivers.
pub data SchemeOf : Bytes → Driver → Type 0 where
  cockroach_scheme : SchemeOf (codes "cockroachdb://") cockroachdb
  mariadb_scheme : SchemeOf (codes "mariadb://") mariadb
  mysql_scheme : SchemeOf (codes "mysql://") mysql
  postgres_scheme : SchemeOf (codes "postgres://") pgx
  postgresql_scheme : SchemeOf (codes "postgresql://") pgx
  sqlserver_scheme : SchemeOf (codes "sqlserver://") mssql

-- The letters of `p` in any case.
abbrev pub Spells : Bytes → Bytes → Type 0
Spells [] [] = Unit
Spells (p ∷ ps) (c ∷ cs) = (lower_byte c ≡ p) × Spells ps cs
Spells _ _ = ⊥

-- Two texts that differ at a place that both have.
abbrev differ : Bytes → Bytes → Bool
differ [] q = false
differ (p ∷ ps) [] = false
differ (p ∷ ps) (q ∷ qs) = not (p == q) || differ ps qs

-- The schemes in front of one in a list all differ from it.
abbrev Stands : Bytes → List Bytes → Type 0
Stands p [] = ⊥
Stands p (q ∷ qs) = (p ≡ q) ⊎ ((differ p q ≡ true) × Stands p qs)

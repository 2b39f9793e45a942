-- ===== src/Driver.antt =====
-- The driver names that sequel dispatches on.
use sequel.Base.{Bool, true, false, Bytes}

-- A driver name. `other` is any name that no branch of the program mentions.
pub data Driver : Type 0 where
  mysql mariadb pgx cockroachdb mssql sqlite : Driver
  other : Bytes → Driver

-- `driverName == "mysql" || driverName == "mariadb"`
abbrev pub is_mysqlish : Driver → Bool
is_mysqlish mysql = true
is_mysqlish mariadb = true
is_mysqlish _ = false

-- `driverName == "pgx" || driverName == "cockroachdb"`
abbrev pub is_pg : Driver → Bool
is_pg pgx = true
is_pg cockroachdb = true
is_pg _ = false

abbrev pub is_mssql : Driver → Bool
is_mssql mssql = true
is_mssql _ = false

abbrev pub is_sqlite : Driver → Bool
is_sqlite sqlite = true
is_sqlite _ = false

-- db.go, `physicalDriverName`.
unfoldable pub physical_driver_name : Driver → Driver
physical_driver_name cockroachdb = pgx
physical_driver_name mariadb = mysql
physical_driver_name d = d

-- ===== src/Tests/Migrations.antt =====
-- db.go: runs of Migrate.
use sequel.Base.{
  ◌≡◌, ◌≢◌, refl, true, false, List, [], ◌∷◌, none, some, codes, length, leb, if◌then◌else◌, arith,
}
use sequel.Base.Int.{ℤ, pos}
use sequel.Driver.{sqlite, mysql, pgx}
use sequel.Migration.Complete.{FilesShown, migrate-done}
use sequel.Migration.Ends.{GivesUp, migrate-ends}
use sequel.Migration.Files.{File, read_files}
use sequel.Migration.Guarded.{Guarded}
use sequel.Migration.Guarded.Whole.{migrate-Guarded}
use sequel.Migration.Migrate.{at, find_watermark, migrate, plan_of, migrating}
use sequel.Migration.Statements.{statements_of}
use sequel.Migration.{Ask, take_lock, Answer, Event, Server, done, waiting}

statements_sqlite :
    statements_of sqlite (
      codes
        "CREATE TABLE t (a INT); \n-- DRIVER: mysql mariadb\nSET x=1;\n-- none\n;\nDROP TABLE u")
    ≡ codes "CREATE TABLE t (a INT)" ∷ codes "DROP TABLE u" ∷ []
unfolding migrating
statements_sqlite = refl

statements_mysql :
    statements_of mysql (codes "-- DRIVER: mysql mariadb\nSET x=1;\nDROP TABLE u")
    ≡ codes "SET x=1" ∷ codes "DROP TABLE u" ∷ []
unfolding migrating
statements_mysql = refl

-- A server that grants locks once it was asked five times.
abbrev server : Server
server = record {
  answer = answer;
  watermark = λ log. some (pos 1);
  renewals = λ log. 1;
  contention = λ e. false;
  duplicate = λ e. false;
}
  where
    answer : List Event → Ask → Answer
    answer log (take_lock n) = record { err = none; value = if leb 5 (length log) then 1 else 0 }
    answer log a = record { err = none; value = 0 }

abbrev files : List File
files =
    record { name = codes "1.sql"; content = codes "DROP TABLE u"; read_err = none }
    ∷ record { name = codes "2.sql"; content = codes "DROP TABLE v"; read_err = none }
    ∷ record { name = codes "notes.txt"; content = []; read_err = none }
    ∷ []

migrate_run : (migrate server 8 pgx true none files []).1 ≡ done
unfolding migrating
migrate_run = refl

migrate-Guarded_example :
    (mark : ℤ) × Guarded
      (plan_of pgx (read_files mark files).0)
      (migrate server 8 pgx true none files []).0
migrate-Guarded_example = migrate-Guarded server 8 pgx true none files

migrate-done_example :
    (mark : ℤ) × ((find_watermark server true []).1 ≡ at mark)
    × FilesShown mark files (migrate server 8 pgx true none files []).0
unfolding migrating
migrate-done_example = migrate-done server 8 pgx true none files [] refl

server-GivesUp : GivesUp server 5
server-GivesUp log n h = ground (arith, h)

migrate-ends_example : (migrate server 8 pgx true none files []).1 ≢ waiting
migrate-ends_example = migrate-ends server 5 8 pgx true none files [] server-GivesUp (omega arith)

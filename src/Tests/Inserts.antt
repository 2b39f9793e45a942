-- ===== src/Tests/Inserts.antt =====
-- db.go and tx.go: runs of InsertReturnID.
use sequel.Base.{◌≡◌, refl, false, List, [], Option, none, some, Bytes, codes}
use sequel.Base.Int.{pos}
use sequel.Driver.{pgx, mysql}
use sequel.Insert.Clause.{Injected, inject_output_inserted-Injected}
use sequel.Insert.Recorded.{HasError, tx_insert_return_id-HasError}
use sequel.Insert.{Ids, inserting, inject_output_inserted, tx_insert_return_id}
use sequel.Transaction.Transact.{begun, transacting}
use sequel.Transaction.{
  Fault, misuse, bad_id_column, no_rows, row_scan, Request, Query, Sent, Outside,
}

-- A database on which no row is found.
abbrev outside : Outside
outside = record { answer = answer; more = λ log. false; delay = λ log. none }
  where
    answer : List Sent → Request → Option Fault
    answer log row_scan = some no_rows
    answer log _ = none

abbrev unpack : Bytes → Query
unpack q = record { text = q; err = none }

abbrev ids : Ids
ids = record { last_insert_id = λ log. (none, pos 5); scanned_id = λ log. pos 6 }

abbrev insert_text : Bytes
insert_text = codes "INSERT INTO t (a) VALUES (?)"

tx_insert_return_id-HasError_example :
    HasError
      (tx_insert_return_id outside unpack ids pgx (codes "id") insert_text (begun outside [])).0
unfolding transacting inserting
tx_insert_return_id-HasError_example =
    tx_insert_return_id-HasError outside unpack ids pgx (codes "id") insert_text (begun outside [])
      no_rows refl refl

inject_output_inserted-Injected_example :
    Injected insert_text (codes "id") (inject_output_inserted insert_text (codes "id"))
inject_output_inserted-Injected_example = inject_output_inserted-Injected insert_text (codes "id")

mysql_run :
    (tx_insert_return_id outside unpack ids mysql (codes "id") insert_text (begun outside [])).1
    ≡ (none, pos 5)
unfolding transacting inserting
mysql_run = refl

column_run :
    (tx_insert_return_id outside unpack ids mysql (codes "i-d") insert_text (begun outside [])).1
    ≡ (some (misuse bad_id_column), pos 0)
unfolding transacting inserting
column_run = refl

select_run :
    inject_output_inserted (codes "INSERT INTO t (a)\tselect a FROM u") (codes "id")
    ≡ some (codes "INSERT INTO t (a) OUTPUT INSERTED.id\tselect a FROM u")
unfolding inserting
select_run = refl

-- A quoted name takes the clause.
quoted_run :
    inject_output_inserted (codes "INSERT INTO [old values] (a) VALUES (?)") (codes "id")
    ≡ some (codes "INSERT INTO [old OUTPUT INSERTED.id values] (a) VALUES (?)")
unfolding inserting
quoted_run = refl

-- ===== src/Tests/Batches.antt =====
-- batch.go: runs of a batch and of its rows.
use sequel.Base.{
  ℕ, ◌≡◌, refl, true, false, [], ◌∷◌, none, some, codes, List, Option, Bytes, equal, ◌==◌,
  if◌then◌else◌,
}
use sequel.Batch.Rows.{kept, scan_row, close_rows, read_all, read_all-kept, AtEnd, AtEnd}
use sequel.Batch.{RawRow, BatchItem, Batch, Wire, Outcome, fail_from}
use sequel.Batch.Handed.{Reading, failed, streamed}
use sequel.Batch.Reading.{exec_failed, query, close}
use sequel.Batch.Reading.{exec}
use sequel.Batch.Reading.Held.{exec_call, query_call, perform_all, reading_batches}
use sequel.Batch.Reading.Release.{sent_reading, close-releases}
use sequel.Batch.Reading.Superseded.{Refused, exec-Refused}
use sequel.Batch.Reading.Sticky.{perform_all-reports}
use sequel.Batch.OneTrip.{exec_all}
use sequel.Batch.OneTrip.Same.{unheld, exec_all-same}
use sequel.Transaction.Transact.{transacting}
use sequel.Transaction.{Fault, tx_done, reported, Query, Request, Sent, Outside, Tx}

abbrev item : BatchItem
item = record {
  query = codes "UPDATE t SET a=1";
  has_named_arg = false;
  err = none;
  rows_affected = 0;
  rows = [];
}

abbrev batch : Batch
batch = record { items = item ∷ []; sent = false }

-- A transaction with this batch and another that are queued.
abbrev tx : Tx
tx = record {
  auto_err = true;
  err = none;
  done = false;
  unsent_batches = 2;
  batch_misuse = none;
  open_batch = none;
  batch_executing = false;
  log = [];
}

read_all-kept_example :
    ((read_all {R = ℕ} 3 (record { rows = kept (4 ∷ 5 ∷ []); next = 0 })).1 ≡ some 4 ∷ some 5 ∷ [])
    × AtEnd 2 (read_all {R = ℕ} 3 (record { rows = kept (4 ∷ 5 ∷ []); next = 0 })).0
read_all-kept_example = read_all-kept (4 ∷ 5 ∷ [])

closed_rows : scan_row {R = ℕ} (close_rows (record { rows = kept (4 ∷ 5 ∷ []); next = 1 })) ≡ none
unfolding close_rows scan_row
closed_rows = refl

failed_items :
    fail_from 1 tx_done (item ∷ item ∷ []) ≡ item ∷ record item { err = some tx_done } ∷ []
unfolding fail_from
failed_items = refl

-- A database that fails the statement `bad` with error 7.
abbrev ends_of : Bytes → Option Fault
ends_of q = if equal q (codes "bad") then some (reported 7) else none

abbrev outside : Outside
outside = record { answer = answer; more = λ log. false; delay = λ log. none }
  where
    answer : List Sent → Request → Option Fault
    answer log (sequel.Transaction.exec q) = ends_of q
    answer log _ = none

abbrev unpack : Bytes → Query
unpack q = record { text = q; err = none }

abbrev scan : RawRow → Option Fault
scan row = none

abbrev bad_item : BatchItem
bad_item = record item { query = codes "bad" }

abbrev free_tx : Tx
free_tx = record tx { unsent_batches = 1 }

abbrev after_exec : Reading
after_exec =
    perform_all outside unpack scan (exec_call ∷ [])
      (sent_reading none 7 item (bad_item ∷ []) free_tx)

close-releases_example :
    ((close outside unpack after_exec).0.results.closed ≡ true)
    × ((close outside unpack after_exec).0.tx.open_batch ≡ none)
    × (close outside unpack (close outside unpack after_exec).0 ≡ close outside unpack after_exec)
unfolding transacting reading_batches equal
close-releases_example =
    close-releases outside unpack scan (exec_call ∷ []) none 7 item (bad_item ∷ []) free_tx refl
      refl refl

-- Close runs the statement that is not read, and reports its failure.
close_run : (close outside unpack after_exec).1 ≡ some (reported 7)
unfolding transacting reading_batches equal
close_run = refl

-- The results of a batch whose first statement has failed.
abbrev failed_reading : Reading
failed_reading =
    perform_all outside unpack scan (exec_call ∷ [])
      (sent_reading none 7 bad_item (item ∷ []) free_tx)

perform_all-reports_example :
    ((exec outside unpack (perform_all outside unpack scan (query_call ∷ []) failed_reading)).1
      ≡ exec_failed (reported 7))
    × ((query outside unpack (perform_all outside unpack scan (query_call ∷ []) failed_reading)).1
        ≡ failed (reported 7))
    × ((close outside unpack (perform_all outside unpack scan (query_call ∷ []) failed_reading)).1
        ≡ some (reported 7))
unfolding transacting reading_batches equal
perform_all-reports_example =
    perform_all-reports outside unpack scan (query_call ∷ []) failed_reading (reported 7)
      record { idle = refl; held = refl } refl refl

-- The round trip of a database that fails the second statement.
abbrev wire : Wire
wire = record {
  unpack_err = λ q. none;
  delay = none;
  borrow_err = none;
  is_idle = false;
  outcome = outcome;
  close_err = none;
}
  where
    outcome : ℕ → Outcome
    outcome i = record {
      query_err = if i == 1 then some (reported 7) else none;
      rows = [];
      rows_err = none;
      rows_affected = 1;
    }

exec_all-same_example :
    (exec_all outside unpack 3
        (sent_reading (some wire) 7 item (bad_item ∷ item ∷ []) (unheld true free_tx))
      ≡ none ∷ some (reported 7) ∷ some (reported 7) ∷ [])
    × (exec_all outside unpack 3
          (sent_reading none 7 item (bad_item ∷ item ∷ []) (unheld true free_tx))
        ≡ none ∷ some (reported 7) ∷ some (reported 7) ∷ [])
unfolding transacting reading_batches equal
exec_all-same_example =
    exec_all-same outside unpack ends_of wire true 7 item (bad_item ∷ item ∷ []) free_tx
      record { unpacked = λ q. refl; prompt = λ log. refl; answered = λ log q. refl } refl refl refl
      refl

-- The results of a batch whose first statement was read by Query.
abbrev queried_reading : Reading
queried_reading =
    perform_all outside unpack scan (query_call ∷ []) (sent_reading none 7 item (item ∷ []) free_tx)

exec-Refused_example :
    Refused 0 outside (exec outside unpack queried_reading).0
    × Refused 0 outside (query outside unpack queried_reading).0
unfolding transacting reading_batches equal
exec-Refused_example =
    exec-Refused 0 outside unpack
      record { src = streamed; closed = false; done = false; superseded = false } queried_reading
      refl refl refl refl refl refl

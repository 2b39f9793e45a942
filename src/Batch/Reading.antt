-- ===== src/Batch/Reading.antt =====
-- batchresults.go: the results of a batch that was sent, read one statement at a time. A statement that panics is
-- left out.
pub mod Frame
pub mod Kept
pub mod Reads
pub mod Held
pub mod Release
pub mod Sticky
pub mod Superseded
use sequel.Base.{
  ℕ, ◌+◌, ◌-◌, true, false, not, ◌&&◌, ◌||◌, List, [], ◌∷◌, ◌++◌, Option, none, some, Bytes, length,
  get_elem?, set, drop, if◌then◌else◌, ◌==◌,
}
use sequel.Batch.{RawRow, BatchItem}
use sequel.Batch.Handed.{
  RowSource, streamed, buffered, BatchRows, Reading, QueryResult, failed, handed_out, fail_reading,
  with_tx, close_handed,
}
use sequel.Transaction.{
  Fault, misuse, results_closed, no_more_results, Query, Outside, Tx, exec_context, query_context,
  finalize, rollback,
}

-- What `advance` answers.
pub data Advance : Type 0 where
  item : BatchItem → Advance
  refused : Fault → Advance

-- The result of a statement that returns no rows: the count of the round trip, or the driver's.
pub data ExecResult : Type 0 where
  exec_failed : Fault → ExecResult
  affected : ℕ → ExecResult
  of_driver : ExecResult

-- `doomed`
unfoldable pub doomed : Reading → Reading
doomed s = if s.tx.auto_err then fail_reading s.tx.err s else s

-- `r.next++`
abbrev pub move : Reading → Reading
move s = record s { results = record s.results { next = s.results.next + 1 } }

-- The first failure of the items, whether or not it was read.
abbrev pub first_err : List BatchItem → Option Fault
first_err [] = none
first_err (it ∷ items) = elim it.err [ some e ↦ some e | none ↦ first_err items ]

abbrev pub release_rows : List BatchItem → List BatchItem
release_rows [] = []
release_rows (it ∷ items) = record it { rows = [] } ∷ release_rows items

-- The transaction is released by the batch that holds it.
abbrev pub release_batch : ℕ → Option ℕ → Option ℕ
release_batch n none = none
release_batch n (some m) = if m == n then none else some m

abbrev pub marked : BatchRows → BatchRows
marked rows = record rows { superseded = rows.superseded || (not rows.closed && not rows.done) }

abbrev pub no_open : Reading → Reading
no_open s = record s { results = record s.results { open_rows = none } }

abbrev pub taken : BatchItem → Reading → Reading × Advance
taken it s =
    if s.results.pipelined
    then (elim it.err [ none ↦ (s, item it) | some e ↦ (fail_reading (some e) s, refused e) ])
    else (s, item it)

abbrev pub advance_open : Reading → Reading × Advance
advance_open s = elim s.results.err [
  | some e ↦ (move s, refused e)
  | none ↦ elim (get_elem? s.items s.results.next) [
    | none ↦ (s, refused (misuse no_more_results))
    | some it ↦ taken it (move s)
  ]
]

-- `run` of a statement that does not panic.
unfoldable pub run : (Tx → Tx × Option Fault) → Reading → Reading × Option Fault
run statement s =
    let (t, err) = statement (record s.tx { batch_executing = true }) in
    (with_tx (record t { batch_executing = false }) s, err)

abbrev pub exec_result : Option Fault → ExecResult
exec_result none = of_driver
exec_result (some e) = exec_failed e

-- The rows that Query hands out.
abbrev pub hand_out : RowSource → Reading → Reading × QueryResult
hand_out src s = (
  record s {
    handed =
        s.handed ++ (record { src = src; closed = false; done = false; superseded = false } ∷ []);
    results = record s.results { open_rows = some (length s.handed) };
  },
  handed_out (length s.handed),
)

-- The reader takes the buffered rows of the item over.
abbrev pub take_rows : BatchItem → Reading → Reading
take_rows it s = record s { items = set s.items (s.results.next - 1) (record it { rows = [] }) }

abbrev pub kept_rows : List RawRow → List (Option RawRow)
kept_rows [] = []
kept_rows (r ∷ rs) = some r ∷ kept_rows rs

abbrev pub query_result : Reading × Option Fault → Reading × QueryResult
query_result (s, none) = hand_out streamed s
query_result (s, some e) = (s, failed e)

-- The database.
module _ (o : Outside) where
  -- `supersedeOpen`
  unfoldable pub supersede_open : Reading → Reading
  supersede_open s = elim s.results.open_rows [
    | none ↦ s
    | some h ↦ elim (get_elem? s.handed h) [
      | none ↦ no_open s
      | some rows ↦ no_open (close_handed o h (marked rows) s).0
    ]
  ]

  -- `advance`
  unfoldable pub advance : Reading → Reading × Advance
  advance s =
      let t = supersede_open s in
      if t.results.closed then (t, refused (misuse results_closed)) else advance_open (doomed t)

  -- `abandon`
  unfoldable pub abandon : Reading → Reading
  abandon s =
      let t = supersede_open s in
      record t {
        results = record t.results { closed = true };
        items = release_rows t.items;
        tx = record t.tx { open_batch = release_batch t.results.name t.tx.open_batch };
      }

  -- `Tx.Rollback`, where the results of the open batch are the ones that are read.
  unfoldable pub rollback_open : Reading → Reading × Option Fault
  rollback_open s =
      let t : Reading = elim s.tx.open_batch [ none ↦ s | some n ↦ abandon s ] in
      let (u, err) = finalize o rollback t.tx in (with_tx u t, err)

-- The database, and how a statement is unpacked.
module _ (o : Outside) (unpack : Bytes → Query) where
  -- A statement of the batch that is run, and failed when it fails.
  unfoldable pub run_exec : BatchItem → Reading → Reading × Option Fault
  run_exec it s =
      let (t, err) = run (exec_context o (unpack it.query)) s in (fail_reading err t, err)

  unfoldable pub run_query : BatchItem → Reading → Reading × Option Fault
  run_query it s =
      let (t, err) = run (query_context o (unpack it.query)) s in (fail_reading err t, err)

  -- `BatchResults.Exec`
  unfoldable pub exec : Reading → Reading × ExecResult
  exec s =
      let (t, next) = advance o s in
      elim next [
        | refused e ↦ (t, exec_failed e)
        | item it ↦
            if t.results.pipelined
            then (t, affected it.rows_affected)
            else (let (u, err) = run_exec it t in (u, exec_result err))
      ]

  -- `BatchResults.Query`
  unfoldable pub query : Reading → Reading × QueryResult
  query s =
      let (t, next) = advance o s in
      elim next [
        | refused e ↦ (t, failed e)
        | item it ↦
            if t.results.pipelined
            then hand_out (buffered (record { rows = kept_rows it.rows; next = 0 }))
                (take_rows it t)
            else query_result (run_query it t)
      ]

  -- The statements that Close runs, until one fails.
  unfoldable pub run_left : List BatchItem → Reading → Reading
  run_left [] s = s
  run_left (it ∷ items) s = elim s.results.err [
    | some e ↦ s
    | none ↦ run_left items (run_exec it (move s)).0
  ]

  -- `BatchResults.Close` up to its end.
  unfoldable pub close_body : Reading → Reading
  close_body s =
      let t = doomed (supersede_open o s) in
      if t.results.pipelined
      then fail_reading (first_err t.items) t
      else run_left (drop t.results.next t.items) t

  -- `BatchResults.Close`
  unfoldable pub close : Reading → Reading × Option Fault
  close s =
      if s.results.closed
      then (s, s.results.err)
      else (let t = close_body s in (abandon o t, t.results.err))

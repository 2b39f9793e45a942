-- ===== src/Transaction.antt =====
-- tx.go, rows.go, stmt.go, the Row of telemetry.go, and the transactions of db.go. What lies outside is the
-- database with its driver: what it answers to a request may depend on all that was asked before,
-- which is the log, newest first. An error keeps its identity when it is traced, so a traced error is
-- the error. Spans, metrics and panics are left out.
pub mod ShortCircuit
pub mod Latch
pub mod Transact
use sequel.Base.{
  ℕ, suc, ◌+◌, Bool, true, false, not, ◌&&◌, List, [], ◌∷◌, Option, none, some, ltb, if◌then◌else◌,
  Bytes,
}

-- The program's errors of a batch that is not used as it must be.
pub data Misuse : Type 0 where
  queued_after_send already_sent named_args scan_without_row : Misuse
  results_closed no_more_results rows_superseded raw_bytes unsupported_driver bad_id_column
        no_source_clause :
      Misuse

-- An error: the three of database/sql that the program compares with, the program's own, and any other.
pub data Fault : Type 0 where
  no_rows tx_done conn_done batch_open batch_unsent batch_unclosed : Fault
  misuse : Misuse → Fault
  reported : ℕ → Fault

-- What `instrumentExec` reads of a prepared query: its text, or why it could not be unpacked.
pub record Query : Type 0 where
  pub text : Bytes
  pub err : Option Fault

pub data Request : Type 0 where
  begin xact_abort commit rollback : Request
  exec query query_row prepare : Bytes → Request
  rows_scan rows_err rows_close row_scan row_err : Request

pub record Sent : Type 0 where
  pub request : Request
  pub answer : Option Fault

-- The database: its answers, whether a result set has another row, and what the context reports
-- of a simulated delay.
pub record Outside : Type 0 where
  pub answer : List Sent → Request → Option Fault
  pub more : List Sent → Bool
  pub delay : List Sent → Option Fault

-- `Tx`, with the log in place of the embedded *sql.Tx. A batch is named by a number.
pub record Tx : Type 0 where
  pub auto_err : Bool
  pub err : Option Fault
  pub done : Bool
  pub unsent_batches : ℕ
  pub batch_misuse : Option Fault
  pub open_batch : Option ℕ
  pub batch_executing : Bool
  pub log : List Sent

-- `Row`: the error of a row that never ran.
pub record Row : Type 0 where
  pub short_err : Option Fault

-- `Stmt` of a transaction.
pub record Stmt : Type 0 where
  pub pq : Query
  pub err : Option Fault

-- `recordErr`, without its result, which is its argument.
unfoldable pub record_err : Option Fault → Tx → Tx
record_err none tx = tx
record_err (some e) tx =
    if tx.auto_err
    then (elim tx.err [ none ↦ record tx { err = some e } | some first ↦ tx ])
    else tx

-- `batchRefuses`
unfoldable pub batch_refuses : Tx → Bool
batch_refuses tx = elim tx.open_batch [ none ↦ false | some b ↦ not tx.batch_executing ]

-- `Tx.shortCircuit`
unfoldable pub short_circuit : Tx → Tx × Option Fault
short_circuit tx =
    if batch_refuses tx
    then (record_err (some batch_open) tx, some batch_open)
    else if tx.auto_err
    then (tx, tx.err)
    else (tx, none)

-- `batchPending`
unfoldable pub batch_pending : Tx → Option Fault
batch_pending tx = elim tx.batch_misuse [
  | some e ↦ some e
  | none ↦
      if ltb 0 tx.unsent_batches
      then some batch_unsent
      else elim tx.open_batch [ none ↦ none | some b ↦ some batch_unclosed ]
]

-- `latch` of a Row: a missing row is no failure.
unfoldable pub latch_row : Option Fault → Tx → Tx
latch_row (some no_rows) tx = tx
latch_row e tx = record_err e tx

module _ (o : Outside) where
  -- A request reaches the database.
  unfoldable pub ask : Request → Tx → Tx × Option Fault
  ask r tx =
      let a = o.answer tx.log r in
      (record tx { log = record { request = r; answer = a } ∷ tx.log }, a)

  -- `instrumentExec`
  unfoldable pub instrument_exec : Query → Request → Tx → Tx × Option Fault
  instrument_exec q r tx = elim q.err [
    | some e ↦ (tx, some e)
    | none ↦ elim (o.delay tx.log) [ some e ↦ (tx, some e) | none ↦ ask r tx ]
  ]

  -- The body that Exec, Query, Prepare and their namesakes with a context share.
  unfoldable pub statement : Query → Request → Tx → Tx × Option Fault
  statement q r tx =
      let (t, refused) = short_circuit tx in
      elim refused [
        | some e ↦ (t, some e)
        | none ↦ let (u, err) = instrument_exec q r t in (record_err err u, err)
      ]

  -- `Tx.ExecContext`
  unfoldable pub exec_context : Query → Tx → Tx × Option Fault
  exec_context q = statement q (exec q.text)

  -- `Tx.QueryContext`
  unfoldable pub query_context : Query → Tx → Tx × Option Fault
  query_context q = statement q (query q.text)

  -- `Tx.PrepareContext`
  unfoldable pub prepare_context : Query → Tx → Tx × (Option Fault × Stmt)
  prepare_context q tx =
      let (t, err) = statement q (prepare q.text) tx in (t, (err, record { pq = q; err = err }))

  -- `instrumentQueryRow`: database/sql defers the answer to the scan.
  unfoldable pub instrument_query_row : Query → Tx → Tx × Row
  instrument_query_row q tx = elim q.err [
    | some e ↦ (record_err (some e) tx, record { short_err = some e })
    | none ↦ (
      record tx { log = record { request = query_row q.text; answer = none } ∷ tx.log },
      record { short_err = none },
    )
  ]

  -- `Tx.QueryRowContext`
  unfoldable pub query_row_context : Query → Tx → Tx × Row
  query_row_context q tx =
      let (t, refused) = short_circuit tx in
      elim refused [ some e ↦ (t, record { short_err = some e }) | none ↦ instrument_query_row q t ]

  -- `Row.Scan` and `Row.Err`, by their request.
  unfoldable pub read_row : Request → Row → Tx → Tx × Option Fault
  read_row r row tx = elim row.short_err [
    | some e ↦ (tx, some e)
    | none ↦ let (t, err) = ask r tx in (latch_row err t, err)
  ]

  -- `Rows.Scan` and `Rows.Err`, by their request.
  unfoldable pub read_rows : Request → Tx → Tx × Option Fault
  read_rows r tx = let (t, err) = ask r tx in (record_err err t, err)

  -- `Rows.Next` and `Rows.NextResultSet`
  unfoldable pub rows_next : Tx → Tx × Bool
  rows_next tx =
      if o.more tx.log
      then (tx, true)
      else (let (t, err) = ask rows_err tx in (record_err err t, false))

  -- `Tx.StmtContext`, of a statement prepared on the pool.
  unfoldable pub stmt_context : Stmt → Tx → Tx × Stmt
  stmt_context s tx = elim s.err [
    | some e ↦ (tx, s)
    | none ↦
        if batch_refuses tx
        then (let (t, err) = short_circuit tx in (t, record s { err = err }))
        else (tx, s)
  ]

  -- `Stmt.ExecContext` and `Stmt.QueryContext` of a transaction, by their request.
  unfoldable pub stmt_run : Request → Stmt → Tx → Tx × Option Fault
  stmt_run r s tx = elim s.err [ some e ↦ (tx, some e) | none ↦ statement s.pq r tx ]

  -- `Stmt.QueryRowContext` of a transaction.
  unfoldable pub stmt_query_row : Stmt → Tx → Tx × Row
  stmt_query_row s tx = elim s.err [
    | some e ↦ (tx, record { short_err = some e })
    | none ↦ query_row_context s.pq tx
  ]

  -- Only an end without an error sets `done`.
  abbrev pub finished : Tx × Option Fault → Tx × Option Fault
  finished (tx, none) = (record tx { done = true }, none)
  finished (tx, some e) = (tx, some e)

  -- `finalize`
  unfoldable pub finalize : Request → Tx → Tx × Option Fault
  finalize r tx = if tx.done then (tx, some tx_done) else finished (ask r tx)

  -- `Tx.Commit`
  unfoldable pub commit_tx : Tx → Tx × Option Fault
  commit_tx tx = elim (batch_pending tx) [ some e ↦ (tx, some e) | none ↦ finalize commit tx ]

  -- `Tx.Rollback`, which gives up the batch whose results are open.
  unfoldable pub rollback_tx : Tx → Tx × Option Fault
  rollback_tx tx = finalize rollback (record tx { open_batch = none })

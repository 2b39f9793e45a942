-- ===== src/Transaction/Transact.antt =====
-- db.go: `transactOnce` and `Transact`. The closure is a program of calls of the transaction, which sees
-- what each returns. The classification of errors as lock contention is a parameter.
pub mod Closure
pub mod Commits
use sequel.Base.{
  ℕ, zero, suc, ◌+◌, Bool, true, false, List, [], ◌∷◌, Option, none, some, if◌then◌else◌, ◌==◌,
}
use sequel.Driver.{Driver, is_mssql}
use sequel.Transaction.{
  Fault, Query, Request, begin, xact_abort, rows_scan, rows_err, row_scan, row_err, exec, query,
  Sent, Outside, Tx, Row, Stmt, record_err, batch_refuses, short_circuit, latch_row, ask,
  instrument_exec, statement, instrument_query_row, finalize, batch_pending, exec_context,
  query_context, prepare_context, query_row_context, read_row, read_rows, rows_next, stmt_context,
  stmt_run, stmt_query_row, commit_tx, rollback_tx,
}

-- A call of a method of the transaction, or of a row, a result set or a statement that it returned.
pub data Call : Type 0 where
  tx_exec tx_query tx_prepare tx_query_row : Query → Call
  row_scan_call row_err_call : Row → Call
  rows_scan_call rows_err_call rows_next_call : Call
  tx_stmt stmt_exec stmt_query stmt_row : Stmt → Call
  tx_commit tx_rollback : Call

pub data Reply : Type 0 where
  error : Option Fault → Reply
  row : Row → Reply
  stmt : Option Fault → Stmt → Reply
  next : Bool → Reply

-- The closure `fn`, which ends with the error that it returns.
pub data Program : Type 0 where
  return : Option Fault → Program
  call : Call → (Reply → Program) → Program

abbrev pub reply {ℓ} : {A : Type ℓ} → (A → Reply) → Tx × A → Tx × Reply
reply f (tx, a) = (tx, f a)

module _ (o : Outside) where
  unfoldable pub perform : Call → Tx → Tx × Reply
  perform (tx_exec q) tx = reply error (exec_context o q tx)
  perform (tx_query q) tx = reply error (query_context o q tx)
  perform (tx_prepare q) tx = reply (λ r. stmt r.0 r.1) (prepare_context o q tx)
  perform (tx_query_row q) tx = reply row (query_row_context o q tx)
  perform (row_scan_call r) tx = reply error (read_row o row_scan r tx)
  perform (row_err_call r) tx = reply error (read_row o row_err r tx)
  perform rows_scan_call tx = reply error (read_rows o rows_scan tx)
  perform rows_err_call tx = reply error (read_rows o rows_err tx)
  perform rows_next_call tx = reply next (rows_next o tx)
  perform (tx_stmt s) tx = reply (stmt none) (stmt_context o s tx)
  perform (stmt_exec s) tx = reply error (stmt_run o (exec s.pq.text) s tx)
  perform (stmt_query s) tx = reply error (stmt_run o (query s.pq.text) s tx)
  perform (stmt_row s) tx = reply row (stmt_query_row o s tx)
  perform tx_commit tx = reply error (commit_tx o tx)
  perform tx_rollback tx = reply error (rollback_tx o tx)

  unfoldable pub run : Program → Tx → Tx × Option Fault
  run (return err) tx = (tx, err)
  run (call c rest) tx = let (t, r) = perform c tx in run (rest r) t

  -- A request outside of a `Tx`.
  unfoldable pub send : Request → List Sent → List Sent × Option Fault
  send r log = let a = o.answer log r in (record { request = r; answer = a } ∷ log, a)

  -- The transaction that `transactOnce` makes.
  abbrev pub begun : List Sent → Tx
  begun log = record {
    auto_err = true;
    err = none;
    done = false;
    unsent_batches = 0;
    batch_misuse = none;
    open_batch = none;
    batch_executing = false;
    log = log;
  }

  -- The deferred rollback of an attempt that did not commit.
  abbrev pub undo : Tx → Option Fault → List Sent × Option Fault
  undo tx err = ((rollback_tx o tx).0.log, err)

  abbrev ended : Tx × Option Fault → List Sent × Option Fault
  ended (tx, some e) = undo tx (some e)
  ended (tx, none) = (tx.log, none)

  -- `transactOnce` behind `fn`.
  unfoldable pub settle : Tx → Option Fault → List Sent × Option Fault
  settle tx (some e) = undo tx (some e)
  settle tx none = elim tx.err [
    | some e ↦ undo tx (some e)
    | none ↦ elim (batch_pending tx) [ some e ↦ undo tx (some e) | none ↦ ended (commit_tx o tx) ]
  ]

  -- `transactOnce`
  unfoldable pub transact_once : Driver → Program → List Sent → List Sent × Option Fault
  transact_once d fn log =
      let (opened, failed) = send begin log in
      elim failed [
        | some e ↦ (opened, some e)
        | none ↦ elim (is_mssql d) [
          | false ↦ (let (tx, err) = run fn (begun opened) in settle tx err)
          | true ↦
              let (set, refused) = send xact_abort opened in
              elim refused [
                | some e ↦ undo (begun set) (some e)
                | none ↦ (let (tx, err) = run fn (begun set) in settle tx err)
              ]
        ]
      ]

  -- The loop of `Transact` from attempt `n`, for `left` attempts; `err` is the last attempt's.
  unfoldable pub attempts :
      (Fault → Bool)
      → Driver
      → (ℕ → Program)
      → ℕ
      → ℕ
      → Option Fault
      → List Sent
      → List Sent × Option Fault
  attempts contention d fn zero n err log = (log, err)
  attempts contention d fn (suc left) n err log =
      let (after, failed) = transact_once d (fn n) log in
      elim failed [
        | none ↦ (after, none)
        | some e ↦ elim (contention e) [
          | false ↦ (after, some e)
          | true ↦ attempts contention d fn left (n + 1) (some e) after
        ]
      ]

  -- `Transact`; `fn n` is what the closure does when it is run for the attempt `n`.
  unfoldable pub transact :
      (Fault → Bool) → Driver → (ℕ → Program) → List Sent → List Sent × Option Fault
  transact contention d fn log = attempts contention d fn 8 0 none log

-- Opens the transactions, for evaluation at concrete inputs.
unfoldable pub transacting : Unit {0}
unfolding record_err batch_refuses short_circuit batch_pending latch_row ask instrument_exec
    statement exec_context query_context prepare_context instrument_query_row query_row_context
    read_row read_rows rows_next stmt_context stmt_run stmt_query_row finalize commit_tx rollback_tx
    perform run send settle transact_once attempts transact
transacting = tt

-- ===== src/Transaction/Transact/Closure.antt =====
-- db.go: what the closure of a transaction may do, and that its failures are remembered.
use sequel.Base.{refl, List}
use sequel.Transaction.Latch.Calls.{
  statement-Latched, query_row_context-Latched, read_rows-Latched, read_row-Latched,
  rows_next-Latched, stmt_context-Latched, stmt_run-Latched, stmt_query_row-Latched,
  rollback_tx-Latched,
}
use sequel.Transaction.Latch.{Latched}
use sequel.Transaction.Transact.{
  tx_exec, tx_query, tx_prepare, tx_query_row, row_scan_call, row_err_call, rows_scan_call,
  rows_err_call, rows_next_call, tx_stmt, stmt_exec, stmt_query, stmt_row, tx_commit, tx_rollback,
  Reply, Program, return, call, perform, run,
}
use sequel.Transaction.{
  exec, query, prepare, rows_scan, rows_err, row_scan, row_err, Sent, Outside, Tx, exec_context,
  query_context, prepare_context,
}

-- The closure leaves the commit to `Transact`, whatever its calls return.
abbrev pub LeavesCommit : Program → Type 0
LeavesCommit (return err) = Unit {0}
LeavesCommit (call tx_commit rest) = ⊥
LeavesCommit (call c rest) = (r : Reply) → LeavesCommit (rest r)

module _ (o : Outside) (base : List Sent) where
  pub run-Latched :
      (fn : Program) (tx : Tx) → LeavesCommit fn → Latched base tx → Latched base (run o fn tx).0
  unfolding run perform exec_context query_context prepare_context
  run-Latched (return err) tx p l = l
  run-Latched (call (tx_exec q) rest) tx p l =
      run-Latched (rest _) _ (p _) (statement-Latched o base q (exec q.text) tx refl l)
  run-Latched (call (tx_query q) rest) tx p l =
      run-Latched (rest _) _ (p _) (statement-Latched o base q (query q.text) tx refl l)
  run-Latched (call (tx_prepare q) rest) tx p l =
      run-Latched (rest _) _ (p _) (statement-Latched o base q (prepare q.text) tx refl l)
  run-Latched (call (tx_query_row q) rest) tx p l =
      run-Latched (rest _) _ (p _) (query_row_context-Latched o base q tx l)
  run-Latched (call (row_scan_call r) rest) tx p l =
      run-Latched (rest _) _ (p _) (read_row-Latched o base row_scan r tx refl refl l)
  run-Latched (call (row_err_call r) rest) tx p l =
      run-Latched (rest _) _ (p _) (read_row-Latched o base row_err r tx refl refl l)
  run-Latched (call rows_scan_call rest) tx p l =
      run-Latched (rest _) _ (p _) (read_rows-Latched o base rows_scan tx refl l)
  run-Latched (call rows_err_call rest) tx p l =
      run-Latched (rest _) _ (p _) (read_rows-Latched o base rows_err tx refl l)
  run-Latched (call rows_next_call rest) tx p l =
      run-Latched (rest _) _ (p _) (rows_next-Latched o base tx l)
  run-Latched (call (tx_stmt s) rest) tx p l =
      run-Latched (rest _) _ (p _) (stmt_context-Latched o base s tx l)
  run-Latched (call (stmt_exec s) rest) tx p l =
      run-Latched (rest _) _ (p _) (stmt_run-Latched o base (exec s.pq.text) s tx refl l)
  run-Latched (call (stmt_query s) rest) tx p l =
      run-Latched (rest _) _ (p _) (stmt_run-Latched o base (query s.pq.text) s tx refl l)
  run-Latched (call (stmt_row s) rest) tx p l =
      run-Latched (rest _) _ (p _) (stmt_query_row-Latched o base s tx l)
  run-Latched (call tx_commit rest) tx p l = absurd p
  run-Latched (call tx_rollback rest) tx p l =
      run-Latched (rest _) _ (p _) (rollback_tx-Latched o base tx l)

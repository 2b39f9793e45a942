-- ===== src/Transaction/Latch/Calls.antt =====
-- tx.go, rows.go and stmt.go: every call but a commit remembers the failures among its answers.
use sequel.Base.{
  ◌≡◌, refl, ap, true, false, List, ◌∷◌, Option, none, some, arith, Bool-cases, Option-cases, inl,
  inr,
}
use sequel.Transaction.{
  Fault, no_rows, tx_done, conn_done, batch_open, batch_unsent, batch_unclosed, misuse, reported,
  Query, Request, rollback, query_row, rows_err, Sent, Outside, Tx, Row, Stmt, record_err,
  batch_refuses, short_circuit, latch_row, ask, instrument_exec, statement, instrument_query_row,
  query_row_context, read_row, read_rows, rows_next, stmt_context, stmt_run, stmt_query_row,
  finalize, rollback_tx,
}
use sequel.Transaction.Latch.{
  tolerated, is_fine, commits, is_commit, Latched, record_err-Latched, sent-Latched, same-Latched,
  short_circuit-Latched,
}

module _ (o : Outside) (base : List Sent) where
  instrument_exec-Latched :
      (q : Query) (r : Request) (tx : Tx)
      → is_commit r ≡ false
      → Latched base tx
      → Latched base (record_err (instrument_exec o q r tx).1 (instrument_exec o q r tx).0)
  unfolding instrument_exec ask
  instrument_exec-Latched q r tx h l = elim (Option-cases q.err) [
    | inr (e, bad) ↦ rw (bad, instrument_exec) (record_err-Latched (some e) l)
    | inl unpacked ↦ elim (Option-cases (o.delay tx.log)) [
      | inr (e, late) ↦
          rw (unpacked, instrument_exec)
            (rw (late, instrument_exec) (record_err-Latched (some e) l))
      | inl on_time ↦
          rw (unpacked, instrument_exec)
            (rw (on_time, instrument_exec) (sent-Latched r (o.answer tx.log r) h l))
    ]
  ]

  pub statement-Latched :
      (q : Query) (r : Request) (tx : Tx)
      → is_commit r ≡ false
      → Latched base tx
      → Latched base (statement o q r tx).0
  unfolding statement
  statement-Latched q r tx h l = elim (Option-cases (short_circuit tx).1) [
    | inr (e, refused) ↦ rw (refused, statement) (short_circuit-Latched l)
    | inl free ↦
        rw (free, statement)
          (instrument_exec-Latched q r (short_circuit tx).0 h (short_circuit-Latched l))
  ]

  instrument_query_row-Latched :
      (q : Query) (tx : Tx) → Latched base tx → Latched base (instrument_query_row o q tx).0
  unfolding instrument_query_row record_err
  instrument_query_row-Latched q tx l = elim (Option-cases q.err) [
    | inr (e, bad) ↦ rw (bad, instrument_query_row) (record_err-Latched (some e) l)
    | inl unpacked ↦
        rw (unpacked, instrument_query_row) (sent-Latched (query_row q.text) none refl l)
  ]

  pub query_row_context-Latched :
      (q : Query) (tx : Tx) → Latched base tx → Latched base (query_row_context o q tx).0
  unfolding query_row_context
  query_row_context-Latched q tx l = elim (Option-cases (short_circuit tx).1) [
    | inr (e, refused) ↦ rw (refused, query_row_context) (short_circuit-Latched l)
    | inl free ↦
        rw (free, query_row_context)
          (instrument_query_row-Latched q (short_circuit tx).0 (short_circuit-Latched l))
  ]

  pub read_rows-Latched :
      (r : Request) (tx : Tx)
      → is_commit r ≡ false
      → Latched base tx
      → Latched base (read_rows o r tx).0
  unfolding read_rows ask
  read_rows-Latched r tx h l = sent-Latched r (o.answer tx.log r) h l

  pub rows_next-Latched : (tx : Tx) → Latched base tx → Latched base (rows_next o tx).0
  unfolding rows_next ask
  rows_next-Latched tx l = elim (Bool-cases (o.more tx.log)) [
    | inl more ↦ rw (more, rows_next) l
    | inr ended ↦ rw (ended, rows_next) (sent-Latched rows_err (o.answer tx.log rows_err) refl l)
  ]

  -- An answer that fails no work needs no record.
  pub fine-Latched :
      (r : Request) (a : Option Fault) (tx : Tx)
      → is_fine r a ≡ true
      → commits r a ≡ 0
      → Latched base tx
      → Latched base (record tx { log = record { request = r; answer = a } ∷ tx.log })
  fine-Latched r a tx f h l = record {
    auto = l.auto;
    since = record { request = r; answer = a } ∷ l.since;
    log_is = ap (◌∷◌ (record { request = r; answer = a })) l.log_is;
    latched = λ u. rw f (l.latched u);
    uncommitted = rw h (omega (arith, l.uncommitted));
  }

  latch_row-Latched :
      (r : Request) (a : Option Fault) (tx : Tx)
      → is_commit r ≡ false
      → tolerated r no_rows ≡ true
      → Latched base tx
      → Latched base (latch_row a (record tx { log = record { request = r; answer = a } ∷ tx.log }))
  unfolding latch_row
  latch_row-Latched r none tx h t l = sent-Latched r none h l
  latch_row-Latched r (some no_rows) tx h t l = fine-Latched r (some no_rows) tx t refl l
  latch_row-Latched r (some tx_done) tx h t l = sent-Latched r (some tx_done) h l
  latch_row-Latched r (some conn_done) tx h t l = sent-Latched r (some conn_done) h l
  latch_row-Latched r (some batch_open) tx h t l = sent-Latched r (some batch_open) h l
  latch_row-Latched r (some batch_unsent) tx h t l = sent-Latched r (some batch_unsent) h l
  latch_row-Latched r (some batch_unclosed) tx h t l = sent-Latched r (some batch_unclosed) h l
  latch_row-Latched r (some (misuse m)) tx h t l = sent-Latched r (some (misuse m)) h l
  latch_row-Latched r (some (reported n)) tx h t l = sent-Latched r (some (reported n)) h l

  pub read_row-Latched :
      (r : Request) (row : Row) (tx : Tx)
      → is_commit r ≡ false
      → tolerated r no_rows ≡ true
      → Latched base tx
      → Latched base (read_row o r row tx).0
  unfolding read_row ask
  read_row-Latched r row tx h t l = elim (Option-cases row.short_err) [
    | inr (e, short) ↦ rw (short, read_row) l
    | inl ran ↦ rw (ran, read_row) (latch_row-Latched r (o.answer tx.log r) tx h t l)
  ]

  pub stmt_context-Latched :
      (s : Stmt) (tx : Tx) → Latched base tx → Latched base (stmt_context o s tx).0
  unfolding stmt_context
  stmt_context-Latched s tx l = elim (Option-cases s.err) [
    | inr (e, unbound) ↦ rw (unbound, stmt_context) l
    | inl usable ↦ elim (Bool-cases (batch_refuses tx)) [
      | inl refused ↦
          rw (usable, stmt_context) (rw (refused, stmt_context) (short_circuit-Latched l))
      | inr free ↦ rw (usable, stmt_context) (rw (free, stmt_context) l)
    ]
  ]

  pub stmt_run-Latched :
      (r : Request) (s : Stmt) (tx : Tx)
      → is_commit r ≡ false
      → Latched base tx
      → Latched base (stmt_run o r s tx).0
  unfolding stmt_run
  stmt_run-Latched r s tx h l = elim (Option-cases s.err) [
    | inr (e, unbound) ↦ rw (unbound, stmt_run) l
    | inl usable ↦ rw (usable, stmt_run) (statement-Latched s.pq r tx h l)
  ]

  pub stmt_query_row-Latched :
      (s : Stmt) (tx : Tx) → Latched base tx → Latched base (stmt_query_row o s tx).0
  unfolding stmt_query_row
  stmt_query_row-Latched s tx l = elim (Option-cases s.err) [
    | inr (e, unbound) ↦ rw (unbound, stmt_query_row) l
    | inl usable ↦ rw (usable, stmt_query_row) (query_row_context-Latched s.pq tx l)
  ]

  rollback_fine : (a : Option Fault) → (is_fine rollback a ≡ true) × (commits rollback a ≡ 0)
  rollback_fine none = (refl, refl)
  rollback_fine (some e) = (refl, refl)

  pub rollback_tx-Latched : (tx : Tx) → Latched base tx → Latched base (rollback_tx o tx).0
  unfolding rollback_tx finalize ask
  rollback_tx-Latched tx l = elim (Bool-cases tx.done) [
    | inl over ↦ rw (over, finalize) (same-Latched l)
    | inr going ↦
        let asked =
          fine-Latched rollback (o.answer tx.log rollback) tx
            (rollback_fine (o.answer tx.log rollback)).0
            (rollback_fine (o.answer tx.log rollback)).1 l in
        elim (Option-cases (o.answer tx.log rollback)) [
          | inl ended ↦ rw (going, finalize) (rw (ended, finalize) (same-Latched asked))
          | inr (e, failed) ↦ rw (going, finalize) (rw (failed, finalize) (same-Latched asked))
        ]
  ]

-- ===== src/Batch/Reading/Held.antt =====
-- tx.go and batchresults.go: the transaction belongs to a batch from its sending until its results are closed.
use sequel.Base.Cases.{if_intro, option_intro}
use sequel.Base.{
  ℕ, ◌≡◌, refl, sym, ap, ◌∙◌, Bool, true, false, List, [], ◌∷◌, Option, none, some, Bytes,
  if◌then◌else◌, arith, Bool-cases, Option-cases, inl, inr, ltb,
}
use sequel.Batch.Rows.{next_row, scan_row, close_rows}
use sequel.Batch.{queue, fail_from, fail, buffer_all, pipeline, RawRow, send_batch}
use sequel.Batch.Handed.{
  close_handed, next, err_of, scan_into, BatchRows, Reading, QueryResult, failed, handed_out,
  with_tx, close_at, next_at, scan_at, err_at, scan_row_of, row_err_of, fail_reading, scan_first,
}
use sequel.Batch.Reading.{
  doomed, advance, run, run_exec, run_query, run_left, supersede_open, exec, query, close_body,
  close, abandon, rollback_open, release_batch,
}
use sequel.Batch.Reading.Frame.{
  TxKept, TxKept-refl, record_err-TxKept, statement-TxKept, finalize-TxKept,
}
use sequel.Batch.Reading.Kept.{
  Kept, Kept-refl, Kept-trans, with_tx-Kept, fail_reading-Kept, close_handed-Kept, next-Kept,
  err_of-Kept, scan_into-Kept,
}
use sequel.Batch.Reading.Reads.{supersede_open-Kept, exec-Kept, query-Kept, close_body-Kept}
use sequel.Transaction.{
  Fault, misuse, raw_bytes, rows_superseded, batch_open, batch_unsent, batch_unclosed, Query,
  Request, commit, rollback, Outside, Tx, short_circuit, batch_refuses, batch_pending, statement,
  commit_tx,
}

-- A call of the results of a batch, of rows that they handed out, or of their transaction: a statement or its end.
-- Other batches of the transaction, its prepared statements and InsertReturnID are no such calls.
pub data ReadingCall : Type 0 where
  exec_call query_call close_call : ReadingCall
  next_call scan_call err_call close_rows_call : ℕ → ReadingCall
  scan_row_call : Bool → QueryResult → ReadingCall
  row_err_call : QueryResult → ReadingCall
  statement_call : Query → Request → ReadingCall
  commit_call rollback_call : ReadingCall

module _ (o : Outside) (unpack : Bytes → Query) (scan : RawRow → Option Fault) where
  unfoldable pub perform_reading : ReadingCall → Reading → Reading
  perform_reading exec_call s = (exec o unpack s).0
  perform_reading query_call s = (query o unpack s).0
  perform_reading close_call s = (close o unpack s).0
  perform_reading (next_call h) s = (next_at o h s).0
  perform_reading (scan_call h) s = (scan_at o scan h s).0
  perform_reading (err_call h) s = (err_at o h s).0
  perform_reading (close_rows_call h) s = (close_at o h s).0
  perform_reading (scan_row_call raw r) s = (scan_row_of o scan raw r s).0
  perform_reading (row_err_call r) s = (row_err_of o r s).0
  perform_reading (statement_call q r) s = with_tx (statement o q r s.tx).0 s
  perform_reading commit_call s = with_tx (commit_tx o s.tx).0 s
  perform_reading rollback_call s = (rollback_open o s).0

  unfoldable pub perform_all : List ReadingCall → Reading → Reading
  perform_all [] s = s
  perform_all (c ∷ cs) s = perform_all cs (perform_reading c s)

-- The transaction is held by the results just while they are not closed.
pub record Held (s : Reading) : Type 0 where
  pub idle : s.tx.batch_executing ≡ false
  pub held : s.tx.open_batch ≡ (if s.results.closed then none else some s.results.name)

pub Kept-Held : {s t : Reading} → Held s → Kept s t → Held t
Kept-Held {s} {t} h k = record {
  idle = k.on_tx.executing ∙ h.idle;
  held =
      k.on_tx.open_batch
      ∙ h.held
      ∙ ap (λ c. if c then none else some s.results.name) (sym k.closed)
      ∙ ap (λ n. if t.results.closed then none else some n) (sym k.name);
}

release_batch-none : (n : ℕ) (c : Bool) → release_batch n (if c then none else some n) ≡ none
release_batch-none n true = refl
release_batch-none n false = ground arith

module _ (o : Outside) where
  pub close_at-Kept : (h : ℕ) (s : Reading) → Kept s (close_at o h s).0
  close_at-Kept h s =
      option_intro {A = Reading × Option Fault} (λ r. Kept s r.0) _ (Kept-refl s)
        (λ rows. close_handed-Kept o h rows s)

  pub next_at-Kept : (h : ℕ) (s : Reading) → Kept s (next_at o h s).0
  next_at-Kept h s =
      option_intro {A = Reading × Bool} (λ r. Kept s r.0) _ (Kept-refl s)
        (λ rows. next-Kept o h rows s)

  pub err_at-Kept : (h : ℕ) (s : Reading) → Kept s (err_at o h s).0
  err_at-Kept h s =
      option_intro {A = Reading × Option Fault} (λ r. Kept s r.0) _ (Kept-refl s)
        (λ rows. err_of-Kept o rows s)

  pub row_err_of-Kept : (r : QueryResult) (s : Reading) → Kept s (row_err_of o r s).0
  unfolding row_err_of
  row_err_of-Kept (failed e) s = Kept-refl s
  row_err_of-Kept (handed_out h) s = err_at-Kept h s

  pub commit_tx-TxKept : (tx : Tx) → TxKept tx (commit_tx o tx).0
  unfolding commit_tx
  commit_tx-TxKept tx =
      option_intro {A = Tx × Option Fault} (λ r. TxKept tx r.0) _ (finalize-TxKept o commit tx)
        (λ e. TxKept-refl tx)

  -- Abandoning the results releases the transaction.
  abandon-Held : (s : Reading) → Held s → Held (abandon o s)
  unfolding abandon
  abandon-Held s h =
      let t = Kept-Held h (supersede_open-Kept o s) in
      let u = supersede_open o s in
      record {
        idle = t.idle;
        held =
            ap (release_batch u.results.name) t.held
            ∙ release_batch-none u.results.name u.results.closed;
      }

  module _ (scan : RawRow → Option Fault) where
    pub scan_at-Kept : (h : ℕ) (s : Reading) → Kept s (scan_at o scan h s).0
    scan_at-Kept h s =
        option_intro {A = Reading × Option Fault} (λ r. Kept s r.0) _ (Kept-refl s)
          (λ rows. scan_into-Kept o scan rows s)

    scan_first-Kept : (raw : Bool) (h : ℕ) (s : Reading) → Kept s (scan_first o scan raw h s).0
    scan_first-Kept raw h s =
        let Q : Reading × Option Fault → Type 0 = λ r. Kept s r.0 in
        let t = (next_at o h s).0 in
        let first = next_at-Kept h s in
        let u = (scan_at o scan h t).0 in
        let second = Kept-trans first (scan_at-Kept h t) in
        if_intro Q (next_at o h s).1
          (if_intro Q raw (Kept-trans first (fail_reading-Kept (some (misuse raw_bytes)) t)) (
            option_intro Q (scan_at o scan h t).1 (Kept-trans second (close_at-Kept h u))
              (λ e. second)))
          (Kept-trans first (err_at-Kept h t))

    pub scan_row_of-Kept :
        (raw : Bool) (r : QueryResult) (s : Reading) → Kept s (scan_row_of o scan raw r s).0
    unfolding scan_row_of
    scan_row_of-Kept raw (failed e) s = Kept-refl s
    scan_row_of-Kept raw (handed_out h) s =
        let Q : Reading × Option Fault → Type 0 = λ r. Kept s r.0 in
        let t = (scan_first o scan raw h s).0 in
        let first = Kept-trans (scan_first-Kept raw h s) (close_at-Kept h t) in
        option_intro Q _ first (λ (rows : BatchRows).
          if_intro Q rows.superseded
            (with_tx-Kept _ s (record_err-TxKept (some (misuse rows_superseded)) s.tx)) first)

module _ (o : Outside) (unpack : Bytes → Query) where
  pub close-Held : (s : Reading) → Held s → Held (close o unpack s).0
  unfolding close
  close-Held s h =
      if_intro {A = Reading × Option Fault} (λ r. Held r.0) s.results.closed h
        (abandon-Held o _ (Kept-Held h (close_body-Kept o unpack s h.idle)))

  rollback_open-Held : (s : Reading) → Held s → Held (rollback_open o s).0
  unfolding rollback_open
  rollback_open-Held s h =
      let t : Held (elim s.tx.open_batch [ none ↦ s | some n ↦ abandon o s ]) =
        option_intro Held s.tx.open_batch h (λ (n : ℕ). abandon-Held o s h) in
      Kept-Held t (with_tx-Kept _ _ (finalize-TxKept o rollback _))

module _ (o : Outside) (unpack : Bytes → Query) (scan : RawRow → Option Fault) where
  pub perform_reading-Held :
      (c : ReadingCall) (s : Reading) → Held s → Held (perform_reading o unpack scan c s)
  unfolding perform_reading
  perform_reading-Held exec_call s h = Kept-Held h (exec-Kept o unpack s h.idle)
  perform_reading-Held query_call s h = Kept-Held h (query-Kept o unpack s h.idle)
  perform_reading-Held close_call s h = close-Held o unpack s h
  perform_reading-Held (next_call n) s h = Kept-Held h (next_at-Kept o n s)
  perform_reading-Held (scan_call n) s h = Kept-Held h (scan_at-Kept o scan n s)
  perform_reading-Held (err_call n) s h = Kept-Held h (err_at-Kept o n s)
  perform_reading-Held (close_rows_call n) s h = Kept-Held h (close_at-Kept o n s)
  perform_reading-Held (scan_row_call raw r) s h = Kept-Held h (scan_row_of-Kept o scan raw r s)
  perform_reading-Held (row_err_call r) s h = Kept-Held h (row_err_of-Kept o r s)
  perform_reading-Held (statement_call q r) s h =
      Kept-Held h (with_tx-Kept _ s (statement-TxKept o q r s.tx))
  perform_reading-Held commit_call s h = Kept-Held h (with_tx-Kept _ s (commit_tx-TxKept o s.tx))
  perform_reading-Held rollback_call s h = rollback_open-Held o unpack s h

  pub perform_all-Held :
      (cs : List ReadingCall) (s : Reading) → Held s → Held (perform_all o unpack scan cs s)
  unfolding perform_all
  perform_all-Held [] s h = h
  perform_all-Held (c ∷ cs) s h =
      perform_all-Held cs (perform_reading o unpack scan c s) (perform_reading-Held c s h)

-- A batch that holds its transaction: other statements are refused, and so is Commit.
pub held-refuses :
    (tx : Tx) (n : ℕ)
    → tx.batch_executing ≡ false
    → tx.open_batch ≡ some n
    → ((short_circuit tx).1 ≡ some batch_open) × ((e : Fault) × (batch_pending tx ≡ some e))
unfolding short_circuit batch_refuses batch_pending
held-refuses tx n idle held = (
  rw (held, idle) refl,
  elim (Option-cases tx.batch_misuse) [
    | inr (e, m) ↦ (e, rw m refl)
    | inl m ↦ elim (Bool-cases (ltb 0 tx.unsent_batches)) [
      | inl more ↦ (batch_unsent, rw (m, more) refl)
      | inr all ↦ (batch_unclosed, rw (m, all, held) refl)
    ]
  ],
)

-- Opens the sending and the reading of batches, for evaluation at concrete inputs.
unfoldable pub reading_batches : Unit {0}
unfolding queue fail_from fail buffer_all pipeline send_batch next_row scan_row close_rows
    fail_reading close_handed next err_of scan_into scan_row_of row_err_of doomed supersede_open
    advance run run_exec run_query exec query run_left abandon close_body close rollback_open
    perform_reading perform_all
reading_batches = tt

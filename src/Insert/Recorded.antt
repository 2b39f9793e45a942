-- ===== src/Insert/Recorded.antt =====
-- tx.go: a transaction of Transact remembers that an insert failed.
use sequel.Base.{◌≡◌, refl, ◌∙◌, true, Option, none, some, Bytes}
use sequel.Base.Cases.{if_intro, if_cases, option_intro, option_cases}
use sequel.Base.Int.{ℤ}
use sequel.Batch.Reading.Frame.{
  record_err-TxKept, short_circuit-TxKept, statement-TxKept, ask-TxKept,
}
use sequel.Batch.Reading.Superseded.{record_err-some}
use sequel.Driver.{Driver, mysql, mariadb, pgx, cockroachdb, mssql, sqlite, other}
use sequel.Insert.{
  Ids, insert_last_id, insert_returning, scan_id, insert_on, insert_return_id, tx_insert_return_id,
  inject_output_inserted,
}
use sequel.Transaction.{
  Fault, no_rows, tx_done, conn_done, batch_open, batch_unsent, batch_unclosed, misuse, reported,
  Query, row_scan, Outside, Tx, Row, record_err, short_circuit, batch_refuses, latch_row, ask,
  exec_context, query_row_context, instrument_query_row, read_row,
}
use sequel.VirtualFunc.JsonField.{is_identifier}

latch_row-auto : (e : Option Fault) (tx : Tx) → (latch_row e tx).auto_err ≡ tx.auto_err
unfolding latch_row
latch_row-auto none tx = (record_err-TxKept none tx).auto
latch_row-auto (some no_rows) tx = refl
latch_row-auto (some tx_done) tx = (record_err-TxKept (some tx_done) tx).auto
latch_row-auto (some conn_done) tx = (record_err-TxKept (some conn_done) tx).auto
latch_row-auto (some batch_open) tx = (record_err-TxKept (some batch_open) tx).auto
latch_row-auto (some batch_unsent) tx = (record_err-TxKept (some batch_unsent) tx).auto
latch_row-auto (some batch_unclosed) tx = (record_err-TxKept (some batch_unclosed) tx).auto
latch_row-auto (some (misuse m)) tx = (record_err-TxKept (some (misuse m)) tx).auto
latch_row-auto (some (reported n)) tx = (record_err-TxKept (some (reported n)) tx).auto

-- A transaction that has recorded an error.
abbrev pub HasError : Tx → Type 0
HasError tx = (f : Fault) × (tx.err ≡ some f)

-- A refusal of a transaction of Transact is an error that it has recorded.
short_circuit-HasError :
    (tx : Tx) (e : Fault)
    → tx.auto_err ≡ true
    → (short_circuit tx).1 ≡ some e
    → HasError (short_circuit tx).0
unfolding short_circuit
short_circuit-HasError tx e auto =
    let Q : Tx × Option Fault → Type 0 = λ r. r.1 ≡ some e → HasError r.0 in
    if_intro Q (batch_refuses tx) (λ h. record_err-some batch_open tx auto)
      (if_cases Q tx.auto_err (λ on h. (e, h)) (λ off h. absurd cc))

module _ (o : Outside) (unpack : Bytes → Query) (ids : Ids) where
  -- A step that keeps the mode of the transaction.
  abbrev SameMode : Tx → Tx × (Option Fault × ℤ) → Type 0
  SameMode tx r = r.0.auto_err ≡ tx.auto_err

  query_row_context-auto :
      (q : Query) (tx : Tx) → (query_row_context o q tx).0.auto_err ≡ tx.auto_err
  unfolding query_row_context instrument_query_row
  query_row_context-auto q tx =
      let t = (short_circuit tx).0 in
      let first = (short_circuit-TxKept tx).auto in
      let Q : Tx × Row → Type 0 = λ r. r.0.auto_err ≡ tx.auto_err in
      option_intro Q (short_circuit tx).1
        (option_intro Q q.err first (λ e. (record_err-TxKept (some e) t).auto ∙ first)) (λ e. first)

  scan_id-SameMode :
      (tx : Tx) (r : Tx × Row) → r.0.auto_err ≡ tx.auto_err → SameMode tx (scan_id o unpack ids r)
  unfolding read_row
  scan_id-SameMode tx (t, row) h =
      let asked = ask o row_scan t in
      let latched = latch_row-auto asked.1 asked.0 ∙ (ask-TxKept o row_scan t).auto ∙ h in
      let read : (read_row o row_scan row t).0.auto_err ≡ tx.auto_err =
        option_intro {A = Tx × Option Fault} (λ u. u.0.auto_err ≡ tx.auto_err) row.short_err latched
          (λ e. h) in
      option_intro (SameMode tx) (read_row o row_scan row t).1 read (λ e. read)

  insert_returning-SameMode :
      (stmt : Bytes) (tx : Tx) → SameMode tx (insert_returning o unpack ids stmt tx)
  insert_returning-SameMode stmt tx =
      scan_id-SameMode tx (query_row_context o (unpack stmt) tx)
        (query_row_context-auto (unpack stmt) tx)

  insert_last_id-SameMode :
      (stmt : Bytes) (tx : Tx) → SameMode tx (insert_last_id o unpack ids stmt tx)
  unfolding exec_context
  insert_last_id-SameMode stmt tx =
      let kept = (statement-TxKept o (unpack stmt) _ tx).auto in
      option_intro (SameMode tx) (exec_context o (unpack stmt) tx).1 kept (λ e. kept)

  insert_on-SameMode :
      (d : Driver) (col stmt : Bytes) (tx : Tx) → SameMode tx (insert_on o unpack ids d col stmt tx)
  insert_on-SameMode mysql col stmt tx = insert_last_id-SameMode stmt tx
  insert_on-SameMode mariadb col stmt tx = insert_last_id-SameMode stmt tx
  insert_on-SameMode sqlite col stmt tx = insert_last_id-SameMode stmt tx
  insert_on-SameMode pgx col stmt tx = insert_returning-SameMode _ tx
  insert_on-SameMode cockroachdb col stmt tx = insert_returning-SameMode _ tx
  insert_on-SameMode mssql col stmt tx =
      option_intro (SameMode tx) (inject_output_inserted stmt col) refl
        (λ rewritten. insert_returning-SameMode rewritten tx)
  insert_on-SameMode (other name) col stmt tx = refl

  insert_return_id-SameMode :
      (d : Driver) (col stmt : Bytes) (tx : Tx)
      → SameMode tx (insert_return_id o unpack ids d col stmt tx)
  unfolding insert_return_id
  insert_return_id-SameMode d col stmt tx =
      if_intro (SameMode tx) (is_identifier col) (insert_on-SameMode d col stmt tx) refl

  recorded_insert :
      (result : Option Fault) (u : Tx) (e : Fault)
      → u.auto_err ≡ true
      → result ≡ some e
      → HasError (record_err result u)
  recorded_insert none u e auto h = absurd cc
  recorded_insert (some f) u e auto h = record_err-some f u auto

  -- InsertReturnID that fails in a transaction of Transact - because the column is no identifier, the
  -- statement has no place for the column or fails, or its row is missing - leaves an error
  -- recorded in the transaction.
  pub tx_insert_return_id-HasError :
      (d : Driver) (col stmt : Bytes) (tx : Tx) (e : Fault)
      → tx.auto_err ≡ true
      → (tx_insert_return_id o unpack ids d col stmt tx).1.0 ≡ some e
      → HasError (tx_insert_return_id o unpack ids d col stmt tx).0
  unfolding tx_insert_return_id
  tx_insert_return_id-HasError d col stmt tx e auto =
      let t = (short_circuit tx).0 in
      let r = insert_return_id o unpack ids d col stmt t in
      let Q : Tx × (Option Fault × ℤ) → Type 0 = λ r. r.1.0 ≡ some e → HasError r.0 in
      let still = insert_return_id-SameMode d col stmt t ∙ (short_circuit-TxKept tx).auto ∙ auto in
      option_cases Q (short_circuit tx).1 (λ free. recorded_insert r.1.0 r.0 e still)
        (λ f refused h. short_circuit-HasError tx f auto refused)

-- ===== src/Batch/Reading/Frame.antt =====
-- tx.go, batchresults.go and batchrows.go: what the statements of a transaction, and the reads of a batch's
-- results, leave as it was.
use sequel.Base.Cases.{if_intro}
use sequel.Base.{◌≡◌, refl, ◌∙◌, Option, none, some, Bool-cases, Option-cases, inl, inr}
use sequel.Batch.{RawRow}
use sequel.Batch.Handed.{
  RowSource, streamed, buffered, source_err, source_close, source_next, source_scan,
}
use sequel.Transaction.{
  Fault, batch_open, Query, Request, rows_err, rows_scan, rows_close, Outside, Tx, record_err,
  short_circuit, batch_refuses, ask, instrument_exec, statement, read_rows, rows_next, finished,
  finalize,
}

-- A step leaves the batches of the transaction alone, and an error that it has recorded.
pub record TxKept (t u : Tx) : Type 0 where
  pub open_batch : u.open_batch ≡ t.open_batch
  pub executing : u.batch_executing ≡ t.batch_executing
  pub auto : u.auto_err ≡ t.auto_err
  pub unsent : u.unsent_batches ≡ t.unsent_batches
  pub misused : u.batch_misuse ≡ t.batch_misuse
  pub recorded : (e : Fault) → t.err ≡ some e → u.err ≡ some e

pub TxKept-refl : (t : Tx) → TxKept t t
TxKept-refl t = record {
  open_batch = refl;
  executing = refl;
  auto = refl;
  unsent = refl;
  misused = refl;
  recorded = λ e h. h;
}

pub TxKept-trans : {t u v : Tx} → TxKept t u → TxKept u v → TxKept t v
TxKept-trans k l = record {
  open_batch = l.open_batch ∙ k.open_batch;
  executing = l.executing ∙ k.executing;
  auto = l.auto ∙ k.auto;
  unsent = l.unsent ∙ k.unsent;
  misused = l.misused ∙ k.misused;
  recorded = λ e h. l.recorded e (k.recorded e h);
}

first_err-TxKept :
    (e : Fault) (tx : Tx) (m : Option Fault)
    → tx.err ≡ m
    → TxKept tx (elim m [ none ↦ record tx { err = some e } | some first ↦ tx ])
first_err-TxKept e tx none h = record {
  open_batch = refl;
  executing = refl;
  auto = refl;
  unsent = refl;
  misused = refl;
  recorded = λ f g. cc;
}
first_err-TxKept e tx (some first) h = TxKept-refl tx

pub record_err-TxKept : (e : Option Fault) (tx : Tx) → TxKept tx (record_err e tx)
unfolding record_err
record_err-TxKept none tx = TxKept-refl tx
record_err-TxKept (some e) tx =
    if_intro (TxKept tx) tx.auto_err (first_err-TxKept e tx tx.err refl) (TxKept-refl tx)

pub short_circuit-TxKept : (tx : Tx) → TxKept tx (short_circuit tx).0
unfolding short_circuit
short_circuit-TxKept tx =
    if_intro {A = Tx × Option Fault} (λ r. TxKept tx r.0) (batch_refuses tx)
      (record_err-TxKept (some batch_open) tx)
      (if_intro {A = Tx × Option Fault} (λ r. TxKept tx r.0) tx.auto_err (TxKept-refl tx)
        (TxKept-refl tx))

module _ (o : Outside) where
  pub ask-TxKept : (r : Request) (tx : Tx) → TxKept tx (ask o r tx).0
  unfolding ask
  ask-TxKept r tx = record {
    open_batch = refl;
    executing = refl;
    auto = refl;
    unsent = refl;
    misused = refl;
    recorded = λ e h. h;
  }

  instrument_exec-TxKept :
      (q : Query) (r : Request) (tx : Tx) → TxKept tx (instrument_exec o q r tx).0
  unfolding instrument_exec
  instrument_exec-TxKept q r tx = elim (Option-cases q.err) [
    | inr (e, h) ↦ rw (h, instrument_exec) (TxKept-refl tx)
    | inl h ↦ elim (Option-cases (o.delay tx.log)) [
      | inr (e, late) ↦ rw (h, instrument_exec) (rw (late, instrument_exec) (TxKept-refl tx))
      | inl fine ↦ rw (h, instrument_exec) (rw (fine, instrument_exec) (ask-TxKept r tx))
    ]
  ]

  pub statement-TxKept : (q : Query) (r : Request) (tx : Tx) → TxKept tx (statement o q r tx).0
  unfolding statement
  statement-TxKept q r tx =
      let first = short_circuit-TxKept tx in
      let t = (short_circuit tx).0 in
      let ran = instrument_exec o q r t in
      elim (Option-cases (short_circuit tx).1) [
        | inr (e, h) ↦ rw (h, statement) first
        | inl h ↦
            rw (h, statement)
              (TxKept-trans first
                (TxKept-trans (instrument_exec-TxKept q r t) (record_err-TxKept ran.1 ran.0)))
      ]

  pub read_rows-TxKept : (r : Request) (tx : Tx) → TxKept tx (read_rows o r tx).0
  unfolding read_rows
  read_rows-TxKept r tx =
      TxKept-trans (ask-TxKept r tx) (record_err-TxKept (ask o r tx).1 (ask o r tx).0)

  finished-TxKept : (tx : Tx) (r : Tx × Option Fault) → TxKept tx r.0 → TxKept tx (finished o r).0
  finished-TxKept tx (t, none) k = record {
    open_batch = k.open_batch;
    executing = k.executing;
    auto = k.auto;
    unsent = k.unsent;
    misused = k.misused;
    recorded = λ e h. k.recorded e h;
  }
  finished-TxKept tx (t, some e) k = k

  pub finalize-TxKept : (r : Request) (tx : Tx) → TxKept tx (finalize o r tx).0
  unfolding finalize
  finalize-TxKept r tx =
      if_intro {A = Tx × Option Fault} (λ u. TxKept tx u.0) tx.done (TxKept-refl tx)
        (finished-TxKept tx (ask o r tx) (ask-TxKept r tx))

  pub rows_next-TxKept : (tx : Tx) → TxKept tx (rows_next o tx).0
  unfolding rows_next
  rows_next-TxKept tx = elim (Bool-cases (o.more tx.log)) [
    | inl more ↦ rw (more, rows_next) (TxKept-refl tx)
    | inr end ↦
        rw (end, rows_next)
          (TxKept-trans (ask-TxKept rows_err tx)
            (record_err-TxKept (ask o rows_err tx).1 (ask o rows_err tx).0))
  ]

  pub source_err-TxKept : (src : RowSource) (tx : Tx) → TxKept tx (source_err o src tx).0
  source_err-TxKept streamed tx = read_rows-TxKept rows_err tx
  source_err-TxKept (buffered b) tx = TxKept-refl tx

  pub source_close-TxKept : (src : RowSource) (tx : Tx) → TxKept tx (source_close o src tx).0
  source_close-TxKept streamed tx = ask-TxKept rows_close tx
  source_close-TxKept (buffered b) tx = TxKept-refl tx

  pub source_next-TxKept : (src : RowSource) (tx : Tx) → TxKept tx (source_next o src tx).0
  source_next-TxKept streamed tx = rows_next-TxKept tx
  source_next-TxKept (buffered b) tx = TxKept-refl tx

  pub source_scan-TxKept :
      (scan : RawRow → Option Fault) (src : RowSource) (tx : Tx)
      → TxKept tx (source_scan o scan src tx).0
  source_scan-TxKept scan streamed tx = read_rows-TxKept rows_scan tx
  source_scan-TxKept scan (buffered b) tx = TxKept-refl tx

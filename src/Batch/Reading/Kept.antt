-- ===== src/Batch/Reading/Kept.antt =====
-- batchresults.go and batchrows.go: what a read of the results of a batch leaves as it was.
use sequel.Base.Cases.{if_intro}
use sequel.Base.{ℕ, ◌+◌, ◌≡◌, refl, ◌∙◌, Bool, true, List, Option, none, some, set}
use sequel.Batch.{RawRow, BatchItem, fail, first_fault}
use sequel.Batch.Handed.{
  BatchRows, Reading, fail_reading, with_tx, write_rows, source_err, source_close, source_next,
  source_scan, close_handed, next, err_of, scan_into,
}
use sequel.Batch.Reading.{doomed, move}
use sequel.Batch.Reading.Frame.{
  TxKept, TxKept-refl, TxKept-trans, record_err-TxKept, source_err-TxKept, source_close-TxKept,
  source_next-TxKept, source_scan-TxKept,
}
use sequel.Transaction.{Fault, misuse, rows_superseded, Outside, Tx}

-- A read leaves the batches of the transaction alone, whether the results are closed, and the failures
-- that the results and the transaction have recorded.
pub record Kept (s t : Reading) : Type 0 where
  pub on_tx : TxKept s.tx t.tx
  pub name : t.results.name ≡ s.results.name
  pub closed : t.results.closed ≡ s.results.closed
  pub pipelined : t.results.pipelined ≡ s.results.pipelined
  pub failed_with : (e : Fault) → s.results.err ≡ some e → t.results.err ≡ some e

pub Kept-trans : {s t u : Reading} → Kept s t → Kept t u → Kept s u
Kept-trans k l = record {
  on_tx = TxKept-trans k.on_tx l.on_tx;
  name = l.name ∙ k.name;
  closed = l.closed ∙ k.closed;
  pipelined = l.pipelined ∙ k.pipelined;
  failed_with = λ e h. l.failed_with e (k.failed_with e h);
}

-- Only the transaction matters, where the results are the same up to their place.
pub tx-Kept :
    (s : Reading) (items : List BatchItem) (handed : List BatchRows) (tx : Tx) (i : ℕ)
    (rows : Option ℕ)
    → TxKept s.tx tx
    → Kept s (record {
      items = items;
      results = record s.results { next = i; open_rows = rows };
      handed = handed;
      tx = tx;
    })
tx-Kept s items handed tx i rows k = record {
  on_tx = k;
  name = refl;
  closed = refl;
  pipelined = refl;
  failed_with = λ e h. h;
}

pub Kept-refl : (s : Reading) → Kept s s
Kept-refl s = tx-Kept s s.items s.handed s.tx s.results.next s.results.open_rows (TxKept-refl s.tx)

first_fault-kept : (m : Option Fault) (e f : Fault) → m ≡ some f → first_fault m e ≡ some f
first_fault-kept none e f h = cc
first_fault-kept (some g) e f h = h

pub fail_reading-Kept : (e : Option Fault) (s : Reading) → Kept s (fail_reading e s)
unfolding fail_reading fail
fail_reading-Kept none s = Kept-refl s
fail_reading-Kept (some e) s = record {
  on_tx = record_err-TxKept (some e) s.tx;
  name = refl;
  closed = refl;
  pipelined = refl;
  failed_with = λ f h. first_fault-kept s.results.err e f h;
}

pub doomed-Kept : (s : Reading) → Kept s (doomed s)
unfolding doomed
doomed-Kept s = if_intro (Kept s) s.tx.auto_err (fail_reading-Kept s.tx.err s) (Kept-refl s)

pub move-Kept : (s : Reading) → Kept s (move s)
move-Kept s =
    tx-Kept s s.items s.handed s.tx (s.results.next + 1) s.results.open_rows (TxKept-refl s.tx)

pub write-Kept :
    (h : ℕ) (rows : BatchRows) (tx : Tx) (s : Reading)
    → TxKept s.tx tx
    → Kept s (with_tx tx (write_rows h rows s))
write-Kept h rows tx s k =
    tx-Kept s s.items (set s.handed h rows) tx s.results.next s.results.open_rows k

pub with_tx-Kept : (tx : Tx) (s : Reading) → TxKept s.tx tx → Kept s (with_tx tx s)
with_tx-Kept tx s k = tx-Kept s s.items s.handed tx s.results.next s.results.open_rows k

module _ (o : Outside) where
  pub close_handed-Kept :
      (h : ℕ) (rows : BatchRows) (s : Reading) → Kept s (close_handed o h rows s).0
  unfolding close_handed
  close_handed-Kept h rows s =
      let c = source_close o rows.src s.tx in
      let later = source_err o c.1.0 c.0 in
      let kept =
        TxKept-trans (source_close-TxKept o rows.src s.tx) (source_err-TxKept o c.1.0 c.0) in
      if_intro {A = Reading × Option Fault} (λ r. Kept s r.0) rows.closed (Kept-refl s)
        (Kept-trans (write-Kept h (record rows { src = c.1.0; closed = true }) later.0 s kept) (
          fail_reading-Kept later.1
            (with_tx later.0 (write_rows h (record rows { src = c.1.0; closed = true }) s))))

  pub next-Kept : (h : ℕ) (rows : BatchRows) (s : Reading) → Kept s (next o h rows s).0
  unfolding next
  next-Kept h rows s =
      let n = source_next o rows.src s.tx in
      let later = source_err o n.1.0 n.0 in
      let first = source_next-TxKept o rows.src s.tx in
      let kept = TxKept-trans first (source_err-TxKept o n.1.0 n.0) in
      let Q : Reading × Bool → Type 0 = λ r. Kept s r.0 in
      if_intro Q rows.superseded
        (with_tx-Kept _ s (record_err-TxKept (some (misuse rows_superseded)) s.tx))
        (if_intro Q rows.closed (Kept-refl s) (
          if_intro Q n.1.1 (write-Kept h (record rows { src = n.1.0 }) n.0 s first) (
            Kept-trans (write-Kept h (record rows { src = n.1.0; done = true }) later.0 s kept)
              (fail_reading-Kept later.1 _))))

  pub err_of-Kept : (rows : BatchRows) (s : Reading) → Kept s (err_of o rows s).0
  unfolding err_of
  err_of-Kept rows s =
      if_intro {A = Reading × Option Fault} (λ r. Kept s r.0) rows.superseded
        (with_tx-Kept _ s (record_err-TxKept (some (misuse rows_superseded)) s.tx))
        (with_tx-Kept _ s (source_err-TxKept o rows.src s.tx))

  pub scan_into-Kept :
      (scan : RawRow → Option Fault) (rows : BatchRows) (s : Reading)
      → Kept s (scan_into o scan rows s).0
  unfolding scan_into
  scan_into-Kept scan rows s =
      let got = source_scan o scan rows.src s.tx in
      Kept-trans (with_tx-Kept got.0 s (source_scan-TxKept o scan rows.src s.tx))
        (fail_reading-Kept got.1 (with_tx got.0 s))

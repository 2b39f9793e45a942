-- ===== src/Batch/OneTrip/OneByOne.antt =====
-- batch.go and batchresults.go: what is reported of a batch whose statements run as they are read.
use sequel.Base.{
  ℕ, suc, ◌+◌, ◌≡◌, refl, ap, ◌∙◌, Bool, true, false, List, [], ◌∷◌, Option, none, some, Bytes,
  length, drop, replicate,
}
use sequel.Batch.{BatchItem, fail}
use sequel.Batch.Handed.{BatchRows, fail_reading, with_tx}
use sequel.Batch.OneTrip.{
  replies, result_err, open_tx, reading_at, exec_all, exec_all-reading_at, exec_all-failed,
  drop-next,
}
use sequel.Batch.Reading.{run, run_exec, exec_result}
use sequel.Batch.Reading.Reads.{run_exec-Kept}
use sequel.Transaction.{
  Fault, Query, exec, Sent, Outside, Tx, record_err, short_circuit, batch_refuses, ask,
  instrument_exec, statement, exec_context,
}

-- What the statements end with, one by one.
abbrev pub answers : (Bytes → Option Fault) → List BatchItem → List (Option Fault)
answers f [] = []
answers f (it ∷ items) = f it.query ∷ answers f items

-- A database whose answer to a statement of the batch depends on its text alone, and without a delay.
pub record Answers (o : Outside) (unpack : Bytes → Query) (f : Bytes → Option Fault) : Type 0 where
  pub unpacked : (q : Bytes) → (unpack q).err ≡ none
  pub prompt : (log : List Sent) → o.delay log ≡ none
  pub answered : (log : List Sent) (q : Bytes) → o.answer log (exec (unpack q).text) ≡ f q

length-answers :
    (f : Bytes → Option Fault) (items : List BatchItem) → length items ≡ length (answers f items)
length-answers f [] = refl
length-answers f (it ∷ items) = ap suc (length-answers f items)

-- While the batch runs its statement, the transaction lets it pass.
short_circuit-open :
    (auto : Bool) (n : ℕ) (tx : Tx)
    → short_circuit (record (open_tx auto n tx) { batch_executing = true })
      ≡ (record (open_tx auto n tx) { batch_executing = true }, none)
unfolding short_circuit batch_refuses
short_circuit-open true n tx = refl
short_circuit-open false n tx = refl

module _ (o : Outside) (unpack : Bytes → Query) (f : Bytes → Option Fault) (a : Answers o unpack f)
    (auto : Bool) (n : ℕ) (items : List BatchItem) where
  -- The transaction behind the statement `q`.
  abbrev asked : Bytes → Tx → Tx
  asked q tx = record tx { log = record { request = exec (unpack q).text; answer = f q } ∷ tx.log }

  instrument_exec-asked :
      (q : Bytes) (tx : Tx)
      → instrument_exec o (unpack q) (exec (unpack q).text) tx ≡ (asked q tx, f q)
  unfolding instrument_exec ask
  instrument_exec-asked q tx =
      rw (a.unpacked q, instrument_exec)
        (rw (a.prompt tx.log, instrument_exec)
          (ap
            (λ m. (
              record tx { log = record { request = exec (unpack q).text; answer = m } ∷ tx.log },
              m,
            ))
            (a.answered tx.log q)))

  -- `statement` behind the answer of `short_circuit`.
  abbrev unrefused : Bytes → Tx × Option Fault → Tx × Option Fault
  unrefused q (t, refused) = elim refused [
    | some e ↦ (t, some e)
    | none ↦
        let (u, err) = instrument_exec o (unpack q) (exec (unpack q).text) t in
        (record_err err u, err)
  ]

  -- A statement of the batch is not refused, and reaches the database.
  exec_context-asked :
      (q : Bytes) (tx : Tx)
      → exec_context o (unpack q) (record (open_tx auto n tx) { batch_executing = true })
        ≡ (record_err (f q) (record (open_tx auto n (asked q tx)) { batch_executing = true }), f q)
  unfolding exec_context statement
  exec_context-asked q tx =
      ap (unrefused q) (short_circuit-open auto n tx)
      ∙ ap (λ r. (record_err r.1 r.0, r.1))
          (instrument_exec-asked q (record (open_tx auto n tx) { batch_executing = true }))

  run_exec-asked :
      (it : BatchItem) (m : Option Fault) (i : ℕ) (handed : List BatchRows) (tx : Tx)
      → f it.query ≡ m
      → run_exec o unpack it (reading_at false auto n i items handed tx) ≡ (
        fail_reading m (
            with_tx
              (record (record_err m
                (record (open_tx auto n (asked it.query tx)) { batch_executing = true })) {
                  batch_executing = false;
                })
              (reading_at false auto n i items handed tx)),
        m,
      )
  unfolding run_exec run
  run_exec-asked it m i handed tx h =
      ap
        (λ r. (
          fail_reading r.1 (
              with_tx (record r.0 { batch_executing = false })
                (reading_at false auto n i items handed tx)),
          r.1,
        ))
        (exec_context-asked it.query tx)
      ∙ ap
          (λ k. (
            fail_reading k (
                with_tx
                  (record (record_err k
                    (record (open_tx auto n (asked it.query tx)) { batch_executing = true })) {
                      batch_executing = false;
                    })
                  (reading_at false auto n i items handed tx)),
            k,
          ))
          h

  -- The read of a statement that ends with `m`.
  one_by_one_step :
      (i : ℕ) (m : Option Fault) (it : BatchItem) (rest : List BatchItem) (handed : List BatchRows)
      (tx : Tx)
      → drop i items ≡ it ∷ rest
      → f it.query ≡ m
      → exec_all o unpack
          (length rest)
          (reading_at false auto n (i + 1) items handed (asked it.query tx))
        ≡ replies (answers f rest)
      → exec_all o unpack (suc (length rest)) (reading_at false auto n i items handed tx)
        ≡ replies (m ∷ answers f rest)
  unfolding fail_reading fail record_err
  one_by_one_step i none it rest handed tx h fine ih =
      exec_all-reading_at o unpack false auto n i items handed tx it rest (length rest) h
      ∙ ap (λ r. result_err (exec_result r.1) ∷ exec_all o unpack (length rest) r.0)
          (run_exec-asked it none (i + 1) handed tx fine)
      ∙ ap (◌∷◌ none) ih
  one_by_one_step i (some e) it rest handed tx h failed ih =
      let t = run_exec o unpack it (reading_at false auto n (i + 1) items handed tx) in
      let r = run_exec-asked it (some e) (i + 1) handed tx failed in
      exec_all-reading_at o unpack false auto n i items handed tx it rest (length rest) h
      ∙ ap (λ m. result_err (exec_result m) ∷ exec_all o unpack (length rest) t.0) (ap (λ u. u.1) r)
      ∙ ap (◌∷◌ (some e)) (
          exec_all-failed o unpack (length rest) t.0 e
            (run_exec-Kept o unpack it (reading_at false auto n (i + 1) items handed tx)
              refl).on_tx.executing
            (ap (λ u. u.0.results.err) r) (ap (λ u. u.0.results.closed) r)
          ∙ ap (λ k. replicate k (some e)) (length-answers f rest))

  -- Reading the statements one by one, each when it runs.
  pub exec_all-one_by_one :
      (i : ℕ) (rest : List BatchItem) (handed : List BatchRows) (tx : Tx)
      → drop i items ≡ rest
      → exec_all o unpack (length rest) (reading_at false auto n i items handed tx)
        ≡ replies (answers f rest)
  unfolding exec_all
  exec_all-one_by_one i [] handed tx h = refl
  exec_all-one_by_one i (it ∷ rest) handed tx h =
      one_by_one_step i (f it.query) it rest handed tx h refl
        (exec_all-one_by_one (i + 1) rest handed (asked it.query tx) (drop-next i items it rest h))

-- ===== src/Batch/Reading/Reads.antt =====
-- batchresults.go: what the reads of a batch's results leave as it was.
use sequel.Base.Cases.{if_intro, option_intro}
use sequel.Base.{
  ◌-◌, ◌≡◌, sym, ◌∙◌, true, false, List, [], ◌∷◌, Option, none, some, Bytes, length, drop, set,
  get_elem?,
}
use sequel.Batch.{BatchItem}
use sequel.Batch.Handed.{RowSource, streamed, Reading, QueryResult}
use sequel.Batch.Reading.{
  Advance, item, refused, doomed, move, marked, no_open, supersede_open, taken, advance_open,
  advance, run, run_exec, run_query, exec, query, hand_out, take_rows, query_result, run_left,
  first_err, close_body, ExecResult,
}
use sequel.Batch.Reading.Frame.{TxKept, TxKept-refl, statement-TxKept}
use sequel.Batch.Reading.Kept.{
  Kept, Kept-refl, Kept-trans, tx-Kept, with_tx-Kept, fail_reading-Kept, doomed-Kept, move-Kept,
  close_handed-Kept,
}
use sequel.Transaction.{Fault, Query, Outside, Tx, exec_context, query_context}

no_open-Kept : (s t : Reading) → Kept s t → Kept s (no_open t)
no_open-Kept s t k =
    Kept-trans k (tx-Kept t t.items t.handed t.tx t.results.next none (TxKept-refl t.tx))

hand_out-Kept : (src : RowSource) (s : Reading) → Kept s (hand_out src s).0
hand_out-Kept src s =
    tx-Kept s s.items _ s.tx s.results.next (some (length s.handed)) (TxKept-refl s.tx)

take_rows-Kept : (it : BatchItem) (s : Reading) → Kept s (take_rows it s)
take_rows-Kept it s =
    tx-Kept s (set s.items (s.results.next - 1) (record it { rows = [] })) s.handed s.tx
      s.results.next s.results.open_rows (TxKept-refl s.tx)

-- A statement of the batch runs between a set and a reset of `batchExecuting`.
run-Kept :
    (f : Tx → Tx × Option Fault) (s : Reading)
    → ((tx : Tx) → TxKept tx (f tx).0)
    → s.tx.batch_executing ≡ false
    → Kept s (run f s).0
unfolding run
run-Kept f s k idle =
    let ran = k (record s.tx { batch_executing = true }) in
    with_tx-Kept _ s record {
      open_batch = ran.open_batch;
      executing = sym idle;
      auto = ran.auto;
      unsent = ran.unsent;
      misused = ran.misused;
      recorded = λ e h. ran.recorded e h;
    }

taken-Kept : (it : BatchItem) (s : Reading) → Kept s (taken it s).0
taken-Kept it s =
    let Q : Reading × Advance → Type 0 = λ r. Kept s r.0 in
    if_intro Q s.results.pipelined
      (option_intro Q it.err (Kept-refl s) (λ e. fail_reading-Kept (some e) s)) (Kept-refl s)

advance_open-Kept : (s : Reading) → Kept s (advance_open s).0
advance_open-Kept s =
    let Q : Reading × Advance → Type 0 = λ r. Kept s r.0 in
    option_intro Q s.results.err
      (option_intro Q (get_elem? s.items s.results.next) (Kept-refl s)
        (λ it. Kept-trans (move-Kept s) (taken-Kept it (move s))))
      (λ e. move-Kept s)

pub advance_intro {ℓ κ} :
    {A : Type ℓ} (P : A → Type κ) (next : Advance) {f : BatchItem → A} {g : Fault → A}
    → ((it : BatchItem) → P (f it))
    → ((e : Fault) → P (g e))
    → P (elim next [ item it ↦ f it | refused e ↦ g e ])
advance_intro P (item it) p q = p it
advance_intro P (refused e) p q = q e

module _ (o : Outside) where
  pub supersede_open-Kept : (s : Reading) → Kept s (supersede_open o s)
  unfolding supersede_open
  supersede_open-Kept s = option_intro (Kept s) s.results.open_rows (Kept-refl s) (λ h.
      option_intro (Kept s) (get_elem? s.handed h) (no_open-Kept s s (Kept-refl s))
        (λ rows. no_open-Kept s _ (close_handed-Kept o h (marked rows) s)))

  pub advance-Kept : (s : Reading) → Kept s (advance o s).0
  unfolding advance
  advance-Kept s =
      let t = supersede_open o s in
      let first = supersede_open-Kept s in
      let Q : Reading × Advance → Type 0 = λ r. Kept s r.0 in
      if_intro Q t.results.closed first
        (Kept-trans first (Kept-trans (doomed-Kept t) (advance_open-Kept (doomed t))))

query_result-Kept :
    (s t : Reading) (err : Option Fault) → Kept s t → Kept s (query_result (t, err)).0
query_result-Kept s t none k = Kept-trans k (hand_out-Kept streamed t)
query_result-Kept s t (some e) k = k

module _ (o : Outside) (unpack : Bytes → Query) where
  pub run_exec-Kept :
      (it : BatchItem) (s : Reading)
      → s.tx.batch_executing ≡ false
      → Kept s (run_exec o unpack it s).0
  unfolding run_exec exec_context
  run_exec-Kept it s idle =
      let ran = run (exec_context o (unpack it.query)) s in
      Kept-trans (run-Kept _ s (λ tx. statement-TxKept o _ _ tx) idle)
        (fail_reading-Kept ran.1 ran.0)

  run_query-Kept :
      (it : BatchItem) (s : Reading)
      → s.tx.batch_executing ≡ false
      → Kept s (run_query o unpack it s).0
  unfolding run_query query_context
  run_query-Kept it s idle =
      let ran = run (query_context o (unpack it.query)) s in
      Kept-trans (run-Kept _ s (λ tx. statement-TxKept o _ _ tx) idle)
        (fail_reading-Kept ran.1 ran.0)

  pub exec-Kept : (s : Reading) → s.tx.batch_executing ≡ false → Kept s (exec o unpack s).0
  unfolding exec
  exec-Kept s idle =
      let t = (advance o s).0 in
      let first = advance-Kept o s in
      let Q : Reading × ExecResult → Type 0 = λ r. Kept s r.0 in
      advance_intro Q (advance o s).1
        (λ it.
          if_intro Q t.results.pipelined first
            (Kept-trans first (run_exec-Kept it t (first.on_tx.executing ∙ idle))))
        (λ e. first)

  pub query-Kept : (s : Reading) → s.tx.batch_executing ≡ false → Kept s (query o unpack s).0
  unfolding query
  query-Kept s idle =
      let t = (advance o s).0 in
      let first = advance-Kept o s in
      let Q : Reading × QueryResult → Type 0 = λ r. Kept s r.0 in
      advance_intro Q (advance o s).1
        (λ it.
          let ran = run_query o unpack it t in
          if_intro Q t.results.pipelined
            (Kept-trans first (Kept-trans (take_rows-Kept it t) (hand_out-Kept _ (take_rows it t))))
            (query_result-Kept s ran.0 ran.1
              (Kept-trans first (run_query-Kept it t (first.on_tx.executing ∙ idle)))))
        (λ e. first)

  pub run_left-Kept :
      (items : List BatchItem) (s : Reading)
      → s.tx.batch_executing ≡ false
      → Kept s (run_left o unpack items s)
  unfolding run_left
  run_left-Kept [] s idle = Kept-refl s
  run_left-Kept (it ∷ items) s idle =
      let t = (run_exec o unpack it (move s)).0 in
      let first = Kept-trans (move-Kept s) (run_exec-Kept it (move s) idle) in
      option_intro (Kept s) s.results.err
        (Kept-trans first (run_left-Kept items t (first.on_tx.executing ∙ idle))) (λ e. Kept-refl s)

  pub close_body-Kept :
      (s : Reading) → s.tx.batch_executing ≡ false → Kept s (close_body o unpack s)
  unfolding close_body
  close_body-Kept s idle =
      let t = doomed (supersede_open o s) in
      let first = Kept-trans (supersede_open-Kept o s) (doomed-Kept (supersede_open o s)) in
      if_intro (Kept s) t.results.pipelined
        (Kept-trans first (fail_reading-Kept (first_err t.items) t))
        (Kept-trans first
          (run_left-Kept (drop t.results.next t.items) t (first.on_tx.executing ∙ idle)))

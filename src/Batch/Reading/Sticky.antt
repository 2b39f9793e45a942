-- ===== src/Batch/Reading/Sticky.antt =====
-- batchresults.go: the first failure of a batch is what every later read, and Close, report.
use sequel.Base.Cases.{if_intro, if_cases, option_intro, option_cases}
use sequel.Base.{ℕ, ◌≡◌, refl, false, List, [], ◌∷◌, Option, some, Bytes}
use sequel.Batch.{RawRow}
use sequel.Batch.Handed.{Reading, failed}
use sequel.Batch.Reading.{
  Advance, refused, exec_failed, supersede_open, doomed, advance_open, advance, exec, query, close,
  close_body, abandon, rollback_open,
}
use sequel.Batch.Reading.Kept.{doomed-Kept}
use sequel.Batch.Reading.Reads.{supersede_open-Kept, exec-Kept, query-Kept, close_body-Kept}
use sequel.Batch.Reading.Held.{
  ReadingCall, exec_call, query_call, close_call, next_call, scan_call, err_call, close_rows_call,
  scan_row_call, row_err_call, statement_call, commit_call, rollback_call, Held, perform_reading,
  perform_all, perform_reading-Held, next_at-Kept, scan_at-Kept, err_at-Kept, close_at-Kept,
  scan_row_of-Kept, row_err_of-Kept, perform_all-Held,
}
use sequel.Transaction.{Fault, Query, Outside}

module _ (o : Outside) where
  abandon-failed :
      (s : Reading) (e : Fault) → s.results.err ≡ some e → (abandon o s).results.err ≡ some e
  unfolding abandon
  abandon-failed s e h = (supersede_open-Kept o s).failed_with e h

  rollback_open-failed :
      (s : Reading) (e : Fault)
      → s.results.err ≡ some e
      → (rollback_open o s).0.results.err ≡ some e
  unfolding rollback_open
  rollback_open-failed s e h =
      option_intro (λ (t : Reading). t.results.err ≡ some e) s.tx.open_batch h
        (λ (n : ℕ). abandon-failed s e h)

  advance_open-failed :
      (s : Reading) (e : Fault) → s.results.err ≡ some e → (advance_open s).1 ≡ refused e
  advance_open-failed s e h =
      option_cases {A = Reading × Advance} (λ r. r.1 ≡ refused e) s.results.err (λ no. absurd cc)
        (λ f found. cc)

  advance-failed :
      (s : Reading) (e : Fault)
      → s.results.err ≡ some e
      → s.results.closed ≡ false
      → (advance o s).1 ≡ refused e
  unfolding advance
  advance-failed s e h unclosed =
      let t = supersede_open o s in
      let k = supersede_open-Kept o s in
      let u = k.failed_with e h in
      if_cases {A = Reading × Advance} (λ r. r.1 ≡ refused e) t.results.closed (λ c. cc)
        (λ c. advance_open-failed (doomed t) e ((doomed-Kept t).failed_with e u))

module _ (o : Outside) (unpack : Bytes → Query) where
  pub exec-failed :
      (s : Reading) (e : Fault)
      → s.results.err ≡ some e
      → s.results.closed ≡ false
      → (exec o unpack s).1 ≡ exec_failed e
  unfolding exec
  exec-failed s e h unclosed = rw (advance-failed o s e h unclosed, exec) refl

  query-failed :
      (s : Reading) (e : Fault)
      → s.results.err ≡ some e
      → s.results.closed ≡ false
      → (query o unpack s).1 ≡ failed e
  unfolding query
  query-failed s e h unclosed = rw (advance-failed o s e h unclosed, query) refl

  pub close-failed :
      (s : Reading) (e : Fault)
      → Held s
      → s.results.err ≡ some e
      → ((close o unpack s).1 ≡ some e) × ((close o unpack s).0.results.err ≡ some e)
  unfolding close
  close-failed s e held h =
      let later = (close_body-Kept o unpack s held.idle).failed_with e h in
      if_intro {A = Reading × Option Fault} (λ r. (r.1 ≡ some e) × (r.0.results.err ≡ some e))
        s.results.closed (h, h) (later, abandon-failed o (close_body o unpack s) e later)

module _ (o : Outside) (unpack : Bytes → Query) (scan : RawRow → Option Fault) where
  perform_reading-failed :
      (c : ReadingCall) (s : Reading) (e : Fault)
      → Held s
      → s.results.err ≡ some e
      → (perform_reading o unpack scan c s).results.err ≡ some e
  unfolding perform_reading
  perform_reading-failed exec_call s e k h = (exec-Kept o unpack s k.idle).failed_with e h
  perform_reading-failed query_call s e k h = (query-Kept o unpack s k.idle).failed_with e h
  perform_reading-failed close_call s e k h = (close-failed o unpack s e k h).1
  perform_reading-failed (next_call n) s e k h = (next_at-Kept o n s).failed_with e h
  perform_reading-failed (scan_call n) s e k h = (scan_at-Kept o scan n s).failed_with e h
  perform_reading-failed (err_call n) s e k h = (err_at-Kept o n s).failed_with e h
  perform_reading-failed (close_rows_call n) s e k h = (close_at-Kept o n s).failed_with e h
  perform_reading-failed (scan_row_call raw r) s e k h =
      (scan_row_of-Kept o scan raw r s).failed_with e h
  perform_reading-failed (row_err_call r) s e k h = (row_err_of-Kept o r s).failed_with e h
  perform_reading-failed (statement_call q r) s e k h = h
  perform_reading-failed commit_call s e k h = h
  perform_reading-failed rollback_call s e k h = rollback_open-failed o s e h

  perform_all-failed :
      (cs : List ReadingCall) (s : Reading) (e : Fault)
      → Held s
      → s.results.err ≡ some e
      → (perform_all o unpack scan cs s).results.err ≡ some e
  unfolding perform_all
  perform_all-failed [] s e k h = h
  perform_all-failed (c ∷ cs) s e k h =
      perform_all-failed cs (perform_reading o unpack scan c s) e
        (perform_reading-Held o unpack scan c s k) (perform_reading-failed c s e k h)

  -- Results that hold their transaction while they are not closed, and whose first failure is `e`. If
  -- the results are not closed when any calls have followed, Exec, Query and Close all report `e`.
  pub perform_all-reports :
      (cs : List ReadingCall) (s : Reading) (e : Fault)
      → Held s
      → s.results.err ≡ some e
      → (perform_all o unpack scan cs s).results.closed ≡ false
      → let t = perform_all o unpack scan cs s in
        ((exec o unpack t).1 ≡ exec_failed e)
        × ((query o unpack t).1 ≡ failed e)
        × ((close o unpack t).1 ≡ some e)
  perform_all-reports cs s e k h unclosed =
      let t = perform_all o unpack scan cs s in
      let later = perform_all-failed cs s e k h in
      (
        exec-failed o unpack t e later unclosed,
        query-failed o unpack t e later unclosed,
        (close-failed o unpack t e (perform_all-Held o unpack scan cs s k) later).0,
      )

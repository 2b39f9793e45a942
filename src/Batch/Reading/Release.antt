-- ===== src/Batch/Reading/Release.antt =====
-- tx.go, batch.go and batchresults.go: a sent batch holds its transaction until its results are closed, and Close
-- releases it.
use sequel.Base.Cases.{if_intro, if_cases, option_intro}
use sequel.Base.{
  ℕ, ◌≡◌, refl, ap, ◌∙◌, true, false, List, [], ◌∷◌, Option, none, some, Bytes, drop, get_elem?,
  if◌then◌else◌, Option-cases, inl, inr,
}
use sequel.Batch.{
  RawRow, BatchItem, Batch, BatchResults, Wire, any_named, accounted, send_batch, fail,
}
use sequel.Batch.Handed.{Reading, fail_reading}
use sequel.Batch.Reading.{
  supersede_open, doomed, move, run, run_exec, run_left, close_body, close, abandon, first_err,
}
use sequel.Batch.Reading.Frame.{short_circuit-TxKept}
use sequel.Batch.Reading.Held.{ReadingCall, Held, perform_all-Held, close-Held, perform_all}
use sequel.Transaction.{Fault, Query, Outside, Tx, short_circuit}

-- The objects behind `Send`.
abbrev pub reading_of : Batch × (BatchResults × Tx) → Reading
reading_of (b, (r, tx)) = record { items = b.items; results = r; handed = []; tx = tx }

-- The results of a batch that was sent with the items `item ∷ items`.
abbrev pub sent_reading : Option Wire → ℕ → BatchItem → List BatchItem → Tx → Reading
sent_reading conn n item items tx =
    reading_of (send_batch conn n (record { items = item ∷ items; sent = false }) tx)

sent_reading-Held :
    (conn : Option Wire) (n : ℕ) (item : BatchItem) (items : List BatchItem) (tx : Tx)
    → tx.batch_executing ≡ false
    → (short_circuit (accounted (item ∷ items) tx)).1 ≡ none
    → any_named (item ∷ items) ≡ false
    → Held (sent_reading conn n item items tx)
unfolding send_batch
sent_reading-Held conn n item items tx idle free fits =
    let k = short_circuit-TxKept (accounted (item ∷ items) tx) in
    rw (free, send_batch) (rw (fits, send_batch) record { idle = k.executing ∙ idle; held = refl })

fail_reading-open_rows :
    (e : Option Fault) (s : Reading) → (fail_reading e s).results.open_rows ≡ s.results.open_rows
unfolding fail_reading fail
fail_reading-open_rows none s = refl
fail_reading-open_rows (some e) s = refl

doomed-open_rows : (s : Reading) → (doomed s).results.open_rows ≡ s.results.open_rows
unfolding doomed
doomed-open_rows s =
    if_intro (λ (t : Reading). t.results.open_rows ≡ s.results.open_rows) s.tx.auto_err
      (fail_reading-open_rows s.tx.err s) refl

module _ (o : Outside) where
  supersede_open-open_rows : (s : Reading) → (supersede_open o s).results.open_rows ≡ none
  unfolding supersede_open
  supersede_open-open_rows s = elim (Option-cases s.results.open_rows) [
    | inl h ↦ rw (h, supersede_open) h
    | inr (n, h) ↦ elim (Option-cases (get_elem? s.handed n)) [
      | inl missing ↦ rw (h, supersede_open) (rw (missing, supersede_open) refl)
      | inr (rows, found) ↦ rw (h, supersede_open) (rw (found, supersede_open) refl)
    ]
  ]

  -- Without open rows, abandoning keeps the failure.
  abandon-err :
      (s : Reading) → s.results.open_rows ≡ none → (abandon o s).results.err ≡ s.results.err
  unfolding abandon supersede_open
  abandon-err s h = rw (h, supersede_open) refl

module _ (o : Outside) (unpack : Bytes → Query) where
  run_left-open_rows :
      (items : List BatchItem) (s : Reading)
      → (run_left o unpack items s).results.open_rows ≡ s.results.open_rows
  unfolding run_left run_exec run
  run_left-open_rows [] s = refl
  run_left-open_rows (it ∷ items) s =
      option_intro (λ (t : Reading). t.results.open_rows ≡ s.results.open_rows) s.results.err
        (run_left-open_rows items (run_exec o unpack it (move s)).0 ∙ fail_reading-open_rows _ _)
        (λ e. refl)

  close_body-open_rows : (s : Reading) → (close_body o unpack s).results.open_rows ≡ none
  unfolding close_body
  close_body-open_rows s =
      let t = doomed (supersede_open o s) in
      let before = doomed-open_rows (supersede_open o s) ∙ supersede_open-open_rows o s in
      if_intro (λ (u : Reading). u.results.open_rows ≡ none) t.results.pipelined
        (fail_reading-open_rows (first_err t.items) t ∙ before)
        (run_left-open_rows (drop t.results.next t.items) t ∙ before)

  close-closed : (s : Reading) → (close o unpack s).0.results.closed ≡ true
  unfolding close abandon
  close-closed s =
      if_cases {A = Reading × Option Fault} (λ r. r.0.results.closed ≡ true) s.results.closed
        (λ h. h) (λ h. refl)

  close-err : (s : Reading) → (close o unpack s).0.results.err ≡ (close o unpack s).1
  unfolding close
  close-err s =
      if_intro {A = Reading × Option Fault} (λ r. r.0.results.err ≡ r.1) s.results.closed refl
        (abandon-err o (close_body o unpack s) (close_body-open_rows s))

  close-again : (s : Reading) → s.results.closed ≡ true → close o unpack s ≡ (s, s.results.err)
  unfolding close
  close-again s h =
      ap
        (λ c.
          if c
          then (s, s.results.err)
          else (abandon o (close_body o unpack s), (close_body o unpack s).results.err))
        h

  -- A batch with a statement that was sent: its transaction did not refuse it, and no argument is named.
  -- Whatever calls follow of the results, of the rows that they hand out, and of the transaction's statements, Commit
  -- and Rollback, with no other batch queued or sent on the transaction: Close then closes the results and no batch holds
  -- the transaction, and another Close right behind it changes nothing and returns the same failure.
  pub close-releases :
      (scan : RawRow → Option Fault) (cs : List ReadingCall) (conn : Option Wire) (n : ℕ)
      (item : BatchItem) (items : List BatchItem) (tx : Tx)
      → tx.batch_executing ≡ false
      → (short_circuit (accounted (item ∷ items) tx)).1 ≡ none
      → any_named (item ∷ items) ≡ false
      → let t = perform_all o unpack scan cs (sent_reading conn n item items tx) in
        let u = close o unpack t in
        (u.0.results.closed ≡ true) × (u.0.tx.open_batch ≡ none) × (close o unpack u.0 ≡ u)
  close-releases scan cs conn n item items tx idle free fits =
      let start = sent_reading conn n item items tx in
      let t = perform_all o unpack scan cs start in
      let u = close o unpack t in
      let h = close-Held o unpack t (
        perform_all-Held o unpack scan cs start
          (sent_reading-Held conn n item items tx idle free fits)) in
      (
        close-closed t,
        h.held ∙ ap (λ c. if c then none else some u.0.results.name) (close-closed t),
        close-again u.0 (close-closed t) ∙ ap (λ e. (u.0, e)) (close-err t),
      )

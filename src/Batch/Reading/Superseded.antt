-- ===== src/Batch/Reading/Superseded.antt =====
-- batchresults.go and batchrows.go: rows that a later read closes can no longer be read.
use mathlib.Core.Path.{subst}
use sequel.Base.{
  ℕ, zero, suc, ◌≡◌, refl, sym, ap, ◌∙◌, Bool, true, false, not, ◌&&◌, ◌||◌, List, [], ◌∷◌, ◌++◌,
  Option, none, some, Bytes, get_elem?, set, eq_of_some, Bool-cases, inl, inr,
}
use sequel.Base.Cases.{if_intro, if_cases, option_intro, option_cases}
use sequel.Batch.{BatchItem, fail}
use sequel.Batch.Handed.{
  BatchRows, Reading, QueryResult, fail_reading, source_close, close_handed, next, err_of, next_at,
  err_at,
}
use sequel.Batch.Reading.{
  Advance, ExecResult, doomed, move, marked, supersede_open, advance_open, advance, run, run_exec,
  run_query, exec, query, query_result,
}
use sequel.Batch.Reading.Reads.{advance_intro, exec-Kept, query-Kept}
use sequel.Transaction.{Fault, misuse, rows_superseded, Query, Outside, Tx, record_err}

-- The rows `h` were closed by a later read.
pub record Past (h : ℕ) (handed : List BatchRows) : Type 0 where
  pub rows : BatchRows
  pub found : get_elem? handed h ≡ some rows
  pub past : rows.superseded ≡ true

get_elem?-set {ℓ} :
    {A : Type ℓ} (xs : List A) (h : ℕ) (old new : A)
    → get_elem? xs h ≡ some old
    → get_elem? (set xs h new) h ≡ some new
get_elem?-set [] h old new e = absurd cc
get_elem?-set (x ∷ xs) zero old new e = refl
get_elem?-set (x ∷ xs) (suc h) old new e = get_elem?-set xs h old new e

get_elem?-append {ℓ} :
    {A : Type ℓ} (xs ys : List A) (h : ℕ) (old : A)
    → get_elem? xs h ≡ some old
    → get_elem? (xs ++ ys) h ≡ some old
get_elem?-append [] ys h old e = absurd cc
get_elem?-append (x ∷ xs) ys zero old e = e
get_elem?-append (x ∷ xs) ys (suc h) old e = get_elem?-append xs ys h old e

append-Past : (h : ℕ) (xs ys : List BatchRows) → Past h xs → Past h (xs ++ ys)
append-Past h xs ys p = record {
  rows = p.rows;
  found = get_elem?-append xs ys h p.rows p.found;
  past = p.past;
}

-- A transaction of Transact has an error when one was recorded.
pub record_err-some :
    (f : Fault) (tx : Tx)
    → tx.auto_err ≡ true
    → (e : Fault) × ((record_err (some f) tx).err ≡ some e)
unfolding record_err
record_err-some f tx auto =
    let Told : Tx → Type 0 = λ t. (e : Fault) × (t.err ≡ some e) in
    if_cases Told tx.auto_err
      (λ on. option_cases Told tx.err (λ first. (f, refl)) (λ e later. (e, later)))
      (λ off. absurd cc)

module _ (h : ℕ) where
  abbrev PastIn : Reading → Type 0
  PastIn s = Past h s.handed

  fail_reading-Past : (e : Option Fault) (s : Reading) → PastIn s → PastIn (fail_reading e s)
  unfolding fail_reading fail
  fail_reading-Past none s p = p
  fail_reading-Past (some e) s p = p

  doomed-Past : (s : Reading) → PastIn s → PastIn (doomed s)
  unfolding doomed
  doomed-Past s p = if_intro PastIn s.tx.auto_err (fail_reading-Past s.tx.err s p) p

  advance_open-Past : (s : Reading) → PastIn s → PastIn (advance_open s).0
  advance_open-Past s p =
      let Q : Reading × Advance → Type 0 = λ r. PastIn r.0 in
      option_intro Q s.results.err
        (option_intro Q (get_elem? s.items s.results.next) p (λ (it : BatchItem).
          if_intro Q s.results.pipelined
            (option_intro Q it.err p (λ e. fail_reading-Past (some e) (move s) p)) p))
        (λ e. p)

  -- Rows that are read to neither their end nor their closing are superseded.
  marked_superseded :
      (rows : BatchRows) → rows.closed ≡ false → rows.done ≡ false → (marked rows).superseded ≡ true
  marked_superseded rows c d = elim (Bool-cases rows.superseded) [
    | inl e ↦ ap (λ b. b || (not rows.closed && not rows.done)) e
    | inr e ↦
        ap (λ b. b || (not rows.closed && not rows.done)) e
        ∙ ap (λ b. not b && not rows.done) c
        ∙ ap not d
  ]

  module _ (o : Outside) where
    close_handed-Past :
        (rows : BatchRows) (s : Reading)
        → get_elem? s.handed h ≡ some rows
        → rows.closed ≡ false
        → rows.done ≡ false
        → PastIn (close_handed o h (marked rows) s).0
    unfolding close_handed
    close_handed-Past rows s found c d =
        let now = source_close o rows.src s.tx in
        let left = record (marked rows) { src = now.1.0; closed = true } in
        if_cases {A = Reading × Option Fault} (λ r. PastIn r.0) rows.closed (λ over. absurd cc)
          (λ live. fail_reading-Past _ _ record {
            rows = left;
            found = get_elem?-set s.handed h rows left found;
            past = marked_superseded rows c d;
          })

    supersede_open-Past :
        (rows : BatchRows) (s : Reading)
        → s.results.open_rows ≡ some h
        → get_elem? s.handed h ≡ some rows
        → rows.closed ≡ false
        → rows.done ≡ false
        → PastIn (supersede_open o s)
    unfolding supersede_open
    supersede_open-Past rows s at found c d =
        option_cases PastIn s.results.open_rows (λ no_rows. absurd cc)
          (λ n is_n.
            let same : n ≡ h = eq_of_some n h (sym is_n ∙ at) in
            let there : get_elem? s.handed n ≡ some rows = ap (get_elem? s.handed) same ∙ found in
            option_cases PastIn (get_elem? s.handed n) (λ missing. absurd cc)
              (λ old is_old.
                let whole : old ≡ rows = eq_of_some old rows (sym is_old ∙ there) in
                subst (λ m. PastIn (close_handed o m (marked old) s).0) (sym same)
                  (subst (λ r. PastIn (close_handed o h (marked r) s).0) (sym whole)
                    (close_handed-Past rows s found c d))))

    advance-Past : (s : Reading) → PastIn (supersede_open o s) → PastIn (advance o s).0
    unfolding advance
    advance-Past s p =
        let t = supersede_open o s in
        if_intro {A = Reading × Advance} (λ r. PastIn r.0) t.results.closed p
          (advance_open-Past (doomed t) (doomed-Past t p))

    exec-Past :
        (unpack : Bytes → Query) (s : Reading)
        → PastIn (supersede_open o s)
        → PastIn (exec o unpack s).0
    unfolding exec run_exec run
    exec-Past unpack s p =
        let t = (advance o s).0 in
        let first = advance-Past s p in
        let Q : Reading × ExecResult → Type 0 = λ r. PastIn r.0 in
        advance_intro Q (advance o s).1
          (λ it. if_intro Q t.results.pipelined first (fail_reading-Past _ _ first)) (λ e. first)

    query_result-Past :
        (s : Reading) (err : Option Fault) → PastIn s → PastIn (query_result (s, err)).0
    query_result-Past s none p = append-Past h s.handed _ p
    query_result-Past s (some e) p = p

    query-Past :
        (unpack : Bytes → Query) (s : Reading)
        → PastIn (supersede_open o s)
        → PastIn (query o unpack s).0
    unfolding query run_query run
    query-Past unpack s p =
        let t = (advance o s).0 in
        let first = advance-Past s p in
        let Q : Reading × QueryResult → Type 0 = λ r. PastIn r.0 in
        advance_intro Q (advance o s).1
          (λ it.
            let ran = run_query o unpack it t in
            if_intro Q t.results.pipelined (append-Past h t.handed _ first)
              (query_result-Past ran.0 ran.1 (fail_reading-Past _ _ first)))
          (λ e. first)

    -- Reading the rows `h` is refused, and a transaction of Transact has an error recorded.
    unfoldable pub Refused : Reading → Type 0
    Refused t =
        ((next_at o h t).1 ≡ false)
        × ((err_at o h t).1 ≡ some (misuse rows_superseded))
        × ((e : Fault) × ((next_at o h t).0.tx.err ≡ some e))

    -- The rows `h` are the ones that are past.
    past_rows :
        (t : Reading) (p : PastIn t) (rows : BatchRows)
        → get_elem? t.handed h ≡ some rows
        → rows.superseded ≡ true
    past_rows t p rows found =
        let same : rows ≡ p.rows = eq_of_some rows p.rows (sym found ∙ p.found) in
        ap (λ (r : BatchRows). r.superseded) same ∙ p.past

    Past-Refused : (t : Reading) → PastIn t → t.tx.auto_err ≡ true → Refused t
    unfolding Refused next err_of
    Past-Refused t p auto =
        let Next : Reading × Bool → Type 0 = λ r. r.1 ≡ false in
        let Err : Reading × Option Fault → Type 0 = λ r. r.1 ≡ some (misuse rows_superseded) in
        let Told : Reading × Bool → Type 0 = λ r. (e : Fault) × (r.0.tx.err ≡ some e) in
        let entry = get_elem? t.handed h in
        (
          option_cases Next entry (λ missing. refl)
              (λ (rows : BatchRows) found.
                if_cases Next rows.superseded (λ past. refl)
                  (λ live. absurd (cc (past_rows t p rows found)))),
          option_cases Err entry (λ missing. absurd (cc (p.found)))
              (λ (rows : BatchRows) found.
                if_cases Err rows.superseded (λ past. refl)
                  (λ live. absurd (cc (past_rows t p rows found)))),
          option_cases Told entry (λ missing. absurd (cc (p.found)))
              (λ (rows : BatchRows) found.
                if_cases Told rows.superseded
                  (λ past. record_err-some (misuse rows_superseded) t.tx auto)
                  (λ live. absurd (cc (past_rows t p rows found)))),
        )

    -- In a transaction of Transact, whose batch runs no statement just now, the rows that were read last
    -- are neither at their end nor closed. Behind the next read, by Exec or by Query, there is no next
    -- row of them, their error is that they were superseded, and asking for the next row leaves an
    -- error recorded in the transaction.
    pub exec-Refused :
        (unpack : Bytes → Query) (rows : BatchRows) (s : Reading)
        → s.tx.auto_err ≡ true
        → s.tx.batch_executing ≡ false
        → s.results.open_rows ≡ some h
        → get_elem? s.handed h ≡ some rows
        → rows.closed ≡ false
        → rows.done ≡ false
        → Refused (exec o unpack s).0 × Refused (query o unpack s).0
    exec-Refused unpack rows s auto idle at found c d =
        let p = supersede_open-Past rows s at found c d in
        (
          Past-Refused (exec o unpack s).0 (exec-Past unpack s p)
              ((exec-Kept o unpack s idle).on_tx.auto ∙ auto),
          Past-Refused (query o unpack s).0 (query-Past unpack s p)
              ((query-Kept o unpack s idle).on_tx.auto ∙ auto),
        )

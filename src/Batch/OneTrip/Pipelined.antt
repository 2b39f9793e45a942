-- ===== src/Batch/OneTrip/Pipelined.antt =====
-- batch.go and batchresults.go: what is reported of a batch that was one round trip.
use sequel.Base.{
  ℕ, suc, ◌+◌, ◌≡◌, refl, ap, ◌∙◌, Bool, true, List, [], ◌∷◌, Option, none, some, Bytes, length,
  drop, replicate, Option-cases, inl, inr,
}
use sequel.Batch.{BatchItem, Outcome, buffer_result, buffer_all, fail}
use sequel.Batch.Handed.{BatchRows, fail_reading}
use sequel.Batch.OneTrip.{
  replies, errs_of, reading_at, exec_all, exec_all-reading_at, exec_all-failed, drop-next,
}
use sequel.Batch.Reading.Kept.{fail_reading-Kept}
use sequel.Transaction.{Fault, Query, Outside, Tx}

-- What the driver reports of a statement of the round trip.
abbrev pub outcome_err : Outcome → Option Fault
outcome_err out = elim out.query_err [ some e ↦ some e | none ↦ out.rows_err ]

-- What the round trip ends the statements from index `i` with.
abbrev pub ends : (ℕ → Outcome) → ℕ → List BatchItem → List (Option Fault)
ends outcome i [] = []
ends outcome i (it ∷ items) = outcome_err (outcome i) ∷ ends outcome (i + 1) items

-- What is read into an item is its end.
buffer_result-err : (out : Outcome) (it : BatchItem) → (buffer_result out it).err ≡ outcome_err out
buffer_result-err out it = elim (Option-cases out.query_err) [
  | inl h ↦ rw h refl
  | inr (e, h) ↦ rw h refl
]

errs_of-failed :
    (outcome : ℕ → Outcome) (i : ℕ) (e : Fault) (items : List BatchItem)
    → errs_of (buffer_all outcome i (some e) items).0
      ≡ replicate (length (ends outcome i items)) (some e)
unfolding buffer_all
errs_of-failed outcome i e [] = refl
errs_of-failed outcome i e (it ∷ items) = ap (◌∷◌ (some e)) (errs_of-failed outcome (i + 1) e items)

pub errs_of-buffer_all :
    (outcome : ℕ → Outcome) (i : ℕ) (items : List BatchItem)
    → errs_of (buffer_all outcome i none items).0 ≡ replies (ends outcome i items)
unfolding buffer_all
errs_of-buffer_all outcome i [] = refl
errs_of-buffer_all outcome i (it ∷ items) =
    let same = buffer_result-err (outcome i) it in
    ap (λ m. m ∷ errs_of (buffer_all outcome (i + 1) m items).0) same
    ∙ errs_of-next outcome i items (outcome_err (outcome i))
        (errs_of-buffer_all outcome (i + 1) items)
  where
    errs_of-next :
        (outcome : ℕ → Outcome) (i : ℕ) (items : List BatchItem) (m : Option Fault)
        → errs_of (buffer_all outcome (i + 1) none items).0 ≡ replies (ends outcome (i + 1) items)
        → m ∷ errs_of (buffer_all outcome (i + 1) m items).0
          ≡ replies (m ∷ ends outcome (i + 1) items)
    errs_of-next outcome i items none ih = ap (◌∷◌ none) ih
    errs_of-next outcome i items (some e) ih =
        ap (◌∷◌ (some e)) (errs_of-failed outcome (i + 1) e items)

length-errs_of : (items : List BatchItem) → length items ≡ length (errs_of items)
length-errs_of [] = refl
length-errs_of (it ∷ items) = ap suc (length-errs_of items)

module _ (o : Outside) (unpack : Bytes → Query) (auto : Bool) (n : ℕ) (items : List BatchItem) where
  -- The read of an item that ended with `m`.
  pipelined_step :
      (i : ℕ) (m : Option Fault) (it : BatchItem) (rest : List BatchItem) (handed : List BatchRows)
      (tx : Tx)
      → drop i items ≡ record it { err = m } ∷ rest
      → exec_all o unpack (length rest) (reading_at true auto n (i + 1) items handed tx)
        ≡ replies (errs_of rest)
      → exec_all o unpack (suc (length rest)) (reading_at true auto n i items handed tx)
        ≡ replies (m ∷ errs_of rest)
  unfolding fail_reading fail
  pipelined_step i none it rest handed tx h ih =
      exec_all-reading_at o unpack true auto n i items handed tx (record it { err = none }) rest
        (length rest) h
      ∙ ap (◌∷◌ none) ih
  pipelined_step i (some e) it rest handed tx h ih =
      let t = fail_reading (some e) (reading_at true auto n (i + 1) items handed tx) in
      exec_all-reading_at o unpack true auto n i items handed tx (record it { err = some e }) rest
        (length rest) h
      ∙ ap (◌∷◌ (some e)) (
          exec_all-failed o unpack (length rest) t e
            (fail_reading-Kept (some e)
              (reading_at true auto n (i + 1) items handed tx)).on_tx.executing
            refl refl
          ∙ ap (λ k. replicate k (some e)) (length-errs_of rest))

  -- Reading the statements of a round trip, each with its end.
  pub exec_all-pipelined :
      (i : ℕ) (rest : List BatchItem) (handed : List BatchRows) (tx : Tx)
      → drop i items ≡ rest
      → exec_all o unpack (length rest) (reading_at true auto n i items handed tx)
        ≡ replies (errs_of rest)
  unfolding exec_all
  exec_all-pipelined i [] handed tx h = refl
  exec_all-pipelined i (it ∷ rest) handed tx h =
      pipelined_step i it.err it rest handed tx h
        (exec_all-pipelined (i + 1) rest handed tx (drop-next i items it rest h))

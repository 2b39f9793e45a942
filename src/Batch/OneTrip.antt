-- ===== src/Batch/OneTrip.antt =====
-- batch.go and batchresults.go: what the reads of a batch report, for a batch that was one round trip and for one
-- whose statements run as they are read. Both are stated against the list of what the statements end with.
pub mod Pipelined
pub mod OneByOne
pub mod Same
use sequel.Base.{
  ℕ, zero, suc, ◌+◌, ◌≡◌, refl, sym, ap, ◌∙◌, Bool, true, false, List, [], ◌∷◌, ◌++◌, Option, none,
  some, Bytes, length, drop, get_elem?, replicate, arith, if◌then◌else◌,
}
use sequel.Batch.{RawRow, BatchItem}
use sequel.Batch.Handed.{BatchRows, Reading, fail_reading}
use sequel.Batch.Reading.{
  Advance, item, refused, ExecResult, exec_failed, affected, of_driver, advance, move, taken, exec,
  supersede_open, doomed, run_exec, exec_result,
}
use sequel.Batch.Reading.Reads.{exec-Kept, advance_intro}
use sequel.Batch.Reading.Sticky.{exec-failed}
use sequel.Transaction.{Fault, Query, Outside, Tx}

-- What the reads of a batch report, when its statements end so: the first failure is what it and every
-- read behind it report.
abbrev pub replies : List (Option Fault) → List (Option Fault)
replies [] = []
replies (none ∷ ends) = none ∷ replies ends
replies (some e ∷ ends) = some e ∷ replicate (length ends) (some e)

abbrev pub errs_of : List BatchItem → List (Option Fault)
errs_of [] = []
errs_of (it ∷ items) = it.err ∷ errs_of items

abbrev pub result_err : ExecResult → Option Fault
result_err (exec_failed e) = some e
result_err (affected n) = none
result_err of_driver = none

-- A transaction that is held by the batch `n` and has recorded no error.
abbrev pub open_tx : Bool → ℕ → Tx → Tx
open_tx auto n tx = record tx {
  auto_err = auto;
  err = none;
  open_batch = some n;
  batch_executing = false;
}

-- The results of the batch `n` before the statement `i` is read, where none has failed.
abbrev pub reading_at : Bool → Bool → ℕ → ℕ → List BatchItem → List BatchRows → Tx → Reading
reading_at pipelined auto n i items handed tx = record {
  items = items;
  results = record {
    name = n;
    next = i;
    err = none;
    closed = false;
    open_rows = none;
    pipelined = pipelined;
  };
  handed = handed;
  tx = open_tx auto n tx;
}

get_elem?-drop {ℓ} :
    {A : Type ℓ} (i : ℕ) (xs : List A) (y : A) (ys : List A)
    → drop i xs ≡ y ∷ ys
    → get_elem? xs i ≡ some y
get_elem?-drop zero [] y ys h = absurd cc
get_elem?-drop (suc i) [] y ys h = absurd cc
get_elem?-drop zero (x ∷ xs) y ys h = cc
get_elem?-drop (suc i) (x ∷ xs) y ys h = get_elem?-drop i xs y ys h

drop-suc {ℓ} :
    {A : Type ℓ} (i : ℕ) (xs : List A) (y : A) (ys : List A)
    → drop i xs ≡ y ∷ ys
    → drop (suc i) xs ≡ ys
drop-suc zero [] y ys h = absurd cc
drop-suc (suc i) [] y ys h = absurd cc
drop-suc zero (x ∷ xs) y ys h = cc
drop-suc (suc i) (x ∷ xs) y ys h = drop-suc i xs y ys h

pub drop-next {ℓ} :
    {A : Type ℓ} (i : ℕ) (xs : List A) (y : A) (ys : List A)
    → drop i xs ≡ y ∷ ys
    → drop (i + 1) xs ≡ ys
drop-next i xs y ys h =
    let next : i + 1 ≡ suc i = omega arith in ap (λ k. drop k xs) next ∙ drop-suc i xs y ys h

module _ (o : Outside) (unpack : Bytes → Query) where
  -- What Exec reports, read so many times.
  unfoldable pub exec_all : ℕ → Reading → List (Option Fault)
  exec_all zero s = []
  exec_all (suc n) s = let (t, r) = exec o unpack s in result_err r ∷ exec_all n t

  -- What Exec makes of the statement that it advances to.
  abbrev pub exec_of : Reading × Advance → Reading × ExecResult
  exec_of (t, next) = elim next [
    | refused e ↦ (t, exec_failed e)
    | item it ↦
        if t.results.pipelined
        then (t, affected it.rows_affected)
        else (let (u, err) = run_exec o unpack it t in (u, exec_result err))
  ]

  exec-advance : (s : Reading) → exec o unpack s ≡ exec_of (advance o s)
  unfolding exec
  exec-advance s = refl

  advance-reading_at :
      (p auto : Bool) (n i : ℕ) (items : List BatchItem) (handed : List BatchRows) (tx : Tx)
      (it : BatchItem) (rest : List BatchItem)
      → drop i items ≡ it ∷ rest
      → advance o (reading_at p auto n i items handed tx)
        ≡ taken it (reading_at p auto n (i + 1) items handed tx)
  unfolding advance supersede_open doomed fail_reading
  advance-reading_at p true n i items handed tx it rest h =
      rw (get_elem?-drop i items it rest h, advance) refl
  advance-reading_at p false n i items handed tx it rest h =
      rw (get_elem?-drop i items it rest h, advance) refl

  -- One read, and the reads behind it.
  pub exec_all-reading_at :
      (p auto : Bool) (n i : ℕ) (items : List BatchItem) (handed : List BatchRows) (tx : Tx)
      (it : BatchItem) (rest : List BatchItem) (k : ℕ)
      → drop i items ≡ it ∷ rest
      → let r = exec_of (taken it (reading_at p auto n (i + 1) items handed tx)) in
        exec_all (suc k) (reading_at p auto n i items handed tx) ≡ result_err r.1 ∷ exec_all k r.0
  unfolding exec_all
  exec_all-reading_at p auto n i items handed tx it rest k h =
      ap (λ r. result_err r.1 ∷ exec_all k r.0)
        (exec-advance (reading_at p auto n i items handed tx)
          ∙ ap exec_of (advance-reading_at p auto n i items handed tx it rest h))

  pub exec_all-failed :
      (k : ℕ) (s : Reading) (e : Fault)
      → s.tx.batch_executing ≡ false
      → s.results.err ≡ some e
      → s.results.closed ≡ false
      → exec_all k s ≡ replicate k (some e)
  unfolding exec_all
  exec_all-failed zero s e idle h unclosed = refl
  exec_all-failed (suc k) s e idle h unclosed =
      let t = (exec o unpack s).0 in
      let kept = exec-Kept o unpack s idle in
      ap (λ r. result_err r ∷ exec_all k t) (exec-failed o unpack s e h unclosed)
      ∙ ap (◌∷◌ (some e)) (
          exec_all-failed k t e (kept.on_tx.executing ∙ idle) (kept.failed_with e h)
            (kept.closed ∙ unclosed))

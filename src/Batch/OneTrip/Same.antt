-- ===== src/Batch/OneTrip/Same.antt =====
-- batch.go and batchresults.go: a batch reports the same whether it was one round trip or not.
use sequel.Base.Cases.{option_intro, option_cases}
use sequel.Base.{
  ℕ, zero, suc, ◌+◌, ◌≡◌, refl, sym, ap, ◌∙◌, Bool, true, false, List, [], ◌∷◌, Option, none, some,
  Bytes, length, replicate,
}
use sequel.Batch.{
  BatchItem, Outcome, Wire, any_named, buffer_all, unsendable, pipeline, send_batch, accounted,
  carried, is_pipelined,
}
use sequel.Batch.Reading.Release.{sent_reading}
use sequel.Batch.OneTrip.{replies, reading_at, exec_all}
use sequel.Batch.OneTrip.OneByOne.{answers, Answers, exec_all-one_by_one}
use sequel.Batch.OneTrip.Pipelined.{ends, errs_of-buffer_all, exec_all-pipelined}
use sequel.Transaction.{Fault, Query, Outside, Tx, short_circuit, batch_refuses}

length-replicate {ℓ} : {A : Type ℓ} (k : ℕ) (x : A) → length (replicate k x) ≡ k
length-replicate zero x = refl
length-replicate (suc k) x = ap suc (length-replicate k x)

replies-replicate : (k : ℕ) (e : Fault) → replies (replicate k (some e)) ≡ replicate k (some e)
replies-replicate zero e = refl
replies-replicate (suc k) e = ap (λ n. some e ∷ replicate n (some e)) (length-replicate k (some e))

replies-replies : (xs : List (Option Fault)) → replies (replies xs) ≡ replies xs
replies-replies [] = refl
replies-replies (none ∷ xs) = ap (◌∷◌ none) (replies-replies xs)
replies-replies (some e ∷ xs) = replies-replicate (suc (length xs)) e

length-buffer_all :
    (outcome : ℕ → Outcome) (i : ℕ) (m : Option Fault) (items : List BatchItem)
    → length (buffer_all outcome i m items).0 ≡ length items
unfolding buffer_all
length-buffer_all outcome i m [] = refl
length-buffer_all outcome i none (it ∷ items) = ap suc (length-buffer_all outcome (i + 1) _ items)
length-buffer_all outcome i (some e) (it ∷ items) =
    ap suc (length-buffer_all outcome (i + 1) (some e) items)

-- A round trip that is made and read to its end.
pipeline-made :
    (w : Wire) (items : List BatchItem)
    → unsendable w items ≡ none
    → w.close_err ≡ none
    → pipeline w items ≡ (buffer_all w.outcome 0 none items).0
unfolding pipeline
pipeline-made w items sent closed =
    rw (sent, pipeline)
      (option_intro (λ (read : List BatchItem). read ≡ (buffer_all w.outcome 0 none items).0)
        (buffer_all w.outcome 0 none items).1
        (option_cases (λ (read : List BatchItem). read ≡ (buffer_all w.outcome 0 none items).0)
          w.close_err (λ h. refl) (λ e h. absurd cc))
        (λ e. refl))

-- A transaction that no batch holds, and that has recorded no error.
abbrev pub unheld : Bool → Tx → Tx
unheld auto tx = record tx {
  auto_err = auto;
  err = none;
  open_batch = none;
  batch_executing = false;
}

sent_reading-at :
    (conn : Option Wire) (auto : Bool) (n : ℕ) (item : BatchItem) (items : List BatchItem) (tx : Tx)
    → any_named (item ∷ items) ≡ false
    → sent_reading conn n item items (unheld auto tx)
      ≡ reading_at
          (is_pipelined conn (item ∷ items))
          auto
          n
          0
          (carried conn (item ∷ items))
          []
          (accounted (item ∷ items) tx)
unfolding send_batch short_circuit batch_refuses
sent_reading-at conn true n item items tx fits = rw (fits, send_batch) refl
sent_reading-at conn false n item items tx fits = rw (fits, send_batch) refl

-- Every statement of the batch unpacks and no argument is named. The database answers a statement by its
-- text alone, with `f`, without a delay, and the round trip is made, ends its statements as `f` does,
-- and is read to its end. Then reading every statement of the batch, on a transaction that no batch
-- holds and that has recorded no error, reports the same over one round trip and one by one: no
-- failure before the first statement that fails, and its failure from there on.
pub exec_all-same :
    (o : Outside) (unpack : Bytes → Query) (f : Bytes → Option Fault) (w : Wire) (auto : Bool)
    (n : ℕ) (item : BatchItem) (items : List BatchItem) (tx : Tx)
    → Answers o unpack f
    → any_named (item ∷ items) ≡ false
    → unsendable w (item ∷ items) ≡ none
    → ends w.outcome 0 (item ∷ items) ≡ answers f (item ∷ items)
    → w.close_err ≡ none
    → let k = suc (length items) in
      (exec_all o unpack k (sent_reading (some w) n item items (unheld auto tx))
        ≡ replies (answers f (item ∷ items)))
      × (exec_all o unpack k (sent_reading none n item items (unheld auto tx))
          ≡ replies (answers f (item ∷ items)))
exec_all-same o unpack f w auto n item items tx a fits sent same closed =
    let all = item ∷ items in
    let read = (buffer_all w.outcome 0 none all).0 in
    let t = accounted all tx in
    (
      ap (exec_all o unpack (suc (length items)))
            (sent_reading-at (some w) auto n item items tx fits)
          ∙ ap (λ l. exec_all o unpack (suc (length items)) (reading_at true auto n 0 l [] t))
              (pipeline-made w all sent closed)
          ∙ ap (λ k. exec_all o unpack k (reading_at true auto n 0 read [] t))
              (sym (length-buffer_all w.outcome 0 none all))
          ∙ exec_all-pipelined o unpack auto n read 0 read [] t refl
          ∙ ap replies (errs_of-buffer_all w.outcome 0 all ∙ ap replies same)
          ∙ replies-replies (answers f all),
      ap (exec_all o unpack (suc (length items))) (sent_reading-at none auto n item items tx fits)
          ∙ exec_all-one_by_one o unpack f a auto n all 0 all [] t refl,
    )

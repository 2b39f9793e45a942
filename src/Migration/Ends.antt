-- ===== src/Migration/Ends.antt =====
-- db.go: the loop of Migrate ends when other runners give their locks up.
use sequel.Base.{
  ℕ, zero, suc, ◌+◌, ◌-◌, ◌≤◌, ◌≡◌, ◌≢◌, ◌⊎◌, inl, inr, refl, ap, Bool, false, List, [], ◌∷◌,
  Option, none, some, Bytes, ◌==◌, length, arith,
}
use sequel.Base.Cases.{option_intro, bool_cases, bool_intro}
use sequel.Base.Int.{ℤ}
use sequel.Driver.{Driver}
use sequel.Migration.Grows.{attempt-rule, exec_retrying-keeps, unless_completed-keeps}
use sequel.Migration.Files.{
  File, Migration, wanted, read_files, leb_ℤ, insert_sorted, sorted_numbers,
}
use sequel.Migration.Migrate.{
  Watermark, at, table_failed, read_failed, find_watermark, migrate_pending, migrate_from, migrate,
  is_supported, plan_of,
}
use sequel.Migration.{
  Ask, insert, take_lock, read_completed, complete, Event, Server, Turn, next, again, stop, Ended,
  waiting, tell, retry_contention, exec_retrying, run_statements, run_err, run_locked, lock_and_run,
  unless_completed, is_duplicate, turn,
}
use sequel.Transaction.{Fault}

-- Once a log has `bound` events, a lock that is asked for without an error is granted.
abbrev pub GivesUp : Server → ℕ → Type 0
GivesUp s bound =
    (log : List Event) (n : ℤ)
    → bound ≤ length log
    → ((s.answer log (take_lock n)).value == 0) ≡ false

zero_or_suc : (k : ℕ) → (k ≡ 0) ⊎ ((j : ℕ) × (k ≡ suc j))
zero_or_suc zero = inl refl
zero_or_suc (suc j) = inr (j, refl)

again_cases {ℓ κ} :
    {A : Type ℓ} (P : A → Type κ) (t : Turn) {x y : A} {f : Fault → A}
    → P x
    → (t ≡ again → P y)
    → ((e : Fault) → P (f e))
    → P (elim t [ next ↦ x | again ↦ y | stop e ↦ f e ])
again_cases P next p q r = p
again_cases P again p q r = q refl
again_cases P (stop e) p q r = r e

AtLeast : ℕ → List Event → Type 0
AtLeast k log = k ≤ length log

module _ (s : Server) where
  tell-AtLeast : (k : ℕ) (a : Ask) (l : List Event) → AtLeast k l → AtLeast k (tell s a l).0
  unfolding AtLeast tell
  tell-AtLeast k a l h = omega (arith, h)

  -- The first event of a turn.
  insert-longer :
      (n : ℤ) (log : List Event) → AtLeast (suc (length log)) (exec_retrying s (insert n) log).0
  unfolding AtLeast tell retry_contention
  insert-longer n log =
      attempt-rule s (AtLeast (length log)) (λ r. AtLeast (suc (length log)) r.0)
        (tell s (insert n)) (λ l h. omega (arith, h)) (λ l h. omega (arith, h)) 7 _ log
        (omega arith)

  turn-longer :
      (d : Driver) (n : ℤ) (stmts : List Bytes) (log : List Event)
      → AtLeast (suc (length log)) (turn s d n stmts log).0
  unfolding turn
  turn-longer d n stmts log =
      let k = suc (length log) in
      let r = exec_retrying s (insert n) log in
      let first = insert-longer n log in
      let later = unless_completed-keeps s (AtLeast k) (tell-AtLeast k) n stmts r.0 first in
      let Q : List Event × Turn → Type 0 = λ t. AtLeast k t.0 in
      option_intro Q r.1.err later (λ e. bool_intro Q (is_duplicate s d e) later first)

  module _ (bound : ℕ) (gives : GivesUp s bound) where
    granted :
        (n : ℤ) (log : List Event)
        → AtLeast bound log
        → ((exec_retrying s (take_lock n) log).1.value == 0) ≡ false
    unfolding AtLeast tell retry_contention
    granted n log h =
        attempt-rule s (AtLeast bound) (λ r. (r.1.value == 0) ≡ false) (tell s (take_lock n))
          (λ l k. gives l n k) (λ l k. omega (arith, k)) 7 _ log h

    lock_and_run-moves :
        (n : ℤ) (stmts : List Bytes) (log : List Event)
        → AtLeast bound log
        → (lock_and_run s n stmts log).1 ≢ again
    unfolding lock_and_run run_locked
    lock_and_run-moves n stmts log h =
        let Q : List Event × Turn → Type 0 = λ t. t.1 ≢ again in
        let r = exec_retrying s (take_lock n) log in
        let ran = run_statements s none n stmts r.0 in
        option_intro Q r.1.err
          (bool_cases Q (r.1.value == 0) (λ zero. absurd (cc (granted n log h)))
            (λ more.
              option_intro Q (run_err ran.1)
                (option_intro (λ (t : Turn). t ≢ again) (exec_retrying s (complete n) ran.0).1.err
                  (λ t. cc) (λ e t. cc))
                (λ e t. cc)))
          (λ e t. cc)

    turn-moves :
        (d : Driver) (n : ℤ) (stmts : List Bytes) (log : List Event)
        → AtLeast bound log
        → (turn s d n stmts log).1 ≢ again
    unfolding turn unless_completed
    turn-moves d n stmts log h =
        let Q : List Event × Turn → Type 0 = λ t. t.1 ≢ again in
        let r = exec_retrying s (insert n) log in
        let first = exec_retrying-keeps s (AtLeast bound) (tell-AtLeast bound) (insert n) log h in
        let read = exec_retrying s (read_completed n) r.0 in
        let second =
          exec_retrying-keeps s (AtLeast bound) (tell-AtLeast bound) (read_completed n) r.0 first in
        let later : Q (unless_completed s n stmts r.0) =
          option_intro Q read.1.err
            (bool_intro Q (read.1.value == 0) (lock_and_run-moves n stmts read.0 second) (λ t. cc))
            (λ e t. cc) in
        option_intro Q r.1.err later (λ e. bool_intro Q (is_duplicate s d e) later (λ t. cc))

    -- With fuel for `k` more polls, where the log lacks at most `k` events of `bound`.
    pending-ends :
        (k : ℕ) (d : Driver) (plan : ℤ → List Bytes) (ns : List ℤ) (fuel : ℕ) (log : List Event)
        → bound ≤ k + length log
        → fuel ≡ k + length ns
        → (migrate_pending s fuel d plan ns log).1 ≢ waiting
    unfolding migrate_pending AtLeast
    pending-ends k d plan [] fuel log h f = λ t. cc
    pending-ends k d plan (n ∷ ns) zero log h f = absurd (omega (arith, f))
    pending-ends k d plan (n ∷ ns) (suc fuel) log h f =
        let Q : List Event × Ended → Type 0 = λ r. r.1 ≢ waiting in
        let r = turn s d n (plan n) log in
        let longer = turn-longer d n (plan n) log in
        again_cases Q r.1
          (pending-ends k d plan ns fuel r.0 (omega (arith, h, longer)) (omega (arith, f)))
          (λ held. elim (zero_or_suc k) [
            | inl none_left ↦
                absurd (turn-moves d n (plan n) log (omega (arith, h, none_left)) held)
            | inr (j, more) ↦
                pending-ends j d plan (n ∷ ns) fuel r.0 (omega (arith, h, longer, more))
                  (omega (arith, f, more))
          ])
          (λ e t. cc)

    length-insert_sorted : (n : ℤ) (ns : List ℤ) → length (insert_sorted n ns) ≡ suc (length ns)
    unfolding insert_sorted
    length-insert_sorted n [] = refl
    length-insert_sorted n (m ∷ ms) =
        bool_intro (λ (l : List ℤ). length l ≡ suc (suc (length ms))) (leb_ℤ n m) refl
          (ap suc (length-insert_sorted n ms))

    length-read_files :
        (mark : ℤ) (files : List File)
        → length (sorted_numbers (read_files mark files).0) ≤ length files
    unfolding read_files sorted_numbers
    length-read_files mark [] = omega arith
    length-read_files mark (file ∷ files) =
        let rest = read_files mark files in
        let ih = length-read_files mark files in
        let Q : List Migration × Option Fault → Type 0 =
          λ r. length (sorted_numbers r.0) ≤ suc (length files) in
        option_intro Q (wanted mark file) (omega (arith, ih)) (λ n.
          option_intro Q file.read_err
            (let size = length-insert_sorted n (sorted_numbers rest.0) in omega (arith, ih, size))
            (λ e. omega arith))

    migrate_from-ends :
        (fuel : ℕ) (d : Driver) (dir_err : Option Fault) (files : List File)
        (r : List Event × Watermark)
        → bound + length files ≤ fuel
        → (migrate_from s fuel d dir_err files r).1 ≢ waiting
    migrate_from-ends fuel d dir_err files (log, table_failed e) h = λ t. cc
    migrate_from-ends fuel d dir_err files (log, read_failed e) h = λ t. cc
    migrate_from-ends fuel d (some e) files (log, at mark) h = λ t. cc
    migrate_from-ends fuel d none files (log, at mark) h =
        let read = read_files mark files in
        let ns = sorted_numbers read.0 in
        let size = length-read_files mark files in
        option_intro {A = List Event × Ended} (λ (r : List Event × Ended). r.1 ≢ waiting) read.1
          (pending-ends (fuel - length ns) d (plan_of d read.0) ns fuel log (omega (arith, h, size))
            (omega (arith, h, size)))
          (λ e t. cc)

-- When the log has reached some number of events, every lock that is asked for is granted. Then fuel for
-- that number and for the files is enough: Migrate ends, with an error or done.
pub migrate-ends :
    (s : Server) (bound : ℕ) (fuel : ℕ) (d : Driver) (ready : Bool) (dir_err : Option Fault)
    (files : List File) (log : List Event)
    → GivesUp s bound
    → bound + length files ≤ fuel
    → (migrate s fuel d ready dir_err files log).1 ≢ waiting
unfolding migrate
migrate-ends s bound fuel d ready dir_err files log gives h =
    bool_intro {A = List Event × Ended} (λ (r : List Event × Ended). r.1 ≢ waiting) (is_supported d)
      (migrate_from-ends s bound gives fuel d dir_err files (find_watermark s ready log) h)
      (λ t. cc)

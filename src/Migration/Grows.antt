-- ===== src/Migration/Grows.antt =====
-- db.go: what every event of a migration keeps, its turn keeps; and what the last answer of a retried statement is.
use sequel.Base.{ℕ, zero, suc, List, [], ◌∷◌, Option, none, some, Bytes, ◌==◌}
use sequel.Base.Cases.{option_intro, bool_intro}
use sequel.Base.Int.{ℤ}
use sequel.Driver.{Driver}
use sequel.Migration.Guarded.{retrying-keeps}
use sequel.Migration.{
  Ask, insert, read_completed, take_lock, extend_lock, release, complete, execute, Answer, Event,
  Server, Turn, tell, retry, renew, renew_due, exec_retrying, run_statements, run_err, run_locked,
  lock_and_run, unless_completed, is_duplicate, turn,
}
use sequel.Transaction.{Fault}

-- A rule for a loop of `retryContention` that makes an attempt.
pub attempt-rule :
    (s : Server) (P : List Event → Type 0) (R : List Event × Answer → Type 0)
    (f : List Event → List Event × Answer)
    → ((l : List Event) → P l → R (f l))
    → ((l : List Event) → P l → P (f l).0)
    → (left : ℕ) (last : Answer) (l : List Event) → P l
    → R (retry s f (suc left) last l)
unfolding retry
attempt-rule s P R f once keep zero last l p =
    option_intro R (f l).1.err (once l p) (λ e. bool_intro R (s.contention e) (once l p) (once l p))
attempt-rule s P R f once keep (suc left) last l p = option_intro R (f l).1.err (once l p) (λ e.
    bool_intro R (s.contention e) (attempt-rule s P R f once keep left (f l).1 (f l).0 (keep l p))
      (once l p))

module _ (s : Server) (P : List Event → Type 0)
    (keep : (a : Ask) (l : List Event) → P l → P (tell s a l).0) where
  pub exec_retrying-keeps : (a : Ask) (l : List Event) → P l → P (exec_retrying s a l).0
  exec_retrying-keeps a = retrying-keeps s P a (keep a)

  renew-keeps : (k : ℕ) (n : ℤ) (l : List Event) → P l → P (renew s k n l).0
  unfolding renew
  renew-keeps zero n l p = p
  renew-keeps (suc k) n l p =
      let r = exec_retrying s (extend_lock n) l in
      let first = exec_retrying-keeps (extend_lock n) l p in
      option_intro {A = List Event × Option Fault} (λ t. P t.0) r.1.err (renew-keeps k n r.0 first)
        (λ e. first)

  renew_due-keeps :
      (lost : Option Fault) (n : ℤ) (l : List Event) → P l → P (renew_due s lost n l).0
  renew_due-keeps none n l p = renew-keeps (s.renewals l) n l p
  renew_due-keeps (some e) n l p = p

  run_statements-keeps :
      (lost : Option Fault) (n : ℤ) (stmts : List Bytes) (l : List Event)
      → P l
      → P (run_statements s lost n stmts l).0
  unfolding run_statements
  run_statements-keeps lost n [] l p = renew_due-keeps lost n l p
  run_statements-keeps lost n (stmt ∷ stmts) l p =
      let due = renew_due s lost n l in
      let m = tell s (execute n stmt) due.0 in
      let ran = keep (execute n stmt) due.0 (renew_due-keeps lost n l p) in
      option_intro {A = List Event × (Option Fault × Option Fault)} (λ t. P t.0) m.1.err
        (run_statements-keeps due.1 n stmts m.0 ran) (λ e. renew_due-keeps due.1 n m.0 ran)

  run_locked-keeps :
      (n : ℤ) (stmts : List Bytes) (l : List Event) → P l → P (run_locked s n stmts l).0
  unfolding run_locked
  run_locked-keeps n stmts l p =
      let ran = run_statements s none n stmts l in
      let first = run_statements-keeps none n stmts l p in
      option_intro {A = List Event × Turn} (λ t. P t.0) (run_err ran.1)
        (exec_retrying-keeps (complete n) ran.0 first)
        (λ e. exec_retrying-keeps (release n) ran.0 first)

  lock_and_run-keeps :
      (n : ℤ) (stmts : List Bytes) (l : List Event) → P l → P (lock_and_run s n stmts l).0
  unfolding lock_and_run
  lock_and_run-keeps n stmts l p =
      let r = exec_retrying s (take_lock n) l in
      let first = exec_retrying-keeps (take_lock n) l p in
      let Q : List Event × Turn → Type 0 = λ t. P t.0 in
      option_intro Q r.1.err
        (bool_intro Q (r.1.value == 0) first (run_locked-keeps n stmts r.0 first)) (λ e. first)

  pub unless_completed-keeps :
      (n : ℤ) (stmts : List Bytes) (l : List Event) → P l → P (unless_completed s n stmts l).0
  unfolding unless_completed
  unless_completed-keeps n stmts l p =
      let r = exec_retrying s (read_completed n) l in
      let first = exec_retrying-keeps (read_completed n) l p in
      let Q : List Event × Turn → Type 0 = λ t. P t.0 in
      option_intro Q r.1.err
        (bool_intro Q (r.1.value == 0) (lock_and_run-keeps n stmts r.0 first) first) (λ e. first)

  pub turn-keeps :
      (d : Driver) (n : ℤ) (stmts : List Bytes) (l : List Event) → P l → P (turn s d n stmts l).0
  unfolding turn
  turn-keeps d n stmts l p =
      let r = exec_retrying s (insert n) l in
      let first = exec_retrying-keeps (insert n) l p in
      let Q : List Event × Turn → Type 0 = λ t. P t.0 in
      option_intro Q r.1.err (unless_completed-keeps n stmts r.0 first)
        (λ e. bool_intro Q (is_duplicate s d e) (unless_completed-keeps n stmts r.0 first) first)

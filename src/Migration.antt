-- ===== src/Migration.antt =====
-- db.go: Migrate, on a server that answers as it likes; its answers may depend on all that was asked before, which is
-- the log, newest first. Other runners are part of the server. Spans, metrics and logs are left out.
pub mod Statements
pub mod Files
pub mod Migrate
pub mod Guarded
pub mod Grows
pub mod Complete
pub mod Ends
use sequel.Base.{
  ℕ, zero, suc, Bool, true, false, List, [], ◌∷◌, ◌++◌, Option, none, some, Bytes, ◌==◌,
  if◌then◌else◌,
}
use sequel.Base.Int.{ℤ, pos}
use sequel.Driver.{Driver, other, is_mssql}
use sequel.Migration.Statements.{statements_of}
use sequel.Transaction.{Fault, misuse, unsupported_driver}

-- What Migrate asks of the server: the migrations table, and the statements of a migration.
pub data Ask : Type 0 where
  make_table probe_table read_watermark : Ask
  insert read_completed take_lock extend_lock release complete : ℤ → Ask
  execute : ℤ → Bytes → Ask

-- The error of an answer, and its number: the rows that it affected, or 1 for a migration that is
-- completed.
pub record Answer : Type 0 where
  pub err : Option Fault
  pub value : ℕ

pub record Event : Type 0 where
  pub ask : Ask
  pub answer : Answer

-- `watermark` is the greatest number that is completed, `renewals` how often the lock is due for
-- renewal before the next event of a migration that runs, and `contention` and `duplicate` classify
-- errors.
pub record Server : Type 0 where
  pub answer : List Event → Ask → Answer
  pub watermark : List Event → Option ℤ
  pub renewals : List Event → ℕ
  pub contention : Fault → Bool
  pub duplicate : Fault → Bool

-- What a turn of the loop of Migrate ends with.
pub data Turn : Type 0 where
  next again : Turn
  stop : Fault → Turn

-- What Migrate ends with; `waiting` is a run that is out of fuel.
pub data Ended : Type 0 where
  done waiting : Ended
  failed : Fault → Ended

-- The error of a migration: that its lock was lost, unless it had ended by then.
abbrev pub run_err : Option Fault × Option Fault → Option Fault
run_err (lost, none) = none
run_err (none, some e) = some e
run_err (some e, some f) = some e

abbrev pub stop_or_next : List Event × Answer → List Event × Turn
stop_or_next (log, r) = (log, elim r.err [ some e ↦ stop e | none ↦ next ])

module _ (s : Server) where
  unfoldable pub tell : Ask → List Event → List Event × Answer
  tell a log = let r = s.answer log a in (record { ask = a; answer = r } ∷ log, r)

  -- The loop of `retryContention`, for `left` attempts; `last` is the answer of the last one.
  unfoldable pub retry :
      (List Event → List Event × Answer) → ℕ → Answer → List Event → List Event × Answer
  retry f zero last log = (log, last)
  retry f (suc left) last log =
      let (l, r) = f log in
      elim r.err [
        | none ↦ (l, r)
        | some e ↦ elim (s.contention e) [ false ↦ (l, r) | true ↦ retry f left r l ]
      ]

  -- `retryContention`
  unfoldable pub retry_contention :
      (List Event → List Event × Answer) → List Event → List Event × Answer
  retry_contention f = retry f 8 (record { err = none; value = 0 })

  -- `execRetryingContention`
  abbrev pub exec_retrying : Ask → List Event → List Event × Answer
  exec_retrying a = retry_contention (tell a)

  -- The renewals that are due, until one fails.
  unfoldable pub renew : ℕ → ℤ → List Event → List Event × Option Fault
  renew zero n log = (log, none)
  renew (suc k) n log =
      let (l, r) = exec_retrying (extend_lock n) log in
      elim r.err [ some e ↦ (l, some e) | none ↦ renew k n l ]

  -- A run whose lock is lost is not renewed.
  abbrev pub renew_due : Option Fault → ℤ → List Event → List Event × Option Fault
  renew_due (some e) n log = (log, some e)
  renew_due none n log = renew (s.renewals log) n log

  -- The statements of a migration, with the renewals of its lock between them: why the lock was
  -- lost, and the error of the statement that failed.
  unfoldable pub run_statements :
      Option Fault → ℤ → List Bytes → List Event → List Event × (Option Fault × Option Fault)
  run_statements lost n [] log = let (l, lost') = renew_due lost n log in (l, (lost', none))
  run_statements lost n (stmt ∷ stmts) log =
      let (l, lost') = renew_due lost n log in
      let (m, r) = tell (execute n stmt) l in
      elim r.err [
        | none ↦ run_statements lost' n stmts m
        | some e ↦ let (k, lost'') = renew_due lost' n m in (k, (lost'', some e))
      ]

  -- A migration whose lock is taken.
  unfoldable pub run_locked : ℤ → List Bytes → List Event → List Event × Turn
  run_locked n stmts log =
      let (l, ran) = run_statements none n stmts log in
      elim (run_err ran) [
        | some e ↦ ((exec_retrying (release n) l).0, stop e)
        | none ↦ stop_or_next (exec_retrying (complete n) l)
      ]

  unfoldable pub lock_and_run : ℤ → List Bytes → List Event → List Event × Turn
  lock_and_run n stmts log =
      let (l, r) = exec_retrying (take_lock n) log in
      elim r.err [
        | some e ↦ (l, stop e)
        | none ↦ elim (r.value == 0) [ true ↦ (l, again) | false ↦ run_locked n stmts l ]
      ]

  unfoldable pub unless_completed : ℤ → List Bytes → List Event → List Event × Turn
  unless_completed n stmts log =
      let (l, r) = retry_contention (tell (read_completed n)) log in
      elim r.err [
        | some e ↦ (l, stop e)
        | none ↦ elim (r.value == 0) [ true ↦ lock_and_run n stmts l | false ↦ (l, next) ]
      ]

  abbrev pub is_duplicate : Driver → Fault → Bool
  is_duplicate d e = if is_mssql d then s.duplicate e else false

  -- The loop body of Migrate, for the migration `n`.
  unfoldable pub turn : Driver → ℤ → List Bytes → List Event → List Event × Turn
  turn d n stmts log =
      let (l, r) = exec_retrying (insert n) log in
      elim r.err [
        | none ↦ unless_completed n stmts l
        | some e ↦ elim (is_duplicate d e) [
          | true ↦ unless_completed n stmts l
          | false ↦ (l, stop e)
        ]
      ]

-- ===== src/Tests/Transactions.antt =====
-- tx.go and db.go: runs of transactions.
use sequel.Base.{
  ℕ, ◌≡◌, ◌++◌, refl, Bool, true, false, List, [], ◌∷◌, Option, none, some, length, ◌==◌,
  if◌then◌else◌, codes,
}
use sequel.Driver.{pgx}
use sequel.Transaction.Latch.{committed}
use sequel.Transaction.Transact.Closure.{LeavesCommit}
use sequel.Transaction.Transact.Commits.{Outcome, transact_once-Outcome, transact-Outcome}
use sequel.Transaction.Transact.{
  Program, return, call, tx_exec, begun, transact_once, transact, transacting,
}
use sequel.Transaction.{
  Fault, reported, Request, begin, exec, query, commit, rollback, Sent, Outside, Tx, statement,
  query_row_context,
}
use sequel.Transaction.ShortCircuit.{statement-failed}

-- A database on which the first commit loses a race, as error 40001.
abbrev outside : Outside
outside = record { answer = answer; more = λ log. false; delay = λ log. none }
  where
    answer : List Sent → Request → Option Fault
    answer log commit = if length log == 2 then some (reported 40001) else none
    answer log _ = none

abbrev contention : Fault → Bool
contention (reported n) = n == 40001
contention _ = false

-- A closure that runs one statement and ignores its error.
abbrev closure : ℕ → Program
closure n =
    call (tx_exec (record { text = codes "UPDATE t SET a=1"; err = none })) (λ r. return none)

closure-LeavesCommit : (n : ℕ) → LeavesCommit (closure n)
closure-LeavesCommit n = λ r. tt

transact_once-Outcome_example : Outcome [] (transact_once outside pgx (closure 0) [])
transact_once-Outcome_example =
    transact_once-Outcome outside [] pgx (closure 0) (closure-LeavesCommit 0)

transact-Outcome_example :
    (failed : List Sent) × (committed failed ≡ 0)
    × Outcome (failed ++ []) (transact outside contention pgx closure [])
transact-Outcome_example = transact-Outcome outside contention pgx closure [] closure-LeavesCommit

-- A transaction that has recorded an error.
abbrev failed_tx : Tx
failed_tx = record (begun outside []) { err = some (reported 7) }

statement-failed_example :
    (statement outside (record { text = []; err = none }) (query []) failed_tx
      ≡ (failed_tx, some (reported 7)))
    × (query_row_context outside (record { text = []; err = none }) failed_tx
        ≡ (failed_tx, record { short_err = some (reported 7) }))
unfolding transacting
statement-failed_example =
    statement-failed outside (record { text = []; err = none }) (query []) failed_tx (reported 7)
      refl refl

abbrev committed_tx : Tx
committed_tx = record (begun outside []) {
  done = true;
  log = record { request = commit; answer = none } ∷ [];
}

-- The first attempt loses the race and is undone; the second commits.
transact_run : transact outside contention pgx closure [] ≡ (
  record { request = commit; answer = none }
      ∷ record { request = exec (codes "UPDATE t SET a=1"); answer = none }
      ∷ record { request = begin; answer = none }
      ∷ record { request = rollback; answer = none }
      ∷ record { request = commit; answer = some (reported 40001) }
      ∷ record { request = exec (codes "UPDATE t SET a=1"); answer = none }
      ∷ record { request = begin; answer = none }
      ∷ [],
  none,
)
unfolding transacting
transact_run = refl

-- ===== src/Transaction/Latch.antt =====
-- tx.go and rows.go: what a transaction of Transact remembers of the answers it got.
pub mod Calls
use mathlib.Core.Path.{subst}
use sequel.Base.{
  ℕ, ◌+◌, ◌≡◌, refl, sym, ap, Bool, true, false, ◌&&◌, List, [], ◌∷◌, ◌++◌, Option, none, some,
  arith, if◌then◌else◌, Bool-cases, Option-cases, inl, inr,
}
use sequel.Transaction.{
  Fault, no_rows, tx_done, batch_open, batch_unsent, batch_unclosed, misuse, reported, Query,
  Request, commit, rollback, query_row, rows_err, row_scan, row_err, Sent, Outside, Tx, Row, Stmt,
  record_err, batch_refuses, short_circuit, latch_row, ask, instrument_exec, statement,
  instrument_query_row, query_row_context, read_row, read_rows, rows_next, stmt_context, stmt_run,
  stmt_query_row, finalize, rollback_tx,
}

-- An error that fails no work: a row that is missing, whatever a rollback says.
abbrev pub tolerated : Request → Fault → Bool
tolerated rollback e = true
tolerated row_scan no_rows = true
tolerated row_err no_rows = true
tolerated r e = false

abbrev pub is_fine : Request → Option Fault → Bool
is_fine r a = elim a [ none ↦ true | some e ↦ tolerated r e ]

abbrev pub all_fine : List Sent → Bool
all_fine [] = true
all_fine (s ∷ ss) = is_fine s.request s.answer && all_fine ss

abbrev pub is_commit : Request → Bool
is_commit commit = true
is_commit _ = false

-- 1 for a commit that the database accepted.
abbrev pub commits : Request → Option Fault → ℕ
commits r a = elim a [ none ↦ if is_commit r then 1 else 0 | some e ↦ 0 ]

-- How often a log commits.
abbrev pub committed : List Sent → ℕ
committed [] = 0
committed (s ∷ ss) = commits s.request s.answer + committed ss

-- Since the log was `base`, the transaction has committed nothing, and has recorded an error if any
-- answer was a failure.
pub record Latched (base : List Sent) (tx : Tx) : Type 0 where
  pub auto : tx.auto_err ≡ true
  pub since : List Sent
  pub log_is : tx.log ≡ since ++ base
  pub latched : tx.err ≡ none → all_fine since ≡ true
  pub uncommitted : committed since ≡ 0

pub record_err-Latched :
    {base : List Sent} {tx : Tx} (e : Option Fault)
    → Latched base tx
    → Latched base (record_err e tx)
unfolding record_err
record_err-Latched none l = l
record_err-Latched {base} {tx} (some e) l = elim (Option-cases tx.err) [
  | inl first ↦
      rw (l.auto, record_err)
        (rw (first, record_err)
          record {
            auto = l.auto;
            since = l.since;
            log_is = l.log_is;
            latched = λ h. cc;
            uncommitted = l.uncommitted;
          })
  | inr (f, later) ↦ rw (l.auto, record_err) (rw (later, record_err) l)
]

-- A failure that is recorded, with its request logged.
failed-Latched :
    {base : List Sent} {tx : Tx} (s : Sent) (e : Fault)
    → s.answer ≡ some e
    → Latched base tx
    → Latched base (record_err (some e) (record tx { log = s ∷ tx.log }))
unfolding record_err
failed-Latched {base} {tx} s e h l = elim (Option-cases tx.err) [
  | inl first ↦
      rw (l.auto, record_err)
        (rw (first, record_err)
          record {
            auto = l.auto;
            since = s ∷ l.since;
            log_is = ap (◌∷◌ s) l.log_is;
            latched = λ u. cc;
            uncommitted = rw h (omega (arith, l.uncommitted));
          })
  | inr (f, later) ↦
      rw (l.auto, record_err)
        (rw (later, record_err)
          record {
            auto = l.auto;
            since = s ∷ l.since;
            log_is = ap (◌∷◌ s) l.log_is;
            latched = λ u. cc;
            uncommitted = rw h (omega (arith, l.uncommitted));
          })
]

-- A recorded answer.
pub sent-Latched :
    {base : List Sent} {tx : Tx} (r : Request) (a : Option Fault)
    → is_commit r ≡ false
    → Latched base tx
    → Latched base (record_err a (record tx { log = record { request = r; answer = a } ∷ tx.log }))
unfolding record_err
sent-Latched r none h l = record {
  auto = l.auto;
  since = record { request = r; answer = none } ∷ l.since;
  log_is = ap (◌∷◌ (record { request = r; answer = none })) l.log_is;
  latched = λ u. l.latched u;
  uncommitted = rw h (omega (arith, l.uncommitted));
}
sent-Latched {base} {tx} r (some e) h l =
    failed-Latched (record { request = r; answer = some e }) e refl l

-- Nothing but the error and the log matters.
pub same-Latched :
    {base : List Sent} {tx : Tx} {done : Bool} {b : Option ℕ}
    → Latched base tx
    → Latched base (record tx { done = done; open_batch = b })
same-Latched l = record {
  auto = l.auto;
  since = l.since;
  log_is = l.log_is;
  latched = l.latched;
  uncommitted = l.uncommitted;
}

pub short_circuit-Latched :
    {base : List Sent} {tx : Tx} → Latched base tx → Latched base (short_circuit tx).0
unfolding short_circuit
short_circuit-Latched {base} {tx} l = elim (Bool-cases (batch_refuses tx)) [
  | inl refused ↦ rw (refused, short_circuit) (record_err-Latched (some batch_open) l)
  | inr free ↦ rw (free, short_circuit) (subst (Latched base) (sym (kept tx.auto_err)) l)
]
  where
    first : Tx × Option Fault → Tx
    first p = p.0

    kept : (b : Bool) → first (if b then (tx, tx.err) else (tx, none)) ≡ tx
    kept true = refl
    kept false = refl

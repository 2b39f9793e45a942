-- ===== src/Transaction/ShortCircuit.antt =====
-- tx.go: a transaction of Transact that has failed, and a transaction that is over.
use sequel.Base.{
  ◌≡◌, refl, ap, true, Option, none, some, arith, if◌then◌else◌, Bool-cases, inl, inr,
}
use sequel.Transaction.{
  Fault, tx_done, batch_open, Query, Request, Outside, Tx, record_err, batch_refuses, short_circuit,
  statement, query_row_context,
}

-- What a failed transaction answers.
abbrev pub refusal : Tx → Fault → Fault
refusal tx e = if batch_refuses tx then batch_open else e

short_circuit-failed :
    (tx : Tx) (e : Fault)
    → tx.auto_err ≡ true
    → tx.err ≡ some e
    → short_circuit tx ≡ (tx, some (refusal tx e))
unfolding short_circuit record_err
short_circuit-failed tx e a h = elim (Bool-cases (batch_refuses tx)) [
  | inl refused ↦ ground (arith, refused, a, h)
  | inr free ↦ ground (arith, free, a, h)
]

-- Once a transaction of Transact has recorded an error, Exec, Query, Prepare and QueryRow do not reach
-- the database, change nothing and report an error: the recorded one, unless a batch's results are open.
pub statement-failed :
    (o : Outside) (q : Query) (r : Request) (tx : Tx) (e : Fault)
    → tx.auto_err ≡ true
    → tx.err ≡ some e
    → (statement o q r tx ≡ (tx, some (refusal tx e)))
      × (query_row_context o q tx ≡ (tx, record { short_err = some (refusal tx e) }))
unfolding statement query_row_context
statement-failed o q r tx e a h =
    let short = short_circuit-failed tx e a h in
    let kept : (short_circuit tx).0 ≡ tx = ap (λ p. p.0) short in
    (rw (short, statement) (rw kept refl), rw (short, query_row_context) (rw kept refl))

-- What Commit reports of a transaction that is over: a pending batch, or else that it is over.
abbrev pub over_reason : Option Fault → Fault
over_reason none = tx_done
over_reason (some e) = e

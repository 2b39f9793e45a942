-- ===== src/Batch.antt =====
-- batch.go: a batch of statements, its sending, its account in the transaction, and the rows of a batch
-- that was one round trip. What the connection of the driver answers to that round trip is a parameter.
pub mod Account
pub mod Rows
pub mod Handed
pub mod Reading
pub mod OneTrip
use sequel.Base.{
  ℕ, zero, suc, ◌+◌, ◌-◌, Bool, true, false, ◌||◌, List, [], ◌∷◌, ◌++◌, Option, none, some, Bytes,
  length, if◌then◌else◌,
}
use sequel.Transaction.{
  Fault, tx_done, conn_done, misuse, queued_after_send, already_sent, named_args, Tx, record_err,
  short_circuit,
}

-- The columns of a row as the driver keeps them; a null is none.
abbrev pub RawRow : Type 0
RawRow = List (Option Bytes)

-- `batchItem`: its statement, whether an argument is named, and its outcome when it was sent with the
-- others. What else its arguments are and the columns' names are left out.
pub record BatchItem : Type 0 where
  pub query : Bytes
  pub has_named_arg : Bool
  pub err : Option Fault
  pub rows_affected : ℕ
  pub rows : List RawRow

pub record Batch : Type 0 where
  pub items : List BatchItem
  pub sent : Bool

-- `BatchResults` of the batch that is named so. The rows that `open` points to are the ones handed out
-- under that number.
pub record BatchResults : Type 0 where
  pub name : ℕ
  pub next : ℕ
  pub err : Option Fault
  pub closed : Bool
  pub open_rows : Option ℕ
  pub pipelined : Bool

-- What the driver reports of one statement of a round trip.
pub record Outcome : Type 0 where
  pub query_err : Option Fault
  pub rows : List RawRow
  pub rows_err : Option Fault
  pub rows_affected : ℕ

-- A round trip over the driver's connection: why a statement could not be unpacked, the simulated delay,
-- why the connection could not be borrowed, whether the transaction on it is over, what it answers to
-- the statement of each index, and the end of the reading.
pub record Wire : Type 0 where
  pub unpack_err : Bytes → Option Fault
  pub delay : Option Fault
  pub borrow_err : Option Fault
  pub is_idle : Bool
  pub outcome : ℕ → Outcome
  pub close_err : Option Fault

abbrev pub first_fault : Option Fault → Fault → Option Fault
first_fault none e = some e
first_fault (some first) e = some first

-- `Queue`
unfoldable pub queue : BatchItem → Batch → Tx → Batch × Tx
queue item b tx =
    if b.sent
    then (
      b,
      record_err (some (misuse queued_after_send))
          (record tx { batch_misuse = first_fault tx.batch_misuse (misuse queued_after_send) }),
    )
    else (elim b.items [
      | [] ↦ (record b { items = item ∷ [] }, record tx { unsent_batches = tx.unsent_batches + 1 })
      | i ∷ is ↦ (record b { items = (i ∷ is) ++ (item ∷ []) }, tx)
    ])

-- `Len`
abbrev pub len : Batch → ℕ
len b = length b.items

-- `failFrom`, of the items.
unfoldable pub fail_from : ℕ → Fault → List BatchItem → List BatchItem
fail_from i e [] = []
fail_from zero e (item ∷ items) = record item { err = some e } ∷ fail_from zero e items
fail_from (suc i) e (item ∷ items) = item ∷ fail_from i e items

-- `fail` of an error that is not nil.
unfoldable pub fail : Fault → BatchResults → Tx → BatchResults × Tx
fail e r tx = (record r { err = first_fault r.err e }, record_err (some e) tx)

abbrev pub any_named : List BatchItem → Bool
any_named [] = false
any_named (item ∷ items) = item.has_named_arg || any_named items

abbrev pub no_results : ℕ → BatchResults
no_results n = record {
  name = n;
  next = 0;
  err = none;
  closed = false;
  open_rows = none;
  pipelined = false;
}

abbrev pub or_else : Option Fault → Option Fault → Option Fault
or_else none later = later
or_else (some e) later = some e

-- `bufferResult`
abbrev pub buffer_result : Outcome → BatchItem → BatchItem
buffer_result out item = elim out.query_err [
  | some e ↦ record item { err = some e }
  | none ↦ record item { err = out.rows_err; rows = out.rows; rows_affected = out.rows_affected }
]

-- The loop of `pipeline` from the item of index `i`, where `first` has failed so far.
unfoldable pub buffer_all :
    (ℕ → Outcome) → ℕ → Option Fault → List BatchItem → List BatchItem × Option Fault
buffer_all outcome i first [] = ([], first)
buffer_all outcome i (some e) (item ∷ items) =
    let (rest, last) = buffer_all outcome (i + 1) (some e) items in
    (record item { err = some e } ∷ rest, last)
buffer_all outcome i none (item ∷ items) =
    let read = buffer_result (outcome i) item in
    let (rest, last) = buffer_all outcome (i + 1) read.err items in (read ∷ rest, last)

-- The first statement that cannot be unpacked.
abbrev pub first_unpack_err : (Bytes → Option Fault) → List BatchItem → Option Fault
first_unpack_err unpack [] = none
first_unpack_err unpack (item ∷ items) = or_else (unpack item.query) (first_unpack_err unpack items)

-- What `pipeline` makes of the error of the borrowed connection.
abbrev pub ended_tx : Fault → Fault
ended_tx conn_done = tx_done
ended_tx e = e

abbrev pub read_results : Wire → List BatchItem → List BatchItem
read_results w items =
    let (read, first) = buffer_all w.outcome 0 none items in
    elim first [
      | some e ↦ read
      | none ↦ elim w.close_err [ none ↦ read | some e ↦ fail_from 0 e read ]
    ]

-- Why `pipeline` sends nothing.
abbrev pub unsendable : Wire → List BatchItem → Option Fault
unsendable w items = or_else (first_unpack_err w.unpack_err items) (
    or_else w.delay (elim w.borrow_err [
      | some e ↦ some (ended_tx e)
      | none ↦ if w.is_idle then some tx_done else none
    ]))

-- `pipeline`: the items with their outcomes.
unfoldable pub pipeline : Wire → List BatchItem → List BatchItem
pipeline w items = elim (unsendable w items) [
  | some e ↦ fail_from 0 e items
  | none ↦ read_results w items
]

-- The items behind `Send`, when the transaction has a connection of the driver and when it has none.
abbrev pub carried : Option Wire → List BatchItem → List BatchItem
carried none items = items
carried (some w) items = pipeline w items

abbrev pub is_pipelined : Option Wire → List BatchItem → Bool
is_pipelined none items = false
is_pipelined (some w) [] = false
is_pipelined (some w) (item ∷ items) = true

-- The account of a batch that is sent.
abbrev pub accounted : List BatchItem → Tx → Tx
accounted [] tx = tx
accounted (item ∷ items) tx = record tx { unsent_batches = tx.unsent_batches - 1 }

-- The batch, named `n`, holds the transaction if it has any item.
abbrev pub held_by : ℕ → List BatchItem → Tx → Tx
held_by n [] tx = tx
held_by n (item ∷ items) tx = record tx { open_batch = some n }

-- `Send` of the batch `n`, on the connection `conn` of the transaction.
unfoldable pub send_batch : Option Wire → ℕ → Batch → Tx → Batch × (BatchResults × Tx)
send_batch conn n b tx =
    if b.sent
    then (b, fail (misuse already_sent) (no_results n) tx)
    else (let sent = record b { sent = true } in
        let (t, refused) = short_circuit (accounted b.items tx) in
        elim refused [
          | some e ↦ (sent, (record (no_results n) { err = some e }, t))
          | none ↦
              if any_named b.items then (sent, fail (misuse named_args) (no_results n) t) else (
                record sent { items = carried conn b.items },
                (
                  record (no_results n) { pipelined = is_pipelined conn b.items },
                  held_by n b.items t,
                ),
              )
        ])

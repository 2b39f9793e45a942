-- ===== src/Insert.antt =====
-- db.go and tx.go: InsertReturnID on a transaction, over ASCII where letter case counts. What the driver reports as the
-- last ID, and the ID that a row holds, are parameters.
pub mod Clause
pub mod Recorded
pub mod SourceClause
use sequel.Base.{
  ℕ, zero, suc, ◌+◌, Bool, true, false, not, ◌&&◌, ◌||◌, List, [], ◌∷◌, ◌++◌, Option, none, some,
  Bytes, codes, take, drop, leb, is_digit, ◌==◌, if◌then◌else◌, upper_byte,
}
use sequel.Base.Int.{ℤ, pos}
use sequel.Driver.{Driver, mysql, mariadb, pgx, cockroachdb, mssql, sqlite, other}
use sequel.Transaction.{
  Fault, misuse, bad_id_column, no_source_clause, unsupported_driver, Query, row_scan, Sent,
  Outside, Tx, Row, record_err, short_circuit, exec_context, query_row_context, read_row,
}
use sequel.VirtualFunc.JsonField.{is_identifier}

-- `\s` of a regular expression.
abbrev pub is_blank : ℕ → Bool
is_blank c = c == b' ' || (c == b'\t' || (c == b'\n' || (c == b'\r' || c == 12)))

abbrev pub is_word : ℕ → Bool
is_word c = (leb b'a' c && leb c b'z') || ((leb b'A' c && leb c b'Z') || (is_digit c || c == b'_'))

-- Whether a word ends here.
abbrev pub ends_word : Bytes → Bool
ends_word [] = true
ends_word (c ∷ cs) = not (is_word c)

-- A word in any letter case, given in capitals.
unfoldable pub is_word_fold : Bytes → Bytes → Bool
is_word_fold [] s = ends_word s
is_word_fold (p ∷ ps) [] = false
is_word_fold (p ∷ ps) (c ∷ cs) = upper_byte c == p && is_word_fold ps cs

-- A source clause behind blanks that were read.
unfoldable pub behind_blanks : Bytes → Bool
behind_blanks [] = false
behind_blanks (c ∷ cs) = elim (is_blank c) [
  | true ↦ behind_blanks cs
  | false ↦ is_word_fold (codes "VALUES") (c ∷ cs) || is_word_fold (codes "SELECT") (c ∷ cs)
]

-- `insertSourceClausePattern` at the start of a text.
unfoldable pub starts_clause : Bytes → Bool
starts_clause [] = false
starts_clause (c ∷ cs) = is_blank c && behind_blanks cs

-- Where the pattern matches first.
unfoldable pub find_clause : Bytes → Option ℕ
find_clause [] = none
find_clause (c ∷ cs) = elim (starts_clause (c ∷ cs)) [
  | true ↦ some 0
  | false ↦ elim (find_clause cs) [ none ↦ none | some i ↦ some (suc i) ]
]

-- `injectOutputInserted`, none for its error.
unfoldable pub inject_output_inserted : Bytes → Bytes → Option Bytes
inject_output_inserted stmt col = elim (find_clause stmt) [
  | none ↦ none
  | some i ↦ some (take i stmt ++ (codes " OUTPUT INSERTED." ++ (col ++ drop i stmt)))
]

-- What the driver reports of the IDs.
pub record Ids : Type 0 where
  pub last_insert_id : List Sent → Option Fault × ℤ
  pub scanned_id : List Sent → ℤ

module _ (o : Outside) (unpack : Bytes → Query) (ids : Ids) where
  abbrev failed_insert : Tx → Fault → Tx × (Option Fault × ℤ)
  failed_insert tx e = (tx, (some e, pos 0))

  abbrev pub scan_id : Tx × Row → Tx × (Option Fault × ℤ)
  scan_id (tx, row) =
      let (t, err) = read_row o row_scan row tx in
      elim err [ some e ↦ failed_insert t e | none ↦ (t, (none, ids.scanned_id t.log)) ]

  abbrev pub insert_last_id : Bytes → Tx → Tx × (Option Fault × ℤ)
  insert_last_id stmt tx =
      let (t, err) = exec_context o (unpack stmt) tx in
      elim err [ some e ↦ failed_insert t e | none ↦ (t, ids.last_insert_id t.log) ]

  abbrev pub insert_returning : Bytes → Tx → Tx × (Option Fault × ℤ)
  insert_returning stmt tx = scan_id (query_row_context o (unpack stmt) tx)

  abbrev pub insert_on : Driver → Bytes → Bytes → Tx → Tx × (Option Fault × ℤ)
  insert_on mysql col stmt tx = insert_last_id stmt tx
  insert_on mariadb col stmt tx = insert_last_id stmt tx
  insert_on sqlite col stmt tx = insert_last_id stmt tx
  insert_on pgx col stmt tx = insert_returning (stmt ++ (codes " RETURNING " ++ col)) tx
  insert_on cockroachdb col stmt tx = insert_returning (stmt ++ (codes " RETURNING " ++ col)) tx
  insert_on mssql col stmt tx = elim (inject_output_inserted stmt col) [
    | none ↦ failed_insert tx (misuse no_source_clause)
    | some rewritten ↦ insert_returning rewritten tx
  ]
  insert_on (other name) col stmt tx = failed_insert tx (misuse unsupported_driver)

  -- `insertReturnID` on a transaction.
  unfoldable pub insert_return_id : Driver → Bytes → Bytes → Tx → Tx × (Option Fault × ℤ)
  insert_return_id d col stmt tx =
      if is_identifier col then insert_on d col stmt tx else failed_insert tx (misuse bad_id_column)

  -- `Tx.InsertReturnID`
  unfoldable pub tx_insert_return_id : Driver → Bytes → Bytes → Tx → Tx × (Option Fault × ℤ)
  tx_insert_return_id d col stmt tx =
      let (t, refused) = short_circuit tx in
      elim refused [
        | some e ↦ failed_insert t e
        | none ↦ let (u, result) = insert_return_id d col stmt t in (record_err result.0 u, result)
      ]

-- Opens the inserts, for evaluation at concrete inputs.
unfoldable pub inserting : Unit {0}
unfolding is_identifier upper_byte is_word_fold behind_blanks starts_clause find_clause
    inject_output_inserted insert_return_id tx_insert_return_id
inserting = tt

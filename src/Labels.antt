-- ===== src/Labels.antt =====
-- telemetry.go: the verbs that are reported of statements, a set that is learned up to a cap, and the table
-- of a statement. Letter case is that of ASCII.
pub mod Learned
use sequel.Lex.{lexing}
use sequel.Base.{
  ℕ, zero, suc, ◌+◌, ◌≤◌, ◌≡◌, refl, sym, ap, ◌∙◌, Bool, true, false, not, ◌&&◌, ◌||◌, ◌⊎◌, inl,
  inr, List, [], ◌∷◌, ◌++◌, reverse, Option, none, some, arith, Bytes, codes, length, take, drop,
  leb, ltb, ◌==◌, equal, index, contains, is_digit, upper_byte, to_upper, trim_left, trim_right,
  if◌then◌else◌, Bool-cases,
}

-- `operationLabels`: the known verbs, the last that was learned first.
pub record OperationLabels : Type 0 where
  pub known : List Bytes
  pub cap_exceeded : Bool

abbrev pub operation_other : Bytes
operation_other = codes "OTHER"

abbrev pub operation_label_cap : ℕ
operation_label_cap = 128

-- `newOperationLabels` of verbs that all differ, as those of `seedOperations` do.
abbrev pub new_operation_labels : List Bytes → OperationLabels
new_operation_labels seed = record { known = seed; cap_exceeded = false }

abbrev pub seed_operations : List Bytes
seed_operations =
    codes "SELECT"
    ∷ codes "INSERT"
    ∷ codes "UPDATE"
    ∷ codes "DELETE"
    ∷ codes "REPLACE"
    ∷ codes "MERGE"
    ∷ codes "UPSERT"
    ∷ codes "WITH"
    ∷ codes "CREATE"
    ∷ codes "DROP"
    ∷ codes "ALTER"
    ∷ codes "TRUNCATE"
    ∷ codes "BEGIN"
    ∷ codes "COMMIT"
    ∷ codes "ROLLBACK"
    ∷ codes "SAVEPOINT"
    ∷ codes "BATCH"
    ∷ codes "SET"
    ∷ codes "PRAGMA"
    ∷ codes "USE"
    ∷ codes "SHOW"
    ∷ codes "EXPLAIN"
    ∷ codes "ANALYZE"
    ∷ codes "CALL"
    ∷ codes "EXEC"
    ∷ []

abbrev pub is_upper : ℕ → Bool
is_upper c = leb b'A' c && leb c b'Z'

abbrev verb_tail : Bytes → Bool
verb_tail [] = true
verb_tail (c ∷ cs) = (is_upper c || (is_digit c || c == b'_')) && verb_tail cs

-- `verbPattern`: a letter and at most 31 bytes of letters, digits and '_'.
unfoldable pub is_verb : Bytes → Bool
is_verb [] = false
is_verb (c ∷ cs) = is_upper c && (verb_tail cs && leb (length cs) 31)

unfoldable pub is_known : Bytes → List Bytes → Bool
is_known token [] = false
is_known token (k ∷ ks) = equal k token || is_known token ks

-- `label`, under the mutex.
unfoldable pub label : Bytes → OperationLabels → OperationLabels × Bytes
label token o =
    if is_known token o.known
    then (o, token)
    else if not (is_verb token)
    then (o, operation_other)
    else if leb operation_label_cap (length o.known)
    then (record o { cap_exceeded = true }, operation_other)
    else (record o { known = token ∷ o.known }, token)

-- `isSQLSpace`
unfoldable pub is_sql_space : ℕ → Bool
is_sql_space c = c == b' ' || (c == b'\t' || (c == b'\r' || c == b'\n'))

-- `isIdentDelim`
unfoldable pub is_ident_delim : ℕ → Bool
is_ident_delim c = is_sql_space c || (c == b',' || (c == b'(' || (c == b')' || c == b';')))

-- How many bytes at the start of a text satisfy a test.
unfoldable pub run_of : (ℕ → Bool) → Bytes → ℕ
run_of p [] = 0
run_of p (c ∷ cs) = let rest = run_of p cs in if p c then suc rest else 0

abbrev starts_with : ℕ → Bytes → Bool
starts_with b [] = false
starts_with b (c ∷ cs) = c == b

abbrev is_name_quote : ℕ → Bool
is_name_quote c = c == b'`' || (c == b'"' || (c == b'[' || c == b']'))

-- `identAt` over s[start:].
unfoldable pub ident_from : Bytes → Bytes
ident_from s =
    let here = trim_left is_sql_space s in
    let end = run_of (λ c. not (is_ident_delim c)) here in
    let behind = trim_left is_sql_space (drop end here) in
    if equal here [] || starts_with b'(' here
    then []
    else if starts_with b',' behind
    then []
    else trim_right is_name_quote (trim_left is_name_quote (take end here))

-- `tableAfter`
unfoldable pub table_after : Bytes → Bytes → Bytes
table_after s keyword = elim (index (to_upper s) keyword) [
  | none ↦ []
  | some i ↦ ident_from (drop (i + length keyword) s)
]

-- The switch of `parseOperation`: none for the verbs that report no table.
unfoldable pub table_of : Bytes → Bytes → ℕ → Option Bytes
table_of op s end =
    if equal op (codes "SELECT") || equal op (codes "DELETE")
    then some (table_after s (codes " FROM "))
    else if equal op (codes "INSERT") || (equal op (codes "REPLACE") || equal op (codes "UPSERT"))
    then some (table_after s (codes " INTO "))
    else if equal op (codes "UPDATE") || equal op (codes "MERGE")
    then some (ident_from (drop end s))
    else none

abbrev unless_joined : Bytes → Option Bytes → Bytes
unless_joined s none = []
unless_joined s (some table) = if contains (to_upper s) (codes " JOIN ") then [] else table

-- `parseOperation`
unfoldable pub parse_operation : Bytes → OperationLabels → OperationLabels × (Bytes × Bytes)
parse_operation query o =
    let s = trim_left is_sql_space query in
    let end = run_of (λ c. not (is_sql_space c)) s in
    let (learned, op) = label (to_upper (trim_right (λ c. c == b';') (take end s))) o in
    if equal s []
    then (o, ([], []))
    else if equal op operation_other
    then (learned, (op, []))
    else (learned, (op, unless_joined s (table_of op s end)))

-- Opens the labels, for evaluation at concrete inputs.
unfoldable pub labelling : Unit {0}
unfolding lexing equal contains upper_byte to_upper trim_left trim_right is_verb is_known label
    is_sql_space is_ident_delim run_of ident_from table_after table_of parse_operation
labelling = tt

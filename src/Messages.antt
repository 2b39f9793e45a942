-- ===== src/Messages.antt =====
-- db.go: the messages of errors that the native types of the drivers do not classify, the comments of
-- migrations, and the statement that returns an identity on SQL Server.
pub mod Comments
use sequel.Lex.{lexing}
use sequel.Base.{
  ℕ, Bool, true, false, ◌&&◌, ◌||◌, List, [], ◌∷◌, Bytes, codes, contains, ◌==◌, if◌then◌else◌,
}

-- Whether a message has one of some parts.
unfoldable pub contains_one : List Bytes → Bytes → Bool
contains_one [] msg = false
contains_one (part ∷ parts) msg = contains msg part || contains_one parts msg

-- `isLockContentionMessage`
unfoldable pub is_lock_contention_message : Bytes → Bool
is_lock_contention_message = contains_one (
    codes "SQLITE_BUSY"
    ∷ codes "database is locked"
    ∷ codes "SQLITE_LOCKED"
    ∷ codes "database table is locked"
    ∷ codes "database is deadlocked"
    ∷ codes "Deadlock found"
    ∷ codes "Lock wait timeout"
    ∷ codes "deadlock detected"
    ∷ codes "deadlock victim"
    ∷ codes "was deadlocked"
    ∷ codes "Lock request time out"
    ∷ codes "restart transaction"
    ∷ codes "RETRY_SERIALIZABLE"
    ∷ codes "RETRY_WRITE_TOO_OLD"
    ∷ [])

-- `isFromClauseEntryMessage`
unfoldable pub is_from_clause_entry_message : Bytes → Bool
is_from_clause_entry_message msg =
    contains msg (codes "FROM-clause entry") || contains msg (codes "no data source matches")

-- `isUndefinedTableMessage`
unfoldable pub is_undefined_table_message : Bytes → Bool
is_undefined_table_message msg =
    if is_from_clause_entry_message msg
    then false
    else contains_one
        (codes "no such table"
          ∷ codes "Error 1146"
          ∷ codes "SQLSTATE 42P01"
          ∷ codes "Invalid object name"
          ∷ [])
        msg

-- Where the loop of `stripLineComments` stands: in code, in quotes that `quote` ends, or in a comment.
pub data Place : Type 0 where
  code comment : Place
  quote : ℕ → Place

abbrev pub after_byte : ℕ → Place
after_byte c = if c == b'\'' || (c == b'"' || c == b'`') then quote c else code

abbrev pub starts_dash : Bytes → Bool
starts_dash [] = false
starts_dash (c ∷ cs) = c == b'-'

-- `stripLineComments`; the newline that ends a comment is kept.
unfoldable pub strip_from : Place → Bytes → Bytes
strip_from p [] = []
strip_from (quote q) (c ∷ cs) = c ∷ strip_from (if c == q then code else quote q) cs
strip_from comment (c ∷ cs) =
    let rest = strip_from comment cs in if c == b'\n' then c ∷ strip_from code cs else rest
strip_from code (c ∷ cs) = elim (c == b'-' && starts_dash cs) [
  | true ↦ strip_from comment cs
  | false ↦ c ∷ strip_from (after_byte c) cs
]

unfoldable pub strip_line_comments : Bytes → Bytes
strip_line_comments = strip_from code

-- Opens the tests and the stripping, for evaluation at concrete inputs.
unfoldable pub reading_messages : Unit {0}
unfolding lexing contains contains_one is_lock_contention_message is_from_clause_entry_message
    is_undefined_table_message strip_from strip_line_comments
reading_messages = tt

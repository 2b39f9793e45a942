-- ===== src/Errors.antt =====
-- db.go: IsLockContentionError, IsUndefinedTableError and isDuplicateKeyError. An error is what errors.As finds in its
-- chain of the errors of the drivers, with its text.
use sequel.Base.{
  ℕ, ◌%◌, ◌≡◌, Bool, true, false, not, ◌&&◌, ◌||◌, Option, none, some, Bytes, codes, equal, ◌==◌,
}
use sequel.Driver.{Driver, is_mssql}
use sequel.Messages.{
  is_lock_contention_message, is_from_clause_entry_message, is_undefined_table_message,
  reading_messages,
}

-- `pgconn.PgError`, what the program reads of it.
pub record PgError : Type 0 where
  pub code : Bytes
  pub routine : Bytes
  pub message : Bytes

-- The first error of each driver in the chain - the numbers of MySQL and of SQL Server, and the code of SQLite -
-- and how the text of the whole comes of what PostgreSQL's error says.
pub record ErrorChain : Type 0 where
  pub pg : Option PgError
  pub my_number : Option ℕ
  pub ms_number : Option ℕ
  pub lite_code : Option ℕ
  pub text_of : Option PgError → Bytes

-- `err.Error()`
abbrev pub error_text : ErrorChain → Bytes
error_text err = err.text_of err.pg

abbrev pub is_lite_contention : ℕ → Bool
is_lite_contention code = code % 256 == 5 || code % 256 == 6

-- `IsLockContentionError` of an error that is not nil.
unfoldable pub is_lock_contention_error : ErrorChain → Bool
is_lock_contention_error err = elim err.pg [
  | some e ↦ equal e.code (codes "40P01") || equal e.code (codes "40001")
  | none ↦ elim err.my_number [
    | some n ↦ n == 1213 || n == 1205
    | none ↦ elim err.ms_number [
      | some n ↦ n == 1205 || n == 1222
      | none ↦ elim err.lite_code [
        | some n ↦ is_lite_contention n
        | none ↦ is_lock_contention_message (error_text err)
      ]
    ]
  ]
]

-- `columnResolutionRoutines`
unfoldable pub is_column_resolution : Bytes → Bool
is_column_resolution routine =
    equal routine (codes "errorMissingRTE")
    || (equal routine (codes "ResolveColumnItem")
        || equal routine (codes "ResolveAllColumnsSelector"))

-- `IsUndefinedTableError` of an error that is not nil.
unfoldable pub is_undefined_table_error : ErrorChain → Bool
is_undefined_table_error err = elim err.pg [
  | some e ↦
      equal e.code (codes "42P01")
      && (not (is_column_resolution e.routine) && not (is_from_clause_entry_message e.message))
  | none ↦ elim err.my_number [
    | some n ↦ n == 1146
    | none ↦ elim err.ms_number [
      | some n ↦ n == 208
      | none ↦ is_undefined_table_message (error_text err)
    ]
  ]
]

-- `isDuplicateKeyError`
unfoldable pub is_duplicate_key_error : Driver → ErrorChain → Bool
is_duplicate_key_error d err =
    is_mssql d && (elim err.ms_number [ some n ↦ n == 2627 || n == 2601 | none ↦ false ])

-- An error of a driver whose codes tell everything: of PostgreSQL, MySQL or SQL Server.
abbrev pub is_coded : ErrorChain → Bool
is_coded err = elim err.pg [
  | some e ↦ true
  | none ↦ elim err.my_number [
    | some n ↦ true
    | none ↦ elim err.ms_number [ some n ↦ true | none ↦ false ]
  ]
]

-- How the text is put together does not matter, and no error is of both kinds.
abbrev pub Exclusive : ErrorChain → (Option PgError → Bytes) → Type 0
Exclusive err text_of =
    (is_lock_contention_error (record err { text_of = text_of }) ≡ is_lock_contention_error err)
    × (is_undefined_table_error (record err { text_of = text_of }) ≡ is_undefined_table_error err)
    × ((is_lock_contention_error err && is_undefined_table_error err) ≡ false)

-- Opens the classification, for evaluation at concrete inputs.
unfoldable pub classifying : Unit {0}
unfolding equal reading_messages is_lock_contention_error is_column_resolution
    is_undefined_table_error is_duplicate_key_error
classifying = tt

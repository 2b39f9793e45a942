-- ===== src/Migration/Migrate.antt =====
-- db.go: Migrate as a whole: the migrations table, the watermark, the files and the loop.
use sequel.Base.{
  ℕ, zero, suc, Bool, true, false, List, [], ◌∷◌, Option, none, some, Bytes, index, has_prefix,
  equal, trim_left, trim_right, trim_space,
}
use sequel.Base.Int.{ℤ, pos, parse_int, parse_digits, digits_value}
use sequel.Messages.{reading_messages}
use sequel.Driver.{Driver, other}
use sequel.Migration.Files.{
  File, Migration, is_sql, number_of, wanted, read_files, insert_sorted, sorted_numbers, content_of,
}
use sequel.Migration.Statements.{
  split_lines, split_statements, fields_from, is_for_driver, cleaned, statements_of,
}
use sequel.Migration.{
  make_table, probe_table, read_watermark, Event, Server, tell, next, again, stop, Ended, done,
  waiting, failed, retry, retry_contention, renew, run_statements, run_locked, lock_and_run,
  unless_completed, turn,
}
use sequel.Transaction.{Fault, misuse, unsupported_driver}

-- The watermark, or the error of making the table or of reading it.
pub data Watermark : Type 0 where
  at : ℤ → Watermark
  table_failed read_failed : Fault → Watermark

abbrev pub is_supported : Driver → Bool
is_supported (other name) = false
is_supported d = true

abbrev pub plan_of : Driver → List Migration → ℤ → List Bytes
plan_of d migrations n = statements_of d (content_of n migrations)

module _ (s : Server) where
  -- The end of `createMigrationsTable`: a table that is there already will do.
  unfoldable pub create_migrations_table : List Event → List Event × Option Fault
  create_migrations_table log =
      let (l, r) = tell s make_table log in
      elim r.err [
        | none ↦ (l, none)
        | some e ↦
            let (m, probed) = tell s probe_table l in
            (m, elim probed.err [ none ↦ none | some f ↦ some e ])
      ]

  abbrev pub read_table : List Event → List Event × Watermark
  read_table log =
      let (l, r) = tell s read_watermark log in
      (
        l,
        elim r.err [
          | some e ↦ read_failed e
          | none ↦ at (elim (s.watermark log) [ none ↦ pos 0 | some w ↦ w ])
        ],
      )

  abbrev pub table_once : Bool → List Event → List Event × Watermark
  table_once true log = read_table log
  table_once false log =
      let (l, err) = create_migrations_table log in
      elim err [ some e ↦ (l, table_failed e) | none ↦ read_table l ]

  abbrev pub once_more : Bool → List Event × Watermark → List Event × Watermark
  once_more true (log, read_failed e) = table_once false log
  once_more _ (log, w) = (log, w)

  -- The loop that makes the table and reads the watermark; `ready` is `migrationsTableReady`.
  unfoldable pub find_watermark : Bool → List Event → List Event × Watermark
  find_watermark ready log = once_more ready (table_once ready log)

  -- The loop over the numbers to run, on fuel; `plan` gives the statements of a number.
  unfoldable pub migrate_pending :
      ℕ → Driver → (ℤ → List Bytes) → List ℤ → List Event → List Event × Ended
  migrate_pending fuel d plan [] log = (log, done)
  migrate_pending zero d plan (n ∷ ns) log = (log, waiting)
  migrate_pending (suc fuel) d plan (n ∷ ns) log =
      let (l, t) = turn s d n (plan n) log in
      elim t [
        | next ↦ migrate_pending fuel d plan ns l
        | again ↦ migrate_pending fuel d plan (n ∷ ns) l
        | stop e ↦ (l, failed e)
      ]

  -- `Migrate` behind the reading of the watermark.
  abbrev pub migrate_from :
      ℕ → Driver → Option Fault → List File → List Event × Watermark → List Event × Ended
  migrate_from fuel d dir_err files (l, table_failed e) = (l, failed e)
  migrate_from fuel d dir_err files (l, read_failed e) = (l, failed e)
  migrate_from fuel d (some e) files (l, at mark) = (l, failed e)
  migrate_from fuel d none files (l, at mark) =
      let (migrations, err) = read_files mark files in
      elim err [
        | some e ↦ (l, failed e)
        | none ↦ migrate_pending fuel d (plan_of d migrations) (sorted_numbers migrations) l
      ]

  -- `Migrate` of the files, where `dir_err` is the error of reading their directory.
  unfoldable pub migrate :
      ℕ → Driver → Bool → Option Fault → List File → List Event → List Event × Ended
  migrate fuel d ready dir_err files log = elim (is_supported d) [
    | false ↦ (log, failed (misuse unsupported_driver))
    | true ↦ migrate_from fuel d dir_err files (find_watermark ready log)
  ]

-- Opens Migrate, for evaluation at concrete inputs.
unfoldable pub migrating : Unit {0}
unfolding reading_messages index has_prefix equal trim_left trim_right trim_space parse_int
    parse_digits digits_value split_lines split_statements fields_from is_for_driver cleaned
    statements_of is_sql number_of wanted read_files insert_sorted sorted_numbers content_of tell
    retry retry_contention renew run_statements run_locked lock_and_run unless_completed turn
    create_migrations_table find_watermark migrate_pending migrate
migrating = tt

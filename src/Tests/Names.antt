-- ===== src/Tests/Names.antt =====
-- db.go, telemetry.go and querycache.go: runs on statements, labels, data source names and messages.
use sequel.Base.{◌≤◌, ◌≡◌, refl, true, false, [], ◌∷◌, none, some, arith, codes, length}
use sequel.Driver.{mssql, pgx, mysql}
use sequel.Labels.Learned.{label_all, label_all-capped}
use sequel.Labels.{
  OperationLabels, new_operation_labels, seed_operations, operation_label_cap, label,
  parse_operation, labelling,
}
use sequel.Messages.Comments.{Stripped, strip_line_comments-Stripped}
use sequel.Messages.{strip_line_comments, is_undefined_table_message, reading_messages}
use sequel.Placeholder.{conforming}
use sequel.Source.{infer_driver_name, pin_session_time_zone_utc, sourcing}
use sequel.Unpack.{unpack_query, Unpacks, unpack_query-Unpacks}
use sequel.VirtualFunc.Scan.{ok}
use sequel.VirtualFunc.{built_in, expanding}

unpack_limit :
    unpack_query 3 mssql built_in (codes "LIMIT_OFFSET(?, ?)")
    ≡ some (ok (codes "OFFSET $2 ROWS FETCH NEXT $1 ROWS ONLY"))
unfolding unpack_query conforming expanding
unpack_limit = refl

unpack_query-Unpacks_example :
    Unpacks mssql built_in
      (codes "LIMIT_OFFSET(?, ?)")
      (codes "OFFSET $2 ROWS FETCH NEXT $1 ROWS ONLY")
unpack_query-Unpacks_example =
    unpack_query-Unpacks 3 mssql built_in (codes "LIMIT_OFFSET(?, ?)")
      (codes "OFFSET $2 ROWS FETCH NEXT $1 ROWS ONLY") unpack_limit

abbrev seeded : OperationLabels
seeded = new_operation_labels seed_operations

parse_select :
    (parse_operation (codes " select a from \"t\" where b") seeded).1 ≡ (codes "SELECT", codes "t")
unfolding labelling
parse_select = refl

parse_join : (parse_operation (codes "DELETE FROM t JOIN u") seeded).1 ≡ (codes "DELETE", [])
unfolding labelling
parse_join = refl

label_all-capped_example :
    (length (label_all (codes "VACUUM" ∷ codes "--" ∷ []) seeded).known ≤ operation_label_cap)
    × ((label (codes "MERGE") (label_all (codes "VACUUM" ∷ codes "--" ∷ []) seeded)).1
        ≡ codes "MERGE")
unfolding labelling
label_all-capped_example =
    label_all-capped (codes "VACUUM" ∷ codes "--" ∷ []) (codes "MERGE") seeded (omega arith) refl

infer_names :
    (infer_driver_name (codes "Postgres://u@h/db") ≡ some pgx)
    × (infer_driver_name (codes "u:p@tcp(h:3306)/db") ≡ some mysql)
    × (infer_driver_name (codes "file:u@tcp(h)/db") ≡ some mysql)
    × (infer_driver_name (codes "nothing") ≡ none)
unfolding sourcing
infer_names = (refl, refl, refl, refl)

pin_names :
    (pin_session_time_zone_utc (λ d. false) (codes "postgres://u:a?b@h/db")
      ≡ codes "postgres://u:a?b@h/db?timezone=UTC")
    × (pin_session_time_zone_utc (λ d. false) (codes "postgres://h/db?a=b")
        ≡ codes "postgres://h/db?a=b&timezone=UTC")
    × (pin_session_time_zone_utc (λ d. false) (codes "host=h") ≡ codes "timezone=UTC host=h")
unfolding sourcing
pin_names = (refl, refl, refl)

strip_comment : strip_line_comments (codes "a -- b\n'-- c' -- d") ≡ codes "a \n'-- c' "
unfolding reading_messages
strip_comment = refl

undefined_tables :
    (is_undefined_table_message (codes "no such table: t") ≡ true)
    × (is_undefined_table_message (codes "missing FROM-clause entry for table t (SQLSTATE 42P01)")
        ≡ false)
unfolding reading_messages
undefined_tables = (refl, refl)

strip_line_comments-Stripped_example :
    Stripped (codes "a-- b\n'-- c'--d") (strip_line_comments (codes "a-- b\n'-- c'--d"))
strip_line_comments-Stripped_example = strip_line_comments-Stripped (codes "a-- b\n'-- c'--d")

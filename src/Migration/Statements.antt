-- ===== src/Migration/Statements.antt =====
-- db.go: the statements of a migration file that Migrate runs on a driver, over ASCII where blanks count.
use sequel.Base.{
  ℕ, ◌+◌, Bool, true, false, ◌||◌, List, [], ◌∷◌, ◌++◌, none, some, Bytes, codes, map, equal, index,
  drop, is_space, trim_right, trim_space, ◌==◌, if◌then◌else◌,
}
use sequel.Driver.{Driver, mysql, mariadb, pgx, cockroachdb, mssql, sqlite, other}
use sequel.Messages.{strip_line_comments}

abbrev pub driver_name : Driver → Bytes
driver_name mysql = codes "mysql"
driver_name mariadb = codes "mariadb"
driver_name pgx = codes "pgx"
driver_name cockroachdb = codes "cockroachdb"
driver_name mssql = codes "mssql"
driver_name sqlite = codes "sqlite"
driver_name (other name) = name

abbrev pub onto_first : ℕ → List Bytes → List Bytes
onto_first c [] = (c ∷ []) ∷ []
onto_first c (part ∷ parts) = (c ∷ part) ∷ parts

-- `strings.Split(s, "\n")`
unfoldable pub split_lines : Bytes → List Bytes
split_lines [] = [] ∷ []
split_lines (c ∷ cs) =
    let rest = split_lines cs in if c == b'\n' then [] ∷ rest else onto_first c rest

-- `strings.Join(lines, "\n")`
abbrev pub join_lines : List Bytes → Bytes
join_lines [] = []
join_lines (line ∷ []) = line
join_lines (line ∷ (next ∷ lines)) = line ++ (b'\n' ∷ join_lines (next ∷ lines))

-- `strings.SplitSeq(s, ";\n")`
unfoldable pub split_statements : Bytes → List Bytes
split_statements [] = [] ∷ []
split_statements (c ∷ []) = (c ∷ []) ∷ []
split_statements (c ∷ (d ∷ cs)) = elim (c == b';') [
  | false ↦ onto_first c (split_statements (d ∷ cs))
  | true ↦ elim (d == b'\n') [
    | true ↦ [] ∷ split_statements cs
    | false ↦ onto_first c (split_statements (d ∷ cs))
  ]
]

-- `strings.Fields`, behind the letters `word` of the word that is read.
unfoldable pub fields_from : Bytes → Bytes → List Bytes
fields_from [] [] = []
fields_from (c ∷ word) [] = (c ∷ word) ∷ []
fields_from word (c ∷ cs) = elim (is_space c) [
  | false ↦ fields_from (word ++ (c ∷ [])) cs
  | true ↦ elim word [ [] ↦ fields_from [] cs | b ∷ bs ↦ (b ∷ bs) ∷ fields_from [] cs ]
]

abbrev pub has_word : Bytes → List Bytes → Bool
has_word word [] = false
has_word word (w ∷ ws) = equal w word || has_word word ws

-- `strings.Cut(s, "\n")`, what stands before.
abbrev pub first_line : Bytes → Bytes
first_line [] = []
first_line (c ∷ cs) = let rest = first_line cs in if c == b'\n' then [] else c ∷ rest

-- Whether a statement is one of the driver's.
unfoldable pub is_for_driver : Driver → Bytes → Bool
is_for_driver d stmt = elim (index stmt (codes "-- DRIVER:")) [
  | none ↦ true
  | some p ↦ has_word (driver_name d) (fields_from [] (first_line (drop (p + 10) stmt)))
]

abbrev pub is_line_blank : ℕ → Bool
is_line_blank c = c == b' ' || (c == b'\t' || c == b'\r')

-- A statement without its comments, trimmed line by line.
unfoldable pub cleaned : Bytes → Bytes
cleaned stmt = trim_space (join_lines (map trim_space (split_lines (strip_line_comments stmt))))

abbrev pub unless_empty : Bytes → List Bytes → List Bytes
unless_empty [] rest = rest
unless_empty (c ∷ cs) rest = (c ∷ cs) ∷ rest

abbrev pub kept_statement : Driver → Bytes → List Bytes → List Bytes
kept_statement d [] rest = rest
kept_statement d (c ∷ cs) rest =
    if is_for_driver d (c ∷ cs) then unless_empty (cleaned (c ∷ cs)) rest else rest

abbrev pub kept_statements : Driver → List Bytes → List Bytes
kept_statements d [] = []
kept_statements d (stmt ∷ stmts) = kept_statement d (trim_space stmt) (kept_statements d stmts)

-- The statements that a migration runs, in their order.
unfoldable pub statements_of : Driver → Bytes → List Bytes
statements_of d content =
    kept_statements d
      (split_statements (join_lines (map (trim_right is_line_blank) (split_lines content))))

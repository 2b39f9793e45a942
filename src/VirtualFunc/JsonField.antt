-- ===== src/VirtualFunc/JsonField.antt =====
-- vf.go: JSON_FIELD, its path language and its handler.
pub mod RoundTrip
pub mod Safe
use sequel.Base.Int.{ℤ, pos, parse_int}
use sequel.Base.{
  ℕ, zero, suc, ◌+◌, ◌-◌, Bool, true, false, not, ◌&&◌, ◌||◌, List, [], ◌∷◌, ◌++◌, Option, none,
  some, ltb, leb, ◌==◌, if◌then◌else◌, Bytes, length, take, drop, codes, equal, index_byte, itoa,
  trim_space, is_digit,
}
use sequel.Driver.{Driver, mysql, mariadb, pgx, cockroachdb, mssql, sqlite, other}
use sequel.VirtualFunc.Args.{last_top_level_comma}
use sequel.VirtualFunc.Scan.{
  needs_syntax, unsupported_driver, path_member, path_unclosed, path_index, path_malformed,
  path_empty, Result, ok, err, ◌>>=◌,
}

abbrev is_letter : ℕ → Bool
is_letter c = c == b'_' || ((leb b'A' c && leb c b'Z') || (leb b'a' c && leb c b'z'))

abbrev all_name_bytes : Bytes → Bool
all_name_bytes [] = true
all_name_bytes (c ∷ cs) = (is_letter c || is_digit c) && all_name_bytes cs

-- The pattern [A-Za-z_][A-Za-z0-9_]* over a whole text: `jsonPathElemPattern` and, in db.go,
-- `identifierPattern`.
unfoldable pub is_identifier : Bytes → Bool
is_identifier [] = false
is_identifier (c ∷ cs) = is_letter c && all_name_bytes cs

-- `jsonPathElem`: a member name (index -1), or an array index.
pub data JsonPathElem : Type 0 where
  member : Bytes → JsonPathElem
  element : ℕ → JsonPathElem

-- The length of the text in front of the first '.' or '[': `strings.IndexAny(rest, ".[")`.
unfoldable pub member_run : Bytes → ℕ
member_run [] = 0
member_run (c ∷ cs) = let rest = member_run cs in if c == b'.' || c == b'[' then 0 else suc rest

abbrev natural : Option ℤ → Option ℕ
natural (some (pos n)) = some n
natural _ = none

-- `strings.TrimPrefix(path, "$")`
unfoldable pub trim_root : Bytes → Bytes
trim_root [] = []
trim_root (c ∷ cs) = if c == b'$' then cs else c ∷ cs

-- A leading member name needs no '.'.
unfoldable pub with_dot : Bytes → Bytes
with_dot [] = []
with_dot (c ∷ cs) = if not (c == b'.') && not (c == b'[') then b'.' ∷ c ∷ cs else c ∷ cs

-- The loop of `parseJSONPath`, with the elements read in front. Every round consumes a byte, so
-- the length of the text is fuel enough; the clause without fuel is met at the empty text only.
unfoldable pub path_elems : ℕ → List JsonPathElem → Bytes → Result (List JsonPathElem)
path_elems zero elems rest = ok elems
path_elems (suc fuel) elems [] = ok elems
path_elems (suc fuel) elems (c ∷ cs) =
    let name = take (member_run cs) cs in
    elim (c == b'.') [
      | true ↦ elim (is_identifier name) [
        | true ↦ path_elems fuel (elems ++ (member name ∷ [])) (drop (member_run cs) cs)
        | false ↦ err path_member
      ]
      | false ↦ elim (c == b'[') [
        | true ↦ elim (index_byte cs b']') [
          | none ↦ err path_unclosed
          | some n ↦ elim (natural (parse_int (take n cs))) [
            | none ↦ err path_index
            | some i ↦ path_elems fuel (elems ++ (element i ∷ [])) (drop (n + 1) cs)
          ]
        ]
        | false ↦ err path_malformed
      ]
    ]

abbrev pub some_elem : List JsonPathElem → Result (List JsonPathElem)
some_elem [] = err path_empty
some_elem (e ∷ es) = ok (e ∷ es)

-- `parseJSONPath`
unfoldable pub parse_json_path : Bytes → Result (List JsonPathElem)
parse_json_path path =
    let rest = with_dot (trim_root path) in path_elems (length rest) [] rest >>= some_elem

-- The canonical form behind "$" that `vfJSONField` renders.
unfoldable pub render_elems : List JsonPathElem → Bytes
render_elems [] = []
render_elems (member name ∷ es) = b'.' ∷ (name ++ render_elems es)
render_elems (element i ∷ es) = b'[' ∷ (itoa i ++ (b']' ∷ render_elems es))

abbrev path_key : JsonPathElem → Bytes
path_key (member name) = b'"' ∷ (name ++ b'"' ∷ [])
path_key (element i) = b'"' ∷ (itoa i ++ b'"' ∷ [])

-- `strings.Join(keys, ",")`
unfoldable pub join_keys : List JsonPathElem → Bytes
join_keys [] = []
join_keys (e ∷ []) = path_key e
join_keys (e ∷ f ∷ es) = path_key e ++ (b',' ∷ join_keys (f ∷ es))

-- The switch of `vfJSONField`, with the path as a literal in single quotes.
unfoldable pub json_field_at : Driver → Bytes → List JsonPathElem → Result Bytes
json_field_at d col elems =
    let p = codes "'$" ++ (render_elems elems ++ codes "'") in
    let extract = codes "JSON_EXTRACT(" ++ (col ++ (codes ", " ++ (p ++ codes ")"))) in
    let mysql_text =
      codes "(CASE WHEN JSON_TYPE("
      ++ (extract
          ++ (codes ") = 'NULL' THEN NULL ELSE JSON_UNQUOTE(" ++ (extract ++ codes ") END)"))) in
    let pg_text =
      codes "((" ++ (col ++ (codes ")::jsonb #>> '{" ++ (join_keys elems ++ codes "}')"))) in
    elim d [
      | mysql ↦ ok mysql_text
      | mariadb ↦ ok mysql_text
      | pgx ↦ ok pg_text
      | cockroachdb ↦ ok pg_text
      | mssql ↦ ok (
          codes "(COALESCE(JSON_QUERY("
          ++ (col
              ++ (codes ", "
                  ++ (p
                      ++ (codes "), JSON_VALUE(" ++ (col ++ (codes ", " ++ (p ++ codes ")))"))))))))
      | sqlite ↦ ok (codes "(JSON_EXTRACT(" ++ (col ++ (codes ", " ++ (p ++ codes "))"))))
      | other name ↦ err (unsupported_driver (other name))
    ]

-- `pathLit[1:len(pathLit)-1]`, if the literal is in single quotes.
unfoldable pub unquoted : Bytes → Option Bytes
unquoted s =
    if ltb (length s) 2
    then none
    else if equal (take 1 s) (codes "'") && equal (drop (length s - 1) s) (codes "'")
    then some (take (length s - 2) (drop 1 s))
    else none

-- `vfJSONField`
unfoldable pub vf_json_field : Driver → Bytes → Result Bytes
vf_json_field d args = elim (last_top_level_comma args) [
  | none ↦ err (needs_syntax (codes "JSON_FIELD"))
  | some comma ↦
      let col = trim_space (take comma args) in
      elim (unquoted (trim_space (drop (comma + 1) args))) [
        | none ↦ err (needs_syntax (codes "JSON_FIELD"))
        | some path ↦
            if equal col []
            then err (needs_syntax (codes "JSON_FIELD"))
            else parse_json_path path >>= json_field_at d col
      ]
]

-- ===== src/VirtualFunc/TextSearch.antt =====
-- vf.go: REGEXP_TEXT_SEARCH.
use sequel.Base.{
  ◌+◌, List, [], ◌∷◌, ◌++◌, none, some, ◌==◌, if◌then◌else◌, Bytes, take, drop, codes, equal, index,
  to_upper, trim_space,
}
use sequel.Driver.{Driver, mysql, mariadb, sqlite, other}
use sequel.VirtualFunc.Scan.{needs_syntax, unsupported_driver, Result, ok, err}

-- `strings.Split(s, ",")`, with the field that is being read in front.
unfoldable pub split_commas : Bytes → Bytes → List Bytes
split_commas field [] = field ∷ []
split_commas field (c ∷ cs) =
    if c == b',' then field ∷ split_commas [] cs else split_commas (field ++ (c ∷ [])) cs

-- The fields that are not blank, trimmed.
unfoldable pub trimmed_columns : List Bytes → List Bytes
trimmed_columns [] = []
trimmed_columns (col ∷ cols) =
    if equal (trim_space col) []
    then trimmed_columns cols
    else trim_space col ∷ trimmed_columns cols

-- `strings.Join(columns, ",")`
unfoldable pub join_commas : List Bytes → Bytes
join_commas [] = []
join_commas (s ∷ []) = s
join_commas (s ∷ t ∷ ss) = s ++ (b',' ∷ join_commas (t ∷ ss))

unfoldable pub concatenated : List Bytes → Bytes
concatenated [] = codes "''"
concatenated (col ∷ []) = col
concatenated (col ∷ c ∷ cols) =
    codes "CONCAT_WS(' '," ++ (join_commas (col ∷ c ∷ cols) ++ codes ")")

-- The switch of `vfRegexpTextSearch`.
unfoldable pub text_search_at : Driver → Bytes → Bytes → Result Bytes
text_search_at mysql text expr =
    ok (codes "(" ++ (text ++ (codes " REGEXP " ++ (expr ++ codes ")"))))
text_search_at mariadb text expr =
    ok (codes "(" ++ (text ++ (codes " REGEXP " ++ (expr ++ codes ")"))))
text_search_at sqlite text expr =
    ok (codes "(" ++ (text ++ (codes " LIKE ('%' || " ++ (expr ++ codes " || '%'))"))))
text_search_at (other name) text expr = err (unsupported_driver (other name))
text_search_at _ text expr =
    ok (codes "REGEXP_LIKE(" ++ (text ++ (codes ", " ++ (expr ++ codes ", 'i')"))))

-- `vfRegexpTextSearch`, over ASCII, where `strings.ToUpper` keeps every position.
unfoldable pub vf_regexp_text_search : Driver → Bytes → Result Bytes
vf_regexp_text_search d args = elim (index (to_upper args) (codes " IN ")) [
  | none ↦ err (needs_syntax (codes "REGEXP_TEXT_SEARCH"))
  | some i ↦
      let expr = trim_space (take i args) in
      let columns = trimmed_columns (split_commas [] (drop (i + 4) args)) in
      text_search_at d (concatenated columns) expr
]

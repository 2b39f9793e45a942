-- ===== src/Tests/Functions.antt =====
-- vf.go: runs of the virtual functions and of their expansion.
use sequel.Base.Int.{ℤ, negsuc, parse_int}
use sequel.Base.{◌≡◌, refl, true, List, [], ◌∷◌, ◌++◌, some, Bytes, codes, arith}
use sequel.Driver.{mysql, pgx, sqlite}
use sequel.VirtualFunc.Args.Balanced.{
  Balanced, nil, byte, quoted, parens, find_balanced_close-Balanced,
}
use sequel.VirtualFunc.Args.{find_balanced_close}
use sequel.VirtualFunc.Dates.Exact.{SplitsInto, nested, mssql_date_add-SplitsInto}
use sequel.VirtualFunc.Dates.{mssql_date_add}
use sequel.VirtualFunc.JsonField.RoundTrip.{AllSteps, parse_json_path-render}
use sequel.VirtualFunc.JsonField.Safe.{AllPathBytes, parse_json_path-canonical}
use sequel.VirtualFunc.JsonField.{JsonPathElem, member, element, parse_json_path, render_elems}
use sequel.VirtualFunc.Scan.Expanded.{Scans}
use sequel.VirtualFunc.Scan.Rewritten.{Rewrites, expand_once-Scans, expand_virtual_funcs-Rewrites}
use sequel.VirtualFunc.Scan.{Handler, ok, expand_once, expand_virtual_funcs}
use sequel.VirtualFunc.{built_in, expanding}

abbrev query : Bytes
query = codes "SELECT 'NOW_UTC()' WHERE a<NOW_UTC(0) LIMIT_OFFSET(?, (1+2))"

expand_query :
    expand_virtual_funcs 3 mysql built_in query
    ≡ some (ok (codes "SELECT 'NOW_UTC()' WHERE a<(UTC_TIMESTAMP(0)) LIMIT ? OFFSET (1+2)"))
unfolding expanding
expand_query = refl

expand_nested :
    expand_virtual_funcs 4 pgx built_in (codes "DATE_ADD_MILLIS(now_utc(6), 5)")
    ≡ some (ok (codes "((NOW() AT TIME ZONE 'UTC') + MAKE_INTERVAL(secs => (5) / 1000.0))"))
unfolding expanding
expand_nested = refl

json_query :
    expand_virtual_funcs 3 sqlite built_in (codes "JSON_FIELD(doc, '$.a[2].b')")
    ≡ some (ok (codes "(JSON_EXTRACT(doc, '$.a[2].b'))"))
unfolding expanding
json_query = refl

abbrev expanded : Bytes
expanded = codes "SELECT 'NOW_UTC()' WHERE a<(UTC_TIMESTAMP(0)) LIMIT ? OFFSET (1+2)"

expand_virtual_funcs-Rewrites_example : Rewrites mysql built_in query expanded
expand_virtual_funcs-Rewrites_example =
    expand_virtual_funcs-Rewrites 3 mysql built_in query expanded expand_query

-- A handler that writes its own call again: the scan never ends the repetition.
abbrev again : Handler
again d args = ok (codes "F(" ++ (args ++ codes ")"))

expand_again :
    expand_once mysql (codes "a+F(1)") ((codes "F", again) ∷ []) ≡ ok (codes "a+F(1)", true)
unfolding expanding
expand_again = refl

expand_once-Scans_example :
    Scans mysql ((codes "F", again) ∷ []) [] (codes "a+F(1)") (codes "a+F(1)") true
expand_once-Scans_example =
    expand_once-Scans mysql (codes "a+F(1)") (codes "a+F(1)") ((codes "F", again) ∷ []) true
      expand_again

call_args : Balanced true (codes "f(x, ')')")
unfolding expanding
call_args = byte b'f' refl refl (
    parens
      (byte b'x' refl refl
        (byte b',' refl refl (byte b' ' refl refl (quoted b'\'' (codes ")") refl refl nil))))
      nil)

find_balanced_close-Balanced_example :
    find_balanced_close (codes "f(x, ')')" ++ (b')' ∷ codes " + 1")) ≡ some 9
find_balanced_close-Balanced_example = find_balanced_close-Balanced (codes " + 1") call_args

mssql_date_add-SplitsInto_example :
    (h : ℤ) × (r : ℤ) × (ht : Bytes) × (rt : Bytes) × (mssql_date_add
        (some (negsuc 3600000))
        (codes "at")
        (codes "-3600001")
      ≡ nested rt ht (codes "at"))
    × (parse_int ht ≡ some h)
    × (parse_int rt ≡ some r)
    × SplitsInto (negsuc 3600000) h r
mssql_date_add-SplitsInto_example =
    mssql_date_add-SplitsInto (negsuc 3600000) (codes "at") (codes "-3600001") (omega arith) refl

abbrev steps : List JsonPathElem
steps = member (codes "a_1") ∷ element 12 ∷ member (codes "b") ∷ []

steps-AllSteps : AllSteps steps
unfolding expanding
steps-AllSteps = (refl, (omega arith, (refl, tt)))

parse_json_path-render_example : parse_json_path (b'$' ∷ render_elems steps) ≡ ok steps
parse_json_path-render_example =
    parse_json_path-render (member (codes "a_1")) (element 12 ∷ member (codes "b") ∷ [])
      steps-AllSteps

parse_json_path-canonical_example :
    AllSteps steps
    × AllPathBytes (render_elems steps)
    × (parse_json_path (b'$' ∷ render_elems steps) ≡ ok steps)
unfolding expanding
parse_json_path-canonical_example = parse_json_path-canonical (codes "a_1[+12].b") steps refl

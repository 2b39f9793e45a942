-- ===== src/VirtualFunc/JsonField/RoundTrip.antt =====
-- vf.go: the paths that `parseJSONPath` accepts, and their canonical form.
use mathlib.Core.List.{append-nil, append_assoc}
use sequel.Base.Decimal.{AllDigits, itoa-AllDigits, parse_int-itoa}
use sequel.Base.{
  ℕ, zero, suc, ◌^◌, ◌≤◌, ◌<◌, ◌≡◌, refl, ap, ◌∙◌, true, ◌||◌, List, [], ◌∷◌, ◌++◌, some, arith,
  ◌==◌, Bytes, length, length-append, take, drop, take-length_append, drop-length_append,
  drop_suc-length, index_byte, itoa,
}
use sequel.VirtualFunc.JsonField.{
  all_name_bytes, is_identifier, JsonPathElem, member, element, member_run, trim_root, with_dot,
  path_elems, parse_json_path, render_elems,
}
use sequel.VirtualFunc.Scan.{ok}

-- What the parser accepts as one step: an identifier, or an index that is an int64.
abbrev pub IsStep : JsonPathElem → Type 0
IsStep (member name) = is_identifier name ≡ true
IsStep (element i) = i < 2 ^ 63

abbrev pub AllSteps : List JsonPathElem → Type 0
AllSteps [] = Unit {0}
AllSteps (e ∷ es) = IsStep e × AllSteps es

-- A text that is empty or begins with '.' or '['.
abbrev AtStep : Bytes → Type 0
AtStep [] = Unit {0}
AtStep (c ∷ cs) = (c == b'.' || c == b'[') ≡ true

member_run-name :
    (name w : Bytes) → all_name_bytes name ≡ true → AtStep w → member_run (name ++ w) ≡ length name
unfolding member_run
member_run-name [] [] h a = refl
member_run-name [] (c ∷ cs) h a = ground arith
member_run-name (c ∷ cs) w h a = ground (arith, member_run-name cs w)

index_byte-digits :
    (ds w : Bytes) → AllDigits ds → index_byte (ds ++ (b']' ∷ w)) b']' ≡ some (length ds)
unfolding index_byte
index_byte-digits [] w h = refl
index_byte-digits (c ∷ cs) w h = ground (arith, index_byte-digits cs w)

render_elems-AtStep : (es : List JsonPathElem) → AtStep (render_elems es)
unfolding render_elems
render_elems-AtStep [] = tt
render_elems-AtStep (member name ∷ es) = refl
render_elems-AtStep (element i ∷ es) = refl

is_identifier-name : (name : Bytes) → is_identifier name ≡ true → all_name_bytes name ≡ true
unfolding is_identifier
is_identifier-name [] h = refl
is_identifier-name (c ∷ cs) h = ground arith

path_elems-member :
    (fuel : ℕ) (elems : List JsonPathElem) (name w : Bytes)
    → is_identifier name ≡ true
    → AtStep w
    → path_elems (suc fuel) elems (b'.' ∷ (name ++ w))
      ≡ path_elems fuel (elems ++ (member name ∷ [])) w
unfolding path_elems
path_elems-member fuel elems name w h a =
    let run = member_run-name name w (is_identifier-name name h) a in
    let front : take (member_run (name ++ w)) (name ++ w) ≡ name =
      rw run (take-length_append name w) in
    let behind : drop (member_run (name ++ w)) (name ++ w) ≡ w =
      rw run (drop-length_append name w) in
    ground (arith, front, behind)

path_elems-element :
    (fuel : ℕ) (elems : List JsonPathElem) (i : ℕ) (w : Bytes)
    → i < 2 ^ 63
    → path_elems (suc fuel) elems (b'[' ∷ (itoa i ++ (b']' ∷ w)))
      ≡ path_elems fuel (elems ++ (element i ∷ [])) w
unfolding path_elems
path_elems-element fuel elems i w h =
    let found = index_byte-digits (itoa i) w (itoa-AllDigits i) in
    let digits = take-length_append (itoa i) (b']' ∷ w) in
    let behind = drop_suc-length (itoa i) b']' w in
    let value = parse_int-itoa i h in ground (arith, found, digits, behind, value)

path_elems-render :
    (fuel : ℕ) (elems es : List JsonPathElem)
    → length (render_elems es) ≤ fuel
    → AllSteps es
    → path_elems fuel elems (render_elems es) ≡ ok (elems ++ es)
unfolding render_elems
path_elems-render zero elems [] h v = rw append-nil (unfold path_elems in refl)
path_elems-render (suc fuel) elems [] h v = rw append-nil (unfold path_elems in refl)
path_elems-render zero elems (member name ∷ es) h v = absurd (omega arith)
path_elems-render zero elems (element i ∷ es) h v = absurd (omega arith)
path_elems-render (suc fuel) elems (member name ∷ es) h v =
    let size = length-append name (render_elems es) in
    path_elems-member fuel elems name (render_elems es) v.0 (render_elems-AtStep es)
    ∙ path_elems-render fuel (elems ++ (member name ∷ [])) es (omega arith) v.1
    ∙ ap ok (append_assoc elems (member name ∷ []) es)
path_elems-render (suc fuel) elems (element i ∷ es) h v =
    let size = length-append (itoa i) (b']' ∷ render_elems es) in
    path_elems-element fuel elems i (render_elems es) v.0
    ∙ path_elems-render fuel (elems ++ (element i ∷ [])) es (omega arith) v.1
    ∙ ap ok (append_assoc elems (element i ∷ []) es)

with_dot-AtStep : (s : Bytes) → AtStep s → with_dot s ≡ s
unfolding with_dot
with_dot-AtStep [] h = refl
with_dot-AtStep (c ∷ cs) h = ground arith

-- The canonical form of a path that is not empty, whose names are identifiers and whose indices
-- are int64, parses to that path.
pub parse_json_path-render :
    (e : JsonPathElem) (es : List JsonPathElem)
    → AllSteps (e ∷ es)
    → parse_json_path (b'$' ∷ render_elems (e ∷ es)) ≡ ok (e ∷ es)
unfolding parse_json_path trim_root
parse_json_path-render e es v =
    let begins = render_elems-AtStep (e ∷ es) in
    let steps = path_elems-render (length (render_elems (e ∷ es))) [] (e ∷ es) (omega arith) v in
    rw (with_dot-AtStep (render_elems (e ∷ es)) begins) (rw steps)

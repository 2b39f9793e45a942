-- ===== src/VirtualFunc/JsonField/Safe.antt =====
-- vf.go: what `parseJSONPath` lets through, and what `vfJSONField` splices into SQL literals.
use sequel.Base.Decimal.{AllDigits, itoa-AllDigits}
use sequel.Base.Int.{pos, neg, at_most, parse_digits, parse_int}
use sequel.Base.{
  ℕ, zero, suc, ◌+◌, ◌-◌, ◌^◌, ◌<◌, ◌≡◌, refl, Bool, true, ◌||◌, List, [], ◌∷◌, ◌++◌, Option, none,
  some, arith, ◌==◌, if◌then◌else◌, Bytes, length, take, drop, index_byte, is_digit, itoa,
  Option-cases, Bool-cases, inl, inr,
}
use sequel.VirtualFunc.JsonField.RoundTrip.{IsStep, AllSteps, parse_json_path-render}
use sequel.VirtualFunc.JsonField.{
  is_letter, all_name_bytes, is_identifier, JsonPathElem, member, element, member_run, natural,
  path_elems, some_elem, with_dot, trim_root, parse_json_path, render_elems,
}
use sequel.VirtualFunc.Scan.{ok, ok_of_chain}

AllSteps-concat :
    (es : List JsonPathElem) (e : JsonPathElem) → AllSteps es → IsStep e → AllSteps (es ++ (e ∷ []))
AllSteps-concat [] e h k = (k, tt)
AllSteps-concat (x ∷ es) e h k = (h.0, AllSteps-concat es e h.1 k)

natural-negative : (o : Option ℕ) (i : ℕ) → natural (at_most (2 ^ 63) neg o) ≡ some i → i < 2 ^ 63
natural-negative none i h = cc
natural-negative (some zero) i h = ground arith
natural-negative (some (suc n)) i h = ground arith

natural-positive :
    (o : Option ℕ) (i : ℕ) → natural (at_most (2 ^ 63 - 1) pos o) ≡ some i → i < 2 ^ 63
natural-positive none i h = cc
natural-positive (some n) i h = ground arith

natural-parse_int : (s : Bytes) (i : ℕ) → natural (parse_int s) ≡ some i → i < 2 ^ 63
unfolding parse_int
natural-parse_int [] i h = cc
natural-parse_int (c ∷ cs) i h = elim (Bool-cases (c == b'-')) [
  | inl minus ↦ natural-negative (parse_digits cs) i (rw minus at h)
  | inr plus ↦ natural-positive (parse_digits (if c == b'+' then cs else c ∷ cs)) i (rw plus at h)
]

path_elems-AllSteps :
    (fuel : ℕ) (elems : List JsonPathElem) (s : Bytes) {out : List JsonPathElem}
    → AllSteps elems
    → path_elems fuel elems s ≡ ok out
    → AllSteps out
unfolding path_elems
path_elems-AllSteps zero elems s v h = ground arith
path_elems-AllSteps (suc fuel) elems [] v h = ground arith
path_elems-AllSteps (suc fuel) elems (c ∷ cs) v h = elim (Bool-cases (c == b'.')) [
  | inl dot ↦ elim (Bool-cases (is_identifier (take (member_run cs) cs))) [
    | inl name ↦
        path_elems-AllSteps fuel (elems ++ (member (take (member_run cs) cs) ∷ []))
          (drop (member_run cs) cs)
          (AllSteps-concat elems (member (take (member_run cs) cs)) v name) (ground arith)
    | inr refused ↦ absurd (ground arith)
  ]
  | inr no_dot ↦ elim (Bool-cases (c == b'[')) [
    | inr neither ↦ absurd (ground arith)
    | inl bracket ↦ elim (Option-cases (index_byte cs b']')) [
      | inl unclosed ↦ absurd (ground arith)
      | inr (n, closed) ↦ elim (Option-cases (natural (parse_int (take n cs)))) [
        | inl refused ↦ absurd (ground arith)
        | inr (i, value) ↦
            path_elems-AllSteps fuel (elems ++ (element i ∷ [])) (drop (n + 1) cs)
              (AllSteps-concat elems (element i) v (natural-parse_int (take n cs) i value))
              (ground arith)
      ]
    ]
  ]
]

-- The bytes of a canonical path: letters, digits, '_', '.', '[' and ']'.
abbrev pub is_path_byte : ℕ → Bool
is_path_byte c = is_letter c || (is_digit c || (c == b'.' || (c == b'[' || c == b']')))

abbrev pub AllPathBytes : Bytes → Type 0
AllPathBytes [] = Unit {0}
AllPathBytes (c ∷ cs) = (is_path_byte c ≡ true) × AllPathBytes cs

name-AllPathBytes : (s w : Bytes) → all_name_bytes s ≡ true → AllPathBytes w → AllPathBytes (s ++ w)
name-AllPathBytes [] w h k = k
name-AllPathBytes (c ∷ cs) w h k = (ground arith, name-AllPathBytes cs w (ground arith) k)

digits-AllPathBytes : (s w : Bytes) → AllDigits s → AllPathBytes w → AllPathBytes (s ++ w)
digits-AllPathBytes [] w h k = k
digits-AllPathBytes (c ∷ cs) w h k = (ground arith, digits-AllPathBytes cs w h.1 k)

is_identifier-all_name_bytes : (s : Bytes) → is_identifier s ≡ true → all_name_bytes s ≡ true
unfolding is_identifier
is_identifier-all_name_bytes [] h = refl
is_identifier-all_name_bytes (c ∷ cs) h = ground arith

render_elems-AllPathBytes : (es : List JsonPathElem) → AllSteps es → AllPathBytes (render_elems es)
unfolding render_elems
render_elems-AllPathBytes [] v = tt
render_elems-AllPathBytes (member name ∷ es) v = (
  refl,
  name-AllPathBytes name (render_elems es) (is_identifier-all_name_bytes name v.0)
      (render_elems-AllPathBytes es v.1),
)
render_elems-AllPathBytes (element i ∷ es) v = (
  refl,
  digits-AllPathBytes (itoa i) (b']' ∷ render_elems es) (itoa-AllDigits i)
      (refl, render_elems-AllPathBytes es v.1),
)

canonical_of_steps :
    (read elems : List JsonPathElem)
    → AllSteps read
    → some_elem read ≡ ok elems
    → AllSteps elems
      × AllPathBytes (render_elems elems)
      × (parse_json_path (b'$' ∷ render_elems elems) ≡ ok elems)
canonical_of_steps [] elems v h = absurd (ground arith)
canonical_of_steps (e ∷ es) elems v h =
    let same : elems ≡ e ∷ es = ground arith in
    rw same (v, render_elems-AllPathBytes (e ∷ es) v, parse_json_path-render e es v)

-- Of a path that is accepted, whatever text it is, the steps are identifiers and int64 indices,
-- the canonical form that is spliced into SQL has no byte but letters, digits, '_', '.', '[' and
-- ']' behind its '$', and this form parses to the same steps.
pub parse_json_path-canonical :
    (path : Bytes) (elems : List JsonPathElem)
    → parse_json_path path ≡ ok elems
    → AllSteps elems
      × AllPathBytes (render_elems elems)
      × (parse_json_path (b'$' ∷ render_elems elems) ≡ ok elems)
unfolding parse_json_path
parse_json_path-canonical path elems h =
    let rest = with_dot (trim_root path) in
    let (read, steps, nonempty) = ok_of_chain (path_elems (length rest) [] rest) some_elem h in
    let valid = path_elems-AllSteps (length rest) [] rest tt steps in
    canonical_of_steps read elems valid nonempty

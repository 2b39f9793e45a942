-- ===== src/VirtualFunc/Args.antt =====
-- vf.go: the arguments of a call, its closing parenthesis and its last comma. The inner loop over
-- a quoted string is the mode `some q`, where `q` is the quote that ends it.
pub mod Balanced
use sequel.Base.{
  ℕ, suc, ◌+◌, ◌-◌, true, false, ◌&&◌, ◌||◌, [], ◌∷◌, Option, none, some, ◌==◌, if◌then◌else◌,
  Bytes,
}

abbrev shift : Option ℕ → Option ℕ
shift none = none
shift (some i) = some (suc i)

-- The loop of `findBalancedClose` from its start: the distance to the closing parenthesis.
unfoldable pub find_close : Option ℕ → ℕ → Bytes → Option ℕ
find_close quote depth [] = none
find_close (some q) depth (ch ∷ cs) = shift (find_close (if ch == q then none else some q) depth cs)
find_close none depth (ch ∷ cs) = elim (ch == b'\'' || ch == b'"') [
  | true ↦ shift (find_close (some ch) depth cs)
  | false ↦ elim (ch == b'(') [
    | true ↦ shift (find_close none (depth + 1) cs)
    | false ↦ elim (ch == b')') [
      | true ↦ elim (depth - 1 == 0) [
        | true ↦ some 0
        | false ↦ shift (find_close none (depth - 1) cs)
      ]
      | false ↦ shift (find_close none depth cs)
    ]
  ]
]

-- `findBalancedClose(s, start)` over s[start:].
unfoldable pub find_balanced_close : Bytes → Option ℕ
unfolding find_close
find_balanced_close = find_close none 1

-- The loop of `lastTopLevelComma` at position `i`. Its depth may fall below zero, so it is kept as
-- the parentheses opened and those closed.
unfoldable pub last_comma : Option ℕ → ℕ → ℕ → ℕ → Option ℕ → Bytes → Option ℕ
last_comma quote opened closed i last [] = last
last_comma (some q) opened closed i last (ch ∷ cs) =
    last_comma (if ch == q then none else some q) opened closed (i + 1) last cs
last_comma none opened closed i last (ch ∷ cs) =
    last_comma (if ch == b'\'' || ch == b'"' then some ch else none)
      (if ch == b'(' then opened + 1 else opened) (if ch == b')' then closed + 1 else closed)
      (i + 1) (if ch == b',' && opened == closed then some i else last) cs

-- `lastTopLevelComma`, none for -1.
unfoldable pub last_top_level_comma : Bytes → Option ℕ
unfolding last_comma
last_top_level_comma = last_comma none 0 0 0 none

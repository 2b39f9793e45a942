-- ===== src/Placeholder/Plain.antt =====
-- db.go, `conformPlaceholders`: the test of its fast path, over every position of a text.
use sequel.Base.{
  ◌≡◌, Bool, true, false, ◌||◌, [], ◌∷◌, ◌==◌, arith, Bytes, ℕ, codes, has_prefix, contains,
  contains_any, index,
}
use sequel.Driver.{Driver, is_pg, is_mssql, mysql}
use sequel.Lex.{skip_non_code}
use sequel.Placeholder.{hides_nothing}

-- The bytes of `'"[$`.
abbrev pub is_opener : ℕ → Bool
is_opener c = c == b'\'' || (c == b'"' || (c == b'[' || c == b'$'))

-- At no position stands an opener, "--" or "/*".
abbrev pub Plain : Bytes → Type 0
Plain [] = Unit {0}
Plain (c ∷ cs) =
    (is_opener c ≡ false)
    × (has_prefix (c ∷ cs) (codes "--") ≡ false)
    × (has_prefix (c ∷ cs) (codes "/*") ≡ false)
    × Plain cs

contains_any_cons :
    (c : ℕ) (cs : Bytes)
    → contains_any (c ∷ cs) (codes "'\"[$") ≡ (is_opener c || contains_any cs (codes "'\"[$"))
unfolding contains_any
contains_any_cons c cs = ground arith

contains_cons :
    (c : ℕ) (cs part : Bytes)
    → contains (c ∷ cs) part ≡ (has_prefix (c ∷ cs) part || contains cs part)
unfolding contains index
contains_cons c cs part = ground arith

pub hides_nothing-Plain : (s : Bytes) → hides_nothing s ≡ true → Plain s
unfolding hides_nothing
hides_nothing-Plain [] h = tt
hides_nothing-Plain (c ∷ cs) h =
    let any = contains_any_cons c cs in
    let dashes = contains_cons c cs (codes "--") in
    let slash = contains_cons c cs (codes "/*") in
    (
      ground (arith, any),
      ground (arith, dashes),
      ground (arith, slash),
      hides_nothing-Plain cs (ground (arith, any, dashes, slash)),
    )

-- No region begins in front of a byte of a plain text, on the drivers that number placeholders.
pub skip_non_code-Plain :
    (d : Driver) (before : Bytes) (c : ℕ) (cs : Bytes)
    → (is_pg d || is_mssql d) ≡ true
    → Plain (c ∷ cs)
    → skip_non_code d before (c ∷ cs) true ≡ 0
unfolding skip_non_code
skip_non_code-Plain mysql before c cs h p = cc
skip_non_code-Plain _ before c cs h p = ground arith

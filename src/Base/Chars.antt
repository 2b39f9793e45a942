-- ===== src/Base/Chars.antt =====
-- A Go string as the list of its bytes, with what the program uses of the package strings.
use Prim.Native.Char.{code}
use Prim.Native.Nat.{ℕ, suc}
use Prim.Native.String.{String}
use mathlib.Core.Bool.{Bool, true, false, ◌&&◌, ◌||◌}
use mathlib.Core.List.{List, [], ◌∷◌}
use mathlib.Core.Path.{◌≡◌, refl}
use native.Mathlib.Omega.{arith}
use mathlib.Core.Option.{Option, none, some}
use sequel.Base.Tests.{◌==◌, if◌then◌else◌}

abbrev pub Bytes : Type 0
Bytes = List ℕ

-- The code points of a text: its bytes, if it is ASCII.
abbrev pub codes : String → Bytes
codes String.[] = []
codes (String.◌∷◌ c s) = code c ∷ codes s

-- `a == b` on strings.
unfoldable pub equal : Bytes → Bytes → Bool
equal [] [] = true
equal (x ∷ xs) (y ∷ ys) = x == y && equal xs ys
equal _ _ = false

-- `strings.HasPrefix(s, prefix)`
unfoldable pub has_prefix : Bytes → Bytes → Bool
has_prefix s [] = true
has_prefix [] (p ∷ ps) = false
has_prefix (c ∷ cs) (p ∷ ps) = c == p && has_prefix cs ps

-- `strings.Index(s, part)`, none for -1.
unfoldable pub index : Bytes → Bytes → Option ℕ
unfolding has_prefix
index [] part = if has_prefix [] part then some 0 else none
index (c ∷ cs) part =
    let later = index cs part in
    if has_prefix (c ∷ cs) part then some 0 else elim later [ none ↦ none | some i ↦ some (suc i) ]

-- `strings.IndexByte(s, b)`
unfoldable pub index_byte : Bytes → ℕ → Option ℕ
index_byte [] b = none
index_byte (c ∷ cs) b =
    let later = index_byte cs b in
    if c == b then some 0 else elim later [ none ↦ none | some i ↦ some (suc i) ]

-- `strings.Contains(s, part)`
unfoldable pub contains : Bytes → Bytes → Bool
unfolding index
contains s part = elim (index s part) [ none ↦ false | some _ ↦ true ]

-- `strings.ContainsAny(s, chars)`
unfoldable pub contains_any : Bytes → Bytes → Bool
unfolding index_byte
contains_any [] chars = false
contains_any (c ∷ cs) chars =
    (elim (index_byte chars c) [ none ↦ false | some _ ↦ true ]) || contains_any cs chars

pub equal-eq : (xs ys : Bytes) → equal xs ys ≡ true → xs ≡ ys
unfolding equal
equal-eq [] [] h = refl
equal-eq (x ∷ xs) [] h = cc
equal-eq [] (y ∷ ys) h = cc
equal-eq (x ∷ xs) (y ∷ ys) h = ground (arith, equal-eq xs ys)

pub equal_refl : (xs : Bytes) → equal xs xs ≡ true
unfolding equal
equal_refl [] = refl
equal_refl (x ∷ xs) = ground (arith, equal_refl xs)

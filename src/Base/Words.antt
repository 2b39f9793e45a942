-- ===== src/Base/Words.antt =====
-- Letter case, blanks and decimal numbers: ASCII, as the program's own texts are.
use Prim.Native.Nat.{ℕ, zero, suc, ◌+◌, ◌-◌, ◌/◌, ◌%◌}
use mathlib.Core.Bool.{Bool, ◌&&◌, ◌||◌}
use mathlib.Core.List.{[], ◌∷◌, map, reverse}
use sequel.Base.Chars.{Bytes}
use sequel.Base.Tests.{leb, ◌==◌, if◌then◌else◌}

abbrev pub is_digit : ℕ → Bool
is_digit c = leb b'0' c && leb c b'9'

-- `strings.ToUpper`
unfoldable pub upper_byte : ℕ → ℕ
upper_byte c = if leb b'a' c && leb c b'z' then c - 32 else c

unfoldable pub to_upper : Bytes → Bytes
unfolding upper_byte
to_upper = map upper_byte

abbrev pub is_space : ℕ → Bool
is_space c = c == b' ' || (leb 9 c && leb c 13)

unfoldable pub trim_left : (ℕ → Bool) → Bytes → Bytes
trim_left p [] = []
trim_left p (c ∷ cs) = let rest = trim_left p cs in if p c then rest else c ∷ cs

unfoldable pub trim_right : (ℕ → Bool) → Bytes → Bytes
unfolding trim_left
trim_right p s = reverse (trim_left p (reverse s))

-- `strings.TrimSpace`
unfoldable pub trim_space : Bytes → Bytes
unfolding trim_right
trim_space s = trim_right is_space (trim_left is_space s)

-- The decimal digits of a number in front of `acc`; `fuel` bounds their count.
unfoldable pub itoa_onto : ℕ → ℕ → Bytes → Bytes
itoa_onto zero n acc = acc
itoa_onto (suc fuel) n acc =
    let d = (48 + n % 10) ∷ acc in
    let rest = itoa_onto fuel (n / 10) d in if n / 10 == 0 then d else rest

-- `strconv.Itoa` of a number that is not negative.
unfoldable pub itoa : ℕ → Bytes
unfolding itoa_onto
itoa n = itoa_onto (suc n) n []

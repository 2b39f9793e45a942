-- ===== src/Base/Int.antt =====
-- Signed integers, and the decimal numerals of strconv: an int64, as `int` is on 64-bit platforms.
use Prim.Native.Nat.{ℕ, zero, suc, ◌+◌, ◌-◌, ◌*◌, ◌/◌, ◌%◌, ◌^◌}
use mathlib.Core.List.{[], ◌∷◌}
use mathlib.Core.Option.{Option, none, some}
use sequel.Base.Chars.{Bytes}
use sequel.Base.Tests.{leb, ◌==◌, if◌then◌else◌}
use sequel.Base.Words.{is_digit, itoa}

-- `negsuc n` is -(n + 1).
pub data ℤ : Type 0 where
  pos : ℕ → ℤ
  negsuc : ℕ → ℤ

abbrev pub neg : ℕ → ℤ
neg zero = pos 0
neg (suc n) = negsuc n

-- Go's `/` and `%` by a positive number: they truncate towards zero.
abbrev pub quot_ℕ : ℤ → ℕ → ℤ
quot_ℕ (pos n) k = pos (n / k)
quot_ℕ (negsuc n) k = neg (suc n / k)

abbrev pub rem_ℕ : ℤ → ℕ → ℤ
rem_ℕ (pos n) k = pos (n % k)
rem_ℕ (negsuc n) k = neg (suc n % k)

-- `strconv.FormatInt(n, 10)`
unfoldable pub format_int : ℤ → Bytes
unfolding itoa
format_int (pos n) = itoa n
format_int (negsuc n) = b'-' ∷ itoa (suc n)

-- The value of a text that is all digits and not empty.
unfoldable pub digits_value : ℕ → Bytes → Option ℕ
digits_value acc [] = some acc
digits_value acc (c ∷ cs) =
    let rest = digits_value (10 * acc + (c - 48)) cs in if is_digit c then rest else none

unfoldable pub parse_digits : Bytes → Option ℕ
unfolding digits_value
parse_digits [] = none
parse_digits (c ∷ cs) = digits_value 0 (c ∷ cs)

abbrev pub at_most : ℕ → (ℕ → ℤ) → Option ℕ → Option ℤ
at_most bound sign none = none
at_most bound sign (some n) = if leb n bound then some (sign n) else none

-- `strconv.ParseInt(s, 10, 64)` and `strconv.Atoi`, none for an error.
unfoldable pub parse_int : Bytes → Option ℤ
unfolding parse_digits
parse_int [] = none
parse_int (c ∷ cs) =
    if c == b'-'
    then at_most (2 ^ 63) neg (parse_digits cs)
    else at_most (2 ^ 63 - 1) pos (parse_digits (if c == b'+' then cs else c ∷ cs))

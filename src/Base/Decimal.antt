-- ===== src/Base/Decimal.antt =====
-- strconv: a printed number reads back.
use sequel.Base.Int.{ℤ, pos, negsuc, digits_value, parse_digits, parse_int, format_int}
use sequel.Base.{
  ℕ, zero, suc, ◌+◌, ◌/◌, ◌%◌, ◌^◌, ◌<◌, ◌≡◌, refl, ◌∙◌, [], ◌∷◌, arith, some, Bytes, true, ◌==◌,
  is_digit, itoa, itoa_onto, Bool-cases, inl, inr,
}

-- Every byte of a text is a digit.
abbrev pub AllDigits : Bytes → Type 0
AllDigits [] = Unit {0}
AllDigits (c ∷ cs) = (is_digit c ≡ true) × AllDigits cs

digits_value-itoa_onto :
    (fuel n : ℕ) (w : Bytes) → n < fuel → digits_value 0 (itoa_onto fuel n w) ≡ digits_value n w
unfolding itoa_onto digits_value
digits_value-itoa_onto zero n w h = absurd (omega arith)
digits_value-itoa_onto (suc fuel) n w h =
    ground (arith, digits_value-itoa_onto fuel (n / 10) ((48 + n % 10) ∷ w))

itoa_onto-AllDigits : (fuel n : ℕ) (w : Bytes) → AllDigits w → AllDigits (itoa_onto fuel n w)
unfolding itoa_onto
itoa_onto-AllDigits zero n w h = h
itoa_onto-AllDigits (suc fuel) n w h =
    ground (arith, itoa_onto-AllDigits fuel (n / 10) ((48 + n % 10) ∷ w))

pub itoa-AllDigits : (n : ℕ) → AllDigits (itoa n)
unfolding itoa
itoa-AllDigits n = itoa_onto-AllDigits (suc n) n [] tt

-- The printed number has a first digit.
itoa_onto-cons :
    (fuel n d : ℕ) (w : Bytes) → (e : ℕ) × (v : Bytes) × (itoa_onto fuel n (d ∷ w) ≡ e ∷ v)
unfolding itoa_onto
itoa_onto-cons zero n d w = (d, w, refl)
itoa_onto-cons (suc fuel) n d w = elim (Bool-cases (n / 10 == 0)) [
  | inl last ↦ (48 + n % 10, d ∷ w, rw (last, itoa_onto))
  | inr more ↦
      let (e, v, h) = itoa_onto-cons fuel (n / 10) (48 + n % 10) (d ∷ w) in
      (e, v, rw (more, itoa_onto) h)
]

pub itoa-cons : (n : ℕ) → (e : ℕ) × (v : Bytes) × (itoa n ≡ e ∷ v)
unfolding itoa itoa_onto
itoa-cons n = elim (Bool-cases (n / 10 == 0)) [
  | inl last ↦ (48 + n % 10, [], rw (last, itoa_onto))
  | inr more ↦
      let (e, v, h) = itoa_onto-cons n (n / 10) (48 + n % 10) [] in (e, v, rw (more, itoa_onto) h)
]

pub digits_value-itoa : (n : ℕ) → digits_value 0 (itoa n) ≡ some n
unfolding itoa
digits_value-itoa n =
    digits_value-itoa_onto (suc n) n [] (omega arith) ∙ unfold digits_value in refl

pub parse_digits-itoa : (n : ℕ) → parse_digits (itoa n) ≡ some n
unfolding parse_digits
parse_digits-itoa n = let (e, v, h) = itoa-cons n in rw h (rw h at (digits_value-itoa n))

-- A number of at most 63 bits that is printed reads back.
pub parse_int-itoa : (n : ℕ) → n < 2 ^ 63 → parse_int (itoa n) ≡ some (pos n)
unfolding parse_int
parse_int-itoa n less =
    let (e, v, h) = itoa-cons n in
    let digits = rw h at (itoa-AllDigits n) in
    let value = rw h at (parse_digits-itoa n) in rw h (ground (arith, digits, value))

-- So does a negative one, down to the least int64.
pub parse_int-itoa_neg : (n : ℕ) → n < 2 ^ 63 → parse_int (b'-' ∷ itoa (suc n)) ≡ some (negsuc n)
unfolding parse_int
parse_int-itoa_neg n less = ground (arith, parse_digits-itoa (suc n))

-- Whether a number is an int64.
abbrev pub IsInt64 : ℤ → Type 0
IsInt64 (pos n) = n < 2 ^ 63
IsInt64 (negsuc n) = n < 2 ^ 63

pub parse_int-format_int : (n : ℤ) → IsInt64 n → parse_int (format_int n) ≡ some n
unfolding format_int
parse_int-format_int (pos n) h = parse_int-itoa n h
parse_int-format_int (negsuc n) h = parse_int-itoa_neg n h

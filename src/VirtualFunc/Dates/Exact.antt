-- ===== src/VirtualFunc/Dates/Exact.antt =====
-- vf.go: the numbers that NOW_UTC and DATE_ADD_MILLIS compute for the SQL they print.
use sequel.Base.Decimal.{IsInt64, parse_int-format_int}
use sequel.Base.Int.{ℤ, pos, negsuc, neg, quot_ℕ, rem_ℕ, format_int, parse_int}
use sequel.Base.{
  ℕ, zero, suc, ◌+◌, ◌*◌, ◌/◌, ◌%◌, ◌^◌, ◌≤◌, ◌<◌, ◌≡◌, refl, false, ◌++◌, some, arith, Bytes,
  codes,
}
use sequel.VirtualFunc.Dates.{now_utc_precision, mssql_date_add, is_under_hour}
use sequel.VirtualFunc.Scan.{ok}

-- The precision that NOW_UTC accepts is at most six digits.
pub now_utc_precision-le : (args : Bytes) (p : ℕ) → now_utc_precision args ≡ ok p → p ≤ 6
unfolding now_utc_precision
now_utc_precision-le args p h = ground arith

-- The integer `n` is `h` hours and `r` milliseconds, and `r` is under an hour and of the sign of `n`.
abbrev pub SplitsInto : ℤ → ℤ → ℤ → Type 0
SplitsInto (pos n) (pos h) (pos r) = (n ≡ h * 3600000 + r) × (r < 3600000)
SplitsInto (negsuc n) h r =
    (a : ℕ) × (b : ℕ) × (h ≡ neg a) × (r ≡ neg b) × (suc n ≡ a * 3600000 + b) × (b < 3600000)
SplitsInto (pos n) h r = ⊥

quot-rem-SplitsInto : (n : ℤ) → SplitsInto n (quot_ℕ n 3600000) (rem_ℕ n 3600000)
quot-rem-SplitsInto (pos n) = omega arith
quot-rem-SplitsInto (negsuc n) =
    (suc n / 3600000, suc n % 3600000, refl, refl, omega arith, omega arith)

neg-IsInt64 : (a : ℕ) → a ≤ 2 ^ 63 → IsInt64 (neg a)
neg-IsInt64 zero h = omega arith
neg-IsInt64 (suc a) h = h

quot-IsInt64 : (n : ℤ) → IsInt64 n → IsInt64 (quot_ℕ n 3600000)
quot-IsInt64 (pos n) h = omega arith
quot-IsInt64 (negsuc n) h = neg-IsInt64 (suc n / 3600000) (omega arith)

rem-IsInt64 : (n : ℤ) → IsInt64 n → IsInt64 (rem_ℕ n 3600000)
rem-IsInt64 (pos n) h = omega arith
rem-IsInt64 (negsuc n) h = neg-IsInt64 (suc n % 3600000) (omega arith)

-- The text of the two nested calls, with the numerals of `h` and `r` spliced in.
abbrev pub nested : Bytes → Bytes → Bytes → Bytes
nested r h base =
    codes "DATEADD(MILLISECOND, "
    ++ (r ++ (codes ", DATEADD(HOUR, " ++ (h ++ (codes ", " ++ (base ++ codes "))")))))

-- On SQL Server a literal number of milliseconds of an hour or more, either way, becomes two nested
-- calls; their numerals read as whole hours and as milliseconds of the same sign under an hour,
-- which add up to the number.
pub mssql_date_add-SplitsInto :
    (n : ℤ) (base millis : Bytes)
    → IsInt64 n
    → is_under_hour n ≡ false
    → (h : ℤ) × (r : ℤ) × (ht : Bytes) × (rt : Bytes) × (mssql_date_add (some n) base millis
        ≡ nested rt ht base)
      × (parse_int ht ≡ some h)
      × (parse_int rt ≡ some r)
      × SplitsInto n h r
unfolding mssql_date_add
mssql_date_add-SplitsInto n base millis fits long =
    let h = quot_ℕ n 3600000 in
    let r = rem_ℕ n 3600000 in
    (
      h,
      r,
      format_int h,
      format_int r,
      rw long refl,
      parse_int-format_int h (quot-IsInt64 n fits),
      parse_int-format_int r (rem-IsInt64 n fits),
      quot-rem-SplitsInto n,
    )

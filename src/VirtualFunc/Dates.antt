-- ===== src/VirtualFunc/Dates.antt =====
-- vf.go: NOW_UTC and DATE_ADD_MILLIS.
pub mod Exact
use sequel.Base.Int.{ℤ, pos, negsuc, quot_ℕ, rem_ℕ, format_int, parse_int}
use sequel.Base.{
  ℕ, suc, ◌+◌, ◌-◌, Bool, false, not, ◌||◌, [], ◌++◌, Option, none, some, ltb, leb, ◌==◌,
  if◌then◌else◌, Bytes, length, take, drop, replicate, codes, equal, itoa, trim_space, to_upper,
}
use sequel.Driver.{Driver, mysql, mariadb, pgx, cockroachdb, mssql, sqlite, other}
use sequel.VirtualFunc.Args.{find_balanced_close, last_top_level_comma}
use sequel.VirtualFunc.Scan.{needs_syntax, unsupported_driver, Result, ok, err, ◌>>=◌}
use sequel.VirtualFunc.Pairs.{two_args}

abbrev precision_of : Option ℤ → Result ℕ
precision_of (some (pos p)) = if ltb 6 p then err (needs_syntax (codes "NOW_UTC")) else ok p
precision_of (some (negsuc p)) = err (needs_syntax (codes "NOW_UTC"))
precision_of none = err (needs_syntax (codes "NOW_UTC"))

-- `nowUTCPrecision`
unfoldable pub now_utc_precision : Bytes → Result ℕ
now_utc_precision args =
    let a = trim_space args in if equal a [] then ok 3 else precision_of (parse_int a)

-- The switch of `vfNowUTC`.
unfoldable pub now_utc_at : Driver → ℕ → Result Bytes
now_utc_at mysql p = ok (codes "(UTC_TIMESTAMP(" ++ (itoa p ++ codes "))"))
now_utc_at mariadb p = ok (codes "(UTC_TIMESTAMP(" ++ (itoa p ++ codes "))"))
now_utc_at pgx p =
    if p == 6
    then ok (codes "(NOW() AT TIME ZONE 'UTC')")
    else ok (
        codes "(CAST((NOW() AT TIME ZONE 'UTC') - INTERVAL '"
        ++ (codes "5"
            ++ (replicate (5 - p) b'0'
                ++ (codes " microseconds' AS TIMESTAMP(" ++ (itoa p ++ codes ")))")))))
now_utc_at cockroachdb p =
    if p == 6
    then ok (codes "(NOW() AT TIME ZONE 'UTC')")
    else ok (
        codes "(CAST((NOW() AT TIME ZONE 'UTC') - INTERVAL '"
        ++ (codes "5"
            ++ (replicate (5 - p) b'0'
                ++ (codes " microseconds' AS TIMESTAMP(" ++ (itoa p ++ codes ")))")))))
now_utc_at mssql p = ok (
    codes "(CONVERT(DATETIME2("
    ++ (itoa p
        ++ (codes "), DATEADD(NANOSECOND, -"
            ++ (codes "5" ++ (replicate (8 - p) b'0' ++ codes ", SYSUTCDATETIME())))")))))
now_utc_at sqlite p =
    if leb 3 p
    then ok (codes "(STRFTIME('%Y-%m-%d %H:%M:%f', 'now'))")
    else ok (
        codes "(SUBSTR(STRFTIME('%Y-%m-%d %H:%M:%f', 'now'), 1, "
        ++ (itoa (20 + p) ++ (codes ") || '" ++ (take (3 - p) (codes "000") ++ codes "')"))))
now_utc_at (other name) p = err (unsupported_driver (other name))

-- `vfNowUTC`
unfoldable pub vf_now_utc : Driver → Bytes → Result Bytes
vf_now_utc d args = now_utc_precision args >>= λ p. now_utc_at d p

-- `strings.EqualFold(s[:len(name)], name)` for a text that is at least as long as the name.
abbrev starts_fold : Bytes → Bytes → Bool
starts_fold s name = equal (to_upper (take (length name) s)) name

abbrev is_last : Option ℕ → Bytes → Bool
is_last none s = false
is_last (some k) s = suc k == length s

abbrev is_coarse : Result ℕ → Bool
is_coarse (ok p) = ltb p 3
is_coarse (err e) = false

-- `isCoarseNowUTC`
unfoldable pub is_coarse_now_utc : Bytes → Bool
is_coarse_now_utc expr =
    let e = trim_space expr in
    let name = codes "NOW_UTC(" in
    let args = drop (length name) e in
    if ltb (length e) (length name)
      || (not (starts_fold e name) || not (is_last (find_balanced_close args) args))
    then false
    else is_coarse (now_utc_precision (take (length args - 1) args))

-- `n > -3600000 && n < 3600000`
abbrev pub is_under_hour : ℤ → Bool
is_under_hour (pos n) = ltb n 3600000
is_under_hour (negsuc n) = ltb (suc n) 3600000

-- `mssqlDateAddMillis` behind its first statement.
unfoldable pub mssql_date_add : Option ℤ → Bytes → Bytes → Bytes
mssql_date_add (some n) base millis =
    if is_under_hour n
    then codes "DATEADD(MILLISECOND, " ++ (millis ++ (codes ", " ++ (base ++ codes ")")))
    else codes "DATEADD(MILLISECOND, "
      ++ (format_int (rem_ℕ n 3600000)
          ++ (codes ", DATEADD(HOUR, "
              ++ (format_int (quot_ℕ n 3600000) ++ (codes ", " ++ (base ++ codes "))")))))
mssql_date_add none base millis =
    let ms = codes "CAST(" ++ (millis ++ codes " AS BIGINT)") in
    codes "DATEADD(MILLISECOND, "
    ++ (ms
        ++ (codes " % 3600000, DATEADD(HOUR, "
            ++ (ms ++ (codes " / 3600000, " ++ (base ++ codes "))")))))

-- `mssqlDateAddMillis`
unfoldable pub mssql_date_add_millis : Bytes → Bytes → Bytes
mssql_date_add_millis base millis =
    let wide =
      if is_coarse_now_utc base
      then codes "CAST(" ++ (base ++ codes " AS DATETIME2(7))")
      else base in
    mssql_date_add (parse_int millis) wide millis

-- The switch of `vfDateAddMillis`.
unfoldable pub date_add_at : Driver → Bytes → Bytes → Result Bytes
date_add_at mysql base millis = ok (
    codes "DATE_ADD("
    ++ (base ++ (codes ", INTERVAL (" ++ (millis ++ codes ") * 1000 MICROSECOND)"))))
date_add_at mariadb base millis = ok (
    codes "DATE_ADD("
    ++ (base ++ (codes ", INTERVAL (" ++ (millis ++ codes ") * 1000 MICROSECOND)"))))
date_add_at pgx base millis = ok (
    codes "(" ++ (base ++ (codes " + MAKE_INTERVAL(secs => (" ++ (millis ++ codes ") / 1000.0))"))))
date_add_at cockroachdb base millis = ok (
    codes "("
    ++ (base
        ++ (codes " + CAST((" ++ (millis ++ codes ") AS FLOAT8) * INTERVAL '1 millisecond')"))))
date_add_at mssql base millis = ok (mssql_date_add_millis base millis)
date_add_at sqlite base millis = ok (
    codes "(STRFTIME('%Y-%m-%d %H:%M:%f', "
    ++ (base ++ (codes ", ((" ++ (millis ++ codes ") / 1000.0) || ' seconds'))"))))
date_add_at (other name) base millis = err (unsupported_driver (other name))

-- `vfDateAddMillis`
unfoldable pub vf_date_add_millis : Driver → Bytes → Result Bytes
vf_date_add_millis d args =
    two_args (codes "DATE_ADD_MILLIS") args >>= λ ab. date_add_at d ab.0 ab.1

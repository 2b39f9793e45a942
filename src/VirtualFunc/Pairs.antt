-- ===== src/VirtualFunc/Pairs.antt =====
-- vf.go: the functions of two arguments, DATE_DIFF_MILLIS and LIMIT_OFFSET.
use sequel.Base.{
  ◌+◌, ◌||◌, [], ◌++◌, none, some, if◌then◌else◌, Bytes, take, drop, codes, equal, trim_space,
}
use sequel.Driver.{Driver, mysql, mariadb, pgx, cockroachdb, mssql, sqlite, other}
use sequel.VirtualFunc.Args.{last_top_level_comma}
use sequel.VirtualFunc.Scan.{needs_syntax, unsupported_driver, Result, ok, err, ◌>>=◌}

-- The two arguments of a function, split at the last comma that is not in parentheses or quotes;
-- neither may be blank.
unfoldable pub two_args : Bytes → Bytes → Result (Bytes × Bytes)
two_args name args = elim (last_top_level_comma args) [
  | none ↦ err (needs_syntax name)
  | some comma ↦
      let a = trim_space (take comma args) in
      let b = trim_space (drop (comma + 1) args) in
      if equal a [] || equal b [] then err (needs_syntax name) else ok (a, b)
]

-- The switch of `vfDateDiffMillis`.
unfoldable pub date_diff_at : Driver → Bytes → Bytes → Result Bytes
date_diff_at mysql a b =
    ok (codes "(-TIMESTAMPDIFF(MICROSECOND, " ++ (a ++ (codes ", " ++ (b ++ codes ") / 1000.0)"))))
date_diff_at mariadb a b =
    ok (codes "(-TIMESTAMPDIFF(MICROSECOND, " ++ (a ++ (codes ", " ++ (b ++ codes ") / 1000.0)"))))
date_diff_at pgx a b =
    ok (codes "(EXTRACT(EPOCH FROM (" ++ (a ++ (codes " - " ++ (b ++ codes ")) * 1000.0)"))))
date_diff_at cockroachdb a b =
    ok (codes "(EXTRACT(EPOCH FROM (" ++ (a ++ (codes " - " ++ (b ++ codes ")) * 1000.0)"))))
date_diff_at mssql a b =
    ok (codes "DATEDIFF_BIG(MILLISECOND, " ++ (b ++ (codes ", " ++ (a ++ codes ")"))))
date_diff_at sqlite a b =
    ok (codes "((JULIANDAY(" ++ (a ++ (codes ") - JULIANDAY(" ++ (b ++ codes ")) * 86400000.0)"))))
date_diff_at (other name) a b = err (unsupported_driver (other name))

-- `vfDateDiffMillis`
unfoldable pub vf_date_diff_millis : Driver → Bytes → Result Bytes
vf_date_diff_millis d args =
    two_args (codes "DATE_DIFF_MILLIS") args >>= λ ab. date_diff_at d ab.0 ab.1

-- The switch of `vfLimitOffset`.
unfoldable pub limit_offset_at : Driver → Bytes → Bytes → Result Bytes
limit_offset_at mssql limit offset =
    ok (codes "OFFSET " ++ (offset ++ (codes " ROWS FETCH NEXT " ++ (limit ++ codes " ROWS ONLY"))))
limit_offset_at (other name) limit offset = err (unsupported_driver (other name))
limit_offset_at _ limit offset = ok (codes "LIMIT " ++ (limit ++ (codes " OFFSET " ++ offset)))

-- `vfLimitOffset`
unfoldable pub vf_limit_offset : Driver → Bytes → Result Bytes
vf_limit_offset d args = two_args (codes "LIMIT_OFFSET") args >>= λ ab. limit_offset_at d ab.0 ab.1

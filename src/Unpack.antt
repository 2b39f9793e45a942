-- ===== src/Unpack.antt =====
-- querycache.go, `newPreparedQuery`: the text that the database is sent, or why there is none.
use mathlib.Core.Path.{subst}
use sequel.Base.{
  true, ◌||◌, [], sym, ◌∙◌, equal-eq, ℕ, ◌≡◌, refl, false, Bool-cases, inl, inr, Option, none, some,
  arith, Bytes, equal, if◌then◌else◌,
}
use sequel.Driver.{Driver, is_pg, is_mssql, mysql, mariadb, pgx, cockroachdb, mssql, sqlite, other}
use sequel.Placeholder.Numbered.{Numbers, conform_placeholders-Numbers}
use sequel.Placeholder.{conform_placeholders}
use sequel.VirtualFunc.Scan.Rewritten.{Rewrites, expand_virtual_funcs-Rewrites}
use sequel.VirtualFunc.Scan.{
  Registry, Result, ok, err, introduced_placeholder, expand_virtual_funcs,
}

-- On SQL Server, behind the expansion: a handler has introduced no ? of its own.
abbrev numbered : Result Bytes → Result Bytes
numbered (err e) = err e
numbered (ok expanded) =
    if equal (conform_placeholders mssql expanded) expanded
    then ok expanded
    else err introduced_placeholder

abbrev conformed : Driver → Result Bytes → Result Bytes
conformed d (err e) = err e
conformed d (ok expanded) = ok (conform_placeholders d expanded)

abbrev fmap : (Result Bytes → Result Bytes) → Option (Result Bytes) → Option (Result Bytes)
fmap f none = none
fmap f (some r) = some (f r)

-- `pq.text` and `pq.err`; none when the fuel of the expansion ran out.
unfoldable pub unpack_query : ℕ → Driver → Registry → Bytes → Option (Result Bytes)
unpack_query fuel d vfs query =
    if is_mssql d
    then fmap numbered (expand_virtual_funcs fuel mssql vfs (conform_placeholders mssql query))
    else fmap (conformed d) (expand_virtual_funcs fuel d vfs query)

numbered-done :
    (o : Option (Result Bytes)) (t : Bytes)
    → fmap numbered o ≡ some (ok t)
    → (o ≡ some (ok t)) × (conform_placeholders mssql t ≡ t)
numbered-done none t h = cc
numbered-done (some (err e)) t h = absurd (ground arith)
numbered-done (some (ok u)) t h = elim (Bool-cases (equal (conform_placeholders mssql u) u)) [
  | inl same ↦
      let kept = equal-eq (conform_placeholders mssql u) u same in
      let eq : u ≡ t = ground (arith, same) in rw (← eq) (refl, kept)
  | inr differs ↦ absurd (ground (arith, differs))
]

-- What a statement may unpack to, by driver.
abbrev pub Unpacks : Driver → Registry → Bytes → Bytes → Type 0
Unpacks mssql vfs query t =
    (sent : Bytes) × Numbers mssql 1 [] query sent
    × Rewrites mssql vfs sent t
    × Numbers mssql 1 [] t t
Unpacks pgx vfs query t =
    (expanded : Bytes) × Rewrites pgx vfs query expanded × Numbers pgx 1 [] expanded t
Unpacks cockroachdb vfs query t =
    (expanded : Bytes) × Rewrites cockroachdb vfs query expanded
    × Numbers cockroachdb 1 [] expanded t
Unpacks d vfs query t = Rewrites d vfs query t

conformed-done :
    (d : Driver) (o : Option (Result Bytes)) (t : Bytes)
    → fmap (conformed d) o ≡ some (ok t)
    → (expanded : Bytes) × (o ≡ some (ok expanded)) × (conform_placeholders d expanded ≡ t)
conformed-done d none t h = cc
conformed-done d (some (err e)) t h = absurd (ground arith)
conformed-done d (some (ok u)) t h = (u, refl, cc)

-- A driver that numbers placeholders behind the expansion.
behind_expansion :
    (fuel : ℕ) (d : Driver) (vfs : Registry) (query t : Bytes)
    → (is_pg d || is_mssql d) ≡ true
    → fmap (conformed d) (expand_virtual_funcs fuel d vfs query) ≡ some (ok t)
    → (expanded : Bytes) × Rewrites d vfs query expanded × Numbers d 1 [] expanded t
behind_expansion fuel d vfs query t n h =
    let (expanded, done, same) = conformed-done d (expand_virtual_funcs fuel d vfs query) t h in
    (
      expanded,
      expand_virtual_funcs-Rewrites fuel d vfs query expanded done,
      subst (Numbers d 1 [] expanded) same (conform_placeholders-Numbers d expanded n),
    )

-- A driver that does not number placeholders.
without_numbers :
    (fuel : ℕ) (d : Driver) (vfs : Registry) (query t : Bytes)
    → (is_pg d || is_mssql d) ≡ false
    → fmap (conformed d) (expand_virtual_funcs fuel d vfs query) ≡ some (ok t)
    → Rewrites d vfs query t
without_numbers fuel d vfs query t n h =
    let (expanded, done, same) = conformed-done d (expand_virtual_funcs fuel d vfs query) t h in
    let kept : conform_placeholders d expanded ≡ expanded =
      unfold conform_placeholders in rw n refl in
    subst (Rewrites d vfs query) (sym kept ∙ same)
      (expand_virtual_funcs-Rewrites fuel d vfs query expanded done)

-- What a statement unpacks to is its expansion, on which the scan finds no call, with the marks in its code
-- numbered from 1 on for PostgreSQL and SQL Server, and left for the others. For SQL Server the numbers are given
-- before the expansion, and no mark is left behind it.
pub unpack_query-Unpacks :
    (fuel : ℕ) (d : Driver) (vfs : Registry) (query t : Bytes)
    → unpack_query fuel d vfs query ≡ some (ok t)
    → Unpacks d vfs query t
unfolding unpack_query
unpack_query-Unpacks fuel mssql vfs query t h =
    let sent = conform_placeholders mssql query in
    let (expanded, kept) = numbered-done (expand_virtual_funcs fuel mssql vfs sent) t h in
    (
      sent,
      conform_placeholders-Numbers mssql query refl,
      expand_virtual_funcs-Rewrites fuel mssql vfs sent t expanded,
      subst (Numbers mssql 1 [] t) kept (conform_placeholders-Numbers mssql t refl),
    )
unpack_query-Unpacks fuel pgx vfs query t h = behind_expansion fuel pgx vfs query t refl h
unpack_query-Unpacks fuel cockroachdb vfs query t h =
    behind_expansion fuel cockroachdb vfs query t refl h
unpack_query-Unpacks fuel mysql vfs query t h = without_numbers fuel mysql vfs query t refl h
unpack_query-Unpacks fuel mariadb vfs query t h = without_numbers fuel mariadb vfs query t refl h
unpack_query-Unpacks fuel sqlite vfs query t h = without_numbers fuel sqlite vfs query t refl h
unpack_query-Unpacks fuel (other o) vfs query t h =
    without_numbers fuel (other o) vfs query t refl h

-- ===== src/Tests/Texts.antt =====
-- sqllex.go and db.go: runs of the scanners and of the placeholder conversion.
use sequel.Base.{
  refl, true, ◌||◌, [], ◌∷◌, ◌++◌, ◌≡◌, ◌≤◌, ◌+◌, if◌then◌else◌, Bytes, codes, length,
}
use sequel.Driver.{mysql, pgx, mssql, is_pg, is_mssql}
use sequel.Lex.Bounds.{skip_non_code-le}
use sequel.Lex.Quoted.{doubled, skip_non_code-quoted}
use sequel.Lex.{skip_non_code, lexing}
use sequel.Placeholder.Numbered.{Numbers, conform_placeholders-Numbers}
use sequel.Placeholder.Shortcuts.{conform_placeholders-conform_slow}
use sequel.Placeholder.{conform_placeholders, conform_slow, conforming}

regions :
    (skip_non_code mysql [] (codes "'a\\'b' c") true ≡ 6)
    × (skip_non_code pgx [] (codes "'a\\'b' c") true ≡ 4)
    × (skip_non_code pgx [] (codes "$x$ ? $x$ ?") true ≡ 9)
    × (skip_non_code mssql [] (codes "[a]]b] c") true ≡ 6)
    × (skip_non_code mysql [] (codes "[a]]b] c") true ≡ 0)
unfolding lexing
regions = (refl, refl, refl, refl, refl)

abbrev update : Bytes
update = codes "UPDATE t SET a=?, b='?''?' -- ?\n WHERE id=?"

conform_update :
    conform_placeholders pgx update ≡ codes "UPDATE t SET a=$1, b='?''?' -- ?\n WHERE id=$2"
unfolding conforming
conform_update = refl

conform_plain : conform_placeholders mssql (codes "a=? AND b=?") ≡ codes "a=$1 AND b=$2"
unfolding conforming
conform_plain = refl

conform_mysql : conform_placeholders mysql update ≡ update
unfolding conforming
conform_mysql = refl

skip_non_code-le_example : skip_non_code mysql [] (codes "'open") true ≤ length (codes "'open")
skip_non_code-le_example = skip_non_code-le mysql [] (codes "'open") true

skip_non_code-quoted_example :
    skip_non_code mysql []
      (b'\'' ∷ (doubled b'\'' true (codes "it's\\ ?") ++ (b'\'' ∷ codes " ?")))
      true
    ≡ length (doubled b'\'' true (codes "it's\\ ?")) + 2
skip_non_code-quoted_example =
    skip_non_code-quoted mysql [] b'\'' b'\'' true (codes "it's\\ ?") (codes " ?") true refl refl

conform_placeholders-conform_slow_example : conform_placeholders mssql (codes "a=? AND b=?") ≡ (
    if is_pg mssql || is_mssql mssql
    then conform_slow (length (codes "a=? AND b=?")) mssql 1 [] (codes "a=? AND b=?")
    else codes "a=? AND b=?")
conform_placeholders-conform_slow_example =
    conform_placeholders-conform_slow mssql (codes "a=? AND b=?")

conform_placeholders-Numbers_example : Numbers pgx 1 [] update (conform_placeholders pgx update)
conform_placeholders-Numbers_example = conform_placeholders-Numbers pgx update refl

-- ===== src/Placeholder.antt =====
-- db.go, `conformPlaceholders`: the ? of a statement become $1, $2 and so on for the PostgreSQL
-- and SQL Server drivers. Loops run on fuel that counts bytes; the length of the text is enough,
-- since every round consumes one, and a round without fuel keeps the text that is left.
pub mod Numbered
pub mod Plain
pub mod Shortcuts
use sequel.Base.{
  ℕ, zero, suc, ◌+◌, Bool, true, false, not, ◌&&◌, ◌||◌, [], ◌∷◌, ◌++◌, none, some, reverse, ltb,
  ◌==◌, if◌then◌else◌, Bytes, length, take, drop, codes, contains, contains_any, index_byte, itoa,
}
use sequel.Driver.{Driver, is_pg, is_mssql}
use sequel.Lex.{skip_non_code, lexing}

-- `strings.Count(stmt, "?")`
unfoldable pub count_marks : Bytes → ℕ
count_marks [] = 0
count_marks (c ∷ cs) = (if c == b'?' then 1 else 0) + count_marks cs

-- The fast path: from one ? to the next.
unfoldable pub conform_fast : ℕ → ℕ → Bytes → Bytes
conform_fast zero n stmt = stmt
conform_fast (suc fuel) n stmt = elim (index_byte stmt b'?') [
  | none ↦ stmt
  | some i ↦ take i stmt ++ (b'$' ∷ (itoa n ++ conform_fast fuel (n + 1) (drop (i + 1) stmt)))
]

-- The slow path: byte by byte, over what the driver skips. `before` is what was read, last first.
unfoldable pub conform_slow : ℕ → Driver → ℕ → Bytes → Bytes → Bytes
conform_slow zero d n before stmt = stmt
conform_slow (suc fuel) d n before [] = []
conform_slow (suc fuel) d n before (c ∷ cs) =
    let j = skip_non_code d before (c ∷ cs) true in
    elim (ltb 0 j) [
      | true ↦
          take j (c ∷ cs)
          ++ conform_slow fuel d n (reverse (take j (c ∷ cs)) ++ before) (drop j (c ∷ cs))
      | false ↦ elim (c == b'?') [
        | true ↦ b'$' ∷ (itoa n ++ conform_slow fuel d (n + 1) (c ∷ before) cs)
        | false ↦ c ∷ conform_slow fuel d n (c ∷ before) cs
      ]
    ]

-- Nothing that a ? could hide in.
unfoldable pub hides_nothing : Bytes → Bool
hides_nothing stmt =
    not (contains_any stmt (codes "'\"[$"))
    && (not (contains stmt (codes "--")) && not (contains stmt (codes "/*")))

unfoldable pub conform_placeholders : Driver → Bytes → Bytes
conform_placeholders d stmt =
    if not (is_pg d || is_mssql d)
    then stmt
    else if count_marks stmt == 0
    then stmt
    else if hides_nothing stmt
    then conform_fast (length stmt) 1 stmt
    else conform_slow (length stmt) d 1 [] stmt

-- Opens the conversion and what it calls, for evaluation at concrete inputs.
unfoldable pub conforming : Unit {0}
unfolding conform_placeholders conform_slow conform_fast count_marks hides_nothing contains
    contains_any itoa lexing
conforming = tt

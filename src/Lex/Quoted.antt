-- ===== src/Lex/Quoted.antt =====
-- sqllex.go: a literal, a quoted identifier and a comment are skipped whole.
use sequel.Base.{
  ◌≡◌, ◌≢◌, refl, Bool-cases, inl, inr, Bool, true, false, [], ◌∷◌, ◌++◌, arith, Bytes, ℕ, ◌+◌,
  Option, none, some, ◌==◌, ◌&&◌, ◌||◌, if◌then◌else◌, length, codes, has_prefix, index, index_byte,
}
use sequel.Driver.{Driver, is_mysqlish, is_pg, is_sqlite, is_mssql}
use sequel.Lex.{
  after_escape_e, skip_quoted, skip_bracket, skip_line_comment, skip_block_comment, skip_non_code,
}

-- A text with every quote doubled, and every backslash too where it escapes.
abbrev pub doubled : ℕ → Bool → Bytes → Bytes
doubled q backslash [] = []
doubled q backslash (c ∷ cs) =
    if (backslash && c == b'\\') || c == q
    then c ∷ c ∷ doubled q backslash cs
    else c ∷ doubled q backslash cs

-- `rest` does not begin with `q`.
abbrev pub NotNext : ℕ → Bytes → Type 0
NotNext q [] = Unit {0}
NotNext q (d ∷ ds) = (d == q) ≡ false

skip_quoted-close :
    (q : ℕ) (bs : Bool) (rest : Bytes)
    → q ≢ b'\\'
    → NotNext q rest
    → skip_quoted q bs (q ∷ rest) ≡ 1
unfolding skip_quoted
skip_quoted-close q bs [] h n = refl
skip_quoted-close q bs (d ∷ ds) h n = ground arith

skip_quoted-plain :
    (q : ℕ) (bs : Bool) (c : ℕ) (v w : Bytes) (e : ℕ)
    → ((bs && c == b'\\') || c == q) ≡ false
    → skip_quoted q bs (c ∷ (v ++ (e ∷ w))) ≡ 1 + skip_quoted q bs (v ++ (e ∷ w))
unfolding skip_quoted
skip_quoted-plain q bs c [] w e h = ground arith
skip_quoted-plain q bs c (d ∷ v) w e h = ground arith

skip_quoted-pair :
    (q : ℕ) (bs : Bool) (c : ℕ) (w : Bytes)
    → ((bs && c == b'\\') || c == q) ≡ true
    → skip_quoted q bs (c ∷ c ∷ w) ≡ 2 + skip_quoted q bs w
unfolding skip_quoted
skip_quoted-pair q bs c w h = ground arith

skip_quoted-doubled :
    (q : ℕ) (bs : Bool) (v rest : Bytes)
    → q ≢ b'\\'
    → NotNext q rest
    → skip_quoted q bs (doubled q bs v ++ (q ∷ rest)) ≡ length (doubled q bs v) + 1
skip_quoted-doubled q bs [] rest h n = skip_quoted-close q bs rest h n
skip_quoted-doubled q bs (c ∷ cs) rest h n = elim (Bool-cases ((bs && c == b'\\') || c == q)) [
  | inl special ↦
      let ih = skip_quoted-doubled q bs cs rest h n in
      let pair = skip_quoted-pair q bs c (doubled q bs cs ++ (q ∷ rest)) special in
      rw (special, doubled) (omega (arith, pair, ih))
  | inr plain ↦
      let ih = skip_quoted-doubled q bs cs rest h n in
      let one = skip_quoted-plain q bs c (doubled q bs cs) rest q plain in
      rw (plain, doubled) (omega (arith, one, ih))
]

skip_bracket-skip_quoted : (s : Bytes) → skip_bracket s ≡ skip_quoted b']' false s
unfolding skip_bracket skip_quoted
skip_bracket-skip_quoted [] = refl
skip_bracket-skip_quoted (c ∷ []) = refl
skip_bracket-skip_quoted (c ∷ d ∷ cs) =
    ground (arith, skip_bracket-skip_quoted cs, skip_bracket-skip_quoted (d ∷ cs))

-- How the dialects quote: the byte that closes what `q` opens, and whether a backslash escapes.
abbrev pub quoting : Driver → Bytes → ℕ → Option (ℕ × Bool)
quoting d before q =
    if q == b'\''
    then some (b'\'', is_mysqlish d || (is_pg d && after_escape_e before))
    else if q == b'"'
    then some (b'"', is_mysqlish d)
    else if q == b'`' && (is_mysqlish d || is_sqlite d)
    then some (b'`', false)
    else if q == b'[' && (is_mssql d || is_sqlite d)
    then some (b']', false)
    else none

-- A string literal or quoted identifier, in any quoting of the driver's dialect, whose text is
-- written with the closing byte doubled, and with its backslashes doubled where they escape, is
-- skipped exactly to its end, whatever bytes the text holds and whatever follows but the closing
-- byte once more.
pub skip_non_code-quoted :
    (d : Driver) (before : Bytes) (q close : ℕ) (bs : Bool) (v rest : Bytes) (dollar_quotes : Bool)
    → quoting d before q ≡ some (close, bs)
    → NotNext close rest
    → skip_non_code d before (q ∷ (doubled close bs v ++ (close ∷ rest))) dollar_quotes
      ≡ length (doubled close bs v) + 2
unfolding skip_non_code
skip_non_code-quoted d before q close bs v rest dollar_quotes h n =
    let body = doubled close bs v ++ (close ∷ rest) in
    let bracket = skip_bracket-skip_quoted body in
    ground (arith, skip_quoted-doubled close bs v rest, bracket)

index_byte-append :
    (b : ℕ) (v rest : Bytes)
    → index_byte v b ≡ none
    → index_byte (v ++ (b ∷ rest)) b ≡ some (length v)
unfolding index_byte
index_byte-append b [] rest h = ground arith
index_byte-append b (c ∷ cs) rest h = ground (arith, index_byte-append b cs rest)

index-append_close :
    (v rest : Bytes)
    → index v (codes "*/") ≡ none
    → index (v ++ (b'*' ∷ b'/' ∷ rest)) (codes "*/") ≡ some (length v)
unfolding index has_prefix
index-append_close [] rest h = refl
index-append_close (c ∷ []) rest h = ground arith
index-append_close (c ∷ d ∷ cs) rest h = ground (arith, index-append_close (d ∷ cs) rest)

-- A comment that "--" opens is skipped on every driver through the next newline.
pub skip_non_code-line_comment :
    (d : Driver) (before v rest : Bytes) (dollar_quotes : Bool)
    → index_byte v b'\n' ≡ none
    → skip_non_code d before (b'-' ∷ b'-' ∷ (v ++ (b'\n' ∷ rest))) dollar_quotes ≡ length v + 3
unfolding skip_non_code has_prefix skip_line_comment index_byte
skip_non_code-line_comment d before v rest dollar_quotes h =
    ground (arith, index_byte-append b'\n' v rest h)

-- A comment that "/*" opens is skipped on every driver through the first "*/" behind it.
pub skip_non_code-block_comment :
    (d : Driver) (before v rest : Bytes) (dollar_quotes : Bool)
    → index v (codes "*/") ≡ none
    → skip_non_code d before (b'/' ∷ b'*' ∷ (v ++ (b'*' ∷ b'/' ∷ rest))) dollar_quotes
      ≡ length v + 4
unfolding skip_non_code has_prefix skip_block_comment
skip_non_code-block_comment d before v rest dollar_quotes h =
    ground (arith, index-append_close v rest h)

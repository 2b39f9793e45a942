-- ===== src/Lex/Bounds.antt =====
-- sqllex.go: the positions that the scanners return lie within the text.
use sequel.Base.{
  ◌≡◌, refl, ap, Bool, true, false, ◌&&◌, ◌||◌, [], ◌∷◌, arith, Bytes, ℕ, zero, suc, ◌+◌, ◌≤◌, ◌<◌,
  some, length, drop, length-drop, length-take, length-append, take, codes, has_prefix, index,
  index_byte, Option-cases, inl, inr, ◌++◌,
}
use sequel.Driver.{Driver, is_mysqlish, is_pg}
use sequel.Lex.{
  after_escape_e, skip_quoted, skip_bracket, skip_line_comment, skip_block_comment, word_run,
  skip_dollar_tag, skip_dollar, skip_non_code,
}

skip_quoted-le : (q : ℕ) (bs : Bool) (s : Bytes) → skip_quoted q bs s ≤ length s
unfolding skip_quoted
skip_quoted-le q bs [] = omega arith
skip_quoted-le q bs (c ∷ []) = omega arith
skip_quoted-le q bs (c ∷ d ∷ cs) =
    ground (arith, skip_quoted-le q bs cs, skip_quoted-le q bs (d ∷ cs))

skip_bracket-le : (s : Bytes) → skip_bracket s ≤ length s
unfolding skip_bracket
skip_bracket-le [] = omega arith
skip_bracket-le (c ∷ []) = omega arith
skip_bracket-le (c ∷ d ∷ cs) = ground (arith, skip_bracket-le cs, skip_bracket-le (d ∷ cs))

pub index_byte-lt : (b i : ℕ) (s : Bytes) → index_byte s b ≡ some i → i < length s
unfolding index_byte
index_byte-lt b i [] h = cc
index_byte-lt b zero (c ∷ cs) h = omega arith
index_byte-lt b (suc i) (c ∷ cs) h = ground (arith, index_byte-lt b i cs)

has_prefix-le : (s part : Bytes) → has_prefix s part ≡ true → length part ≤ length s
unfolding has_prefix
has_prefix-le s [] h = omega arith
has_prefix-le [] (p ∷ ps) h = cc
has_prefix-le (c ∷ cs) (p ∷ ps) h = ground (arith, has_prefix-le cs ps)

pub index-le : (i : ℕ) (s part : Bytes) → index s part ≡ some i → i + length part ≤ length s
unfolding index
index-le zero [] part h = ground (arith, has_prefix-le [] part)
index-le (suc i) [] part h = ground arith
index-le zero (c ∷ cs) part h = ground (arith, has_prefix-le (c ∷ cs) part)
index-le (suc i) (c ∷ cs) part h = ground (arith, index-le i cs part)

skip_line_comment-le : (s : Bytes) → skip_line_comment s ≤ length s
unfolding skip_line_comment
skip_line_comment-le s = elim (Option-cases (index_byte s b'\n')) [
  | inl e ↦ rw (e, skip_line_comment) (omega arith)
  | inr (i, e) ↦ rw (e, skip_line_comment) (omega (arith, index_byte-lt b'\n' i s e))
]

skip_block_comment-le : (s : Bytes) → skip_block_comment s ≤ length s
unfolding skip_block_comment
skip_block_comment-le s = elim (Option-cases (index (drop 2 s) (codes "*/"))) [
  | inl e ↦ rw (e, skip_block_comment) (omega arith)
  | inr (i, e) ↦
      rw (e, skip_block_comment)
        (omega (arith, index-le i (drop 2 s) (codes "*/") e, length-drop 2 s))
]

word_run-le : (s : Bytes) → word_run s ≤ length s
unfolding word_run
word_run-le [] = omega arith
word_run-le (c ∷ cs) = ground (arith, word_run-le cs)

-- The tag that closes a dollar quote.
abbrev tag_at : Bytes → Bytes
tag_at s = b'$' ∷ (take (word_run s) s ++ b'$' ∷ [])

skip_dollar_tag-le : (s : Bytes) → skip_dollar_tag s ≤ 1 + length s
unfolding skip_dollar_tag
skip_dollar_tag-le s = go (drop (word_run s) s) refl
  where
    go : (r : Bytes) → drop (word_run s) s ≡ r → skip_dollar_tag s ≤ 1 + length s
    go [] e = rw (e, skip_dollar_tag) (omega arith)
    go (d ∷ body) e = elim (Option-cases (index body (tag_at s))) [
      | inl missing ↦ ground (arith, e, missing)
      | inr (k, found) ↦
          let fits = index-le k body (tag_at s) found in
          let rest = length-drop (word_run s) s in
          let behind = ap length e in
          let word = length-take (word_run s) s in
          let tag = length-append (take (word_run s) s) (b'$' ∷ []) in
          ground (arith, e, found, fits, rest, behind, word, tag, word_run-le s)
    ]

skip_dollar-le : (s : Bytes) → skip_dollar s ≤ 1 + length s
unfolding skip_dollar
skip_dollar-le [] = skip_dollar_tag-le []
skip_dollar-le (c ∷ cs) = ground (arith, skip_dollar_tag-le (c ∷ cs))

-- A region ends within the text: skipping it never runs past the end.
pub skip_non_code-le :
    (d : Driver) (before s : Bytes) (dollar_quotes : Bool)
    → skip_non_code d before s dollar_quotes ≤ length s
unfolding skip_non_code
skip_non_code-le d before [] dollar_quotes = omega arith
skip_non_code-le d before (c ∷ cs) dollar_quotes = ground (
  arith,
  skip_quoted-le b'\'' (is_mysqlish d || (is_pg d && after_escape_e before)) cs,
  skip_quoted-le b'"' (is_mysqlish d) cs,
  skip_quoted-le b'`' false cs,
  skip_bracket-le cs,
  skip_line_comment-le (c ∷ cs),
  skip_block_comment-le (c ∷ cs),
  skip_dollar-le cs,
)

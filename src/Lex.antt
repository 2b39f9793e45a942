-- ===== src/Lex.antt =====
-- sqllex.go: what is not code in a statement. A position i of a text s is the pair of `before`,
-- the bytes s[:i] last first, and the rest s[i:]; a function that returns a position returns the
-- distance to it from where it starts.
pub mod Bounds
pub mod Quoted
use sequel.Base.{
  ℕ, suc, ◌+◌, Bool, true, false, not, ◌&&◌, ◌||◌, [], ◌∷◌, ◌++◌, none, some, leb, ◌==◌,
  if◌then◌else◌, Bytes, length, take, drop, codes, has_prefix, index, index_byte, is_digit,
}
use sequel.Driver.{Driver, is_mysqlish, is_pg, is_mssql, is_sqlite}

-- `isWordByte`
unfoldable pub is_word_byte : ℕ → Bool
is_word_byte b =
    b == b'_'
    || (leb b'a' b && leb b b'z')
    || (leb b'A' b && leb b b'Z')
    || (leb b'0' b && leb b b'9')

-- `isIdentByte`
unfoldable pub is_ident_byte : ℕ → Bool
is_ident_byte b =
    b == b'_'
    || b == b'$'
    || (leb b'a' b && leb b b'z')
    || (leb b'A' b && leb b b'Z')
    || (leb b'0' b && leb b b'9')

-- The loop of `skipQuoted` over what stands behind the opening quote. At the last byte every
-- branch ends at the end of the text.
unfoldable pub skip_quoted : ℕ → Bool → Bytes → ℕ
skip_quoted q backslash [] = 0
skip_quoted q backslash (c ∷ []) = 1
skip_quoted q backslash (c ∷ d ∷ cs) = elim (backslash && c == b'\\') [
  | true ↦ 2 + skip_quoted q backslash cs
  | false ↦ elim (c == q) [
    | true ↦ elim (d == q) [ true ↦ 2 + skip_quoted q backslash cs | false ↦ 1 ]
    | false ↦ 1 + skip_quoted q backslash (d ∷ cs)
  ]
]

-- The loop of the case '[', which knows no backslash.
unfoldable pub skip_bracket : Bytes → ℕ
skip_bracket [] = 0
skip_bracket (c ∷ []) = 1
skip_bracket (c ∷ d ∷ cs) = elim (c == b']') [
  | true ↦ elim (d == b']') [ true ↦ 2 + skip_bracket cs | false ↦ 1 ]
  | false ↦ 1 + skip_bracket (d ∷ cs)
]

-- The case "--", from its first byte.
unfoldable pub skip_line_comment : Bytes → ℕ
skip_line_comment s = elim (index_byte s b'\n') [ none ↦ length s | some j ↦ j + 1 ]

-- The case "/*", from its first byte.
unfoldable pub skip_block_comment : Bytes → ℕ
skip_block_comment s = elim (index (drop 2 s) (codes "*/")) [ none ↦ length s | some j ↦ 2 + j + 2 ]

-- The run of word bytes at the start of a text: `for j < len(s) && isWordByte(s[j])`.
unfoldable pub word_run : Bytes → ℕ
word_run [] = 0
word_run (c ∷ cs) = let rest = word_run cs in if is_word_byte c then suc rest else 0

-- The case '$', over what stands behind the dollar.
unfoldable pub skip_dollar_tag : Bytes → ℕ
skip_dollar_tag s =
    let n = word_run s in
    elim (drop n s) [
      | [] ↦ 0
      | d ∷ body ↦
          if not (d == b'$') then 0 else (elim (index body (b'$' ∷ (take n s ++ b'$' ∷ []))) [
            | none ↦ 1 + length s
            | some k ↦ 1 + (n + 1) + k + (n + 2)
          ])
    ]

unfoldable pub skip_dollar : Bytes → ℕ
skip_dollar [] = skip_dollar_tag []
skip_dollar (c ∷ cs) = if is_digit c then 0 else skip_dollar_tag (c ∷ cs)

-- `i > 0 && isIdentByte(s[i-1])`
unfoldable pub after_ident : Bytes → Bool
after_ident [] = false
after_ident (p ∷ ps) = is_ident_byte p

-- An E or e in front of the quote that is itself not the end of an identifier.
unfoldable pub after_escape_e : Bytes → Bool
after_escape_e [] = false
after_escape_e (p ∷ ps) = (p == b'E' || p == b'e') && not (after_ident ps)

-- `skipNonCode`: 0 when no region starts here.
unfoldable pub skip_non_code : Driver → Bytes → Bytes → Bool → ℕ
skip_non_code d before [] dollar_quotes = 0
skip_non_code d before (ch ∷ cs) dollar_quotes =
    if ch == b'\''
    then 1 + skip_quoted b'\'' (is_mysqlish d || (is_pg d && after_escape_e before)) cs
    else if ch == b'"'
    then 1 + skip_quoted b'"' (is_mysqlish d) cs
    else if ch == b'`' && (is_mysqlish d || is_sqlite d)
    then 1 + skip_quoted b'`' false cs
    else if ch == b'[' && (is_mssql d || is_sqlite d)
    then 1 + skip_bracket cs
    else if ch == b'-' && has_prefix (ch ∷ cs) (codes "--")
    then skip_line_comment (ch ∷ cs)
    else if ch == b'/' && has_prefix (ch ∷ cs) (codes "/*")
    then skip_block_comment (ch ∷ cs)
    else if ch == b'$' && (dollar_quotes && (is_pg d && not (after_ident before)))
    then skip_dollar cs
    else 0

-- Opens the scanners and what they call, for evaluation at concrete inputs.
unfoldable pub lexing : Unit {0}
unfolding skip_non_code skip_quoted skip_bracket skip_line_comment skip_block_comment skip_dollar
    skip_dollar_tag word_run is_word_byte is_ident_byte after_ident after_escape_e index_byte index
    has_prefix
lexing = tt

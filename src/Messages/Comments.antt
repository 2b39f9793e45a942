-- ===== src/Messages/Comments.antt =====
-- db.go: `stripLineComments`, against a grammar of a statement's literals and comments.
use mathlib.Core.Path.{subst}
use sequel.Base.{
  sym, inl, inr, Bool-cases, zero, suc, ◌≤◌, ◌<◌, Option-cases, some, length, take, drop, ℕ, ◌≡◌,
  refl, ◌∙◌, Bool, true, false, ◌&&◌, ◌||◌, [], ◌∷◌, ◌++◌, none, arith, Bytes, ◌==◌, ap, index_byte,
}
use sequel.Messages.{code, comment, quote, starts_dash, strip_from, strip_line_comments}

abbrev pub is_quote : ℕ → Bool
is_quote c = c == b'\'' || (c == b'"' || c == b'`')

-- A statement and the statement without its line comments: a comment runs from two dashes in the code to the
-- newline, which stays, or to the end; a literal runs from a quote to the next one, or to the end, and stays.
pub data Stripped : Bytes → Bytes → Type 0 where
  done : Stripped [] []
  byte :
      (c : ℕ) (cs out : Bytes)
      → is_quote c ≡ false
      → (c == b'-' && starts_dash cs) ≡ false
      → Stripped cs out
      → Stripped (c ∷ cs) (c ∷ out)
  literal :
      (q : ℕ) (body cs out : Bytes)
      → is_quote q ≡ true
      → index_byte body q ≡ none
      → Stripped cs out
      → Stripped (q ∷ (body ++ (q ∷ cs))) (q ∷ (body ++ (q ∷ out)))
  open_literal :
      (q : ℕ) (body : Bytes)
      → is_quote q ≡ true
      → index_byte body q ≡ none
      → Stripped (q ∷ body) (q ∷ body)
  comments :
      (body cs out : Bytes)
      → index_byte body b'\n' ≡ none
      → Stripped cs out
      → Stripped (b'-' ∷ (b'-' ∷ (body ++ (b'\n' ∷ cs)))) (b'\n' ∷ out)
  open_comment : (body : Bytes) → index_byte body b'\n' ≡ none → Stripped (b'-' ∷ (b'-' ∷ body)) []

in_quote :
    (q : ℕ) (body rest : Bytes)
    → index_byte body q ≡ none
    → strip_from (quote q) (body ++ (q ∷ rest)) ≡ body ++ (q ∷ strip_from code rest)
unfolding strip_from index_byte
in_quote q [] rest h = ground arith
in_quote q (c ∷ cs) rest h = ground (arith, in_quote q cs rest)

in_open_quote : (q : ℕ) (body : Bytes) → index_byte body q ≡ none → strip_from (quote q) body ≡ body
unfolding strip_from index_byte
in_open_quote q [] h = refl
in_open_quote q (c ∷ cs) h = ground (arith, in_open_quote q cs)

in_comment :
    (body rest : Bytes)
    → index_byte body b'\n' ≡ none
    → strip_from comment (body ++ (b'\n' ∷ rest)) ≡ b'\n' ∷ strip_from code rest
unfolding strip_from index_byte
in_comment [] rest h = refl
in_comment (c ∷ cs) rest h = ground (arith, in_comment cs rest)

in_open_comment : (body : Bytes) → index_byte body b'\n' ≡ none → strip_from comment body ≡ []
unfolding strip_from index_byte
in_open_comment [] h = refl
in_open_comment (c ∷ cs) h = ground (arith, in_open_comment cs)

-- A quote begins a literal.
at_quote :
    (q : ℕ) (cs : Bytes)
    → is_quote q ≡ true
    → strip_from code (q ∷ cs) ≡ q ∷ strip_from (quote q) cs
unfolding strip_from
at_quote q cs h = ground (arith, h)

at_byte :
    (c : ℕ) (cs : Bytes)
    → is_quote c ≡ false
    → (c == b'-' && starts_dash cs) ≡ false
    → strip_from code (c ∷ cs) ≡ c ∷ strip_from code cs
unfolding strip_from
at_byte c cs h k = ground (arith, h, k)

strip_line_comments-out : {s out : Bytes} → Stripped s out → strip_line_comments s ≡ out
unfolding strip_line_comments strip_from
strip_line_comments-out done = refl
strip_line_comments-out (byte c cs out plain dash rest) =
    at_byte c cs plain dash ∙ ap (◌∷◌ c) (strip_line_comments-out rest)
strip_line_comments-out (literal q body cs out quotes no_end rest) =
    at_quote q (body ++ (q ∷ cs)) quotes
    ∙ ap (◌∷◌ q)
        (in_quote q body cs no_end ∙ ap (λ t. body ++ (q ∷ t)) (strip_line_comments-out rest))
strip_line_comments-out (open_literal q body quotes no_end) =
    at_quote q body quotes ∙ ap (◌∷◌ q) (in_open_quote q body no_end)
strip_line_comments-out (comments body cs out no_end rest) =
    in_comment body cs no_end ∙ ap (◌∷◌ b'\n') (strip_line_comments-out rest)
strip_line_comments-out (open_comment body no_end) = in_open_comment body no_end

before_index : (s : Bytes) (q i : ℕ) → index_byte s q ≡ some i → index_byte (take i s) q ≡ none
unfolding index_byte
before_index [] q i h = cc
before_index (c ∷ cs) q zero h = refl
before_index (c ∷ cs) q (suc i) h = ground (arith, before_index cs q i)

at_index :
    (s : Bytes) (q i : ℕ)
    → index_byte s q ≡ some i
    → (take i s ++ (q ∷ drop (suc i) s) ≡ s) × (length (drop (suc i) s) < length s)
unfolding index_byte
at_index [] q i h = cc
at_index (c ∷ cs) q zero h =
    let same : c ≡ q = ground arith in (ap (λ x. x ∷ cs) (sym same), omega arith)
at_index (c ∷ cs) q (suc i) h =
    let (text, size) = at_index cs q i (ground arith) in (ap (◌∷◌ c) text, omega (arith, size))

commented :
    (fuel c : ℕ) (cs : Bytes)
    → length (c ∷ cs) ≤ suc fuel
    → (c == b'-' && starts_dash cs) ≡ true
    → ((s : Bytes) → length s ≤ fuel → (out : Bytes) × Stripped s out)
    → (out : Bytes) × Stripped (c ∷ cs) out
commented fuel c [] h begins later = absurd (ground arith)
commented fuel c (d ∷ body) h begins later =
    let first : c ≡ b'-' = ground arith in
    let second : d ≡ b'-' = ground arith in
    elim (Option-cases (index_byte body b'\n')) [
      | inl no_end ↦ ([], rw (first, second) (open_comment body no_end))
      | inr (i, ends) ↦
          let (text, size) = at_index body b'\n' i ends in
          let (out, rest) = later (drop (suc i) body) (omega (arith, size)) in
          (
            b'\n' ∷ out,
            rw (first, second)
                (subst (λ t. Stripped (b'-' ∷ (b'-' ∷ t)) (b'\n' ∷ out)) text
                  (comments (take i body) (drop (suc i) body) out (before_index body b'\n' i ends)
                    rest)),
          )
    ]

-- Every statement is made of the parts of the grammar.
parts : (fuel : ℕ) (s : Bytes) → length s ≤ fuel → (out : Bytes) × Stripped s out
parts fuel [] h = ([], done)
parts zero (c ∷ cs) h = absurd (omega arith)
parts (suc fuel) (c ∷ cs) h = elim (Bool-cases (is_quote c)) [
  | inl quotes ↦ elim (Option-cases (index_byte cs c)) [
    | inl no_end ↦ (c ∷ cs, open_literal c cs quotes no_end)
    | inr (i, ends) ↦
        let (text, size) = at_index cs c i ends in
        let (out, rest) = parts fuel (drop (suc i) cs) (omega (arith, size)) in
        (
          c ∷ (take i cs ++ (c ∷ out)),
          subst (λ t. Stripped (c ∷ t) (c ∷ (take i cs ++ (c ∷ out)))) text
              (literal c (take i cs) (drop (suc i) cs) out quotes (before_index cs c i ends) rest),
        )
  ]
  | inr plain ↦ elim (Bool-cases (c == b'-' && starts_dash cs)) [
    | inr no_dash ↦
        let (out, rest) = parts fuel cs (omega arith) in (c ∷ out, byte c cs out plain no_dash rest)
    | inl begins ↦ commented fuel c cs h begins (parts fuel)
  ]
]

-- The stripped statement is the given one without exactly the line comments that the grammar finds in it: two dashes
-- within a literal or a quoted name begin none, and everything else is kept.
pub strip_line_comments-Stripped : (s : Bytes) → Stripped s (strip_line_comments s)
strip_line_comments-Stripped s =
    let (out, made) = parts (length s) s (omega arith) in
    subst (Stripped s) (sym (strip_line_comments-out made)) made

-- ===== src/Insert/SourceClause.antt =====
-- db.go: `insertSourceClausePattern`, against a description of the texts that it matches.
use sequel.Base.{
  ℕ, ◌≡◌, refl, sym, ap, ◌∙◌, true, false, ◌||◌, ◌⊎◌, [], ◌∷◌, ◌++◌, Bytes, codes, arith,
  Bool-cases, inl, inr, to_upper, upper_byte,
}
use sequel.Insert.{is_blank, is_word, is_word_fold, behind_blanks, starts_clause}

abbrev AllBlank : Bytes → Type 0
AllBlank [] = Unit
AllBlank (c ∷ cs) = (is_blank c ≡ true) × AllBlank cs

-- A text that does not go on with a letter, a digit or a '_'.
abbrev EndsWord : Bytes → Type 0
EndsWord [] = Unit
EndsWord (c ∷ cs) = is_word c ≡ false

-- A whole word in any letter case, and what stands behind it.
pub record HasWord (word s : Bytes) : Type 0 where
  spelled : Bytes
  rest : Bytes
  text_is : s ≡ spelled ++ rest
  letters : to_upper spelled ≡ word
  ends : EndsWord rest

-- Blanks, at least one, and VALUES or SELECT.
pub record IsClause (s : Bytes) : Type 0 where
  blank : ℕ
  blanks : Bytes
  rest : Bytes
  text_is : s ≡ blank ∷ (blanks ++ rest)
  blank_is : is_blank blank ≡ true
  blanks_are : AllBlank blanks
  word_is : HasWord (codes "VALUES") rest ⊎ HasWord (codes "SELECT") rest

read_word : (word s : Bytes) → is_word_fold word s ≡ true → HasWord word s
unfolding is_word_fold to_upper
read_word [] [] h = record { spelled = []; rest = []; text_is = refl; letters = refl; ends = tt }
read_word [] (c ∷ cs) h = record {
  spelled = [];
  rest = c ∷ cs;
  text_is = refl;
  letters = refl;
  ends = ground (arith, h);
}
read_word (p ∷ ps) [] h = cc
read_word (p ∷ ps) (c ∷ cs) h =
    let w = read_word ps cs (ground (arith, h)) in
    let same : upper_byte c ≡ p = ground (arith, h) in
    record {
      spelled = c ∷ w.spelled;
      rest = w.rest;
      text_is = ap (◌∷◌ c) w.text_is;
      letters = ap (λ u. u ∷ to_upper w.spelled) same ∙ ap (◌∷◌ p) w.letters;
      ends = w.ends;
    }

word_read :
    (spelled rest : Bytes)
    → EndsWord rest
    → is_word_fold (to_upper spelled) (spelled ++ rest) ≡ true
unfolding is_word_fold to_upper
word_read [] [] e = refl
word_read [] (c ∷ cs) e = ground (arith, e)
word_read (c ∷ cs) rest e = ground (arith, word_read cs rest e)

HasWord-is_word_fold : (word s : Bytes) → HasWord word s → is_word_fold word s ≡ true
HasWord-is_word_fold word s w =
    rw (w.text_is) (rw (sym w.letters) (word_read w.spelled w.rest w.ends))

-- What `behind_blanks` reads: blanks, also none, and one of the words.
abbrev Behind : Bytes → Type 0
Behind s =
    (blanks : Bytes) × (rest : Bytes) × (s ≡ blanks ++ rest)
    × AllBlank blanks
    × (HasWord (codes "VALUES") rest ⊎ HasWord (codes "SELECT") rest)

one_word :
    (s : Bytes)
    → (is_word_fold (codes "VALUES") s || is_word_fold (codes "SELECT") s) ≡ true
    → HasWord (codes "VALUES") s ⊎ HasWord (codes "SELECT") s
one_word s h = elim (Bool-cases (is_word_fold (codes "VALUES") s)) [
  | inl values ↦ inl (read_word (codes "VALUES") s values)
  | inr others ↦ inr (read_word (codes "SELECT") s (rw others at h))
]

behind_blanks-Behind : (s : Bytes) → behind_blanks s ≡ true → Behind s
unfolding behind_blanks
behind_blanks-Behind [] h = cc
behind_blanks-Behind (c ∷ cs) h = elim (Bool-cases (is_blank c)) [
  | inl blank ↦
      let (blanks, rest, text, all, word) =
        behind_blanks-Behind cs (rw (blank, behind_blanks) at h) in
      (c ∷ blanks, rest, ap (◌∷◌ c) text, (blank, all), word)
  | inr code ↦ ([], c ∷ cs, refl, tt, one_word (c ∷ cs) (rw (code, behind_blanks) at h))
]

word_starts :
    (s : Bytes)
    → (HasWord (codes "VALUES") s ⊎ HasWord (codes "SELECT") s)
    → (is_word_fold (codes "VALUES") s || is_word_fold (codes "SELECT") s) ≡ true
word_starts s (inl w) = rw (HasWord-is_word_fold (codes "VALUES") s w) refl
word_starts s (inr w) = ground (arith, HasWord-is_word_fold (codes "SELECT") s w)

-- The first letter of one of the words is no blank.
no_blank :
    (c : ℕ) (cs : Bytes)
    → (is_word_fold (codes "VALUES") (c ∷ cs) || is_word_fold (codes "SELECT") (c ∷ cs)) ≡ true
    → is_blank c ≡ false
unfolding is_word_fold upper_byte
no_blank c cs h = ground (arith, h)

word-behind_blanks :
    (s : Bytes)
    → (is_word_fold (codes "VALUES") s || is_word_fold (codes "SELECT") s) ≡ true
    → behind_blanks s ≡ true
unfolding behind_blanks is_word_fold
word-behind_blanks [] h = absurd (ground arith)
word-behind_blanks (c ∷ cs) h = rw (no_blank c cs h, behind_blanks) h

blanks-behind_blanks :
    (blanks rest : Bytes)
    → AllBlank blanks
    → (HasWord (codes "VALUES") rest ⊎ HasWord (codes "SELECT") rest)
    → behind_blanks (blanks ++ rest) ≡ true
unfolding behind_blanks
blanks-behind_blanks [] rest all w = word-behind_blanks rest (word_starts rest w)
blanks-behind_blanks (c ∷ cs) rest (blank, all) w =
    rw (blank, behind_blanks) (blanks-behind_blanks cs rest all w)

pub starts_clause-IsClause : (s : Bytes) → starts_clause s ≡ true → IsClause s
unfolding starts_clause
starts_clause-IsClause [] h = cc
starts_clause-IsClause (c ∷ cs) h =
    let (blanks, rest, text, all, word) = behind_blanks-Behind cs (ground (arith, h)) in
    record {
      blank = c;
      blanks = blanks;
      rest = rest;
      text_is = ap (◌∷◌ c) text;
      blank_is = ground (arith, h);
      blanks_are = all;
      word_is = word;
    }

pub IsClause-starts_clause : (s : Bytes) → IsClause s → starts_clause s ≡ true
unfolding starts_clause
IsClause-starts_clause s k =
    rw (k.text_is)
      (ground (arith, k.blank_is, blanks-behind_blanks k.blanks k.rest k.blanks_are k.word_is))

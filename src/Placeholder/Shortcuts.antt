-- ===== src/Placeholder/Shortcuts.antt =====
-- db.go, `conformPlaceholders`: its two early returns and its fast path against its slow path.
use sequel.Base.{
  ◌≡◌, refl, sym, ◌∙◌, true, false, ◌||◌, [], ◌∷◌, ◌++◌, ◌==◌, arith, Bytes, ℕ, zero, suc, ◌+◌, ◌≤◌,
  ◌<◌, none, some, if◌then◌else◌, length, take, drop, length-drop, take-append-drop, reverse,
  Bool-cases, Option-cases, index_byte, itoa, inl, inr,
}
use sequel.Driver.{Driver, is_pg, is_mssql}
use sequel.Lex.{skip_non_code}
use sequel.Placeholder.Plain.{Plain, hides_nothing-Plain, skip_non_code-Plain}
use sequel.Placeholder.{
  count_marks, conform_fast, conform_slow, hides_nothing, conform_placeholders,
}

-- The numbering with nothing skipped.
number_marks : ℕ → Bytes → Bytes
number_marks n [] = []
number_marks n (c ∷ cs) = elim (c == b'?') [
  | true ↦ b'$' ∷ (itoa n ++ number_marks (n + 1) cs)
  | false ↦ c ∷ number_marks n cs
]

number_marks-index_none : (n : ℕ) (s : Bytes) → index_byte s b'?' ≡ none → number_marks n s ≡ s
unfolding number_marks index_byte
number_marks-index_none n [] h = refl
number_marks-index_none n (c ∷ cs) h = ground (arith, number_marks-index_none n cs)

number_marks-index_some :
    (n i : ℕ) (s : Bytes)
    → index_byte s b'?' ≡ some i
    → number_marks n s ≡ take i s ++ (b'$' ∷ (itoa n ++ number_marks (n + 1) (drop (i + 1) s)))
unfolding number_marks index_byte
number_marks-index_some n i [] h = cc
number_marks-index_some n zero (c ∷ cs) h = ground arith
number_marks-index_some n (suc i) (c ∷ cs) h = ground (arith, number_marks-index_some n i cs)

index_byte-lt : (i b : ℕ) (s : Bytes) → index_byte s b ≡ some i → i < length s
unfolding index_byte
index_byte-lt i b [] h = cc
index_byte-lt zero b (c ∷ cs) h = omega arith
index_byte-lt (suc i) b (c ∷ cs) h = ground (arith, index_byte-lt i b cs)

conform_fast-number_marks :
    (fuel n : ℕ) (s : Bytes) → length s ≤ fuel → conform_fast fuel n s ≡ number_marks n s
unfolding conform_fast
conform_fast-number_marks zero n [] h = unfold number_marks in refl
conform_fast-number_marks zero n (c ∷ cs) h = absurd (omega arith)
conform_fast-number_marks (suc fuel) n s h = elim (Option-cases (index_byte s b'?')) [
  | inl e ↦ rw (e, conform_fast) (sym (number_marks-index_none n s e))
  | inr (i, e) ↦
      let less = index_byte-lt i b'?' s e in
      let shorter = length-drop (i + 1) s in
      let ih = conform_fast-number_marks fuel (n + 1) (drop (i + 1) s) (omega arith) in
      rw (e, conform_fast, ih) (sym (number_marks-index_some n i s e))
]

conform_slow-number_marks :
    (fuel : ℕ) (d : Driver) (n : ℕ) (before s : Bytes)
    → (is_pg d || is_mssql d) ≡ true
    → Plain s
    → length s ≤ fuel
    → conform_slow fuel d n before s ≡ number_marks n s
unfolding conform_slow number_marks
conform_slow-number_marks zero d n before [] g p h = refl
conform_slow-number_marks zero d n before (c ∷ cs) g p h = absurd (omega arith)
conform_slow-number_marks (suc fuel) d n before [] g p h = refl
conform_slow-number_marks (suc fuel) d n before (c ∷ cs) g p h = ground (
  arith,
  skip_non_code-Plain d before c cs g p,
  conform_slow-number_marks fuel d (n + 1) (c ∷ before) cs g p.3 (omega arith),
  conform_slow-number_marks fuel d n (c ∷ before) cs g p.3 (omega arith),
)

count_marks-drop : (j : ℕ) (s : Bytes) → count_marks s ≡ 0 → count_marks (drop j s) ≡ 0
unfolding count_marks
count_marks-drop zero s h = h
count_marks-drop (suc j) [] h = refl
count_marks-drop (suc j) (c ∷ cs) h = count_marks-drop j cs (omega arith)

conform_slow-count_zero :
    (fuel : ℕ) (d : Driver) (n : ℕ) (before s : Bytes)
    → count_marks s ≡ 0
    → conform_slow fuel d n before s ≡ s
unfolding conform_slow count_marks
conform_slow-count_zero zero d n before s h = refl
conform_slow-count_zero (suc fuel) d n before [] h = refl
conform_slow-count_zero (suc fuel) d n before (c ∷ cs) h =
    let j = skip_non_code d before (c ∷ cs) true in
    ground (
      arith,
      take-append-drop j (c ∷ cs),
      conform_slow-count_zero fuel d n (reverse (take j (c ∷ cs)) ++ before) (drop j (c ∷ cs))
          (count_marks-drop j (c ∷ cs) h),
      conform_slow-count_zero fuel d n (c ∷ before) cs,
    )

-- On a driver that numbers its placeholders the early return and the fast path give what the slow
-- path gives, on every statement; on any other driver the statement is returned unchanged.
pub conform_placeholders-conform_slow :
    (d : Driver) (s : Bytes)
    → conform_placeholders d s
      ≡ (if is_pg d || is_mssql d then conform_slow (length s) d 1 [] s else s)
unfolding conform_placeholders
conform_placeholders-conform_slow d s = elim (Bool-cases (is_pg d || is_mssql d)) [
  | inr no_numbers ↦ rw no_numbers
  | inl numbers ↦ elim (Bool-cases (count_marks s == 0)) [
    | inl none_here ↦ ground (arith, conform_slow-count_zero (length s) d 1 [] s)
    | inr marked ↦ elim (Bool-cases (hides_nothing s)) [
      | inr hides ↦ rw (numbers, marked, hides) refl
      | inl bare ↦
          rw (numbers, marked, bare)
            (conform_fast-number_marks (length s) 1 s (omega arith)
              ∙ sym (
                  conform_slow-number_marks (length s) d 1 [] s numbers (hides_nothing-Plain s bare)
                    (omega arith)))
    ]
  ]
]

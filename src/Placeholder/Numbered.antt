-- ===== src/Placeholder/Numbered.antt =====
-- db.go, `conformPlaceholders`: its result against a grammar of a statement's regions and marks.
use sequel.Base.{
  ℕ, zero, suc, ◌+◌, ◌≤◌, ◌<◌, ◌≡◌, refl, true, [], ◌∷◌, ◌++◌, reverse, arith, ◌==◌, ◌||◌, ltb,
  ltb→lt, Bytes, length, length-drop, take, drop, Bool-cases, inl, inr, itoa,
}
use sequel.Driver.{Driver, is_pg, is_mssql}
use sequel.Lex.{skip_non_code}
use sequel.Placeholder.Shortcuts.{conform_placeholders-conform_slow}
use sequel.Placeholder.{conform_slow, conform_placeholders}

-- A text behind `before`, and the text with its marks numbered from `n` on: regions that are no code are
-- kept whole, a ? of the code becomes $ and the number that is next, and any other byte is kept.
pub data Numbers (d : Driver) : ℕ → Bytes → Bytes → Bytes → Type 0 where
  done : (n : ℕ) (before : Bytes) → Numbers d n before [] []
  region :
      (n j : ℕ) (before s out : Bytes)
      → skip_non_code d before s true ≡ j
      → 0 < j
      → Numbers d n (reverse (take j s) ++ before) (drop j s) out
      → Numbers d n before s (take j s ++ out)
  mark :
      (n c : ℕ) (before cs out : Bytes)
      → skip_non_code d before (c ∷ cs) true ≡ 0
      → c ≡ b'?'
      → Numbers d (n + 1) (c ∷ before) cs out
      → Numbers d n before (c ∷ cs) (b'$' ∷ (itoa n ++ out))
  byte :
      (n c : ℕ) (before cs out : Bytes)
      → skip_non_code d before (c ∷ cs) true ≡ 0
      → ¬ (c ≡ b'?')
      → Numbers d n (c ∷ before) cs out
      → Numbers d n before (c ∷ cs) (c ∷ out)

conform_slow-Numbers :
    (fuel : ℕ) (d : Driver) (n : ℕ) (before s : Bytes)
    → length s ≤ fuel
    → Numbers d n before s (conform_slow fuel d n before s)
unfolding conform_slow
conform_slow-Numbers zero d n before [] h = done n before
conform_slow-Numbers zero d n before (c ∷ cs) h = absurd (omega arith)
conform_slow-Numbers (suc fuel) d n before [] h = done n before
conform_slow-Numbers (suc fuel) d n before (c ∷ cs) h =
    let j = skip_non_code d before (c ∷ cs) true in
    elim (Bool-cases (ltb 0 j)) [
      | inl skipped ↦
          let some_read = ltb→lt 0 j skipped in
          let shorter = length-drop j (c ∷ cs) in
          rw (skipped, conform_slow)
            (region n j before (c ∷ cs) _ refl some_read (
              conform_slow-Numbers fuel d n (reverse (take j (c ∷ cs)) ++ before) (drop j (c ∷ cs))
                (omega arith)))
      | inr code ↦
          let in_code : j ≡ 0 = ground (arith, code) in
          rw (code, conform_slow)
            (elim (Bool-cases (c == b'?')) [
              | inl asks ↦
                  let here : c ≡ b'?' = ground (arith, asks) in
                  rw (asks, conform_slow)
                    (mark n c before cs (conform_slow fuel d (n + 1) (c ∷ before) cs) in_code here
                      (conform_slow-Numbers fuel d (n + 1) (c ∷ before) cs (omega arith)))
              | inr other ↦
                  rw (other, conform_slow)
                    (byte n c before cs _ in_code (λ same. ground (arith, other, same))
                      (conform_slow-Numbers fuel d n (c ∷ before) cs (omega arith)))
            ])
    ]

-- On a driver that numbers its placeholders the result is the statement with exactly the marks of its code
-- numbered from 1 on, in order, and every string, quoted name and comment kept.
pub conform_placeholders-Numbers :
    (d : Driver) (s : Bytes)
    → (is_pg d || is_mssql d) ≡ true
    → Numbers d 1 [] s (conform_placeholders d s)
conform_placeholders-Numbers d s h =
    rw (conform_placeholders-conform_slow d s)
      (rw h (conform_slow-Numbers (length s) d 1 [] s (omega arith)))

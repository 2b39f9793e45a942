-- ===== src/VirtualFunc/Scan/Moves.antt =====
-- vf.go: every round of the scan of `expandOnce` moves on.
use mathlib.Core.Path.{subst}
use sequel.Base.{
  ℕ, ◌+◌, ◌≤◌, ◌≡◌, refl, sym, true, false, not, ◌||◌, [], ◌∷◌, ◌++◌, reverse, arith, ◌==◌, ltb,
  ltb→lt, Bytes, take, drop, Option-cases, Bool-cases, inl, inr, is_digit, to_upper,
}
use sequel.Driver.{Driver}
use sequel.Lex.{skip_non_code, is_word_byte, word_run, after_ident}
use sequel.VirtualFunc.Args.{find_balanced_close}
use sequel.VirtualFunc.Scan.{
  Result, ok, err, ◌>>=◌, Registry, find_handler, Scan, advance, replace, call_at, ident_at, round,
}

-- `t` is `s` moved on over `n` bytes of its rest, at least one.
pub record Moves (n : ℕ) (s t : Scan) : Type 0 where
  pub forward : 1 ≤ n
  pub rest_is : t.rest ≡ drop n s.rest
  pub before_is : t.before ≡ reverse (take n s.rest) ++ s.before

advance-Moves : (n : ℕ) (s : Scan) → 1 ≤ n → Moves n s (advance n s)
unfolding advance
advance-Moves n s h = record { forward = h; rest_is = refl; before_is = refl }

replace-Moves : (n : ℕ) (result : Bytes) (s : Scan) → 1 ≤ n → Moves n s (replace n result s)
unfolding replace
replace-Moves n result s h = record { forward = h; rest_is = refl; before_is = refl }

-- A round that does not fail moves the scan on.
abbrev pub MovesOn : Scan → Result Scan → Type 0
MovesOn s (ok t) = (n : ℕ) × Moves n s t
MovesOn s (err e) = Unit {0}

replaced-MovesOn :
    (n : ℕ) (s : Scan) (r : Result Bytes)
    → 1 ≤ n
    → MovesOn s (r >>= λ result. ok (replace n result s))
replaced-MovesOn n s (ok result) h = (n, replace-Moves n result s h)
replaced-MovesOn n s (err e) h = tt

call_at-MovesOn :
    (d : Driver) (vfs : Registry) (n : ℕ) (args : Bytes) (s : Scan)
    → MovesOn s (call_at d vfs n args s)
unfolding call_at
call_at-MovesOn d vfs n args s = elim (Option-cases (find_handler (to_upper (take n s.rest)) vfs)) [
  | inl unknown ↦ rw (unknown, call_at) (n + 1, advance-Moves (n + 1) s (omega arith))
  | inr (f, known) ↦ elim (Option-cases (find_balanced_close args)) [
    | inl unbalanced ↦
        rw (known, call_at)
          (rw (unbalanced, call_at) (n + 1, advance-Moves (n + 1) s (omega arith)))
    | inr (k, closed) ↦
        rw (known, call_at)
          (rw (closed, call_at)
            (replaced-MovesOn (n + 1 + k + 1) s (f d (take k args)) (omega arith)))
  ]
]

ident_at-MovesOn :
    (d : Driver) (vfs : Registry) (n : ℕ) (after : Bytes) (s : Scan)
    → 1 ≤ n
    → MovesOn s (ident_at d vfs n after s)
unfolding ident_at
ident_at-MovesOn d vfs n [] s h = (n, advance-Moves n s h)
ident_at-MovesOn d vfs n (p ∷ args) s h = elim (Bool-cases (not (p == b'('))) [
  | inl other ↦ rw (other, ident_at) (n, advance-Moves n s h)
  | inr call ↦ rw (call, ident_at) (call_at-MovesOn d vfs n args s)
]

word_run-pos : (c : ℕ) (cs : Bytes) → is_word_byte c ≡ true → 1 ≤ word_run (c ∷ cs)
unfolding word_run
word_run-pos c cs h = rw h (omega arith)

pub round-MovesOn :
    (d : Driver) (vfs : Registry) (ch : ℕ) (cs : Bytes) (s : Scan)
    → s.rest ≡ ch ∷ cs
    → MovesOn s (round d vfs ch s)
unfolding round
round-MovesOn d vfs ch cs s e =
    let j = skip_non_code d s.before s.rest false in
    let passed = not (is_word_byte ch) || (is_digit ch || after_ident s.before) in
    elim (Bool-cases (ltb 0 j)) [
      | inl skipped ↦ rw (skipped, round) (j, advance-Moves j s (ltb→lt 0 j skipped))
      | inr code ↦
          rw (code, round)
            (elim (Bool-cases passed) [
              | inl no_start ↦ rw (no_start, round) (1, advance-Moves 1 s (omega arith))
              | inr starts ↦
                  let word : is_word_byte ch ≡ true = ground arith in
                  let some_byte = subst (λ r. 1 ≤ word_run r) (sym e) (word_run-pos ch cs word) in
                  rw (starts, round)
                    (ident_at-MovesOn d vfs (word_run s.rest) (drop (word_run s.rest) s.rest) s
                      some_byte)
            ])
    ]

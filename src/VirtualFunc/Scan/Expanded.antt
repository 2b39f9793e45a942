-- ===== src/VirtualFunc/Scan/Expanded.antt =====
-- vf.go: what `expandOnce` and `expandVirtualFuncs` make of a statement, against a grammar of its parts.
use mathlib.Core.List.{append_assoc, append-nil}
use sequel.Base.{
  ℕ, ◌+◌, ◌<◌, ◌≡◌, refl, sym, ap, ◌∙◌, Bool, true, false, not, ◌||◌, [], ◌∷◌, ◌++◌, ◌⊎◌, reverse,
  none, some, arith, ◌==◌, ltb, ltb→lt, Bytes, take, drop, take-append-drop, Option-cases,
  Bool-cases, inl, inr, is_digit, to_upper,
}
use sequel.Driver.{Driver}
use sequel.Lex.{skip_non_code, is_word_byte, word_run, after_ident}
use sequel.VirtualFunc.Args.{find_balanced_close}
use sequel.VirtualFunc.Scan.{
  Result, ok, err, ◌>>=◌, Handler, Registry, find_handler, Scan, advance, replace, call_at,
  ident_at, round,
}

-- No identifier begins at a byte of code.
abbrev pub is_passed : Bytes → ℕ → Bool
is_passed before c = not (is_word_byte c) || (is_digit c || after_ident before)

-- An identifier of `n` bytes begins here.
pub record IsIdent (d : Driver) (before : Bytes) (c : ℕ) (cs : Bytes) (n : ℕ) : Type 0 where
  pub in_code : skip_non_code d before (c ∷ cs) false ≡ 0
  pub begins : is_passed before c ≡ false
  pub run_is : word_run (c ∷ cs) ≡ n

-- A text behind `before`, the text with the results of its calls in their place, and whether it has a call:
-- regions that are no code, bytes at which no identifier begins, identifiers without a parenthesis, those
-- with one that are no calls, and calls of a registered function, of a parenthesis that is closed.
pub data Scans (d : Driver) (vfs : Registry) : Bytes → Bytes → Bytes → Bool → Type 0 where
  done : (before : Bytes) → Scans d vfs before [] [] false
  region :
      (before s out : Bytes) (b : Bool) (j : ℕ)
      → skip_non_code d before s false ≡ j
      → 0 < j
      → Scans d vfs (reverse (take j s) ++ before) (drop j s) out b
      → Scans d vfs before s (take j s ++ out) b
  byte :
      (before : Bytes) (c : ℕ) (cs out : Bytes) (b : Bool)
      → skip_non_code d before (c ∷ cs) false ≡ 0
      → is_passed before c ≡ true
      → Scans d vfs (c ∷ before) cs out b
      → Scans d vfs before (c ∷ cs) (c ∷ out) b
  ident :
      (before : Bytes) (c : ℕ) (cs out : Bytes) (b : Bool) (n : ℕ)
      → IsIdent d before c cs n
      → ((args : Bytes) → ¬ (drop n (c ∷ cs) ≡ b'(' ∷ args))
      → Scans d vfs (reverse (take n (c ∷ cs)) ++ before) (drop n (c ∷ cs)) out b
      → Scans d vfs before (c ∷ cs) (take n (c ∷ cs) ++ out) b
  no_call :
      (before : Bytes) (c : ℕ) (cs args out : Bytes) (b : Bool) (n : ℕ)
      → IsIdent d before c cs n
      → drop n (c ∷ cs) ≡ b'(' ∷ args
      → (find_handler (to_upper (take n (c ∷ cs))) vfs ≡ none) ⊎ (find_balanced_close args ≡ none)
      → Scans d vfs (reverse (take (n + 1) (c ∷ cs)) ++ before) (drop (n + 1) (c ∷ cs)) out b
      → Scans d vfs before (c ∷ cs) (take (n + 1) (c ∷ cs) ++ out) b
  call :
      (before : Bytes) (c : ℕ) (cs args result out : Bytes) (b : Bool) (n k : ℕ) (h : Handler)
      → IsIdent d before c cs n
      → drop n (c ∷ cs) ≡ b'(' ∷ args
      → find_handler (to_upper (take n (c ∷ cs))) vfs ≡ some h
      → find_balanced_close args ≡ some k
      → h d (take k args) ≡ ok result
      → Scans d vfs
          (reverse (take (n + 1 + k + 1) (c ∷ cs)) ++ before)
          (drop (n + 1 + k + 1) (c ∷ cs))
          out
          b
      → Scans d vfs before (c ∷ cs) (result ++ out) true

-- A text without a call is kept.
pub Scans-kept :
    {d : Driver} {vfs : Registry} {before s out : Bytes} {b : Bool}
    → Scans d vfs before s out b
    → b ≡ false
    → out ≡ s
Scans-kept (done before) h = refl
Scans-kept (region before s out b j e p rest) h = rw (Scans-kept rest h) (take-append-drop j s)
Scans-kept (byte before c cs out b e p rest) h = ap (◌∷◌ c) (Scans-kept rest h)
Scans-kept (ident before c cs out b n i p rest) h =
    rw (Scans-kept rest h) (take-append-drop n (c ∷ cs))
Scans-kept (no_call before c cs args out b n i e p rest) h =
    rw (Scans-kept rest h) (take-append-drop (n + 1) (c ∷ cs))
Scans-kept (call before c cs args result out b n k f i e p q r rest) h = cc

-- One round: what it writes, whether it is a call, and how the text from its start on is read.
pub record Stepped (d : Driver) (vfs : Registry) (s t : Scan) : Type 0 where
  pub emit : Bytes
  pub flag : Bool
  pub written : t.b ++ t.pending ≡ (s.b ++ s.pending) ++ emit
  pub marks : t.changed ≡ (flag || s.changed)
  pub back :
      (out : Bytes) (b : Bool)
      → Scans d vfs t.before t.rest out b
      → Scans d vfs s.before s.rest (emit ++ out) (flag || b)

abbrev pub Steps : Driver → Registry → Scan → Result Scan → Type 0
Steps d vfs s (ok t) = Stepped d vfs s t
Steps d vfs s (err e) = Unit {0}

advance-Stepped :
    (d : Driver) (vfs : Registry) (n : ℕ) (s : Scan)
    → ((out : Bytes) (b : Bool)
        → Scans d vfs (reverse (take n s.rest) ++ s.before) (drop n s.rest) out b
        → Scans d vfs s.before s.rest (take n s.rest ++ out) b)
    → Stepped d vfs s (advance n s)
unfolding advance
advance-Stepped d vfs n s f = record {
  emit = take n s.rest;
  flag = false;
  written = sym (append_assoc s.b s.pending (take n s.rest));
  marks = refl;
  back = f;
}

replace-Stepped :
    (d : Driver) (vfs : Registry) (n : ℕ) (result : Bytes) (s : Scan)
    → ((out : Bytes) (b : Bool)
        → Scans d vfs (reverse (take n s.rest) ++ s.before) (drop n s.rest) out b
        → Scans d vfs s.before s.rest (result ++ out) true)
    → Stepped d vfs s (replace n result s)
unfolding replace
replace-Stepped d vfs n result s f = record {
  emit = result;
  flag = true;
  written = append-nil (s.b ++ (s.pending ++ result)) ∙ sym (append_assoc s.b s.pending result);
  marks = refl;
  back = f;
}

abbrev pub here : Scan → ℕ → Bytes → Scan
here s c cs = record s { rest = c ∷ cs }

handled-Steps :
    (d : Driver) (vfs : Registry) (n : ℕ) (s : Scan) (r : Result Bytes)
    → ((result : Bytes)
        → r ≡ ok result
        → (out : Bytes) (b : Bool)
        → Scans d vfs (reverse (take n s.rest) ++ s.before) (drop n s.rest) out b
        → Scans d vfs s.before s.rest (result ++ out) true)
    → Steps d vfs s (r >>= λ result. ok (replace n result s))
handled-Steps d vfs n s (err e) f = tt
handled-Steps d vfs n s (ok result) f = replace-Stepped d vfs n result s (f result refl)

call_at-Steps :
    (d : Driver) (vfs : Registry) (n : ℕ) (args : Bytes) (s : Scan) (c : ℕ) (cs : Bytes)
    → IsIdent d s.before c cs n
    → drop n (c ∷ cs) ≡ b'(' ∷ args
    → Steps d vfs (here s c cs) (call_at d vfs n args (here s c cs))
unfolding call_at
call_at-Steps d vfs n args s c cs i e =
    elim (Option-cases (find_handler (to_upper (take n (c ∷ cs))) vfs)) [
      | inl unknown ↦
          rw (unknown, call_at)
            (advance-Stepped d vfs (n + 1) (here s c cs)
              (λ out b. no_call s.before c cs args out b n i e (inl unknown)))
      | inr (f, known) ↦ elim (Option-cases (find_balanced_close args)) [
        | inl unbalanced ↦
            rw (known, call_at)
              (rw (unbalanced, call_at)
                (advance-Stepped d vfs (n + 1) (here s c cs)
                  (λ out b. no_call s.before c cs args out b n i e (inr unbalanced))))
        | inr (k, closed) ↦
            rw (known, call_at)
              (rw (closed, call_at)
                (handled-Steps d vfs (n + 1 + k + 1) (here s c cs) (f d (take k args))
                  (λ result handled out b.
                    call s.before c cs args result out b n k f i e known closed handled)))
      ]
    ]

ident_at-Steps :
    (d : Driver) (vfs : Registry) (n : ℕ) (after : Bytes) (s : Scan) (c : ℕ) (cs : Bytes)
    → IsIdent d s.before c cs n
    → drop n (c ∷ cs) ≡ after
    → Steps d vfs (here s c cs) (ident_at d vfs n after (here s c cs))
unfolding ident_at
ident_at-Steps d vfs n [] s c cs i e =
    advance-Stepped d vfs n (here s c cs) (λ out b. ident s.before c cs out b n i (λ args q. cc))
ident_at-Steps d vfs n (p ∷ args) s c cs i e = elim (Bool-cases (p == b'(')) [
  | inr other ↦
      rw (other, ident_at)
        (advance-Stepped d vfs n (here s c cs)
          (λ out b. ident s.before c cs out b n i (λ args' q. ground (arith, other, e, q))))
  | inl paren ↦
      let opens : p ≡ b'(' = ground (arith, paren) in
      rw (paren, ident_at) (call_at-Steps d vfs n args s c cs i (e ∙ ap (λ q. q ∷ args) opens))
]

pub round-Steps :
    (d : Driver) (vfs : Registry) (s : Scan) (c : ℕ) (cs : Bytes)
    → Steps d vfs (here s c cs) (round d vfs c (here s c cs))
unfolding round
round-Steps d vfs s c cs =
    let j = skip_non_code d s.before (c ∷ cs) false in
    elim (Bool-cases (ltb 0 j)) [
      | inl skipped ↦
          rw (skipped, round)
            (advance-Stepped d vfs j (here s c cs)
              (λ out b. region s.before (c ∷ cs) out b j refl (ltb→lt 0 j skipped)))
      | inr code ↦
          let in_code : j ≡ 0 = ground (arith, code) in
          rw (code, round)
            (elim (Bool-cases (is_passed s.before c)) [
              | inl passed ↦
                  rw (passed, round)
                    (advance-Stepped d vfs 1 (here s c cs)
                      (λ out b. byte s.before c cs out b in_code passed))
              | inr begins ↦
                  rw (begins, round)
                    (ident_at-Steps d vfs (word_run (c ∷ cs)) (drop (word_run (c ∷ cs)) (c ∷ cs)) s
                      c cs (record { in_code = in_code; begins = begins; run_is = refl }) refl)
            ])
    ]

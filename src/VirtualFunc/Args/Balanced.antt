-- ===== src/VirtualFunc/Args/Balanced.antt =====
-- vf.go: `findBalancedClose` and `lastTopLevelComma` against a grammar of balanced texts.
use mathlib.Core.List.{append_assoc}
use native.Mathlib.Numerals.{add-one}
use sequel.Base.{
  ℕ, suc, ◌+◌, ◌-◌, ◌≡◌, refl, ap, ◌∙◌, Bool, true, false, ◌&&◌, ◌||◌, [], ◌∷◌, ◌++◌, Option, none,
  some, arith, ◌==◌, if◌then◌else◌, Bytes, length, length-append, index_byte, Option-cases,
}
use sequel.VirtualFunc.Args.{find_close, find_balanced_close}

abbrev is_quote : ℕ → Bool
is_quote c = c == b'\'' || c == b'"'

abbrev is_paren : ℕ → Bool
is_paren c = c == b'(' || c == b')'

-- Texts whose parentheses are balanced outside the strings in single or double quotes; `top` says
-- whether a comma may stand outside parentheses and strings.
pub data Balanced : Bool → Bytes → Type 0 where
  nil : {top : Bool} → Balanced top []
  byte :
      {top : Bool} {w : Bytes} (c : ℕ)
      → (is_quote c || is_paren c) ≡ false
      → (c == b',' && (if top then false else true)) ≡ false
      → Balanced top w
      → Balanced top (c ∷ w)
  quoted :
      {top : Bool} {w : Bytes} (q : ℕ) (v : Bytes)
      → is_quote q ≡ true
      → index_byte v q ≡ none
      → Balanced top w
      → Balanced top (q ∷ (v ++ (q ∷ w)))
  parens :
      {top : Bool} {v w : Bytes}
      → Balanced true v
      → Balanced top w
      → Balanced top (b'(' ∷ (v ++ (b')' ∷ w)))

-- A distance, seen from `n` bytes before.
abbrev pub shift_by : ℕ → Option ℕ → Option ℕ
shift_by n none = none
shift_by n (some i) = some (n + i)

-- A sum of distances.
shift_by_sum :
    (a b c n : ℕ) (o : Option ℕ)
    → a + b + c ≡ n
    → shift_by a (shift_by b (shift_by c o)) ≡ shift_by n o
shift_by_sum a b c n none h = refl
shift_by_sum a b c n (some i) h = ap some (omega arith)

shift_by_two : (a b n : ℕ) (o : Option ℕ) → a + b ≡ n → shift_by a (shift_by b o) ≡ shift_by n o
shift_by_two a b n none h = refl
shift_by_two a b n (some i) h = ap some (omega arith)

find_close-string :
    (q depth : ℕ) (v w : Bytes)
    → index_byte v q ≡ none
    → find_close (some q) depth (v ++ (q ∷ w)) ≡ shift_by (length v + 1) (find_close none depth w)
unfolding find_close index_byte
find_close-string q depth [] w h = ground (arith, Option-cases (find_close none depth w))
find_close-string q depth (c ∷ cs) w h =
    ground (arith, find_close-string q depth cs w, Option-cases (find_close none depth w))

find_close-quote :
    (q depth : ℕ) (s : Bytes)
    → is_quote q ≡ true
    → find_close none depth (q ∷ s) ≡ shift_by 1 (find_close (some q) depth s)
unfolding find_close
find_close-quote q depth s h = ground (arith, Option-cases (find_close (some q) depth s))

find_close-open :
    (depth : ℕ) (s : Bytes)
    → find_close none (suc depth) (b'(' ∷ s) ≡ shift_by 1 (find_close none (suc (suc depth)) s)
unfolding find_close
find_close-open depth s =
    rw add-one (ground (arith, Option-cases (find_close none (suc (suc depth)) s)))

find_close-shut :
    (n depth : ℕ) (s : Bytes)
    → n - 1 ≡ suc depth
    → find_close none n (b')' ∷ s) ≡ shift_by 1 (find_close none (suc depth) s)
unfolding find_close
find_close-shut n depth s e =
    let less = ap (λ k. find_close none k s) e in
    ground (arith, less, Option-cases (find_close none (suc depth) s))

find_close-Balanced :
    {top : Bool} {u : Bytes} (depth : ℕ) (t : Bytes)
    → Balanced top u
    → find_close none (suc depth) (u ++ t) ≡ shift_by (length u) (find_close none (suc depth) t)
unfolding find_close
find_close-Balanced depth t nil = ground (arith, Option-cases (find_close none (suc depth) t))
find_close-Balanced depth t (byte {w} c h k b) =
    ground (arith, find_close-Balanced depth t b, Option-cases (find_close none (suc depth) t))
find_close-Balanced depth t (quoted {w} q v h k b) =
    let string = find_close-string q (suc depth) v (w ++ t) k in
    let ih = find_close-Balanced depth t b in
    let size = length-append v (q ∷ w) in
    rw append_assoc (
      find_close-quote q (suc depth) (v ++ (q ∷ (w ++ t))) h
      ∙ ap (shift_by 1) (string ∙ ap (shift_by (length v + 1)) ih)
      ∙ shift_by_sum 1 (length v + 1) (length w) (suc (length (v ++ (q ∷ w))))
          (find_close none (suc depth) t) (omega arith))
find_close-Balanced depth t (parens {v} {w} a b) =
    let inner = find_close-Balanced (suc depth) (b')' ∷ (w ++ t)) a in
    let shut = find_close-shut (suc (suc depth)) depth (w ++ t) (omega arith) in
    let ih = find_close-Balanced depth t b in
    let size = length-append v (b')' ∷ w) in
    rw append_assoc (
      find_close-open depth (v ++ (b')' ∷ (w ++ t)))
      ∙ ap (shift_by 1) (inner ∙ ap (shift_by (length v)) (shut ∙ ap (shift_by 1) ih))
      ∙ ap (shift_by 1) (
          shift_by_sum (length v) 1 (length w) (length v + 1 + length w)
            (find_close none (suc depth) t) (omega arith))
      ∙ shift_by_two 1 (length v + 1 + length w) (suc (length (v ++ (b')' ∷ w))))
          (find_close none (suc depth) t) (omega arith))

-- The parenthesis that closes a call is found behind its arguments, whatever balanced text these
-- are: nested calls, and strings that hold parentheses.
pub find_balanced_close-Balanced :
    {args : Bytes} (rest : Bytes)
    → Balanced true args
    → find_balanced_close (args ++ (b')' ∷ rest)) ≡ some (length args)
unfolding find_balanced_close
find_balanced_close-Balanced rest b =
    find_close-Balanced 0 (b')' ∷ rest) b ∙ unfold find_close in ap some (omega arith)

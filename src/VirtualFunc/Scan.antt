-- ===== src/VirtualFunc/Scan.antt =====
-- vf.go: `expandOnce`, one scan of a statement, and `expandVirtualFuncs`, the scans until nothing
-- changes. The scan is on fuel, and the length of the statement is enough: every round consumes a
-- byte. The repetition is on fuel too, and a registered handler may make it run for ever.
pub mod Moves
pub mod Expanded
pub mod Rewritten
pub mod Register
use sequel.Base.{
  ℕ, zero, suc, ◌+◌, ◌≡◌, refl, Bool, true, false, not, ◌||◌, List, [], ◌∷◌, ◌++◌, reverse, Option,
  none, some, ltb, ◌==◌, if◌then◌else◌, Bytes, length, take, drop, is_digit, to_upper, equal,
}
use sequel.Driver.{Driver}
use sequel.Lex.{skip_non_code, is_word_byte, word_run, after_ident}
use sequel.VirtualFunc.Args.{find_balanced_close}

-- What a handler may refuse; `refused` is an error of a handler that a program registers.
pub data Error : Type 0 where
  needs_syntax : Bytes → Error
  unsupported_driver : Driver → Error
  path_member path_unclosed path_index path_malformed path_empty introduced_placeholder : Error
  refused : Bytes → Error

-- The two results of a Go function, of which one is the zero value: an error or a value.
pub data Result {ℓ} (T : Type ℓ) : Type ℓ where
  err : Error → Result T
  ok : T → Result T

infixl 5 ◌>>=◌
-- `if err != nil { return "", err }` in front of what comes next.
abbrev pub ◌>>=◌ {ℓ ℓ'} : {T : Type ℓ} {U : Type ℓ'} → Result T → (T → Result U) → Result U
err e >>= next = err e
ok value >>= next = next value

-- A chain that succeeds has a first value, from which the rest succeeds.
pub ok_of_chain {ℓ ℓ'} :
    {T : Type ℓ} {U : Type ℓ'} (first : Result T) (next : T → Result U) {out : U}
    → (first >>= next) ≡ ok out
    → (value : T) × (first ≡ ok value) × (next value ≡ ok out)
ok_of_chain (err e) next done = cc
ok_of_chain (ok value) next done = (value, refl, done)

-- `virtualFunc.handler`
abbrev pub Handler : Type 0
Handler = Driver → Bytes → Result Bytes

-- The registry: names in upper case. A registration overwrites the entry of its name.
abbrev pub Registry : Type 0
Registry = List (Bytes × Handler)

unfoldable pub find_handler : Bytes → Registry → Option Handler
find_handler name [] = none
find_handler name ((k, h) ∷ vfs) = if equal k name then some h else find_handler name vfs

-- `RegisterVirtualFunc`, its map alone.
unfoldable pub register : Bytes → Handler → Registry → Registry
register name h [] = (to_upper name, h) ∷ []
register name h ((k, g) ∷ vfs) =
    if equal k (to_upper name) then (k, h) ∷ vfs else (k, g) ∷ register name h vfs

-- `unregisterVirtualFunc`, its map alone.
unfoldable pub unregister : Bytes → Registry → Registry
unregister name [] = []
unregister name ((k, g) ∷ vfs) =
    if equal k (to_upper name) then unregister name vfs else (k, g) ∷ unregister name vfs

-- The variables of the loop: query[:i] last first, what is written to `b`, query[last:i] and
-- query[i:].
pub record Scan : Type 0 where
  pub before : Bytes
  pub b : Bytes
  pub pending : Bytes
  pub changed : Bool
  pub rest : Bytes

-- `i += n`
unfoldable pub advance : ℕ → Scan → Scan
advance n s = record s {
  before = reverse (take n s.rest) ++ s.before;
  pending = s.pending ++ take n s.rest;
  rest = drop n s.rest;
}

-- `b.WriteString(query[last:i])`, `b.WriteString(result)`, `i = closePos + 1`, `last = i`; `n` is
-- the distance to the new `i`.
unfoldable pub replace : ℕ → Bytes → Scan → Scan
replace n result s = record s {
  before = reverse (take n s.rest) ++ s.before;
  b = s.b ++ (s.pending ++ result);
  pending = [];
  changed = true;
  rest = drop n s.rest;
}

-- At an identifier of `n` bytes that '(' follows; `args` stands behind the parenthesis.
unfoldable pub call_at : Driver → Registry → ℕ → Bytes → Scan → Result Scan
call_at d vfs n args s = elim (find_handler (to_upper (take n s.rest)) vfs) [
  | none ↦ ok (advance (n + 1) s)
  | some h ↦ elim (find_balanced_close args) [
    | none ↦ ok (advance (n + 1) s)
    | some k ↦ h d (take k args) >>= λ result. ok (replace (n + 1 + k + 1) result s)
  ]
]

-- At the start of an identifier of `n` bytes; `after` is what stands behind it.
unfoldable pub ident_at : Driver → Registry → ℕ → Bytes → Scan → Result Scan
ident_at d vfs n [] s = ok (advance n s)
ident_at d vfs n (p ∷ args) s = if not (p == b'(') then ok (advance n s) else call_at d vfs n args s

-- One round of the loop of `expandOnce`, at a byte `ch`.
unfoldable pub round : Driver → Registry → ℕ → Scan → Result Scan
round d vfs ch s =
    let j = skip_non_code d s.before s.rest false in
    let n = word_run s.rest in
    if ltb 0 j
    then ok (advance j s)
    else if not (is_word_byte ch) || (is_digit ch || after_ident s.before)
    then ok (advance 1 s)
    else ident_at d vfs n (drop n s.rest) s

unfoldable pub scan_from : ℕ → Driver → Registry → Bytes → Scan → Result Scan
scan_from zero d vfs rest s = ok s
scan_from (suc fuel) d vfs [] s = ok s
scan_from (suc fuel) d vfs (ch ∷ cs) s = round d vfs ch s >>= λ s'. scan_from fuel d vfs s'.rest s'

abbrev pub start : Bytes → Scan
start query = record { before = []; b = []; pending = []; changed = false; rest = query }

unfoldable pub expand_once : Driver → Bytes → Registry → Result (Bytes × Bool)
expand_once d query vfs = scan_from (length query) d vfs query (start query) >>= λ s.
    if s.changed then ok (s.b ++ s.pending, true) else ok (query, false)

-- `expandVirtualFuncs` against one snapshot of the registry; none when the fuel ran out.
unfoldable pub expand_virtual_funcs : ℕ → Driver → Registry → Bytes → Option (Result Bytes)
expand_virtual_funcs zero d vfs query = none
expand_virtual_funcs (suc fuel) d vfs query = elim (expand_once d query vfs) [
  | err e ↦ some (err e)
  | ok (next, changed) ↦ elim changed [
    | true ↦ expand_virtual_funcs fuel d vfs next
    | false ↦ some (ok next)
  ]
]

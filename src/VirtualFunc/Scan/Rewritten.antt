-- ===== src/VirtualFunc/Scan/Rewritten.antt =====
-- vf.go: a scan of `expandOnce` to the end of the statement, and the repetition of `expandVirtualFuncs`.
use mathlib.Core.List.{append_assoc, append-nil}
use mathlib.Core.Path.{subst}
use sequel.Base.{
  ℕ, zero, suc, ◌≤◌, ◌≡◌, refl, sym, ap, ◌∙◌, Bool, true, false, ◌||◌, [], ◌∷◌, ◌++◌, some, arith,
  if◌then◌else◌, Bytes, length, length-drop,
}
use sequel.Driver.{Driver}
use sequel.VirtualFunc.Scan.Expanded.{Scans, done, Scans-kept, Stepped, Steps, round-Steps}
use sequel.VirtualFunc.Scan.Moves.{MovesOn, round-MovesOn}
use sequel.VirtualFunc.Scan.{
  Result, ok, err, ok_of_chain, Registry, Scan, round, scan_from, start, expand_once,
  expand_virtual_funcs,
}

-- The rest of the text from a state of the scan to its end.
record Scanned (d : Driver) (vfs : Registry) (s t : Scan) : Type 0 where
  out : Bytes
  flag : Bool
  written : t.b ++ t.pending ≡ (s.b ++ s.pending) ++ out
  marks : t.changed ≡ (flag || s.changed)
  reads : Scans d vfs s.before s.rest out flag

Scanned-end : (d : Driver) (vfs : Registry) (s t : Scan) → s.rest ≡ [] → s ≡ t → Scanned d vfs s t
Scanned-end d vfs s t e h = subst (Scanned d vfs s) h (record {
  out = [];
  flag = false;
  written = sym (append-nil (s.b ++ s.pending));
  marks = refl;
  reads = rw e (done s.before);
})

Scanned-more :
    {d : Driver} {vfs : Registry} {s u t : Scan}
    → Stepped d vfs s u
    → Scanned d vfs u t
    → Scanned d vfs s t
Scanned-more {s = s} {u = u} {t = t} one rest = record {
  out = one.emit ++ rest.out;
  flag = one.flag || rest.flag;
  written =
      rest.written
      ∙ ap (λ w. w ++ rest.out) one.written
      ∙ append_assoc (s.b ++ s.pending) one.emit rest.out;
  marks = ground (arith, one.marks, rest.marks);
  reads = one.back rest.out rest.flag rest.reads;
}

scan_from-Scanned :
    (fuel : ℕ) (d : Driver) (vfs : Registry) (rest : Bytes) (s t : Scan)
    → s.rest ≡ rest
    → length rest ≤ fuel
    → scan_from fuel d vfs rest s ≡ ok t
    → Scanned d vfs s t
unfolding scan_from
scan_from-Scanned zero d vfs [] s t e h q = Scanned-end d vfs s t e cc
scan_from-Scanned zero d vfs (c ∷ cs) s t e h q = absurd (omega arith)
scan_from-Scanned (suc fuel) d vfs [] s t e h q = Scanned-end d vfs s t e cc
scan_from-Scanned (suc fuel) d vfs (c ∷ cs) s t e h q =
    let (u, moved, later) = ok_of_chain (round d vfs c s) (λ u. scan_from fuel d vfs u.rest u) q in
    let (n, m) = subst (MovesOn s) moved (round-MovesOn d vfs c cs s e) in
    let steps : Steps d vfs s (round d vfs c s) =
      subst (λ r. Steps d vfs (record s { rest = r }) (round d vfs c (record s { rest = r })))
        (sym e) (round-Steps d vfs s c cs) in
    let shorter = length-drop n s.rest in
    let size = ap length m.rest_is in
    let whole = ap length e in
    Scanned-more (subst (Steps d vfs s) moved steps)
      (scan_from-Scanned fuel d vfs u.rest u t refl (omega arith) later)

abbrev returned : Bool → Bytes → Bytes → Result (Bytes × Bool)
returned changed w query = if changed then ok (w, true) else ok (query, false)

returned-Scans :
    (d : Driver) (vfs : Registry) (flag changed : Bool) (w query next : Bytes)
    → Scans d vfs [] query w flag
    → returned (flag || false) w query ≡ ok (next, changed)
    → Scans d vfs [] query next changed
returned-Scans d vfs true changed w query next r h =
    let same : w ≡ next = cc in
    let called : true ≡ changed = cc in
    subst (λ x. Scans d vfs [] query x changed) same (subst (Scans d vfs [] query w) called r)
returned-Scans d vfs false changed w query next r h =
    let same : query ≡ next = cc in
    let called : false ≡ changed = cc in
    subst (λ x. Scans d vfs [] query x changed) (Scans-kept r refl ∙ same)
      (subst (Scans d vfs [] query w) called r)

-- What a scan returns is the statement with the result of every call in its place, as the grammar reads it to
-- its end, and it reports a change just where there was a call.
pub expand_once-Scans :
    (d : Driver) (query next : Bytes) (vfs : Registry) (changed : Bool)
    → expand_once d query vfs ≡ ok (next, changed)
    → Scans d vfs [] query next changed
unfolding expand_once
expand_once-Scans d query next vfs changed h =
    let (s, scan, out) =
      ok_of_chain (scan_from (length query) d vfs query (start query))
        (λ s. if s.changed then ok (s.b ++ s.pending, true) else ok (query, false)) h in
    let r = scan_from-Scanned (length query) d vfs query (start query) s refl (omega arith) scan in
    returned-Scans d vfs r.flag changed r.out query next r.reads (
      ap (λ c. returned c r.out query) (sym r.marks)
      ∙ ap (λ w. returned s.changed w query) (sym r.written)
      ∙ out)

-- The scans that a statement takes to its expansion: the last finds no call.
pub data Rewrites (d : Driver) (vfs : Registry) : Bytes → Bytes → Type 0 where
  last : (query : Bytes) → Scans d vfs [] query query false → Rewrites d vfs query query
  next :
      (query scanned out : Bytes)
      → Scans d vfs [] query scanned true
      → Rewrites d vfs scanned out
      → Rewrites d vfs query out

-- A statement that comes out of the expansion is what scans make of it by the grammar, one after the other
-- as long as there is a call, and holds no call itself.
pub expand_virtual_funcs-Rewrites :
    (fuel : ℕ) (d : Driver) (vfs : Registry) (query out : Bytes)
    → expand_virtual_funcs fuel d vfs query ≡ some (ok out)
    → Rewrites d vfs query out
unfolding expand_virtual_funcs
expand_virtual_funcs-Rewrites zero d vfs query out h = cc
expand_virtual_funcs-Rewrites (suc fuel) d vfs query out h =
    go (λ scanned. expand_virtual_funcs-Rewrites fuel d vfs scanned out) (expand_once d query vfs)
      refl
  where
    go :
        ((scanned : Bytes)
          → expand_virtual_funcs fuel d vfs scanned ≡ some (ok out)
          → Rewrites d vfs scanned out)
        → (r : Result (Bytes × Bool)) → expand_once d query vfs ≡ r
        → Rewrites d vfs query out
    go later (err e) p = absurd (ground (arith, p))
    go later (ok (scanned, true)) p =
        next query scanned out (expand_once-Scans d query scanned vfs true p)
          (later scanned (ground (arith, p)))
    go later (ok (scanned, false)) p =
        let same : scanned ≡ out = ground (arith, p) in
        let reads = expand_once-Scans d query scanned vfs false p in
        let kept = Scans-kept reads refl in
        subst (Rewrites d vfs query) same
          (rw kept (last query (subst (λ w. Scans d vfs [] query w false) kept reads)))

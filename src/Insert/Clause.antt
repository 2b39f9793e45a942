-- ===== src/Insert/Clause.antt =====
-- db.go: where injectOutputInserted puts its clause.
use mathlib.Core.Path.{subst}
use sequel.Base.{
  ℕ, zero, suc, ◌<◌, ◌≡◌, refl, true, false, [], ◌∷◌, ◌++◌, Option, none, some, Bytes, codes, take,
  drop, arith,
}
use sequel.Base.Cases.{bool_cases, option_cases}
use sequel.Insert.SourceClause.{IsClause, starts_clause-IsClause, IsClause-starts_clause}
use sequel.Insert.{starts_clause, find_clause, inject_output_inserted}

-- The pattern matches at `i`, and nowhere before.
abbrev FirstMatch : Bytes → Option ℕ → Type 0
FirstMatch s none = (i : ℕ) → starts_clause (drop i s) ≡ false
FirstMatch s (some i) =
    (starts_clause (drop i s) ≡ true) × ((j : ℕ) → j < i → starts_clause (drop j s) ≡ false)

no_clause : (i : ℕ) → starts_clause (drop i []) ≡ false
unfolding starts_clause
no_clause zero = refl
no_clause (suc i) = refl

none_before :
    (c : ℕ) (cs : Bytes) (i : ℕ)
    → starts_clause (c ∷ cs) ≡ false
    → ((j : ℕ) → suc j ≡ i → starts_clause (drop j cs) ≡ false)
    → starts_clause (drop i (c ∷ cs)) ≡ false
none_before c cs zero h f = h
none_before c cs (suc i) h f = f i refl

-- A text without a clause at its start.
later-FirstMatch :
    (c : ℕ) (cs : Bytes) (m : Option ℕ)
    → starts_clause (c ∷ cs) ≡ false
    → FirstMatch cs m
    → FirstMatch (c ∷ cs) (elim m [ none ↦ none | some i ↦ some (suc i) ])
later-FirstMatch c cs none h f = λ i. none_before c cs i h (λ j same. f j)
later-FirstMatch c cs (some i) h f =
    (f.0, λ j less. none_before c cs j h (λ k same. f.1 k (omega (arith, less, same))))

find_clause-FirstMatch : (s : Bytes) → FirstMatch s (find_clause s)
unfolding find_clause
find_clause-FirstMatch [] = λ i. no_clause i
find_clause-FirstMatch (c ∷ cs) =
    bool_cases (FirstMatch (c ∷ cs)) (starts_clause (c ∷ cs))
      (λ here. (here, λ j less. absurd (omega (arith, less))))
      (λ later. later-FirstMatch c cs (find_clause cs) later (find_clause-FirstMatch cs))

-- A source clause stands at `i`, and nowhere before; or nowhere.
abbrev pub FirstAt : Bytes → Option ℕ → Type 0
FirstAt s none = (i : ℕ) → ¬ (IsClause (drop i s))
FirstAt s (some i) = IsClause (drop i s) × ((j : ℕ) → j < i → ¬ (IsClause (drop j s)))

no_match : (s : Bytes) → starts_clause s ≡ false → ¬ (IsClause s)
no_match s h k = absurd (ground (arith, h, IsClause-starts_clause s k))

match-FirstAt : (s : Bytes) (m : Option ℕ) → FirstMatch s m → FirstAt s m
match-FirstAt s none f = λ i. no_match (drop i s) (f i)
match-FirstAt s (some i) f =
    (starts_clause-IsClause (drop i s) f.0, λ j less. no_match (drop j s) (f.1 j less))

found-FirstAt : (s : Bytes) → FirstAt s (find_clause s)
found-FirstAt s = match-FirstAt s (find_clause s) (find_clause-FirstMatch s)

-- The statement with the clause: put just before the first source clause of the statement.
abbrev pub Injected : Bytes → Bytes → Option Bytes → Type 0
Injected stmt col none = FirstAt stmt none
Injected stmt col (some out) =
    (i : ℕ) × FirstAt stmt (some i)
    × (out ≡ take i stmt ++ (codes " OUTPUT INSERTED." ++ (col ++ drop i stmt)))

-- The statement for SQL Server is the given one, with OUTPUT INSERTED and the column put before the first
-- place where there are blanks and VALUES or SELECT, in any letter case and as a whole word; without such a
-- place there is none.
pub inject_output_inserted-Injected :
    (stmt col : Bytes) → Injected stmt col (inject_output_inserted stmt col)
unfolding inject_output_inserted
inject_output_inserted-Injected stmt col =
    option_cases (Injected stmt col) (find_clause stmt)
      (λ missing. subst (FirstAt stmt) missing (found-FirstAt stmt))
      (λ i found. (i, subst (FirstAt stmt) found (found-FirstAt stmt), refl))

-- ===== src/Nullify/RoundTrip.antt =====
-- nullify.go: what is written with Nullify is read back with Nullable.
use sequel.Base.{◌≡◌, refl, sym, ap, ◌∙◌, Bool, true, List, [], ◌∷◌, Option, none, map}
use sequel.Base.Cases.{if_cases}
use sequel.Nullify.{
  Arg, applier, plain, nullify, scan_null, bind, nullable, scan_column, apply_binder,
  apply_bindings,
}

-- A column: the value that is written, and where its pointer points to; or an argument without Apply.
pub data Column (A S : Type 0) : Type 0 where
  column : A → (A → S → S) → Column A S
  other : Column A S

module _ {A : Type 0} (zero_value : A) (same : A → A → Bool) where
  scan_null-nullify :
      ((a b : A) → same a b ≡ true → a ≡ b)
      → (value : A) → (scan_null zero_value same (nullify zero_value same value)).v ≡ value
  unfolding nullify
  scan_null-nullify law value =
      if_cases (λ (m : Option A). (scan_null zero_value same m).v ≡ value) (same value zero_value)
        (λ h. sym (law value zero_value h)) (λ h. refl)

module _ {A S : Type 0} (zero_value : A) (same : A → A → Bool) where
  -- The argument that scans a column that was written with Nullify.
  abbrev pub scanned : Column A S → Arg S
  scanned (column value put) = applier (
      apply_binder (
        scan_column zero_value same (nullify zero_value same value) (nullable zero_value same put)))
  scanned other = plain

  abbrev pub put_all : List (Column A S) → S → S
  put_all [] s = s
  put_all (column value put ∷ cs) s = put_all cs (put value s)
  put_all (other ∷ cs) s = put_all cs s

  -- Values whose equality is decided by `same`, written with Nullify and scanned into Nullable pointers: in their
  -- order, ApplyBindings writes every value where its pointer points to, and fails on none.
  pub apply_bindings-nullify :
      ((a b : A) → same a b ≡ true → a ≡ b)
      → (cs : List (Column A S)) (s : S) → apply_bindings (map scanned cs) s ≡ (put_all cs s, none)
  unfolding apply_bindings apply_binder nullable bind
  apply_bindings-nullify law [] s = refl
  apply_bindings-nullify law (other ∷ cs) s = apply_bindings-nullify law cs s
  apply_bindings-nullify law (column value put ∷ cs) s =
      ap (λ v. apply_bindings (map scanned cs) (put v s))
        (scan_null-nullify zero_value same law value)
      ∙ apply_bindings-nullify law cs (put value s)

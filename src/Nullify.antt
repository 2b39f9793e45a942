-- ===== src/Nullify.antt =====
-- nullify.go: the adapters for columns that may be null. `Null` is that of database/sql: a null is scanned into the zero
-- value, and is not valid. What is bound is a state that the binding functions change.
pub mod RoundTrip
use sequel.Base.{
  ◌≡◌, refl, sym, ap, ◌∙◌, Bool, true, false, List, [], ◌∷◌, Option, none, some, if◌then◌else◌,
  Bool-cases, inl, inr, map,
}
use sequel.Transaction.{Fault}

-- `sql.Null`
pub record Null (A : Type 0) : Type 0 where
  pub v : A
  pub valid : Bool

-- `Binder`, where none is a function that is nil.
pub record Binder (A S : Type 0) : Type 0 where
  pub null : Null A
  pub apply : Option (A → S → S × Option Fault)

-- An argument of `ApplyBindings`: one with a method Apply, or another.
pub data Arg (S : Type 0) : Type 0 where
  applier : (S → S × Option Fault) → Arg S
  plain : Arg S

-- The zero value of a type, and its equality.
module _ {A : Type 0} (zero_value : A) (same : A → A → Bool) where
  -- `Nullify`, none for nil.
  unfoldable pub nullify : A → Option A
  nullify value = if same value zero_value then none else some value

  -- `sql.Null.Scan`
  abbrev pub scan_null : Option A → Null A
  scan_null none = record { v = zero_value; valid = false }
  scan_null (some value) = record { v = value; valid = true }

  -- `Bind`
  unfoldable pub bind : {S : Type 0} → (A → S → S × Option Fault) → Binder A S
  bind binder = record { null = scan_null none; apply = some binder }

  -- `Nullable`, where `put` writes what the pointer points to.
  unfoldable pub nullable : {S : Type 0} → (A → S → S) → Binder A S
  nullable put = bind (λ value s. (put value s, none))

  abbrev pub scan_column : {S : Type 0} → Option A → Binder A S → Binder A S
  scan_column column b = record b { null = scan_null column }

-- `Binder.Apply`
unfoldable pub apply_binder : {A S : Type 0} → Binder A S → S → S × Option Fault
apply_binder b s = elim b.apply [ none ↦ (s, none) | some f ↦ f b.null.v s ]

-- `ApplyBindings`
unfoldable pub apply_bindings : {S : Type 0} → List (Arg S) → S → S × Option Fault
apply_bindings [] s = (s, none)
apply_bindings (plain ∷ args) s = apply_bindings args s
apply_bindings (applier apply ∷ args) s =
    let (t, err) = apply s in elim err [ some e ↦ (t, some e) | none ↦ apply_bindings args t ]

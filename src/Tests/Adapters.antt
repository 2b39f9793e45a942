-- ===== src/Tests/Adapters.antt =====
-- nullify.go and db.go: runs of the adapters for nulls, and of the classification of errors.
use sequel.Base.{
  ℕ, ◌≡◌, refl, Bool, true, false, List, [], ◌∷◌, none, some, codes, ◌==◌, ==_iff, map,
}
use sequel.Driver.{mssql}
use sequel.Errors.{ErrorChain, is_lock_contention_error, is_duplicate_key_error, classifying}
use sequel.Nullify.RoundTrip.{Column, column, other, scanned, apply_bindings-nullify}
use sequel.Nullify.{nullify, apply_bindings}

abbrev equal_numbers : ℕ → ℕ → Bool
equal_numbers a b = a == b

equal_numbers-law : (a b : ℕ) → equal_numbers a b ≡ true → a ≡ b
equal_numbers-law a b h = (==_iff a b).0 h

abbrev columns : List (Column ℕ (List ℕ))
columns = column 0 (λ v s. v ∷ s) ∷ other ∷ column 7 (λ v s. v ∷ s) ∷ []

apply_bindings-nullify_example :
    apply_bindings (map (scanned 0 equal_numbers) columns) [] ≡ (7 ∷ 0 ∷ [], none)
apply_bindings-nullify_example = apply_bindings-nullify 0 equal_numbers equal_numbers-law columns []

nullify_zero : nullify 0 equal_numbers 0 ≡ none
unfolding nullify
nullify_zero = refl

-- A duplicate key of PostgreSQL whose value reads like contention.
abbrev duplicate : ErrorChain
duplicate = record {
  pg = some (record { code = codes "23505"; routine = []; message = [] });
  my_number = none;
  ms_number = none;
  lite_code = none;
  text_of = λ e. codes "duplicate key (restart transaction)";
}

duplicate_run : is_lock_contention_error duplicate ≡ false
unfolding classifying
duplicate_run = refl

text_run : is_lock_contention_error (record duplicate { pg = none }) ≡ true
unfolding classifying
text_run = refl

snapshot_run :
    is_lock_contention_error (record duplicate { pg = none; lite_code = some 517 }) ≡ true
unfolding classifying
snapshot_run = refl

duplicate_key_run :
    is_duplicate_key_error mssql (record duplicate { pg = none; ms_number = some 2601 }) ≡ true
unfolding classifying
duplicate_key_run = refl

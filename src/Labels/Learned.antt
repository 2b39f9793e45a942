-- ===== src/Labels/Learned.antt =====
-- telemetry.go: what `label` reports over any history of statements.
use sequel.Base.{
  equal_refl, ◌≤◌, ◌≡◌, refl, sym, ap, ◌∙◌, true, not, List, [], ◌∷◌, Bytes, arith, length, leb,
  Bool-cases, inl, inr, ◌⊎◌,
}
use sequel.Labels.{OperationLabels, operation_other, operation_label_cap, is_verb, is_known, label}

-- The set after the leading tokens of a history of statements.
abbrev pub label_all : List Bytes → OperationLabels → OperationLabels
label_all [] o = o
label_all (token ∷ tokens) o = label_all tokens (label token o).0

label-le :
    (token : Bytes) (o : OperationLabels)
    → length o.known ≤ operation_label_cap
    → length (label token o).0.known ≤ operation_label_cap
unfolding label
label-le token o h = ground arith

label-known :
    (token v : Bytes) (o : OperationLabels)
    → is_known v o.known ≡ true
    → is_known v (label token o).0.known ≡ true
unfolding label is_known
label-known token v o h = ground arith

label_all-le :
    (tokens : List Bytes) (o : OperationLabels)
    → length o.known ≤ operation_label_cap
    → length (label_all tokens o).known ≤ operation_label_cap
label_all-le [] o h = h
label_all-le (token ∷ tokens) o h = label_all-le tokens (label token o).0 (label-le token o h)

label_all-known :
    (tokens : List Bytes) (v : Bytes) (o : OperationLabels)
    → is_known v o.known ≡ true
    → is_known v (label_all tokens o).known ≡ true
label_all-known [] v o h = h
label_all-known (token ∷ tokens) v o h =
    label_all-known tokens v (label token o).0 (label-known token v o h)

known-label : (v : Bytes) (o : OperationLabels) → is_known v o.known ≡ true → (label v o).1 ≡ v
unfolding label
known-label v o h = rw h refl

known-label_is : (v : Bytes) (o : OperationLabels) → is_known v o.known ≡ true → label v o ≡ (o, v)
unfolding label
known-label_is v o h = rw h refl

-- Whatever statements a process issues, from a set within the cap: the set of verbs stays within the cap,
-- and a verb of the set at the start is still reported as itself.
pub label_all-capped :
    (tokens : List Bytes) (v : Bytes) (o : OperationLabels)
    → length o.known ≤ operation_label_cap
    → is_known v o.known ≡ true
    → (length (label_all tokens o).known ≤ operation_label_cap)
      × ((label v (label_all tokens o)).1 ≡ v)
label_all-capped tokens v o h k =
    (label_all-le tokens o h, known-label v (label_all tokens o) (label_all-known tokens v o k))

-- A token is reported as OTHER or as itself, and in that case it is a verb that the set then holds; the
-- token's next statement changes nothing and is reported alike.
pub label-label :
    (token : Bytes) (o : OperationLabels)
    → (((label token o).1 ≡ operation_other)
        ⊎ (((label token o).1 ≡ token) × (is_known token (label token o).0.known ≡ true)))
      × (label token (label token o).0 ≡ label token o)
unfolding label is_known
label-label token o = elim (Bool-cases (is_known token o.known)) [
  | inl known ↦ reports_itself o (known-label_is token o known) known (known-label_is token o known)
  | inr new ↦ elim (Bool-cases (not (is_verb token))) [
    | inl junk ↦
        let once : label token o ≡ (o, operation_other) = rw (new, label) (rw (junk, label) refl) in
        reports_other o once once
    | inr verb ↦ elim (Bool-cases (leb operation_label_cap (length o.known))) [
      | inl full ↦
          let o' : OperationLabels = record o { cap_exceeded = true } in
          let once : label token o ≡ (o', operation_other) =
            rw (new, label) (rw (verb, label) (rw (full, label) refl)) in
          let again : label token o' ≡ (o', operation_other) =
            rw (new, label) (rw (verb, label) (rw (full, label) refl)) in
          reports_other o' once again
      | inr room ↦
          let o' : OperationLabels = record o { known = token ∷ o.known } in
          let once : label token o ≡ (o', token) =
            rw (new, label) (rw (verb, label) (rw (room, label) refl)) in
          let known : is_known token o'.known ≡ true = rw (equal_refl token) refl in
          reports_itself o' once known (known-label_is token o' known)
    ]
  ]
]
  where
    reports_other :
        (u : OperationLabels)
        → label token o ≡ (u, operation_other)
        → label token u ≡ (u, operation_other)
        → (((label token o).1 ≡ operation_other)
            ⊎ (((label token o).1 ≡ token) × (is_known token (label token o).0.known ≡ true)))
          × (label token (label token o).0 ≡ label token o)
    reports_other u once again =
        (inl (ap (λ p. p.1) once), ap (λ p. label token p.0) once ∙ again ∙ sym once)

    reports_itself :
        (u : OperationLabels)
        → label token o ≡ (u, token)
        → is_known token u.known ≡ true
        → label token u ≡ (u, token)
        → (((label token o).1 ≡ operation_other)
            ⊎ (((label token o).1 ≡ token) × (is_known token (label token o).0.known ≡ true)))
          × (label token (label token o).0 ≡ label token o)
    reports_itself u once known again = (
      inr (ap (λ p. p.1) once, ap (λ p. is_known token p.0.known) once ∙ known),
      ap (λ p. label token p.0) once ∙ again ∙ sym once,
    )

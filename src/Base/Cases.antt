-- ===== src/Base/Cases.antt =====
-- What holds of every branch of a test or of a choice holds of the whole.
use mathlib.Core.Bool.{Bool, true, false}
use mathlib.Core.Option.{Option, none, some}
use mathlib.Core.Path.{◌≡◌, refl}
use sequel.Base.Tests.{if◌then◌else◌}

pub if_intro {ℓ κ} :
    {A : Type ℓ} (P : A → Type κ) (b : Bool) {x y : A} → P x → P y → P (if b then x else y)
if_intro P true p q = p
if_intro P false p q = q

pub if_cases {ℓ κ} :
    {A : Type ℓ} (P : A → Type κ) (b : Bool) {x y : A}
    → (b ≡ true → P x)
    → (b ≡ false → P y)
    → P (if b then x else y)
if_cases P true p q = p refl
if_cases P false p q = q refl

pub option_intro {ℓ κ μ} :
    {A : Type ℓ} {B : Type κ} (P : A → Type μ) (m : Option B) {x : A} {f : B → A}
    → P x
    → ((b : B) → P (f b))
    → P (elim m [ none ↦ x | some b ↦ f b ])
option_intro P none p q = p
option_intro P (some b) p q = q b

pub option_cases {ℓ κ μ} :
    {A : Type ℓ} {B : Type κ} (P : A → Type μ) (m : Option B) {x : A} {f : B → A}
    → (m ≡ none → P x)
    → ((b : B) → m ≡ some b → P (f b))
    → P (elim m [ none ↦ x | some b ↦ f b ])
option_cases P none p q = p refl
option_cases P (some b) p q = q b refl

pub bool_intro {ℓ κ} :
    {A : Type ℓ} (P : A → Type κ) (b : Bool) {x y : A}
    → P x
    → P y
    → P (elim b [ true ↦ x | false ↦ y ])
bool_intro P true p q = p
bool_intro P false p q = q

pub bool_cases {ℓ κ} :
    {A : Type ℓ} (P : A → Type κ) (b : Bool) {x y : A}
    → (b ≡ true → P x)
    → (b ≡ false → P y)
    → P (elim b [ true ↦ x | false ↦ y ])
bool_cases P true p q = p refl
bool_cases P false p q = q refl

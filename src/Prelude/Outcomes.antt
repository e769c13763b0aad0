-- ===== src/Prelude/Outcomes.antt =====
-- Go's `(value, error)` results: a value, or an error.
use mathlib.Core.Path.{◌≡◌, refl}
use mathlib.Core.Logic.{◌⊎◌, inl, inr}
use mathlib.Core.Option.{Option, none, some}
use mathlib.Core.Bool.{Bool, true, false}

pub data Result {ℓ} (E : Type 0) (A : Type ℓ) : Type ℓ where
  err : E → Result E A
  ok : A → Result E A

-- `fmt.Errorf("...: %w", err)`: the error gets a wrapping.
abbrev pub wrap {ℓ} : {E : Type 0} {A : Type ℓ} → (E → E) → Result E A → Result E A
wrap w (err cause) = err (w cause)
wrap w (ok value) = ok value

-- `if failed { return err }`
abbrev pub refuse : {E : Type 0} → Bool → E → Result E (Unit {0})
refuse false cause = ok tt
refuse true cause = err cause

infixl 5 ◌>>=◌
abbrev pub ◌>>=◌ {ℓ κ} :
    {E : Type 0} {A : Type ℓ} {B : Type κ} → Result E A → (A → Result E B) → Result E B
err cause >>= next = err cause
ok value >>= next = next value

pub Result-cases {ℓ} :
    {E : Type 0} {A : Type ℓ} (r : Result E A) → ((e : E) × (r ≡ err e)) ⊎ ((a : A) × (r ≡ ok a))
Result-cases (ok value) = inr (value, refl)
Result-cases (err cause) = inl (cause, refl)

-- One check after another.
infixl 5 ◌>>◌
abbrev pub ◌>>◌ {ℓ} : {E : Type 0} {B : Type ℓ} → Result E (Unit {0}) → Result E B → Result E B
check >> rest = check >>= λ _. rest

pub ok-injective {ℓ} :
    {E : Type 0} {A : Type ℓ} {a b : A} → ◌≡◌ {A = Result E A} (ok a) (ok b) → a ≡ b
ok-injective same = cc

-- A chain that succeeds: its first step did.
pub >>=-eq-ok {ℓ κ} :
    {E : Type 0} {A : Type ℓ} {B : Type κ} (r : Result E A) (next : A → Result E B) {b : B}
    → (r >>= next) ≡ ok b
    → (a : A) × (r ≡ ok a) × (next a ≡ ok b)
>>=-eq-ok (err cause) next succeeds = cc
>>=-eq-ok (ok value) next succeeds = (value, refl, succeeds)

pub refuse-eq-ok {ℓ} :
    {E : Type 0} {B : Type ℓ} (t : Bool) (e : E) (rest : Result E B) {b : B}
    → (refuse t e >> rest) ≡ ok b
    → (t ≡ false) × (rest ≡ ok b)
refuse-eq-ok false e rest succeeds = (refl, succeeds)
refuse-eq-ok true e rest succeeds = cc

pub Option-cases {ℓ} : {A : Type ℓ} (o : Option A) → (o ≡ none) ⊎ ((a : A) × (o ≡ some a))
Option-cases (some value) = inr (value, refl)
Option-cases none = inl refl

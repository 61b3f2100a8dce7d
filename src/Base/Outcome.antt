-- ===== src/Base/Outcome.antt =====
-- A computation that may throw: its value, or the error.
use mathlib.Core.Path.{◌≡◌, refl}
use mathlib.Core.Bool.{Bool, true, false}
use mathlib.Core.Logic.{◌⊎◌, inl, inr}

pub data Result {ℓ κ} (Thrown : Type ℓ) (Value : Type κ) : Type (ℓ ⊔ κ) where
  err : Thrown → Result Thrown Value
  ok : Value → Result Thrown Value

-- The value, or a given one after an error.
abbrev pub recover {ℓ κ} : {E : Type ℓ} {A : Type κ} → Result E A → A → A
recover (err thrown) default = default
recover (ok value) default = value

infixl 5 ◌>>=◌
abbrev pub ◌>>=◌ {ℓ κ μ} :
    {Thrown : Type ℓ} {Value : Type κ} {Next : Type μ}
    → Result Thrown Value
    → (Value → Result Thrown Next)
    → Result Thrown Next
err thrown >>= next = err thrown
ok value >>= next = next value

-- Inversion of a bind that returned.
pub >>=-eq-ok {ℓ κ μ} :
    {E : Type ℓ} {A : Type κ} {B : Type μ} (m : Result E A) (f : A → Result E B) {result : B}
    → (m >>= f) ≡ ok result
    → (mid : A) × (m ≡ ok mid) × (f mid ≡ ok result)
>>=-eq-ok (err e) f returned = cc
>>=-eq-ok (ok v) f returned = (v, refl, returned)

abbrev pub failed {ℓ κ} : {E : Type ℓ} {A : Type κ} → Result E A → Bool
failed (err e) = true
failed (ok v) = false

-- A chain fails if its first part does, or if the rest does on every value.
pub failed_bind {ℓ κ μ} :
    {E : Type ℓ} {A : Type κ} {B : Type μ} (m : Result E A) (f : A → Result E B)
    → failed m ≡ true
    → failed (m >>= f) ≡ true
failed_bind (err e) f h = refl
failed_bind (ok v) f h = cc

pub failed_then {ℓ κ μ} :
    {E : Type ℓ} {A : Type κ} {B : Type μ} (m : Result E A) (f : A → Result E B)
    → ((v : A) → failed (f v) ≡ true)
    → failed (m >>= f) ≡ true
failed_then (err e) f h = refl
failed_then (ok v) f h = h v

pub ok_inj {ℓ κ} : {E : Type ℓ} {A : Type κ} {a b : A} → ◌≡◌ {A = Result E A} (ok a) (ok b) → a ≡ b
ok_inj h = cc

pub Result-cases {ℓ κ} :
    {E : Type ℓ} {A : Type κ} (r : Result E A) → ((e : E) × (r ≡ err e)) ⊎ ((a : A) × (r ≡ ok a))
Result-cases (err e) = inl (e, refl)
Result-cases (ok a) = inr (a, refl)

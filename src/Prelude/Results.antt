-- ===== src/Prelude/Results.antt =====
-- Error paths as values: a C++ function that throws, or that returns an error status.
use mathlib.Core.Path.{◌≡◌, refl}
use mathlib.Core.Logic.{◌⊎◌, inl, inr}

pub data Result {ℓ κ} (E : Type ℓ) (A : Type κ) : Type (ℓ ⊔ κ) where
  err : E → Result E A
  ok : A → Result E A

-- The rest of the function, unless an error ended it.
abbrev pub ◌>>=◌ {ℓ κ μ} :
    {Err : Type ℓ} {X : Type κ} {Y : Type μ} → Result Err X → (X → Result Err Y) → Result Err Y
err why >>= rest = err why
ok x >>= rest = rest x

infixl 5 ◌>>=◌
-- Where the result of a chain came from.
pub >>=-eq-err {ℓ κ μ} :
    {Err : Type ℓ} {X : Type κ} {Y : Type μ} (first : Result Err X) (rest : X → Result Err Y)
    {why : Err}
    → (first >>= rest ≡ err why)
    → (first ≡ err why) ⊎ ((x : X) × (first ≡ ok x) × (rest x ≡ err why))
>>=-eq-err (err e) rest same = inl (cc)
>>=-eq-err (ok x) rest same = inr (x, refl, same)

pub >>=-eq-ok {ℓ κ μ} :
    {Err : Type ℓ} {X : Type κ} {Y : Type μ} (first : Result Err X) (rest : X → Result Err Y)
    {y : Y}
    → (first >>= rest ≡ ok y)
    → (x : X) × (first ≡ ok x) × (rest x ≡ ok y)
>>=-eq-ok (err e) rest same = cc
>>=-eq-ok (ok x) rest same = (x, refl, same)

pub Result-cases {ℓ κ} :
    {E : Type ℓ} {A : Type κ} (r : Result E A) → ((e : E) × (r ≡ err e)) ⊎ ((a : A) × (r ≡ ok a))
Result-cases (err e) = inl (e, refl)
Result-cases (ok a) = inr (a, refl)

pub ok-injective {ℓ κ} :
    {E : Type ℓ} {A : Type κ} {a b : A} → ◌≡◌ {A = Result E A} (ok a) (ok b) → a ≡ b
ok-injective e = cc e

pub err-injective {ℓ κ} :
    {E : Type ℓ} {A : Type κ} {a b : E} → ◌≡◌ {A = Result E A} (err a) (err b) → a ≡ b
err-injective e = cc e

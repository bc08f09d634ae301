-- ===== src/Prelude/Exec.antt =====
-- What running a piece of C code on memory can come to, as a monad.
use mathlib.Core.Path.{◌≡◌, refl, ap}
use mathlib.Core.Bool.{Bool, true, false}

-- `returned` is a normal end; `asserted` is a failing `assert`; `fault` is an access that C leaves
-- undefined; `no_fuel` says that a loop had more rounds than the fuel given to it.
pub data Exec {ℓ} (A : Type ℓ) : Type ℓ where
  returned : A → Exec A
  asserted : Exec A
  fault : Exec A
  no_fuel : Exec A

infixl 5 ◌>>=◌ ◌>>◌
abbrev pub ◌>>=◌ {ℓ κ} : {A : Type ℓ} {B : Type κ} → Exec A → (A → Exec B) → Exec B
returned a >>= f = f a
asserted >>= f = asserted
fault >>= f = fault
no_fuel >>= f = no_fuel

abbrev pub ◌>>◌ {ℓ} : {B : Type ℓ} → Exec (Unit {0}) → Exec B → Exec B
m >> k = m >>= λ _. k

-- assert(test)
abbrev pub assert : Bool → Exec (Unit {0})
assert true = returned tt
assert false = asserted

abbrev value_or {ℓ} : {A : Type ℓ} → A → Exec A → A
value_or d (returned a) = a
value_or d _ = d

pub returned-injective {ℓ} : {A : Type ℓ} {a b : A} → returned a ≡ returned b → a ≡ b
returned-injective {a} e = ap (value_or a) e

-- Inversion of a bind that returned.
pub >>=-eq-returned {ℓ κ} :
    {A : Type ℓ} {B : Type κ} (m : Exec A) (f : A → Exec B) {b : B}
    → (m >>= f) ≡ returned b
    → (a : A) × (m ≡ returned a) × (f a ≡ returned b)
>>=-eq-returned (returned a) f e = (a, refl, e)
>>=-eq-returned asserted f e = cc
>>=-eq-returned fault f e = cc
>>=-eq-returned no_fuel f e = cc

-- ===== src/Prelude/Results.antt =====
-- Exceptions as values.
use mathlib.Core.Path.{◌≡◌, refl}
use mathlib.Core.Bool.{Bool, true, false}

pub data Result {ℓ κ} (E : Type ℓ) (A : Type κ) : Type (ℓ ⊔ κ) where
  ok : A → Result E A
  err : E → Result E A

infixl 5 ◌>>=◌ ◌>>◌
abbrev pub ◌>>=◌ {ℓ κ μ} :
    {E : Type ℓ} {A : Type κ} {B : Type μ} → Result E A → (A → Result E B) → Result E B
err e >>= next = err e
ok found >>= next = next found

abbrev pub ◌>>◌ {ℓ μ} : {E : Type ℓ} {B : Type μ} → Result E (Unit {0}) → Result E B → Result E B
m >> k = m >>= λ _. k

-- `if b: raise e`
abbrev pub raise_if {ℓ} : {E : Type ℓ} → Bool → E → Result E (Unit {0})
raise_if true e = err e
raise_if false e = ok tt

-- Inversion of a successful block, for proofs where the parts stay shut.
module _ {ℓ κ μ} {E : Type ℓ} {A : Type κ} {B : Type μ} where
  pub >>=-eq-ok :
      (m : Result E A) (next : A → Result E B) {result : B}
      → (m >>= next) ≡ ok result
      → (found : A) × (m ≡ ok found) × (next found ≡ ok result)
  >>=-eq-ok (err e) next success = cc
  >>=-eq-ok (ok found) next success = (found, refl, success)

pub raise_if-eq-ok {ℓ μ} :
    {E : Type ℓ} {B : Type μ} (c : Bool) (e : E) (k : Result E B) {result : B}
    → (raise_if c e >> k) ≡ ok result
    → (c ≡ false) × (k ≡ ok result)
raise_if-eq-ok true e k success = cc
raise_if-eq-ok false e k success = (refl, success)

-- ===== src/Prelude/Triple.antt =====
-- Postconditions of code that returns, by its parts.
use mathlib.Core.Path.{◌≡◌, refl}
use oukitel_rt7_linux.Prelude.Results.{Result, ok, err}
use oukitel_rt7_linux.Prelude.Exec.{Exec, ◌>>=◌, continue}

-- From a state with `P`, a result of `m` and the state with it have `Q`.
pub record Triple {ℓ κ} {E S A : Type ℓ} (P : S → Type κ) (m : Exec E S A) (Q : A → S → Type κ)
    : Type (ℓ ⊔ κ) where
  pub holds : (w : S) → P w → (result : A) → (m w).0 ≡ ok result → Q result (m w).1

module _ {ℓ κ} {E S A B : Type ℓ} (P : S → Type κ) (R : A → S → Type κ) (Q : B → S → Type κ) where
  Triple-continue :
      (r : Result E A) (next : A → Exec E S B) (w : S)
      → ((a : A) → r ≡ ok a → R a w)
      → ((a : A) → Triple (R a) (next a) Q)
      → (result : B) → (continue r next w).0 ≡ ok result
      → Q result (continue r next w).1
  Triple-continue (ok a) next w reached rest result h = (rest a).holds w (reached a refl) result h
  Triple-continue (err e) next w reached rest result h = cc

  pub Triple-bind :
      (m : Exec E S A) (next : A → Exec E S B)
      → Triple P m R
      → ((a : A) → Triple (R a) (next a) Q)
      → Triple P (m >>= next) Q
  unfolding ◌>>=◌
  Triple-bind m next first rest = record {
    holds = λ w p result h.
        Triple-continue (m w).0 next (m w).1 (λ a e. first.holds w p a e) rest result h;
  }

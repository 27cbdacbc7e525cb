-- ===== src/Prelude/Raises.antt =====
-- What code that changes a state may raise, by its parts.
use mathlib.Core.Path.{◌≡◌, refl, ap}
use oukitel_rt7_linux.Prelude.Results.{Result, ok, err}
use oukitel_rt7_linux.Prelude.Exec.{Exec, ◌>>=◌, continue, pure, gets}

-- From a state, an exception of `m` has `P`.
pub record Raises {ℓ κ} {E S A : Type ℓ} (P : E → Type κ) (m : Exec E S A) (w : S)
    : Type (ℓ ⊔ κ) where
  pub raised : (e : E) → (m w).0 ≡ err e → P e

module _ {ℓ κ} {E S A B : Type ℓ} (P : E → Type κ) where
  Raises-continue :
      (r : Result E A) (next : A → Exec E S B) (w : S)
      → ((e : E) → r ≡ err e → P e)
      → ((a : A) → r ≡ ok a → Raises P (next a) w)
      → (e : E) → (continue r next w).0 ≡ err e
      → P e
  Raises-continue (ok a) next w first rest e h = (rest a refl).raised e h
  Raises-continue (err x) next w first rest e h = let same : x ≡ e = cc in first e (ap err same)

  pub Raises-bind :
      (m : Exec E S A) (next : A → Exec E S B) (w : S)
      → Raises P m w
      → ((a : A) → (m w).0 ≡ ok a → Raises P (next a) (m w).1)
      → Raises P (m >>= next) w
  unfolding ◌>>=◌
  Raises-bind m next w first rest = record {
    raised = λ e h. Raises-continue (m w).0 next (m w).1 first.raised rest e h;
  }

module _ {ℓ κ} {E S A : Type ℓ} (P : E → Type κ) where
  pub Raises-pure : (a : A) (w : S) → Raises P (pure a) w
  Raises-pure a w = record { raised = λ e h. cc }

  pub Raises-gets : (f : S → A) (w : S) → Raises P (gets f) w
  Raises-gets f w = record { raised = λ e h. cc }

-- ===== src/Prelude/Exec.antt =====
-- Code that changes a state and may raise. What was written before a raise stays written, so the
-- state comes back beside the exception too.
use mathlib.Core.Path.{◌≡◌, refl}
use oukitel_rt7_linux.Prelude.Results.{Result, ok, err}

abbrev pub Exec {ℓ} : Type ℓ → Type ℓ → Type ℓ → Type ℓ
Exec E S A = S → Result E A × S

module _ {ℓ} {E S A : Type ℓ} where
  abbrev pub pure : A → Exec E S A
  pure a s = (ok a, s)

  abbrev pub raise : E → Exec E S A
  raise e s = (err e, s)

  abbrev pub lift : Result E A → Exec E S A
  lift r s = (r, s)

  abbrev pub gets : (S → A) → Exec E S A
  gets f s = (ok (f s), s)

  abbrev recover : Result E A → (E → Exec E S A) → Exec E S A
  recover (ok a) handler s = (ok a, s)
  recover (err e) handler s = handler e s

  -- `try: m except: handler`
  unfoldable pub catch : Exec E S A → (E → Exec E S A) → Exec E S A
  catch m handler s = let (r, s') = m s in recover r handler s'

  -- The outcome of `m` as a value, for a handler that follows.
  abbrev pub attempt : Exec E S A → Exec E S (Result E A)
  attempt m s = let (r, s') = m s in (ok r, s')

module _ {ℓ} {E S A B : Type ℓ} where
  abbrev pub continue : Result E A → (A → Exec E S B) → Exec E S B
  continue (ok a) f s = f a s
  continue (err e) f s = (err e, s)

  infixl 5 ◌>>=◌ ◌>>◌
  unfoldable pub ◌>>=◌ : Exec E S A → (A → Exec E S B) → Exec E S B
  ◌>>=◌ m f s = let (r, s') = m s in continue r f s'

  abbrev pub ◌>>◌ : Exec E S A → Exec E S B → Exec E S B
  m >> n = m >>= λ _. n

-- Inversion of a block that returns.
module _ {ℓ} {E S A B : Type ℓ} where
  continue-returns :
      (r : Result E A) (next : A → Exec E S B) (w : S) {result : B}
      → (continue r next w).0 ≡ ok result
      → (found : A) × (r ≡ ok found) × ((next found w).0 ≡ ok result)
  continue-returns (ok found) next w h = (found, refl, h)
  continue-returns (err e) next w h = cc

  pub >>=-returns :
      (m : Exec E S A) (next : A → Exec E S B) (w : S) {result : B}
      → ((m >>= next) w).0 ≡ ok result
      → (found : A) × ((m w).0 ≡ ok found) × ((next found (m w).1).0 ≡ ok result)
  unfolding ◌>>=◌
  >>=-returns m next w h = continue-returns (m w).0 next (m w).1 h

-- Whether `m` returns or raises, the state that it leaves has `P` if the one before had it.
pub record Keeps {ℓ κ} {E S A : Type ℓ} (P : S → Type κ) (m : Exec E S A) : Type (ℓ ⊔ κ) where
  pub keeps : (before : S) → P before → P (m before).1

module _ {ℓ κ} {E S : Type ℓ} (P : S → Type κ) where
  module _ {A : Type ℓ} where
    pub Keeps-pure : (a : A) → Keeps {E = E} P (pure a)
    Keeps-pure a = record { keeps = λ w p. p }

    pub Keeps-raise : (e : E) → Keeps {A = A} P (raise e)
    Keeps-raise e = record { keeps = λ w p. p }

    pub Keeps-attempt : (m : Exec E S A) → Keeps P m → Keeps P (attempt m)
    Keeps-attempt m kept = record { keeps = kept.keeps }

    pub Keeps-catch :
        (m : Exec E S A) (handler : E → Exec E S A)
        → Keeps P m
        → ((e : E) → Keeps P (handler e))
        → Keeps P (catch m handler)
    unfolding catch
    Keeps-catch m handler kept recovers = record {
      keeps = λ w p. let (r, w') = m w in after r w' (kept.keeps w p);
    }
      where
        after : (r : Result E A) (w : S) → P w → P (recover r handler w).1
        after (ok a) w p = p
        after (err e) w p = (recovers e).keeps w p

  module _ {A B : Type ℓ} where
    Keeps-continue :
        (r : Result E A) (next : A → Exec E S B)
        → ((a : A) → Keeps P (next a))
        → (w : S) → P w
        → P (continue r next w).1
    Keeps-continue (ok a) next more w p = (more a).keeps w p
    Keeps-continue (err e) next more w p = p

    pub Keeps-bind :
        (first : Exec E S A) (next : A → Exec E S B)
        → Keeps P first
        → ((a : A) → Keeps P (next a))
        → Keeps P (first >>= next)
    unfolding ◌>>=◌
    Keeps-bind first next kept more = record {
      keeps = λ w p. let (r, w') = first w in Keeps-continue r next more w' (kept.keeps w p);
    }

-- ===== src/Python/Dict.antt =====
-- `dict` as its entries in insertion order.
pub mod Same
use oukitel_rt7_linux.Prelude.{
  ◌≡◌, refl, Bool, true, false, ◌&&◌, ◌||◌, Option, none, some, List, [], ◌∷◌, ◌++◌, arith, length,
  Eq, ◌==◌, nat_eq, contains, if◌then◌else◌, eq_refl, append_assoc,
}

abbrev pub Dict {ℓ κ} : Type ℓ → Type κ → Type (ℓ ⊔ κ)
Dict K V = List (K × V)

unfoldable pub keys {ℓ κ} : {K : Type ℓ} {V : Type κ} → Dict K V → List K
keys [] = []
keys ((k, v) ∷ d) = k ∷ keys d

module _ {ℓ κ} {K : Type ℓ} {V : Type κ} ⦃e : Eq K⦄ where
  -- `d.get(k)`
  unfoldable pub lookup : K → Dict K V → Option V
  lookup k [] = none
  lookup k ((j, v) ∷ d) = if e.beq k j then some v else lookup k d

  -- `d[k] = v`
  unfoldable pub insert : K → V → Dict K V → Dict K V
  insert k v [] = (k, v) ∷ []
  insert k v ((j, w) ∷ d) = if e.beq k j then (j, v) ∷ d else (j, w) ∷ insert k v d

  abbrev pub NodupKeys : Dict K V → Type 0
  NodupKeys [] = Unit
  NodupKeys ((k, _) ∷ d) = (contains (keys d) k ≡ false) × NodupKeys d

  module _ ⦃f : Eq V⦄ where
    abbrev has_entry : K → V → Option V → Bool
    has_entry k v none = false
    has_entry k v (some w) = f.beq v w

    unfoldable pub is_subdict : Dict K V → Dict K V → Bool
    is_subdict [] b = true
    is_subdict ((k, v) ∷ a) b = has_entry k v (lookup k b) && is_subdict a b

    -- `a == b`: the same keys with the same values, in any order.
    unfoldable pub dict_beq : Dict K V → Dict K V → Bool
    unfolding is_subdict
    dict_beq a b = (length a == length b) && is_subdict a b

  -- The keys that stand before a new entry are the old ones.
  pub contains-append :
      (d : Dict K V) (k j : K) (v : V)
      → contains (keys (d ++ (k, v) ∷ [])) j ≡ (contains (keys d) j || e.beq j k)
  unfolding keys contains
  contains-append [] k j v = ground arith
  contains-append ((i, w) ∷ d) k j v = ground (arith, contains-append d k j v)

  pub NodupKeys-append :
      (d : Dict K V) (k : K) (v : V)
      → NodupKeys d
      → contains (keys d) k ≡ false
      → NodupKeys (d ++ (k, v) ∷ [])
  unfolding keys contains
  NodupKeys-append [] k v n c = (refl, tt)
  NodupKeys-append ((i, w) ∷ d) k v n c =
      ground
        (arith, NodupKeys-append d k v n.1, contains-append d k i v, e.beq_iff k i, e.beq_iff i k)

  contains_middle :
      (d rest : Dict K V) (k : K) (v : V) (j : K)
      → contains (keys (d ++ ((k, v) ∷ rest))) j ≡ false
      → e.beq j k ≡ false
  unfolding keys contains
  contains_middle [] rest k v j h = ground arith
  contains_middle ((i, w) ∷ d) rest k v j h = ground (arith, contains_middle d rest k v j)

  -- A key cannot stand before itself.
  pub contains-middle :
      (d rest : Dict K V) (k : K) (v : V)
      → NodupKeys (d ++ ((k, v) ∷ rest))
      → contains (keys d) k ≡ false
  unfolding keys contains
  contains-middle [] rest k v n = refl
  contains-middle ((i, w) ∷ d) rest k v n = ground (
    arith,
    contains-middle d rest k v n.1,
    contains_middle d rest k v i,
    e.beq_iff k i,
    e.beq_iff i k,
  )

module _ {ℓ κ} {K : Type ℓ} {V : Type κ} ⦃e : Eq K⦄ where
  pub lookup-insert :
      (j k : K) (v : V) (d : Dict K V)
      → lookup j (insert k v d) ≡ (if e.beq j k then some v else lookup j d)
  unfolding lookup insert
  lookup-insert j k v [] = refl
  lookup-insert j k v ((i, w) ∷ d) =
      ground (arith, lookup-insert j k v d, e.beq_iff j i, e.beq_iff k i, e.beq_iff j k)

module _ {ℓ κ} {K : Type ℓ} {V : Type κ} ⦃e : Eq K⦄ ⦃f : Eq V⦄ where
  lookup-middle :
      (d rest : Dict K V) (k : K) (v : V)
      → contains (keys d) k ≡ false
      → lookup k (d ++ ((k, v) ∷ rest)) ≡ some v
  unfolding keys contains lookup
  lookup-middle [] rest k v h = rw (eq_refl k)
  lookup-middle ((j, w) ∷ d) rest k v h = ground (arith, lookup-middle d rest k v)

  is_subdict-append : (a b : Dict K V) → NodupKeys (a ++ b) → is_subdict b (a ++ b) ≡ true
  unfolding is_subdict
  is_subdict-append a [] n = refl
  is_subdict-append a ((k, v) ∷ b) n = rw (lookup-middle a b k v (contains-middle a b k v n)) (
      rw (eq_refl v) (
        rw (append_assoc a ((k, v) ∷ []) b) at
          (is_subdict-append (a ++ (k, v) ∷ []) b (rw (append_assoc a ((k, v) ∷ []) b) n))))

  pub dict_beq_refl : (d : Dict K V) → NodupKeys d → dict_beq d d ≡ true
  unfolding dict_beq
  dict_beq_refl d n = rw (is_subdict-append [] d n) (ground arith)

-- ===== src/Python/Dict/Same.antt =====
-- `==` of two `dict`s against the values that they give for each key.
use oukitel_rt7_linux.Prelude.{
  suc, ◌≡◌, ◌≤◌, ◌↔◌, refl, sym, ap, true, false, Option, none, some, [], ◌∷◌, arith, length, Eq,
  nat_eq, contains, if◌then◌else◌, eq_refl, Bool-cases, inl, inr,
}
use oukitel_rt7_linux.Python.Dict.{Dict, keys, lookup, NodupKeys, has_entry, is_subdict, dict_beq}

module _ {ℓ κ} {K : Type ℓ} {V : Type κ} ⦃e : Eq K⦄ where
  -- The entries without the first one of a key.
  unfoldable remove : K → Dict K V → Dict K V
  remove k [] = []
  remove k ((j, v) ∷ d) = if e.beq k j then d else (j, v) ∷ remove k d

  lookup_absent : (k : K) (d : Dict K V) → contains (keys d) k ≡ false → lookup k d ≡ none
  unfolding keys contains lookup
  lookup_absent k [] h = refl
  lookup_absent k ((j, v) ∷ d) h = ground (arith, lookup_absent k d)

  contains-remove :
      (i k : K) (d : Dict K V)
      → contains (keys d) i ≡ false
      → contains (keys (remove k d)) i ≡ false
  unfolding keys contains remove
  contains-remove i k [] h = refl
  contains-remove i k ((j, v) ∷ d) h = ground (arith, contains-remove i k d)

  NodupKeys-remove : (k : K) (d : Dict K V) → NodupKeys d → NodupKeys (remove k d)
  unfolding remove
  NodupKeys-remove k [] n = tt
  NodupKeys-remove k ((j, v) ∷ d) n = elim (Bool-cases (e.beq k j)) [
    | inl same ↦ rw same n.1
    | inr other ↦ rw other (contains-remove j k d n.0, NodupKeys-remove k d n.1)
  ]

  lookup-remove :
      (j k : K) (d : Dict K V)
      → NodupKeys d
      → lookup j (remove k d) ≡ (if e.beq j k then none else lookup j d)
  unfolding lookup remove
  lookup-remove j k [] n = ground arith
  lookup-remove j k ((i, v) ∷ d) n = ground (
    arith,
    lookup-remove j k d n.1,
    lookup_absent i d n.0,
    e.beq_iff j i,
    e.beq_iff k i,
    e.beq_iff j k,
  )

  length-remove :
      (k : K) (v : V) (d : Dict K V) → lookup k d ≡ some v → length d ≡ suc (length (remove k d))
  unfolding lookup remove
  length-remove k v [] h = cc
  length-remove k v ((j, w) ∷ d) h = elim (Bool-cases (e.beq k j)) [
    | inl same ↦ rw same refl
    | inr other ↦ rw other (ap suc (length-remove k v d (rw other at h)))
  ]

module _ {ℓ κ} {K : Type ℓ} {V : Type κ} ⦃e : Eq K⦄ ⦃f : Eq V⦄ where
  has_entry_iff : (k : K) (v : V) (o : Option V) → (has_entry k v o ≡ true) ↔ (o ≡ some v)
  has_entry_iff k v none = (λ h. cc, λ h. cc)
  has_entry_iff k v (some w) =
      (λ h. ap some (sym ((f.beq_iff v w).0 h)), λ h. (f.beq_iff v w).1 (sym (ground arith)))

  first_entry :
      (k : K) (v : V) (a b : Dict K V)
      → is_subdict ((k, v) ∷ a) b ≡ true
      → (lookup k b ≡ some v) × (is_subdict a b ≡ true)
  unfolding is_subdict
  first_entry k v a b h = ((has_entry_iff k v (lookup k b)).0 (ground arith), ground arith)

  is_subdict-remove :
      (k : K) (a b : Dict K V)
      → NodupKeys b
      → contains (keys a) k ≡ false
      → is_subdict a b ≡ true
      → is_subdict a (remove k b) ≡ true
  unfolding is_subdict keys contains
  is_subdict-remove k [] b n c h = refl
  is_subdict-remove k ((j, v) ∷ a) b n c h =
      let other : e.beq j k ≡ false = ground (arith, e.beq_iff j k, e.beq_iff k j) in
      let rest = is_subdict-remove k a b n (ground arith) (ground arith) in
      rw (lookup-remove j k b n) (rw other (ground arith))

  -- A `dict` of as many entries that holds all those of another gives the same for each key.
  is_subdict-lookup :
      (a b : Dict K V)
      → NodupKeys a
      → NodupKeys b
      → length a ≡ length b
      → is_subdict a b ≡ true
      → (j : K) → lookup j a ≡ lookup j b
  unfolding lookup
  is_subdict-lookup [] [] n m l h j = refl
  is_subdict-lookup [] (entry ∷ b) n m l h j = absurd (omega arith)
  is_subdict-lookup ((k, v) ∷ a) b n m l h j =
      let (there, sub) = first_entry k v a b h in
      let shorter = length-remove k v b there in
      let rest =
        is_subdict-lookup a (remove k b) n.1 (NodupKeys-remove k b m) (omega arith)
          (is_subdict-remove k a b m n.0 sub) j in
      let without = lookup-remove j k b m in ground (arith, e.beq_iff j k)

  length-is_subdict :
      (a b : Dict K V) → NodupKeys a → NodupKeys b → is_subdict a b ≡ true → length a ≤ length b
  length-is_subdict [] b n m h = omega arith
  length-is_subdict ((k, v) ∷ a) b n m h =
      let (there, sub) = first_entry k v a b h in
      let shorter = length-remove k v b there in
      let rest =
        length-is_subdict a (remove k b) n.1 (NodupKeys-remove k b m)
          (is_subdict-remove k a b m n.0 sub) in
      omega arith

  lookup-is_subdict :
      (a b : Dict K V)
      → NodupKeys a
      → ((j : K) → contains (keys a) j ≡ true → lookup j a ≡ lookup j b)
      → is_subdict a b ≡ true
  unfolding is_subdict keys contains lookup
  lookup-is_subdict [] b n h = refl
  lookup-is_subdict ((k, v) ∷ a) b n h =
      let first : some v ≡ lookup k b = rw (eq_refl k) at (h k (rw (eq_refl k) refl)) in
      let rest : is_subdict a b ≡ true = lookup-is_subdict a b n.1 (λ j c.
        let other : e.beq j k ≡ false = ground (arith, e.beq_iff j k) in
        rw other at (h j (rw other c))) in
      rw ((has_entry_iff k v (lookup k b)).1 (sym first)) rest

  -- Two `dict`s are equal exactly if they give the same for each key.
  pub dict_beq_iff :
      (a b : Dict K V)
      → NodupKeys a
      → NodupKeys b
      → (dict_beq a b ≡ true) ↔ ((j : K) → lookup j a ≡ lookup j b)
  unfolding dict_beq
  dict_beq_iff a b n m = (
    λ h. is_subdict-lookup a b n m (ground arith) (ground arith),
    λ same.
        let ab = lookup-is_subdict a b n (λ j _. same j) in
        let ba = lookup-is_subdict b a m (λ j _. sym (same j)) in
        let short = length-is_subdict a b n m ab in
        let long = length-is_subdict b a m n ba in
        let equal : length a ≡ length b = omega arith in rw (ab, equal) (ground arith),
  )

-- ===== src/Capture/Pass/Checks.antt =====
-- What each check of `validate_capture_pass` asks for.
use mathlib.Core.List.{flat_map}
use oukitel_rt7_linux.Prelude.{
  ℕ, ◌≡◌, ◌↔◌, refl, Bool, true, false, List, [], ◌∷◌, ◌++◌, Option, none, some, map, length, take,
  contains, list_eq, nat_eq, list_beq_iff, arith, All, Bool-cases, inl, inr,
}
use oukitel_rt7_linux.Python.Text.{Text}
use oukitel_rt7_linux.Python.Bytes.{Bytes}
use oukitel_rt7_linux.Python.Dict.{lookup}
use oukitel_rt7_linux.Gpt.Defs.{GptInfo, PartitionInfo}
use oukitel_rt7_linux.Plan.{partitions}
use oukitel_rt7_linux.Capture.Defs.{
  Failure, missing, unexpected, expected_names, insert_text, sorted,
}
use oukitel_rt7_linux.Capture.Uniform.{
  has_nonuniform_content, IsUniform, has_nonuniform_content_iff,
}
use oukitel_rt7_linux.Capture.Pass.{
  one_if, without, sorted_difference, size_check, magic_check, content_check, names_check,
  partition_check, table_check,
}

abbrev pub Sized : ℕ → Option Bytes → Type 0
Sized size none = Unit
Sized size (some bytes) = length bytes ≡ size

abbrev pub Begins : Bytes → Option Bytes → Type 0
Begins magic none = Unit
Begins magic (some bytes) = take (length magic) bytes ≡ magic

abbrev pub Varies : Option Bytes → Type 0
Varies none = Unit
Varies (some bytes) = ¬ IsUniform bytes

abbrev pub InTable : ℕ → Option PartitionInfo → Type 0
InTable size none = ⊥
InTable size (some p) = p.size ≡ size

pub append-eq-nil : {A : Type 0} (xs ys : List A) → (xs ++ ys ≡ []) ↔ ((xs ≡ []) × (ys ≡ []))
append-eq-nil [] ys = (λ h. (refl, h), λ h. h.1)
append-eq-nil (x ∷ xs) ys = (λ h. cc, λ h. cc)

module _ {A B : Type 0} where
  map-eq-nil : (f : A → B) (xs : List A) → (map f xs ≡ []) ↔ (xs ≡ [])
  map-eq-nil f [] = (λ h. refl, λ h. refl)
  map-eq-nil f (x ∷ xs) = (λ h. cc, λ h. cc)

  pub flat_map-eq-nil :
      (f : A → List B) (P : A → Type 0)
      → ((a : A) → (f a ≡ []) ↔ P a)
      → (xs : List A) → (flat_map f xs ≡ []) ↔ All P xs
  unfolding flat_map
  flat_map-eq-nil f P h [] = (λ e. tt, λ e. refl)
  flat_map-eq-nil f P h (x ∷ xs) = (
    λ e.
        let (here, later) = (append-eq-nil (f x) (flat_map f xs)).0 e in
        ((h x).0 here, (flat_map-eq-nil f P h xs).0 later),
    λ (p, ps). (append-eq-nil (f x) (flat_map f xs)).1 ((h x).1 p, (flat_map-eq-nil f P h xs).1 ps),
  )

one_if-eq-nil : (b : Bool) (failure : Failure) → (one_if b failure ≡ []) ↔ (b ≡ false)
one_if-eq-nil true failure = (λ h. cc, λ h. cc)
one_if-eq-nil false failure = (λ h. refl, λ h. refl)

insert_text-eq-nil : (a : Text) (names : List Text) → ¬ (insert_text a names ≡ [])
unfolding insert_text
insert_text-eq-nil a [] h = cc
insert_text-eq-nil a (b ∷ names) h = ground arith

sorted-eq-nil : (names : List Text) → (sorted names ≡ []) ↔ (names ≡ [])
unfolding sorted
sorted-eq-nil [] = (λ h. refl, λ h. refl)
sorted-eq-nil (a ∷ names) = (λ h. absurd (insert_text-eq-nil a (sorted names) h), λ h. cc)

without-eq-nil : (ys xs : List Text) → (without ys xs ≡ []) ↔ All (λ x. contains ys x ≡ true) xs
unfolding without
without-eq-nil ys [] = (λ h. tt, λ h. refl)
without-eq-nil ys (x ∷ xs) = elim (Bool-cases (contains ys x)) [
  | inl e ↦ rw e (λ h. (refl, (without-eq-nil ys xs).0 h), λ h. (without-eq-nil ys xs).1 h.1)
  | inr e ↦ rw e (λ h. cc, λ h. cc (h.0))
]

sorted_difference-eq-nil :
    (xs ys : List Text) → (sorted_difference xs ys ≡ []) ↔ All (λ x. contains ys x ≡ true) xs
unfolding sorted_difference
sorted_difference-eq-nil xs ys = (
  λ h. (without-eq-nil ys xs).0 ((sorted-eq-nil (without ys xs)).0 h),
  λ h. (sorted-eq-nil (without ys xs)).1 ((without-eq-nil ys xs).1 h),
)

pub names_check-eq-nil :
    (name : Text) (actual : List Text)
    → (names_check name actual ≡ []) ↔ (
        All (λ x. contains actual x ≡ true) expected_names
        × All (λ x. contains expected_names x ≡ true) actual)
unfolding names_check
names_check-eq-nil name actual = (
  λ h.
      let (a, b) = (append-eq-nil _ _).0 h in
      (
        (sorted_difference-eq-nil expected_names actual).0 ((map-eq-nil (missing name) _).0 a),
        (sorted_difference-eq-nil actual expected_names).0 ((map-eq-nil (unexpected name) _).0 b),
      ),
  λ (a, b). (append-eq-nil _ _).1 (
    (map-eq-nil (missing name) _).1 ((sorted_difference-eq-nil expected_names actual).1 a),
    (map-eq-nil (unexpected name) _).1 ((sorted_difference-eq-nil actual expected_names).1 b),
  ),
)

module _ (directory_name : Text) where
  pub size_check-eq-nil :
      (p : Text × ℕ) (o : Option Bytes) → (size_check directory_name p o ≡ []) ↔ Sized p.1 o
  unfolding size_check
  size_check-eq-nil (name, size) none = (λ h. tt, λ h. refl)
  size_check-eq-nil (name, size) (some bytes) = ground arith

  pub magic_check-eq-nil :
      (p : Text × Bytes) (o : Option Bytes) → (magic_check directory_name p o ≡ []) ↔ Begins p.1 o
  unfolding magic_check
  magic_check-eq-nil (name, magic) none = (λ h. tt, λ h. refl)
  magic_check-eq-nil (name, magic) (some bytes) =
      ground (arith, list_beq_iff (take (length magic) bytes) magic)

  pub content_check-eq-nil :
      (name : Text) (o : Option Bytes) → (content_check directory_name name o ≡ []) ↔ Varies o
  unfolding content_check
  content_check-eq-nil name none = (λ h. tt, λ h. refl)
  content_check-eq-nil name (some bytes) = elim (Bool-cases (has_nonuniform_content bytes)) [
    | inl e ↦ rw e (λ h u. cc (e, (has_nonuniform_content_iff bytes).1 u), λ h. refl)
    | inr e ↦ rw e (λ h. cc, λ h. absurd (h ((has_nonuniform_content_iff bytes).0 e)))
  ]

partition_check-eq-nil :
    (name : Text) (size : ℕ) (o : Option PartitionInfo)
    → (partition_check name size o ≡ []) ↔ InTable size o
unfolding partition_check
partition_check-eq-nil name size none = (λ h. cc, λ h. absurd h)
partition_check-eq-nil name size (some p) = ground arith

pub table_check-eq-nil :
    (gpt : GptInfo)
    → (table_check (some gpt) ≡ [])
      ↔ All (λ (p : Text × ℕ). InTable p.1 (lookup p.0 gpt.partitions)) partitions
unfolding table_check
table_check-eq-nil gpt =
    flat_map-eq-nil _ _ (λ p. partition_check-eq-nil p.0 p.1 (lookup p.0 gpt.partitions)) partitions

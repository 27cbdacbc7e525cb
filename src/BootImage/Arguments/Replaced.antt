-- ===== src/BootImage/Arguments/Replaced.antt =====
-- What the argument functions change, and what they leave.
use oukitel_rt7_linux.Prelude.{
  ◌≡◌, ◌↔◌, refl, ap, sym, ◌∙◌, true, false, List, [], ◌∷◌, ◌++◌, list_eq, nat_eq, list_beq,
  list_beq_iff, eq_refl, contains, ok, >>=-eq-ok, arith, drop, Bool-cases, inl, inr,
}
use oukitel_rt7_linux.Python.Text.{Text, text}
use oukitel_rt7_linux.BootImage.Arguments.{
  update_after, replace_argument, normalize, normalized_arguments,
}

-- The second list is the first with the value behind the first `name` changed.
pub record IsUpdated (name : Text) (change : Text → Text) (arguments updated : List Text)
    : Type 0 where
  pub before : List Text
  pub value : Text
  pub after : List Text
  pub given : arguments ≡ before ++ (name ∷ value ∷ after)
  pub result : updated ≡ before ++ (name ∷ change value ∷ after)
  pub is_first : contains before name ≡ false

update_after-IsUpdated :
    (name : Text) (change : Text → Text) (arguments updated : List Text)
    → update_after name change arguments ≡ ok updated
    → IsUpdated name change arguments updated
unfolding update_after contains
update_after-IsUpdated name change [] updated h = cc
update_after-IsUpdated name change (a ∷ []) updated h = ground arith
update_after-IsUpdated name change (a ∷ v ∷ rest) updated h = elim (Bool-cases (list_beq a name)) [
  | inl e ↦
      let same = (list_beq_iff a name).0 e in
      record {
        before = [];
        value = v;
        after = rest;
        given = cc;
        result = ground arith;
        is_first = refl;
      }
  | inr e ↦
      let (more, r, s) = >>=-eq-ok (update_after name change (v ∷ rest)) _ (rw e at h) in
      let u = update_after-IsUpdated name change (v ∷ rest) more r in
      record {
        before = a ∷ u.before;
        value = u.value;
        after = u.after;
        given = ap (λ l. a ∷ l) u.given;
        result = ground (arith, u.result);
        is_first = ground (arith, u.is_first, list_beq_iff a name, list_beq_iff name a);
      }
]

update_after-append :
    (name : Text) (change : Text → Text) (before : List Text) (value : Text) (after : List Text)
    → contains before name ≡ false
    → update_after name change (before ++ (name ∷ value ∷ after))
      ≡ ok (before ++ (name ∷ change value ∷ after))
unfolding update_after contains
update_after-append name change [] value after h = rw (eq_refl name) refl
update_after-append name change (a ∷ before) value after h =
    let other : list_beq a name ≡ false =
      ground (arith, list_beq_iff a name, list_beq_iff name a) in
    rw other (rw (update_after-append name change before value after (ground arith)) refl)

-- The update succeeds exactly if the name is followed by a value, and it then changes that value of
-- the first such name.
pub update_after_iff :
    (name : Text) (change : Text → Text) (arguments updated : List Text)
    → (update_after name change arguments ≡ ok updated) ↔ IsUpdated name change arguments updated
update_after_iff name change arguments updated = (
  update_after-IsUpdated name change arguments updated,
  λ u. rw (u.given, u.result) (update_after-append name change u.before u.value u.after u.is_first),
)

-- Replacing an argument succeeds exactly if its name is there with a value after it, and changes
-- nothing but the value after the first such name.
pub replace_argument_iff :
    (arguments updated : List Text) (name value : Text)
    → (replace_argument arguments name value ≡ ok updated)
      ↔ IsUpdated name (λ _. value) arguments updated
unfolding replace_argument
replace_argument_iff arguments updated name value =
    update_after_iff name (λ _. value) arguments updated

contains-middle :
    (before after : List Text) (name : Text) → contains (before ++ (name ∷ after)) name ≡ true
unfolding contains
contains-middle [] after name = rw (eq_refl name) refl
contains-middle (a ∷ before) after name = ground (arith, contains-middle before after name)

normalize-append :
    (name : Text) (before : List Text) (value : Text) (after : List Text)
    → contains before name ≡ false
    → normalize name (before ++ (name ∷ value ∷ after))
      ≡ ok (before ++ (name ∷ (text "<" ++ (drop 2 name ++ text ">")) ∷ after))
normalize-append name before value after h =
    unfold normalize in
    rw (contains-middle before (value ∷ after) name)
      (update_after-append name (λ _. text "<" ++ (drop 2 name ++ text ">")) before value after h)

normalize-update :
    (name value : Text) (arguments updated : List Text)
    → replace_argument arguments name value ≡ ok updated
    → normalize name updated ≡ normalize name arguments
normalize-update name value arguments updated h =
    let u = (replace_argument_iff arguments updated name value).0 h in
    rw (u.given, u.result)
      (normalize-append name u.before value u.after u.is_first
        ∙ sym (normalize-append name u.before u.value u.after u.is_first))

-- The comparison of normalized arguments does not see which kernel was put in.
pub normalized_arguments-replace_kernel :
    (value : Text) (arguments updated : List Text)
    → replace_argument arguments (text "--kernel") value ≡ ok updated
    → normalized_arguments updated ≡ normalized_arguments arguments
normalized_arguments-replace_kernel value arguments updated h =
    let same = normalize-update (text "--kernel") value arguments updated h in
    unfold normalized_arguments in rw same refl

-- ===== src/Python/Text/Split.antt =====
-- `s.split(sep)` and `sep.join(words)` for a separator of one character.
use oukitel_rt7_linux.Prelude.{
  ℕ, ◌≡◌, ◌≢◌, refl, ap, ◌∙◌, false, ◌||◌, List, [], ◌∷◌, ◌++◌, arith, ◌==◌, nat_eq, nat_beq_iff,
  if◌then◌else◌, contains, All, Bool-cases, inl, inr,
}
use oukitel_rt7_linux.Python.Text.{Text}

push : ℕ → List Text → List Text
push c [] = (c ∷ []) ∷ []
push c (w ∷ ws) = (c ∷ w) ∷ ws

unfoldable pub split : ℕ → Text → List Text
unfolding push
split sep [] = [] ∷ []
split sep (c ∷ s) = let rest = split sep s in if c == sep then [] ∷ rest else push c rest

unfoldable pub join : ℕ → List Text → Text
join sep [] = []
join sep (w ∷ []) = w
join sep (w ∷ v ∷ ws) = w ++ (sep ∷ join sep (v ∷ ws))

-- The character is not in the text.
abbrev pub Lacks : ℕ → Text → Type 0
Lacks c s = contains s c ≡ false

pub contains-append : (s t : Text) (c : ℕ) → contains (s ++ t) c ≡ (contains s c || contains t c)
unfolding contains
contains-append [] t c = refl
contains-append (d ∷ s) t c = ground (arith, contains-append s t c)

join-push :
    (sep c : ℕ) (words : List Text) → words ≢ [] → join sep (push c words) ≡ c ∷ join sep words
unfolding join push
join-push sep c [] h = absurd (h refl)
join-push sep c (w ∷ []) h = refl
join-push sep c (w ∷ v ∷ ws) h = refl

split-ne-nil : (sep : ℕ) (s : Text) → split sep s ≢ []
unfolding split
split-ne-nil sep [] h = cc
split-ne-nil sep (c ∷ s) h = elim (Bool-cases (c == sep)) [
  | inl e ↦ cc (rw e at h)
  | inr e ↦ push-ne-nil c (split sep s) (rw e at h)
]
  where
    push-ne-nil : (c : ℕ) (ws : List Text) → push c ws ≢ []
    push-ne-nil c [] h = cc
    push-ne-nil c (w ∷ ws) h = cc

join-cons :
    (sep : ℕ) (words : List Text) → words ≢ [] → join sep ([] ∷ words) ≡ sep ∷ join sep words
unfolding join
join-cons sep [] h = absurd (h refl)
join-cons sep (w ∷ ws) h = refl

-- Joining what was split gives the text back.
pub join-split : (sep : ℕ) (s : Text) → join sep (split sep s) ≡ s
unfolding split
join-split sep [] = unfold join in refl
join-split sep (c ∷ s) = elim (Bool-cases (c == sep)) [
  | inl e ↦ rw e (
      join-cons sep (split sep s) (split-ne-nil sep s)
      ∙ cc (join-split sep s, (nat_beq_iff c sep).0 e))
  | inr e ↦
      rw e (join-push sep c (split sep s) (split-ne-nil sep s) ∙ ap (λ t. c ∷ t) (join-split sep s))
]

push-Lacks :
    (sep c : ℕ) (words : List Text)
    → (c == sep) ≡ false
    → All (Lacks sep) words
    → All (Lacks sep) (push c words)
unfolding push contains
push-Lacks sep c [] e h = (ground (arith, nat_beq_iff c sep), tt)
push-Lacks sep c (w ∷ ws) e h = (ground (arith, h.0), h.1)

-- No part holds the separator.
pub split-Lacks : (sep : ℕ) (s : Text) → All (Lacks sep) (split sep s)
unfolding split
split-Lacks sep [] = (unfold contains in refl, tt)
split-Lacks sep (c ∷ s) = elim (Bool-cases (c == sep)) [
  | inl e ↦ rw e (unfold contains in refl, split-Lacks sep s)
  | inr e ↦ rw e (push-Lacks sep c (split sep s) e (split-Lacks sep s))
]

split-append : (sep : ℕ) (w s : Text) → Lacks sep w → split sep (w ++ (sep ∷ s)) ≡ w ∷ split sep s
unfolding split contains
split-append sep [] s h = rw ((nat_beq_iff sep sep).1 refl)
split-append sep (c ∷ w) s h =
    let other : (c == sep) ≡ false = ground arith in
    rw other (rw (split-append sep w s (ground arith)) refl)

split_word : (sep : ℕ) (w : Text) → Lacks sep w → split sep w ≡ w ∷ []
unfolding split contains
split_word sep [] h = refl
split_word sep (c ∷ w) h =
    let other : (c == sep) ≡ false = ground arith in
    rw other (rw (split_word sep w (ground arith)) refl)

-- Splitting what was joined gives the words back, if none of them holds the separator.
pub split-join :
    (sep : ℕ) (w : Text) (words : List Text)
    → All (Lacks sep) (w ∷ words)
    → split sep (join sep (w ∷ words)) ≡ w ∷ words
unfolding join
split-join sep w [] h = split_word sep w h.0
split-join sep w (v ∷ ws) h =
    split-append sep w (join sep (v ∷ ws)) h.0 ∙ ap (λ l. w ∷ l) (split-join sep v ws h.1)

-- ===== src/BootImage/Compare.antt =====
-- `files_equal` of scripts/build-test-boot-image.py.
use oukitel_rt7_linux.Prelude.{
  ℕ, zero, suc, ◌-◌, ◌≤◌, ◌<◌, ◌≡◌, ◌≢◌, refl, ap, sym, ◌∙◌, Bool, true, false, Option, none, some,
  List, [], ◌∷◌, ◌++◌, arith, length, take, drop, min, list_beq, list_beq_iff, list_eq, nat_eq,
  ◌==◌, ◌!=◌, if◌then◌else◌, length-drop, take-append-drop, Bool-cases, inl, inr,
}
use oukitel_rt7_linux.Python.Bytes.{Bytes}
use oukitel_rt7_linux.Python.Hash.{chunk_size}

-- `remaining is None or remaining > 0` fails.
abbrev is_over : Option ℕ → Bool
is_over none = false
is_over (some n) = n == 0

abbrev read_size : ℕ → Option ℕ → ℕ
read_size chunk none = chunk
read_size chunk (some n) = min chunk n

abbrev left_over : ℕ → Option ℕ → Option ℕ
left_over n none = none
left_over n (some m) = some (m - n)

-- The loop, with fuel; `none` means that the fuel ran out.
unfoldable pub compare_streams : ℕ → ℕ → Option ℕ → Bytes → Bytes → Option Bool
compare_streams zero chunk remaining left right = none
compare_streams (suc fuel) chunk remaining left right =
    let size = read_size chunk remaining in
    let left_chunk = take size left in
    let right_chunk = take size right in
    let rest =
      compare_streams fuel chunk (left_over (length left_chunk) remaining) (drop size left)
        (drop size right) in
    if is_over remaining
    then some true
    else if left_chunk != right_chunk
    then some false
    else if left_chunk == []
    then some true
    else rest

unfoldable pub files_equal : Bytes → Bytes → Option ℕ → Option Bool
unfolding compare_streams
files_equal left right limit = compare_streams (suc (length left)) chunk_size limit left right

-- What of a file counts.
abbrev pub cut : Option ℕ → Bytes → Bytes
cut none bytes = bytes
cut (some n) bytes = take n bytes

module _ {A : Type 0} where
  take-take : (m n : ℕ) (xs : List A) → m ≤ n → take m (take n xs) ≡ take m xs
  take-take zero n xs h = refl
  take-take (suc m) zero xs h = absurd (omega arith)
  take-take (suc m) (suc n) [] h = refl
  take-take (suc m) (suc n) (x ∷ xs) h = ap (λ l. x ∷ l) (take-take m n xs (omega arith))

  take_split :
      (m n : ℕ) (xs : List A)
      → m ≤ n
      → take n xs ≡ take m xs ++ take (n - length (take m xs)) (drop m xs)
  take_split zero n xs h = let e : n - 0 ≡ n = omega arith in rw e refl
  take_split (suc m) zero xs h = absurd (omega arith)
  take_split (suc m) (suc n) [] h = nothing (suc n - 0)
    where
      nothing : (k : ℕ) → [] ≡ take {A = A} k []
      nothing zero = refl
      nothing (suc k) = refl
  take_split (suc m) (suc n) (x ∷ xs) h =
      let e : suc n - suc (length (take m xs)) ≡ n - length (take m xs) = omega arith in
      rw e (ap (λ l. x ∷ l) (take_split m n xs (omega arith)))

  take-eq-nil : (m : ℕ) (xs : List A) → 0 < m → take m xs ≡ [] → xs ≡ []
  take-eq-nil zero xs h e = absurd (omega arith)
  take-eq-nil (suc m) [] h e = refl
  take-eq-nil (suc m) (x ∷ xs) h e = cc

take-cut :
    (chunk : ℕ) (remaining : Option ℕ) (bytes : Bytes)
    → take (read_size chunk remaining) (cut remaining bytes)
      ≡ take (read_size chunk remaining) bytes
take-cut chunk none bytes = refl
take-cut chunk (some n) bytes = take-take (min chunk n) n bytes (omega arith)

cut_split :
    (chunk : ℕ) (remaining : Option ℕ) (bytes : Bytes)
    → cut remaining bytes
      ≡ take (read_size chunk remaining) bytes
        ++ cut
            (left_over (length (take (read_size chunk remaining) bytes)) remaining)
            (drop (read_size chunk remaining) bytes)
cut_split chunk none bytes = sym (take-append-drop chunk bytes)
cut_split chunk (some n) bytes = take_split (min chunk n) n bytes (omega arith)

cut_nil : (remaining : Option ℕ) → cut remaining [] ≡ []
cut_nil none = refl
cut_nil (some zero) = refl
cut_nil (some (suc n)) = refl

list_beq-append : (c a b : Bytes) → list_beq (c ++ a) (c ++ b) ≡ list_beq a b
unfolding list_beq
list_beq-append [] a b = refl
list_beq-append (x ∷ c) a b = ground (arith, list_beq-append c a b)

module _ (chunk : ℕ) (remaining : Option ℕ) (left right : Bytes) where
  abbrev size : ℕ
  size = read_size chunk remaining

  abbrev rest : Option ℕ
  rest = left_over (length (take size left)) remaining

  differ :
      list_beq (take size left) (take size right) ≡ false
      → list_beq (cut remaining left) (cut remaining right) ≡ false
  differ h = elim (Bool-cases (list_beq (cut remaining left) (cut remaining right))) [
    | inr e ↦ e
    | inl e ↦
        let same = (list_beq_iff (cut remaining left) (cut remaining right)).0 e in
        let heads : take size left ≡ take size right =
          sym (take-cut chunk remaining left)
          ∙ (ap (take size) same ∙ take-cut chunk remaining right) in
        cc (h, (list_beq_iff (take size left) (take size right)).1 heads)
  ]

  both_end :
      0 < size
      → take size left ≡ take size right
      → take size left ≡ []
      → list_beq (cut remaining left) (cut remaining right) ≡ true
  both_end s e n =
      let l = take-eq-nil size left s n in
      let r = take-eq-nil size right s (sym e ∙ n) in
      (list_beq_iff (cut remaining left) (cut remaining right)).1 (ap (cut remaining) (l ∙ sym r))

  go_on :
      take size left ≡ take size right
      → list_beq (cut remaining left) (cut remaining right)
        ≡ list_beq (cut rest (drop size left)) (cut rest (drop size right))
  go_on e =
      let l = cut_split chunk remaining left in
      let r : cut remaining right ≡ take size left ++ cut rest (drop size right) =
        rw e (cut_split chunk remaining right) in
      ap (λ (x : Bytes). list_beq x (cut remaining right)) l
      ∙ (ap (list_beq (take size left ++ cut rest (drop size left))) r
          ∙ list_beq-append (take size left) (cut rest (drop size left))
              (cut rest (drop size right)))

read_size_pos :
    (chunk : ℕ) (remaining : Option ℕ)
    → 0 < chunk
    → is_over remaining ≡ false
    → 0 < read_size chunk remaining
read_size_pos chunk none c h = c
read_size_pos chunk (some n) c h = ground arith

over_cut :
    (remaining : Option ℕ) (bytes : Bytes) → is_over remaining ≡ true → cut remaining bytes ≡ []
over_cut none bytes h = cc
over_cut (some zero) bytes h = refl
over_cut (some (suc n)) bytes h = absurd (ground arith)

shorter :
    (size : ℕ) (bytes : Bytes) (fuel : ℕ)
    → take size bytes ≢ []
    → length bytes < suc fuel
    → length (drop size bytes) < fuel
shorter zero bytes fuel n h = absurd (n refl)
shorter (suc size) [] fuel n h = absurd (n refl)
shorter (suc size) (b ∷ bytes) fuel n h = omega (arith, length-drop size bytes)

compare_streams_lem :
    (fuel chunk : ℕ) (remaining : Option ℕ) (left right : Bytes)
    → 0 < chunk
    → length left < fuel
    → compare_streams fuel chunk remaining left right
      ≡ some (list_beq (cut remaining left) (cut remaining right))
unfolding compare_streams
compare_streams_lem zero chunk remaining left right c h = elim h [ ]
compare_streams_lem (suc fuel) chunk remaining left right c h =
    elim (Bool-cases (is_over remaining)) [
      | inl over ↦ rw over (
          rw (over_cut remaining left over, over_cut remaining right over)
            (unfold list_beq in refl))
      | inr more ↦
          elim (Bool-cases (
            list_beq (take (read_size chunk remaining) left)
              (take (read_size chunk remaining) right))) [
                | inr e ↦ rw (more, e) (ap some (sym (differ chunk remaining left right e)))
                | inl e ↦
                    let same =
                      (list_beq_iff (take (read_size chunk remaining) left)
                          (take (read_size chunk remaining) right)).0
                        e in
                    elim (Bool-cases (list_beq (take (read_size chunk remaining) left) [])) [
                      | inl end ↦
                          rw (more, e, end)
                            (ap some (
                              sym (
                                both_end chunk remaining left right
                                  (read_size_pos chunk remaining c more) same
                                  ((list_beq_iff _ _).0 end))))
                      | inr full ↦
                          rw (more, e, full)
                            (compare_streams_lem fuel chunk _
                                (drop (read_size chunk remaining) left)
                                (drop (read_size chunk remaining) right) c
                                (shorter (read_size chunk remaining) left fuel
                                  (λ n. cc (
                                    full,
                                    (list_beq_iff (take (read_size chunk remaining) left) []).1 n,
                                  ))
                                  h)
                              ∙ ap some (sym (go_on chunk remaining left right same)))
                    ]
              ]
    ]

-- Comparing in chunks is comparing the whole files, or their first `limit` bytes, and it ends.
pub files_equal-eq-beq :
    (left right : Bytes) (limit : Option ℕ)
    → files_equal left right limit ≡ some (cut limit left == cut limit right)
unfolding files_equal
files_equal-eq-beq left right limit =
    compare_streams_lem (suc (length left)) chunk_size limit left right (omega arith) (omega arith)

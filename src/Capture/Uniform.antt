-- ===== src/Capture/Uniform.antt =====
-- `has_nonuniform_content` of scripts/capture-recovery-baseline.py.
use mathlib.Core.List.{flatten}
use oukitel_rt7_linux.Prelude.{
  ℕ, ◌≡◌, ◌↔◌, refl, sym, ap, ◌∙◌, Bool, true, false, List, [], ◌∷◌, ◌++◌, Option, none, some,
  arith, length, replicate, ◌!=◌, list_eq, nat_eq, list_beq, list_beq_iff, if◌then◌else◌, All,
  All-append, All-weaken, Bool-cases, inl, inr,
}
use oukitel_rt7_linux.Python.Bytes.{Bytes}
use oukitel_rt7_linux.Python.Hash.{chunk_size}
use oukitel_rt7_linux.Python.Streams.{read_blocks, read_blocks-flatten}

-- `if first is None: first = block[0]`, for a block that is not empty.
abbrev first_byte : Option ℕ → Bytes → ℕ
first_byte (some c) block = c
first_byte none [] = 0
first_byte none (b ∷ _) = b

-- The loop over the blocks.
unfoldable pub nonuniform_blocks : Option ℕ → List Bytes → Bool
nonuniform_blocks first [] = false
nonuniform_blocks first (block ∷ blocks) =
    let c = first_byte first block in
    let rest = nonuniform_blocks (some c) blocks in
    if block != replicate (length block) c then true else rest

unfoldable pub has_nonuniform_content : Bytes → Bool
unfolding nonuniform_blocks read_blocks
has_nonuniform_content bytes = nonuniform_blocks none (read_blocks chunk_size bytes)

-- Every byte is the same one.
pub record IsUniform (bytes : Bytes) : Type 0 where
  pub byte : ℕ
  pub same : All (λ b. b ≡ byte) bytes

replicate-All :
    (c : ℕ) (block : Bytes) → (block ≡ replicate (length block) c) ↔ All (λ b. b ≡ c) block
replicate-All c [] = (λ h. tt, λ h. refl)
replicate-All c (b ∷ block) = (
  λ h. ground (arith, replicate-All c block, h),
  λ h. let e = (replicate-All c block).1 h.1 in rw h.0 (ap (λ l. c ∷ l) e),
)

All-unappend : (P : ℕ → Type 0) (xs ys : Bytes) → All P (xs ++ ys) → All P xs × All P ys
All-unappend P [] ys h = (tt, h)
All-unappend P (x ∷ xs) ys h = let (a, b) = All-unappend P xs ys h.1 in ((h.0, a), b)

-- The rest of the loop, once the first byte is known.
nonuniform_blocks_iff :
    (c : ℕ) (blocks : List Bytes)
    → (nonuniform_blocks (some c) blocks ≡ false) ↔ All (λ b. b ≡ c) (flatten blocks)
unfolding nonuniform_blocks flatten
nonuniform_blocks_iff c [] = (λ h. tt, λ h. refl)
nonuniform_blocks_iff c (block ∷ blocks) = (
  λ h. elim (Bool-cases (list_beq block (replicate (length block) c))) [
    | inr e ↦ cc (rw e at h)
    | inl e ↦
        All-append (λ b. b ≡ c) block (flatten blocks)
          ((replicate-All c block).0 ((list_beq_iff block (replicate (length block) c)).0 e))
          ((nonuniform_blocks_iff c blocks).0 (rw e at h))
  ],
  λ h.
      let (here, later) = All-unappend (λ b. b ≡ c) block (flatten blocks) h in
      rw ((list_beq_iff block (replicate (length block) c)).1 ((replicate-All c block).1 here))
        ((nonuniform_blocks_iff c blocks).1 later),
)

-- The first block begins with the first byte.
first_known :
    (b : ℕ) (bytes : Bytes)
    → has_nonuniform_content (b ∷ bytes)
      ≡ nonuniform_blocks (some b) (read_blocks chunk_size (b ∷ bytes))
unfolding has_nonuniform_content nonuniform_blocks read_blocks
first_known b bytes = refl

flatten-chunks : (bytes : Bytes) → flatten (read_blocks chunk_size bytes) ≡ bytes
flatten-chunks bytes = read_blocks-flatten chunk_size bytes (omega arith)

-- A file is found nonuniform, block by block, unless all its bytes are the same one.
pub has_nonuniform_content_iff :
    (bytes : Bytes) → (has_nonuniform_content bytes ≡ false) ↔ IsUniform bytes
has_nonuniform_content_iff [] = (
  λ h. record { byte = 0; same = tt },
  λ u. unfold has_nonuniform_content in unfold read_blocks nonuniform_blocks in refl,
)
has_nonuniform_content_iff (b ∷ bytes) = (
  λ h. record {
    byte = b;
    same = rw (flatten-chunks (b ∷ bytes)) at (
        (nonuniform_blocks_iff b (read_blocks chunk_size (b ∷ bytes))).0
          (sym (first_known b bytes) ∙ h));
  },
  λ u.
      let same : All (λ x. x ≡ b) (b ∷ bytes) =
        All-weaken (λ x. x ≡ u.byte) (λ x. x ≡ b) (b ∷ bytes) (λ x e. e ∙ sym u.same.0) u.same in
      first_known b bytes
      ∙ (nonuniform_blocks_iff b (read_blocks chunk_size (b ∷ bytes))).1
          (rw (flatten-chunks (b ∷ bytes)) same),
)

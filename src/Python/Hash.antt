-- ===== src/Python/Hash.antt =====
-- `hashlib`, and the `sha256` functions that both capture and boot-image scripts have.
use mathlib.Core.List.{foldl, flatten}
use oukitel_rt7_linux.Prelude.{ℕ, ◌≡◌, sym, ap, ◌∙◌, List, [], ◌∷◌, ◌++◌, arith}
use oukitel_rt7_linux.Python.Text.{Text}
use oukitel_rt7_linux.Python.Bytes.{Bytes}
use oukitel_rt7_linux.Python.Streams.{read_blocks, read_blocks-flatten}

-- A hash object: `hashlib.sha256()`, `update` and `hexdigest`.
pub record Hash : Type 1 where
  pub State : Type 0
  pub start : State
  pub update : State → Bytes → State
  pub hexdigest : State → Text

-- Documented of hashlib: repeated calls are one call with the concatenation.
pub record IsLawful (hash : Hash) : Type 0 where
  pub update_nil : (s : hash.State) → hash.update s [] ≡ s
  pub update_append :
      (s : hash.State) (a b : Bytes) → hash.update (hash.update s a) b ≡ hash.update s (a ++ b)

abbrev pub chunk_size : ℕ
chunk_size = 1048576

module _ (hash : Hash) where
  unfoldable pub sha256 : Bytes → Text
  unfolding read_blocks
  sha256 bytes = hash.hexdigest (foldl hash.update hash.start (read_blocks chunk_size bytes))

  module _ (lawful : IsLawful hash) where
    foldl-update :
        (s : hash.State) (parts : List Bytes)
        → foldl hash.update s parts ≡ hash.update s (flatten parts)
    unfolding flatten
    foldl-update s [] = sym (lawful.update_nil s)
    foldl-update s (p ∷ parts) =
        foldl-update (hash.update s p) parts ∙ lawful.update_append s p (flatten parts)

    -- With a hash that keeps its documented law, hashing a file in blocks gives the digest of its
    -- whole content at once.
    pub sha256-eq-digest :
        (bytes : Bytes) → sha256 bytes ≡ hash.hexdigest (hash.update hash.start bytes)
    sha256-eq-digest bytes =
        unfold sha256 in
        ap hash.hexdigest (
          foldl-update hash.start (read_blocks chunk_size bytes)
          ∙ ap (hash.update hash.start) (read_blocks-flatten chunk_size bytes (omega arith)))

-- ===== src/Capture/Both/Digests.antt =====
-- The digests that `validate_capture` compares are those of files in both passes.
use oukitel_rt7_linux.Prelude.{
  ◌≡◌, refl, sym, ◌∙◌, Bool, true, false, List, [], ◌∷◌, ◌++◌, some, ◌!=◌, list_eq, nat_eq,
  list_beq_iff, ok, arith, All, Bool-cases, Option-cases, inl, inr,
}
use oukitel_rt7_linux.Prelude.Exec.{◌>>=◌, >>=-returns}
use oukitel_rt7_linux.Python.Text.{Text, text}
use oukitel_rt7_linux.Python.Bytes.{Bytes}
use oukitel_rt7_linux.Python.Hash.{Hash, sha256}
use oukitel_rt7_linux.Python.Json.{text_le}
use oukitel_rt7_linux.Python.Path.{FilePath, ◌/◌}
use oukitel_rt7_linux.Python.Files.{Files, read_bytes}
use oukitel_rt7_linux.Capture.Defs.{Failure, reads_differ, insert_text, sorted}
use oukitel_rt7_linux.Capture.Pass.{one_if}
use oukitel_rt7_linux.Capture.Host.{Host, World, read, sha256_of}
use oukitel_rt7_linux.Capture.Both.{Collected, hash_artifacts}

-- Both passes hold a file of the name, and the two have one digest.
pub record IsAgreed (hash : Hash) (files : Files) (output : FilePath) (name : Text) : Type 0 where
  pub first : Bytes
  pub second : Bytes
  pub in_pass1 : read_bytes files (output / text "pass1" / name) ≡ some first
  pub in_pass2 : read_bytes files (output / text "pass2" / name) ≡ some second
  pub digests : sha256 hash first ≡ sha256 hash second

module _ (P : Text → Type 0) where
  All-insert_text : (a : Text) (names : List Text) → All P (insert_text a names) → P a × All P names
  unfolding insert_text
  All-insert_text a [] h = h
  All-insert_text a (b ∷ names) h = elim (Bool-cases (text_le a b)) [
    | inl e ↦ rw e at h
    | inr e ↦
        let (here, later) : P b × All P (insert_text a names) = rw e at h in
        let (p, ps) = All-insert_text a names later in (p, (here, ps))
  ]

  pub All-sorted : (names : List Text) → All P (sorted names) → All P names
  unfolding sorted
  All-sorted [] h = h
  All-sorted (a ∷ names) h =
      let (p, ps) = All-insert_text a (sorted names) h in (p, All-sorted names ps)

-- A digest that was computed is that of a file.
sha256_of-returns :
    (hash : Hash) (path : FilePath) (w : World) (digest : Text)
    → (sha256_of hash path w).0 ≡ ok digest
    → (bytes : Bytes) × (read_bytes w.files path ≡ some bytes) × (sha256 hash bytes ≡ digest)
unfolding sha256_of read ◌>>=◌
sha256_of-returns hash path w digest h = elim (Option-cases (read_bytes w.files path)) [
  | inl e ↦ cc (rw e at h)
  | inr (bytes, e) ↦ let same = rw e at h in (bytes, e, ground arith)
]

sha256_of-keeps : (hash : Hash) (path : FilePath) (w : World) → (sha256_of hash path w).1 ≡ w
unfolding sha256_of read ◌>>=◌
sha256_of-keeps hash path w = ground arith

read-keeps : (path : FilePath) (w : World) → (read path w).1 ≡ w
unfolding read ◌>>=◌
read-keeps path w = ground arith

one_if-append-nil :
    (b : Bool) (failure : Failure) (failures : List Failure)
    → one_if b failure ++ failures ≡ []
    → (b ≡ false) × (failures ≡ [])
one_if-append-nil true failure failures h = cc
one_if-append-nil false failure failures h = (refl, h)

module _ (host : Host) (output : FilePath) where
  pub hash_artifacts-keeps :
      (names : List Text) (w : World) → (hash_artifacts host output names w).1 ≡ w
  unfolding hash_artifacts ◌>>=◌
  hash_artifacts-keeps [] w = refl
  hash_artifacts-keeps (name ∷ names) w = ground (
    arith,
    sha256_of-keeps host.hash (output / text "pass1" / name) w,
    sha256_of-keeps host.hash (output / text "pass2" / name) w,
    read-keeps (output / text "pass1" / name) w,
    hash_artifacts-keeps names w,
  )

  pub hash_artifacts-IsAgreed :
      (names : List Text) (w : World) (collected : Collected)
      → (hash_artifacts host output names w).0 ≡ ok collected
      → collected.failures ≡ []
      → All (IsAgreed host.hash w.files output) names
  unfolding hash_artifacts
  hash_artifacts-IsAgreed [] w collected h none_failed = tt
  hash_artifacts-IsAgreed (name ∷ names) w collected h none_failed =
      let p1 = output / text "pass1" / name in
      let p2 = output / text "pass2" / name in
      let (digest1, r1, h1) = >>=-returns (sha256_of host.hash p1) _ w h in
      let (digest2, r2, h2) =
        >>=-returns (sha256_of host.hash p2) _ w (rw (sha256_of-keeps host.hash p1 w) at h1) in
      let (bytes, r3, h3) = >>=-returns (read p1) _ w (rw (sha256_of-keeps host.hash p2 w) at h2) in
      let (rest, r4, h4) =
        >>=-returns (hash_artifacts host output names) _ w (rw (read-keeps p1 w) at h3) in
      let (first, there1, is1) = sha256_of-returns host.hash p1 w digest1 r1 in
      let (second, there2, is2) = sha256_of-returns host.hash p2 w digest2 r2 in
      let (same, rest_failed) =
        one_if-append-nil (digest1 != digest2) (reads_differ name) rest.failures
          (ground (arith, none_failed)) in
      (
        record {
          first = first;
          second = second;
          in_pass1 = there1;
          in_pass2 = there2;
          digests = is1 ∙ (ground (arith, list_beq_iff digest1 digest2) ∙ sym is2);
        },
        hash_artifacts-IsAgreed names w rest r4 rest_failed,
      )

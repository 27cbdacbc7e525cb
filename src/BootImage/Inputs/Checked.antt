-- ===== src/BootImage/Inputs/Checked.antt =====
-- What the checks of the inputs ask for, and that they change nothing.
use oukitel_rt7_linux.Prelude.{
  ◌≡◌, refl, ap, ◌∙◌, Bool, true, false, not, List, [], ◌∷◌, some, ok, All, contains, ◌==◌, list_eq,
  nat_eq, list_beq_iff, arith, Option-cases, inl, inr,
}
use oukitel_rt7_linux.Prelude.Exec.{Keeps, Keeps-pure, Keeps-bind, ◌>>=◌, gets, >>=-returns}
use oukitel_rt7_linux.Python.Text.{Text, text, has_infix}
use oukitel_rt7_linux.Python.Bytes.{Bytes}
use oukitel_rt7_linux.Python.Hash.{sha256}
use oukitel_rt7_linux.Python.Path.{FilePath, file_name, parents}
use oukitel_rt7_linux.Python.Files.{Files, is_file, read_bytes}
use oukitel_rt7_linux.BootImage.Defs.{
  BootError, not_a_file, unsafe_output_name, inside_repository, boot_hash_mismatch,
}
use oukitel_rt7_linux.BootImage.Tools.{Host, World, read, sha256_of}
use oukitel_rt7_linux.BootImage.Inputs.{
  Inputs, required_paths, require, check_files, has_safe_name, lower, check_inputs,
}

-- Inputs that a boot image may be made of, and an output that it may be written to.
pub record IsChecked (host : Host) (expected : Text) (inputs : Inputs) (files : Files)
    : Type 0 where
  pub required : All (λ path. is_file files path ≡ true) (required_paths inputs)
  pub outside : contains (parents inputs.output) (text "project" ∷ []) ≡ false
  pub unsigned : has_infix (text "unsigned") (file_name inputs.output) ≡ true
  pub do_not_flash : has_infix (text "do-not-flash") (file_name inputs.output) ≡ true
  pub stock : Bytes
  pub there : read_bytes files inputs.boot_image ≡ some stock
  pub digest : lower (sha256 host.hash stock) ≡ lower expected

pub require-returns : (b : Bool) (e : BootError) (w : World) → (require b e w).0 ≡ ok tt → b ≡ true
require-returns true e w h = refl
require-returns false e w h = cc

pub require-keeps : (b : Bool) (e : BootError) (w : World) → (require b e w).1 ≡ w
require-keeps true e w = refl
require-keeps false e w = refl

pub read-keeps : (path : FilePath) (w : World) → (read path w).1 ≡ w
unfolding read ◌>>=◌
read-keeps path w = ground arith

pub read-returns :
    (path : FilePath) (w : World) (bytes : Bytes)
    → (read path w).0 ≡ ok bytes
    → read_bytes w.files path ≡ some bytes
unfolding read ◌>>=◌
read-returns path w bytes h = elim (Option-cases (read_bytes w.files path)) [
  | inl e ↦ cc (rw e at h)
  | inr (found, e) ↦ let same = rw e at h in e ∙ ground arith
]

check_files-returns :
    (paths : List FilePath) (w : World)
    → (check_files paths w).0 ≡ ok tt
    → All (λ path. is_file w.files path ≡ true) paths
unfolding check_files
check_files-returns [] w h = tt
check_files-returns (path ∷ paths) w h =
    let (found, r, h1) = >>=-returns (gets (λ (v : World). is_file v.files path)) _ w h in
    let (_, r2, h2) = >>=-returns (require found (not_a_file path)) _ w h1 in
    let is_found : is_file w.files path ≡ found = ground arith in
    (
      is_found ∙ require-returns found (not_a_file path) w r2,
      check_files-returns paths w (rw (require-keeps found (not_a_file path) w) at h2),
    )

module _ (start : World) where
  abbrev Same : World → Type 0
  Same w = w ≡ start

  require-unchanged : (b : Bool) (e : BootError) → Keeps Same (require b e)
  require-unchanged b e = record { keeps = λ w p. require-keeps b e w ∙ p }

  read-unchanged : (path : FilePath) → Keeps Same (read path)
  read-unchanged path = record { keeps = λ w p. read-keeps path w ∙ p }

  check_files-unchanged : (paths : List FilePath) → Keeps Same (check_files paths)
  unfolding check_files
  check_files-unchanged [] = Keeps-pure Same tt
  check_files-unchanged (path ∷ paths) =
      Keeps-bind Same (gets (λ w. is_file w.files path)) _ (record { keeps = λ w p. p })
        (λ found.
          Keeps-bind Same (require found (not_a_file path)) _
            (require-unchanged found (not_a_file path)) (λ _. check_files-unchanged paths))

  sha256_of-unchanged : (host : Host) (path : FilePath) → Keeps Same (sha256_of host path)
  unfolding sha256_of
  sha256_of-unchanged host path =
      Keeps-bind Same (read path) _ (read-unchanged path) (λ bytes. Keeps-pure Same _)

  check_inputs-unchanged :
      (host : Host) (expected : Text) (inputs : Inputs)
      → Keeps Same (check_inputs host expected inputs)
  unfolding check_inputs
  check_inputs-unchanged host expected inputs =
      Keeps-bind Same (check_files (required_paths inputs)) _
        (check_files-unchanged (required_paths inputs))
        (λ _. Keeps-bind Same (require _ _) _ (require-unchanged _ _) (λ _.
          Keeps-bind Same (require _ _) _ (require-unchanged _ _) (λ _.
            Keeps-bind Same (sha256_of host inputs.boot_image) _ (sha256_of-unchanged host _)
              (λ actual.
                Keeps-bind Same (require _ _) _ (require-unchanged _ _)
                  (λ _. Keeps-pure Same actual)))))

-- Checking the inputs changes nothing, whatever its outcome.
pub check_inputs-eq-state :
    (host : Host) (expected : Text) (inputs : Inputs) (w : World)
    → (check_inputs host expected inputs w).1 ≡ w
check_inputs-eq-state host expected inputs w =
    (check_inputs-unchanged w host expected inputs).keeps w refl

sha256_of-returns :
    (host : Host) (path : FilePath) (w : World) (digest : Text)
    → (sha256_of host path w).0 ≡ ok digest
    → (bytes : Bytes) × (read_bytes w.files path ≡ some bytes) × (sha256 host.hash bytes ≡ digest)
unfolding sha256_of
sha256_of-returns host path w digest h =
    let (bytes, r, h1) = >>=-returns (read path) _ w h in
    (bytes, read-returns path w bytes r, ground arith)

pub check_inputs-IsChecked :
    (host : Host) (expected : Text) (inputs : Inputs) (w : World) (actual : Text)
    → (check_inputs host expected inputs w).0 ≡ ok actual
    → IsChecked host expected inputs w.files
unfolding check_inputs has_safe_name
check_inputs-IsChecked host expected inputs w actual h =
    let inside = contains (parents inputs.output) (text "project" ∷ []) in
    let safe = has_safe_name inputs.output in
    let (_, r1, h1) = >>=-returns (check_files (required_paths inputs)) _ w h in
    let (_, r2, h2) =
      >>=-returns (require (not inside) inside_repository) _ w
        (rw ((check_files-unchanged w (required_paths inputs)).keeps w refl) at h1) in
    let (_, r3, h3) =
      >>=-returns (require safe unsafe_output_name) _ w
        (rw (require-keeps (not inside) inside_repository w) at h2) in
    let (digest, r4, h4) =
      >>=-returns (sha256_of host inputs.boot_image) _ w
        (rw (require-keeps safe unsafe_output_name w) at h3) in
    let equal = lower digest == lower expected in
    let (_, r5, h5) =
      >>=-returns (require equal (boot_hash_mismatch expected digest)) _ w
        (rw ((sha256_of-unchanged w host inputs.boot_image).keeps w refl) at h4) in
    let (stock, there, same) = sha256_of-returns host inputs.boot_image w digest r4 in
    let is_safe = require-returns safe unsafe_output_name w r3 in
    record {
      required = check_files-returns (required_paths inputs) w r1;
      outside = ground (arith, require-returns (not inside) inside_repository w r2);
      unsigned = ground (arith, is_safe);
      do_not_flash = ground (arith, is_safe);
      stock = stock;
      there = there;
      digest =
          ap lower same
          ∙ (list_beq_iff (lower digest) (lower expected)).0
              (require-returns equal (boot_hash_mismatch expected digest) w r5);
    }

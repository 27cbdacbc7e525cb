-- ===== src/BootImage/Built.antt =====
-- What stands at the output after the block of `main` of scripts/build-test-boot-image.py.
use oukitel_rt7_linux.Prelude.{
  ℕ, ◌≡◌, ◌≤◌, refl, sym, ◌∙◌, true, List, some, Result, ok, err, length, leb, leb→le, arith,
  list_eq, nat_eq,
}
use oukitel_rt7_linux.Prelude.Exec.{◌>>=◌}
use oukitel_rt7_linux.Prelude.Triple.{Triple, Triple-bind}
use oukitel_rt7_linux.Python.Text.{Text}
use oukitel_rt7_linux.Python.Bytes.{Bytes}
use oukitel_rt7_linux.Python.Path.{FilePath}
use oukitel_rt7_linux.Python.Files.{Files, read_bytes}
use oukitel_rt7_linux.BootImage.Defs.{BootError, payload_too_large}
use oukitel_rt7_linux.BootImage.Write.{write_idempotent}
use oukitel_rt7_linux.BootImage.Write.Kept.{read_bytes-write_idempotent}
use oukitel_rt7_linux.BootImage.Tools.{Host, World, Build, read, on_files}
use oukitel_rt7_linux.BootImage.Inputs.{Options, Inputs, require}
use oukitel_rt7_linux.BootImage.Inputs.Checked.{
  require-returns, require-keeps, read-keeps, read-returns,
}
use oukitel_rt7_linux.BootImage.Main.{Built, custom_image, describe, check_custom, build_image}

describe-keeps : (host : Host) (path : FilePath) (w : World) → (describe host path w).1 ≡ w
unfolding describe read ◌>>=◌
describe-keeps host path w = ground arith

module _ (host : Host) (options : Options) (inputs : Inputs) (payload_size : ℕ) where
  -- A file at the output that is no larger than the payload of the stock image.
  pub record IsBuilt (files : Files) : Type 0 where
    pub image : Bytes
    pub written : read_bytes files inputs.output ≡ some image
    pub fits : length image ≤ payload_size

  abbrev pub Finished : Result BootError Built × World → Type 0
  Finished (ok _, w) = IsBuilt w.files
  Finished (err _, w) = Unit

  -- The custom image stands at its path, and is no larger.
  record Fits (image : FilePath) (w : World) : Type 0 where
    custom : Bytes
    there : read_bytes w.files image ≡ some custom
    small : leb (length custom) payload_size ≡ true

  abbrev Anything : World → Type 0
  Anything w = Unit

  abbrev Small : Bytes → World → Type 0
  Small bytes w = leb (length bytes) payload_size ≡ true

  any_start :
      {A B : Type 0} (m : Build A) (next : A → Build B) (Q : B → World → Type 0)
      → ((a : A) → Triple Anything (next a) Q)
      → Triple Anything (m >>= next) Q
  any_start m next Q rest =
      Triple-bind Anything (λ _. Anything) Q m next (record { holds = λ w p a h. tt }) rest

  read-there :
      (image : FilePath)
      → Triple Anything (read image) (λ bytes w. read_bytes w.files image ≡ some bytes)
  read-there image = record {
    holds = λ w p bytes h. rw (read-keeps image w) (read-returns image w bytes h);
  }

  require-Fits :
      (image : FilePath) (bytes : Bytes)
      → Triple
          (λ w. read_bytes w.files image ≡ some bytes)
          (require (leb (length bytes) payload_size) payload_too_large)
          (λ _. Fits image)
  require-Fits image bytes = record {
    holds = λ w there _ h.
        rw (require-keeps (leb (length bytes) payload_size) payload_too_large w) (record {
          custom = bytes;
          there = there;
          small = require-returns (leb (length bytes) payload_size) payload_too_large w h;
        });
  }

  check_custom-Fits :
      (temporary : FilePath) (arguments : List Text)
      → Triple Anything
          (check_custom host options inputs payload_size temporary arguments)
          (λ _. Fits (custom_image host options inputs payload_size temporary))
  unfolding check_custom
  check_custom-Fits temporary arguments =
      let image = custom_image host options inputs payload_size temporary in
      let Q : Unit {0} → World → Type 0 = λ _. Fits image in
      any_start _ _ Q (λ unpacked. any_start _ _ Q (λ expected. any_start _ _ Q (λ found.
        any_start _ _ Q (λ _. any_start _ _ Q (λ same_kernel. any_start _ _ Q (λ _.
          any_start _ _ Q (λ same_ramdisk. any_start _ _ Q (λ _. any_start _ _ Q (λ same_dtb.
            any_start _ _ Q (λ _.
              Triple-bind Anything (λ bytes w. read_bytes w.files image ≡ some bytes) Q (read image)
                _ (read-there image) (require-Fits image)))))))))))

  describe-Fits :
      (image path : FilePath) → Triple (Fits image) (describe host path) (λ _. Fits image)
  describe-Fits image path = record { holds = λ w p _ h. rw (describe-keeps host path w) p }

  read-Small : (image : FilePath) → Triple (Fits image) (read image) Small
  read-Small image = record {
    holds = λ w p bytes h.
        same_file p.custom bytes (sym p.there ∙ read-returns image w bytes h) p.small;
  }
    where
      same_file :
          (a b : Bytes)
          → some a ≡ some b
          → leb (length a) payload_size ≡ true
          → leb (length b) payload_size ≡ true
      same_file a b e small = let same : a ≡ b = cc in rw (sym same) small

  write-IsBuilt :
      (bytes : Bytes)
      → Triple
          (Small bytes)
          (on_files (write_idempotent inputs.output bytes))
          (λ _ w. IsBuilt w.files)
  unfolding on_files
  write-IsBuilt bytes = record {
    holds = λ w small _ h. record {
      image = bytes;
      written = read_bytes-write_idempotent inputs.output bytes w.files h;
      fits = leb→le (length bytes) payload_size small;
    };
  }

  build_image-IsBuilt :
      (temporary : FilePath)
      → Triple Anything
          (build_image host options inputs payload_size temporary)
          (λ _ w. IsBuilt w.files)
  unfolding build_image
  build_image-IsBuilt temporary =
      let image = custom_image host options inputs payload_size temporary in
      let Q : Built → World → Type 0 = λ _ w. IsBuilt w.files in
      any_start _ _ Q (λ _. any_start _ _ Q (λ _. any_start _ _ Q (λ stock.
        any_start _ _ Q (λ custom.
          Triple-bind Anything (λ _. Fits image) Q _ _ (check_custom-Fits temporary custom)
            (λ _.
              Triple-bind (Fits image) (λ _. Fits image) Q _ _ (describe-Fits image _)
                (λ ramdisk. Triple-bind (Fits image) Small Q _ _ (read-Small image) (λ bytes.
                  Triple-bind (Small bytes) (λ _ w. IsBuilt w.files) Q _ _ (write-IsBuilt bytes)
                    (λ _. record { holds = λ w p _ h. p }))))))))

  finished :
      (r : Result BootError Built) (w : World)
      → ((built : Built) → r ≡ ok built → IsBuilt w.files)
      → Finished (r, w)
  finished (ok built) w h = h built refl
  finished (err e) w h = tt

  -- If the block with the temporary directory returns, the output is a file no larger than the
  -- payload of the stock image.
  pub build_image-Finished :
      (temporary : FilePath) (w : World)
      → Finished (build_image host options inputs payload_size temporary w)
  build_image-Finished temporary w =
      finished (build_image host options inputs payload_size temporary w).0
        (build_image host options inputs payload_size temporary w).1
        ((build_image-IsBuilt temporary).holds w tt)

-- ===== src/BootImage/RoundTrip.antt =====
-- What `main` of scripts/build-test-boot-image.py compares after it has packed the custom image.
use oukitel_rt7_linux.Prelude.{
  ℕ, ◌≡◌, refl, sym, ap, ◌∙◌, Bool, true, List, Option, none, some, Result, ok, err, list_beq,
  list_beq_iff, list_eq, nat_eq, arith, leb, length,
}
use oukitel_rt7_linux.Prelude.Exec.{◌>>=◌, ◌>>◌, >>=-returns}
use oukitel_rt7_linux.Prelude.Triple.{Triple, Triple-bind}
use oukitel_rt7_linux.Python.Text.{Text, text}
use oukitel_rt7_linux.Python.Bytes.{Bytes}
use oukitel_rt7_linux.Python.Path.{FilePath, ◌/◌}
use oukitel_rt7_linux.Python.Files.{Files, read_bytes}
use oukitel_rt7_linux.BootImage.Defs.{
  BootError, kernel_changed, ramdisk_changed, dtb_changed, payload_too_large,
}
use oukitel_rt7_linux.BootImage.Compare.{files_equal, files_equal-eq-beq}
use oukitel_rt7_linux.BootImage.Tools.{Host, World, Build, read}
use oukitel_rt7_linux.BootImage.Inputs.{Options, Inputs, require}
use oukitel_rt7_linux.BootImage.Inputs.Checked.{
  require-returns, require-keeps, read-keeps, read-returns,
}
use oukitel_rt7_linux.BootImage.Main.{is_true, same_files, or_stock, check_custom}

-- Two paths hold files with the same bytes.
pub record SameFiles (left right : FilePath) (files : Files) : Type 0 where
  pub bytes : Bytes
  pub on_left : read_bytes files left ≡ some bytes
  pub on_right : read_bytes files right ≡ some bytes

same_files-keeps : (left right : FilePath) (w : World) → (same_files left right none w).1 ≡ w
unfolding same_files ◌>>=◌
same_files-keeps left right w = ground (arith, read-keeps left w, read-keeps right w)

same_files-SameFiles :
    (left right : FilePath) (w : World)
    → (same_files left right none w).0 ≡ ok true
    → SameFiles left right w.files
unfolding same_files
same_files-SameFiles left right w h =
    let (a, r1, h1) = >>=-returns (read left) _ w h in
    let (b, r2, h2) = >>=-returns (read right) _ w (rw (read-keeps left w) at h1) in
    let equal : is_true (files_equal a b none) ≡ true = ground arith in
    let same : list_beq a b ≡ true = rw (files_equal-eq-beq a b none) at equal in
    record {
      bytes = a;
      on_left = read-returns left w a r1;
      on_right = read-returns right w b r2 ∙ ap some (sym ((list_beq_iff a b).0 same));
    }

module _ (P : World → Type 0) (left right : FilePath) where
  -- A comparison and the exception on a difference.
  compared :
      Triple P
        (same_files left right none)
        (λ same w. P w × (same ≡ true → SameFiles left right w.files))
  compared = record {
    holds = λ w p same h.
        rw (same_files-keeps left right w)
          (p, λ e. same_files-SameFiles left right w (h ∙ ap ok e));
  }

  required :
      (same : Bool) (error : BootError)
      → Triple
          (λ w. P w × (same ≡ true → SameFiles left right w.files))
          (require same error)
          (λ _ w. P w × SameFiles left right w.files)
  required same error = record {
    holds = λ w (p, found) _ h.
        rw (require-keeps same error w) (p, found (require-returns same error w h));
  }

  compare_then :
      {B : Type 0} (error : BootError) (rest : Build B) (Q : B → World → Type 0)
      → Triple (λ w. P w × SameFiles left right w.files) rest Q
      → Triple P (same_files left right none >>= λ same. (require same error >> rest)) Q
  compare_then error rest Q done =
      Triple-bind P (λ same w. P w × (same ≡ true → SameFiles left right w.files)) Q _ _ compared
        (λ same.
          Triple-bind (λ w. P w × (same ≡ true → SameFiles left right w.files))
            (λ _ w. P w × SameFiles left right w.files) Q _ _ (required same error) (λ _. done))

module _ (host : Host) (options : Options) (inputs : Inputs) (payload_size : ℕ)
    (temporary : FilePath) where
  -- The unpacked ramdisk is the one that was given, or that of the stock image if none was.
  abbrev pub RamdiskKept : Option FilePath → Files → Type 0
  RamdiskKept (some ramdisk) files =
      SameFiles ramdisk (temporary / text "custom" / text "ramdisk") files
  RamdiskKept none files =
      SameFiles (temporary / text "stock" / text "ramdisk")
        (temporary / text "custom" / text "ramdisk") files

  ramdisk-RamdiskKept :
      (ramdisk : Option FilePath) (files : Files)
      → SameFiles
          (or_stock (temporary / text "stock") ramdisk)
          (temporary / text "custom" / text "ramdisk")
          files
      → RamdiskKept ramdisk files
  ramdisk-RamdiskKept (some ramdisk) files same = same
  ramdisk-RamdiskKept none files same = same

  -- The unpacked custom image holds what went in, and the device tree of the stock image.
  pub record IsRoundTrip (files : Files) : Type 0 where
    pub kernel : SameFiles inputs.kernel (temporary / text "custom" / text "kernel") files
    pub ramdisk : RamdiskKept inputs.ramdisk files
    pub dtb :
        SameFiles
          (temporary / text "stock" / text "dtb")
          (temporary / text "custom" / text "dtb")
          files

  abbrev pub Compared : Result BootError (Unit {0}) × World → Type 0
  Compared (ok _, w) = IsRoundTrip w.files
  Compared (err _, w) = Unit

  abbrev Anything : World → Type 0
  Anything w = Unit

  abbrev Kernel : World → Type 0
  Kernel w =
      Anything w × SameFiles inputs.kernel (temporary / text "custom" / text "kernel") w.files

  abbrev Ramdisk : World → Type 0
  Ramdisk w =
      Kernel w
      × SameFiles (or_stock (temporary / text "stock") inputs.ramdisk)
          (temporary / text "custom" / text "ramdisk") w.files

  abbrev Dtb : World → Type 0
  Dtb w =
      Ramdisk w
      × SameFiles (temporary / text "stock" / text "dtb") (temporary / text "custom" / text "dtb")
          w.files

  any_start :
      {A : Type 0} (m : Build A) (next : A → Build (Unit {0}))
      → ((a : A) → Triple Anything (next a) (λ _ w. IsRoundTrip w.files))
      → Triple Anything (m >>= next) (λ _ w. IsRoundTrip w.files)
  any_start m next rest =
      Triple-bind Anything (λ _. Anything) (λ _ w. IsRoundTrip w.files) m next
        (record { holds = λ w p a h. tt }) rest

  -- The check of the size changes nothing.
  fitting :
      (image : FilePath) (condition : Bytes → Bool) (error : BootError)
      → Triple Dtb
          (read image >>= λ bytes. require (condition bytes) error)
          (λ _ w. IsRoundTrip w.files)
  fitting image condition error =
      Triple-bind Dtb (λ _. Dtb) (λ _ w. IsRoundTrip w.files) (read image) _
        (record { holds = λ w p bytes h. rw (read-keeps image w) p })
        (λ bytes. record {
          holds = λ w (((_, kernel), ramdisk), dtb) _ h.
              rw (require-keeps (condition bytes) error w) (record {
                kernel = kernel;
                ramdisk = ramdisk-RamdiskKept inputs.ramdisk w.files ramdisk;
                dtb = dtb;
              });
        })

  check_custom-IsRoundTrip :
      (arguments : List Text)
      → Triple Anything
          (check_custom host options inputs payload_size temporary arguments)
          (λ _ w. IsRoundTrip w.files)
  unfolding check_custom
  check_custom-IsRoundTrip arguments =
      let Q : Unit {0} → World → Type 0 = λ _ w. IsRoundTrip w.files in
      any_start _ _ (λ unpacked. any_start _ _ (λ expected. any_start _ _ (λ found.
        any_start _ _ (λ _.
          compare_then Anything inputs.kernel (temporary / text "custom" / text "kernel")
            kernel_changed _ Q
            (compare_then Kernel (or_stock (temporary / text "stock") inputs.ramdisk)
              (temporary / text "custom" / text "ramdisk") ramdisk_changed _ Q
              (compare_then Ramdisk (temporary / text "stock" / text "dtb")
                (temporary / text "custom" / text "dtb") dtb_changed _ Q
                (fitting _ (λ bytes. leb (length bytes) payload_size) payload_too_large)))))))

  on_outcome :
      (r : Result BootError (Unit {0})) (w : World)
      → (r ≡ ok tt → IsRoundTrip w.files)
      → Compared (r, w)
  on_outcome (ok _) w h = h refl
  on_outcome (err e) w h = tt

  -- The checks of the custom image return only if, in the files as they are then, the unpacked
  -- kernel is the given one, the unpacked ramdisk the given one or else the one of the stock image,
  -- and the unpacked device tree the one of the stock image.
  pub check_custom-Compared :
      (arguments : List Text) (w : World)
      → Compared (check_custom host options inputs payload_size temporary arguments w)
  check_custom-Compared arguments w =
      on_outcome (check_custom host options inputs payload_size temporary arguments w).0
        (check_custom host options inputs payload_size temporary arguments w).1
        ((check_custom-IsRoundTrip arguments).holds w tt tt)

-- ===== src/Capture/Both/Quiet.antt =====
-- The file operations and the validation of scripts/capture-recovery-baseline.py start no process.
use oukitel_rt7_linux.Prelude.{
  Bool, true, false, List, [], ◌∷◌, Option, none, some, Result, ltb, list_eq, nat_eq, Bool-cases,
  inl, inr,
}
use oukitel_rt7_linux.Prelude.Exec.{Keeps, Keeps-pure, Keeps-raise, Keeps-bind, lift, gets}
use oukitel_rt7_linux.Python.Text.{Text}
use oukitel_rt7_linux.Python.Bytes.{Bytes}
use oukitel_rt7_linux.Python.Dict
use oukitel_rt7_linux.Python.Hash.{Hash}
use oukitel_rt7_linux.Python.Path.{FilePath, parent}
use oukitel_rt7_linux.Python.Files.{Node, file, directory, is_directory}
use oukitel_rt7_linux.Gpt.Defs.{GptInfo}
use oukitel_rt7_linux.Plan.{any_char}
use oukitel_rt7_linux.Capture.Defs.{Failure, CaptureError}
use oukitel_rt7_linux.Capture.Host.{
  Host, World, read, or_os_error, sha256_of, print, write_ascii, write_over, write_text,
}
use oukitel_rt7_linux.Capture.Both.{
  Collected, check_failures, check_same, hash_artifacts, check_pass, collect, write_manifests,
  validate_capture,
}

-- A property of the commands that were started.
module _ (P : List (List Text) → Type 0) where
  abbrev pub Commands : World → Type 0
  Commands w = P w.commands

  pub Keeps-gets : {A : Type 0} (f : World → A) → Keeps {E = CaptureError} Commands (gets f)
  Keeps-gets f = record { keeps = λ w p. p }

  pub Keeps-lift : {A : Type 0} (r : Result CaptureError A) → Keeps Commands (lift r)
  Keeps-lift r = record { keeps = λ w p. p }

  ruleset quiet = (Keeps-pure, Keeps-raise, Keeps-bind, Keeps-gets, Keeps-lift)

  pub Keeps-or_os_error : (path : FilePath) (o : Option Bytes) → Keeps Commands (or_os_error path o)
  Keeps-or_os_error path none = search quiet
  Keeps-or_os_error path (some bytes) = search quiet

  pub Keeps-read : (path : FilePath) → Keeps Commands (read path)
  unfolding read
  Keeps-read path = search (quiet, Keeps-or_os_error)

  pub Keeps-sha256_of : (hash : Hash) (path : FilePath) → Keeps Commands (sha256_of hash path)
  unfolding sha256_of
  Keeps-sha256_of hash path = search (quiet, Keeps-read)

  pub Keeps-print : (line : Text) → Keeps Commands (print line)
  unfolding print
  Keeps-print line = record { keeps = λ w p. p }

  Keeps-write_ascii : (path : FilePath) (content : Text) → Keeps Commands (write_ascii path content)
  Keeps-write_ascii path content = record {
    keeps = λ w p. elim (Bool-cases (any_char (λ c. ltb 127 c) content)) [
      | inl e ↦ rw e p
      | inr e ↦ rw e p
    ];
  }

  Commands-write_over :
      (path : FilePath) (content : Text) (o : Option Node) (w : World)
      → Commands w
      → Commands (write_over path content o w).1
  Commands-write_over path content (some directory) w p = p
  Commands-write_over path content (some (file _)) w p = (Keeps-write_ascii path content).keeps w p
  Commands-write_over path content none w p =
      elim (Bool-cases (is_directory w.files (parent path))) [
        | inl e ↦ rw e ((Keeps-write_ascii path content).keeps w p)
        | inr e ↦ rw e p
      ]

  pub Keeps-write_text :
      (path : FilePath) (content : Text) → Keeps Commands (write_text path content)
  unfolding write_text
  Keeps-write_text path content = record {
    keeps = λ w p. Commands-write_over path content (Dict.lookup path w.files) w p;
  }

  Keeps-check_failures : (failures : List Failure) → Keeps Commands (check_failures failures)
  Keeps-check_failures [] = search quiet
  Keeps-check_failures (failure ∷ failures) = search quiet

  module _ (host : Host) (output : FilePath) where
    Keeps-check_same : (same : Bool) → Keeps Commands (check_same host output same)
    Keeps-check_same true = search quiet
    Keeps-check_same false = search quiet

    Keeps-check_pass : (pass : Text) → Keeps Commands (check_pass host output pass)
    unfolding check_pass
    Keeps-check_pass pass = record { keeps = λ w p. p }

    Keeps-hash_artifacts : (names : List Text) → Keeps Commands (hash_artifacts host output names)
    unfolding hash_artifacts
    Keeps-hash_artifacts [] = search quiet
    Keeps-hash_artifacts (name ∷ names) =
        Keeps-bind Commands _ _ (Keeps-sha256_of host.hash _) (λ digest1.
          Keeps-bind Commands _ _ (Keeps-sha256_of host.hash _) (λ digest2.
            Keeps-bind Commands _ _ (Keeps-read _) (λ bytes.
              Keeps-bind Commands _ _ (Keeps-hash_artifacts names)
                (λ rest. Keeps-pure Commands _))))

    Keeps-collect : Keeps Commands (collect host output)
    unfolding collect
    Keeps-collect =
        search
          (quiet, Keeps-check_pass, Keeps-check_same, Keeps-hash_artifacts, Keeps-check_failures)
          depth 20

    Keeps-write_manifests :
        (checked : GptInfo × Collected) → Keeps Commands (write_manifests host output checked)
    unfolding write_manifests
    Keeps-write_manifests (gpt, collected) = search (quiet, Keeps-write_text, Keeps-print) depth 20

    pub Keeps-validate_capture : Keeps Commands (validate_capture host output)
    unfolding validate_capture
    Keeps-validate_capture =
        Keeps-bind Commands _ _ Keeps-collect (λ checked. Keeps-write_manifests checked)

-- ===== src/Capture/Both/Raised.antt =====
-- What the parts of `validate_capture` may raise.
use oukitel_rt7_linux.Prelude.{
  ◌≡◌, ap, Bool, List, [], ◌∷◌, ◌++◌, Option, none, some, ltb, list_eq, nat_eq, Result, ok, err,
  Bool-cases, Option-cases, inl, inr, ◌>>=◌,
}
use oukitel_rt7_linux.Prelude.Exec.{gets}
use oukitel_rt7_linux.Prelude.Raises.{Raises, Raises-bind, Raises-pure, Raises-gets}
use oukitel_rt7_linux.Python.Text.{Text, text}
use oukitel_rt7_linux.Python.Bytes.{Bytes}
use oukitel_rt7_linux.Python.Dict
use oukitel_rt7_linux.Python.Dict.{Dict}
use oukitel_rt7_linux.Python.Hash.{Hash}
use oukitel_rt7_linux.Python.Json.{dumps}
use oukitel_rt7_linux.Python.Path.{FilePath, parent, ◌/◌}
use oukitel_rt7_linux.Python.Files.{Node, file, directory, is_directory, read_bytes}
use oukitel_rt7_linux.Plan.{any_char}
use oukitel_rt7_linux.Gpt.Defs.{GptInfo}
use oukitel_rt7_linux.Capture.Defs.{
  Failure, CaptureError, os_error, key_error, encode_error, passes_differ, validation_failed,
}
use oukitel_rt7_linux.Capture.Pass.{pass_result, validate_capture_pass}
use oukitel_rt7_linux.Capture.Host.{
  Host, World, or_os_error, read, sha256_of, print, write_ascii, write_over, write_text,
}
use oukitel_rt7_linux.Capture.Manifest.{
  Artifact, capture_manifest, same_digest, slotted, compare_bases, compare_slots,
}
use oukitel_rt7_linux.Capture.Both.{
  Collected, check_failures, check_pass, hash_artifacts, write_manifests,
}

-- An exception of the writing: an artifact is not there to compare, or a file cannot be written.
abbrev pub CannotWrite : CaptureError → Type 0
CannotWrite (os_error path) = Unit
CannotWrite (key_error name) = Unit
CannotWrite (encode_error path) = Unit
CannotWrite _ = ⊥

abbrev pub NotDiffer : CaptureError → Type 0
NotDiffer passes_differ = ⊥
NotDiffer _ = Unit

module _ (artifacts : Dict Text Artifact) where
  same_digest-CannotWrite :
      (a b : Text) (e : CaptureError) → same_digest artifacts a b ≡ err e → CannotWrite e
  unfolding same_digest
  same_digest-CannotWrite a b e h = elim (Option-cases (Dict.lookup a artifacts)) [
    | inl x ↦ let same : key_error a ≡ e = cc (rw x at h) in rw (← same) tt
    | inr (x, there) ↦ elim (Option-cases (Dict.lookup b artifacts)) [
      | inl y ↦ let same : key_error b ≡ e = cc (rw (there, y) at h) in rw (← same) tt
      | inr (y, there') ↦ cc (rw (there, there') at h)
    ]
  ]

  and_then :
      {A B : Type 0} (r : Result CaptureError A) (next : A → Result CaptureError B)
      → ((e : CaptureError) → r ≡ err e → CannotWrite e)
      → ((a : A) (e : CaptureError) → next a ≡ err e → CannotWrite e)
      → (e : CaptureError) → (r >>= next) ≡ err e
      → CannotWrite e
  and_then (ok a) next first rest e h = rest a e h
  and_then (err x) next first rest e h = let same : x ≡ e = cc in first e (ap err same)

  compare_bases-CannotWrite :
      (bases : List Text) (e : CaptureError) → compare_bases artifacts bases ≡ err e → CannotWrite e
  unfolding compare_bases
  compare_bases-CannotWrite [] e h =
      and_then (same_digest artifacts (text "preloader_lu0.bin") (text "preloader_lu1.bin")) _
        (same_digest-CannotWrite _ _) (λ same x h'. cc) e h
  compare_bases-CannotWrite (base ∷ bases) e h =
      and_then (same_digest artifacts _ _) _ (same_digest-CannotWrite _ _)
        (λ same x h'.
          and_then (compare_bases artifacts bases) _ (compare_bases-CannotWrite bases)
            (λ rest y h''. cc) x h')
        e h

  compare_slots-CannotWrite : (e : CaptureError) → compare_slots artifacts ≡ err e → CannotWrite e
  unfolding compare_slots
  compare_slots-CannotWrite e h = compare_bases-CannotWrite slotted e h

write_ascii-CannotWrite :
    (path : FilePath) (content : Text) (w : World) → Raises CannotWrite (write_ascii path content) w
write_ascii-CannotWrite path content w = elim (Bool-cases (any_char (λ c. ltb 127 c) content)) [
  | inl b ↦ record {
    raised = λ e h. let same : encode_error path ≡ e = cc (rw b at h) in rw (← same) tt;
  }
  | inr b ↦ record { raised = λ e h. cc (rw b at h) }
]

write_over-CannotWrite :
    (path : FilePath) (content : Text) (o : Option Node) (w : World)
    → Raises CannotWrite (write_over path content o) w
write_over-CannotWrite path content (some directory) w = record {
  raised = λ e h. let same : os_error path ≡ e = cc in rw (← same) tt;
}
write_over-CannotWrite path content (some (file _)) w = record {
  raised = (write_ascii-CannotWrite path content w).raised;
}
write_over-CannotWrite path content none w =
    elim (Bool-cases (is_directory w.files (parent path))) [
      | inl there ↦ record {
        raised = λ e h. (write_ascii-CannotWrite path content w).raised e (rw there at h);
      }
      | inr gone ↦ record {
        raised = λ e h. let same : os_error path ≡ e = cc (rw gone at h) in rw (← same) tt;
      }
    ]

write_text-CannotWrite :
    (path : FilePath) (content : Text) (w : World) → Raises CannotWrite (write_text path content) w
unfolding write_text
write_text-CannotWrite path content w = record {
  raised = (write_over-CannotWrite path content (Dict.lookup path w.files) w).raised;
}

print-CannotWrite : (line : Text) (w : World) → Raises CannotWrite (print line) w
unfolding print
print-CannotWrite line w = record { raised = λ e h. cc }

module _ (host : Host) (output : FilePath) where
  pub write_manifests-CannotWrite :
      (checked : GptInfo × Collected) (w : World)
      → Raises CannotWrite (write_manifests host output checked) w
  unfolding write_manifests
  write_manifests-CannotWrite (gpt, collected) w =
      let P = CannotWrite in
      let sums = write_text-CannotWrite (output / text "SHA256SUMS.txt") collected.checksum_lines in
      let listed = λ (slots : Dict Text Bool).
        write_text-CannotWrite (output / text "capture-manifest.json")
          (dumps (capture_manifest collected.artifacts gpt slots) ++ 10 ∷ []) in
      Raises-bind P _ _ w (record { raised = compare_slots-CannotWrite collected.artifacts })
        (λ slots _. Raises-bind P _ _ _ (sums w) (λ _ _.
          Raises-bind P _ _ _ (listed slots _) (λ _ _.
            Raises-bind P _ _ _ (print-CannotWrite _ _)
              (λ _ _. Raises-bind P _ _ _ (print-CannotWrite _ _) (λ _ _. print-CannotWrite _ _)))))

  pub check_pass-NotDiffer :
      (pass : Text) (w : World) → Raises NotDiffer (check_pass host output pass) w
  unfolding check_pass validate_capture_pass pass_result
  check_pass-NotDiffer pass w = record { raised = λ e h. of_result _ _ e h }
    where
      of_result :
          (failures : List Failure) (o : Option GptInfo) (e : CaptureError)
          → pass_result failures o ≡ err e
          → NotDiffer e
      of_result (failure ∷ failures) o passes_differ h = cc
      of_result (failure ∷ failures) o _ h = tt
      of_result [] none passes_differ h = cc
      of_result [] none _ h = tt
      of_result [] (some gpt) e h = cc

  or_os_error-NotDiffer :
      (path : FilePath) (o : Option Bytes) (w : World) → Raises NotDiffer (or_os_error path o) w
  or_os_error-NotDiffer path none w = record {
    raised = λ e h. let same : os_error path ≡ e = cc in rw (← same) tt;
  }
  or_os_error-NotDiffer path (some bytes) w = record { raised = λ e h. cc }

  read-NotDiffer : (path : FilePath) (w : World) → Raises NotDiffer (read path) w
  unfolding read
  read-NotDiffer path w =
      Raises-bind NotDiffer (gets (λ (v : World). read_bytes v.files path)) _ w
        (Raises-gets NotDiffer (λ (v : World). read_bytes v.files path) w)
        (λ o _. or_os_error-NotDiffer path o w)

  sha256_of-NotDiffer :
      (hash : Hash) (path : FilePath) (w : World) → Raises NotDiffer (sha256_of hash path) w
  unfolding sha256_of
  sha256_of-NotDiffer hash path w =
      Raises-bind NotDiffer (read path) _ w (read-NotDiffer path w)
        (λ bytes _. Raises-pure NotDiffer _ _)

  pub hash_artifacts-NotDiffer :
      (names : List Text) (w : World) → Raises NotDiffer (hash_artifacts host output names) w
  unfolding hash_artifacts
  hash_artifacts-NotDiffer [] w = record { raised = λ e h. cc }
  hash_artifacts-NotDiffer (name ∷ names) w =
      let P = NotDiffer in
      Raises-bind P _ _ w (sha256_of-NotDiffer _ _ _) (λ _ _.
        Raises-bind P _ _ _ (sha256_of-NotDiffer _ _ _) (λ _ _.
          Raises-bind P _ _ _ (read-NotDiffer _ _) (λ _ _.
            Raises-bind P _ _ _ (hash_artifacts-NotDiffer names _) (λ rest _. Raises-pure P _ _))))

  pub check_failures-NotDiffer :
      (failures : List Failure) (w : World) → Raises NotDiffer (check_failures failures) w
  check_failures-NotDiffer [] w = record { raised = λ e h. cc }
  check_failures-NotDiffer (failure ∷ failures) w = record {
    raised = λ e h. let same : validation_failed (failure ∷ failures) ≡ e = cc in rw (← same) tt;
  }

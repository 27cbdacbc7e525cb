-- ===== src/Plan/Allowlist.antt =====
-- The allowlist accepts the plan that `build_plan` makes, and no other.
use mathlib.Core.List.{flat_map}
use oukitel_rt7_linux.Prelude.{
  ◌≡◌, refl, sym, ap, ap₂, ◌∙◌, ◌↔◌, false, List, [], ◌∷◌, ◌++◌, map, arith, ok, contains, list_eq,
  nat_eq, list_beq_iff, All, All-append,
}
use oukitel_rt7_linux.Python.Text.{Text, text}
use oukitel_rt7_linux.Python.Text.Split.{
  split, join, Lacks, join-split, split-join, split-Lacks, contains-append,
}
use oukitel_rt7_linux.Python.Dict.{keys}
use oukitel_rt7_linux.Python.Path.{FilePath, ◌/◌, path_str, contains-path_str}
use oukitel_rt7_linux.Plan.{
  space, bin, capture_passes, partitions, read_command, pass_plan, build_plan, pass_words,
  expected_words, validate_read_only_plan,
}

abbrev unwords : List (List Text) → List Text
unwords = map (join space)

map-append : (xs ys : List (List Text)) → unwords (xs ++ ys) ≡ unwords xs ++ unwords ys
map-append [] ys = refl
map-append (x ∷ xs) ys = ap (λ l. join space x ∷ l) (map-append xs ys)

unwords-reads :
    (pass_output : FilePath) (names : List Text)
    → unwords (map (λ name. text "r" ∷ name ∷ path_str (pass_output / bin name) ∷ []) names)
      ≡ map (read_command pass_output) names
unfolding read_command join
unwords-reads pass_output [] = refl
unwords-reads pass_output (name ∷ names) =
    ap (λ l. read_command pass_output name ∷ l) (unwords-reads pass_output names)

unwords-pass_words :
    (pass_output : FilePath) (names : List Text)
    → unwords (pass_words pass_output names) ≡ pass_plan pass_output names
unfolding pass_words pass_plan join
unwords-pass_words pass_output names =
    rw (map-append (map (λ name. text "r" ∷ name ∷ path_str (pass_output / bin name) ∷ []) names))
      (rw (unwords-reads pass_output names) refl)

unwords-passes :
    (output : FilePath) (names passes : List Text)
    → unwords (flat_map (λ pass_name. pass_words (output / pass_name) names) passes)
      ≡ flat_map (λ pass_name. pass_plan (output / pass_name) names) passes
unfolding flat_map
unwords-passes output names [] = refl
unwords-passes output names (p ∷ passes) =
    rw (map-append (pass_words (output / p) names))
      (rw (unwords-pass_words (output / p) names) (rw (unwords-passes output names passes) refl))

unwords-expected_words : (output : FilePath) → unwords (expected_words output) ≡ build_plan output
unfolding expected_words build_plan
unwords-expected_words output = unwords-passes output (keys partitions) capture_passes

-- A command's words, none of which holds a space.
abbrev IsWords : List Text → Type 0
IsWords [] = ⊥
IsWords (w ∷ ws) = All (Lacks space) (w ∷ ws)

split_words :
    (commands : List (List Text))
    → All IsWords commands
    → map (split space) (unwords commands) ≡ commands
split_words [] h = refl
split_words ([] ∷ commands) h = absurd h.0
split_words ((w ∷ ws) ∷ commands) h =
    ap₂ (λ a b. a ∷ b) (split-join space w ws h.0) (split_words commands h.1)

unwords-split : (plan : List Text) → unwords (map (split space) plan) ≡ plan
unwords-split [] = refl
unwords-split (command ∷ plan) = ap₂ (λ a b. a ∷ b) (join-split space command) (unwords-split plan)

split-IsWords : (plan : List Text) → All (All (Lacks space)) (map (split space) plan)
split-IsWords [] = tt
split-IsWords (command ∷ plan) = (split-Lacks space command, split-IsWords plan)

child-Lacks :
    (path : FilePath) (name : Text)
    → Lacks space (path_str path)
    → Lacks space name
    → Lacks space (path_str (path / name))
child-Lacks path name h k =
    rw (contains-path_str path name space (unfold contains in refl)) (ground arith)

module _ (pass_output : FilePath) (clean : Lacks space (path_str pass_output)) where
  reads-IsWords :
      (names : List Text)
      → All (Lacks space) names
      → All IsWords (map (λ name. text "r" ∷ name ∷ path_str (pass_output / bin name) ∷ []) names)
  reads-IsWords [] h = tt
  reads-IsWords (name ∷ names) h = (
    (
      unfold contains in refl,
      (
        h.0,
        (
          child-Lacks pass_output (bin name) clean
              (rw (contains-append name (text ".bin") space) (rw (h.0) (unfold contains in refl))),
          tt,
        ),
      ),
    ),
    reads-IsWords names h.1,
  )

  pass_words-IsWords :
      (names : List Text) → All (Lacks space) names → All IsWords (pass_words pass_output names)
  unfolding pass_words contains
  pass_words-IsWords names h = (
    (refl, (clean, tt)),
    All-append IsWords _ _ (reads-IsWords names h) (
      (
        refl,
        (
          refl,
          (
            refl,
            (child-Lacks pass_output (text "preloader_lu0.bin") clean refl, (refl, (refl, tt))),
          ),
        ),
      ),
      (
        (
          refl,
          (
            refl,
            (
              refl,
              (child-Lacks pass_output (text "preloader_lu1.bin") clean refl, (refl, (refl, tt))),
            ),
          ),
        ),
        tt,
      ),
    ),
  )

partitions-Lacks : All (Lacks space) (keys partitions)
unfolding partitions keys contains
partitions-Lacks = (
  refl,
  (
    refl,
    (
      refl,
      (
        refl,
        (
          refl,
          (
            refl,
            (
              refl,
              (refl, (refl, (refl, (refl, (refl, (refl, (refl, (refl, (refl, (refl, tt)))))))))),
            ),
          ),
        ),
      ),
    ),
  ),
)

expected_words-IsWords :
    (output : FilePath) → Lacks space (path_str output) → All IsWords (expected_words output)
unfolding expected_words flat_map
expected_words-IsWords output h =
    let names = keys partitions in
    let one = pass_words (output / text "pass1") names in
    let two = pass_words (output / text "pass2") names in
    All-append IsWords one (two ++ []) (pass (text "pass1") (unfold contains in refl))
      (All-append IsWords two [] (pass (text "pass2") (unfold contains in refl)) tt)
  where
    pass :
        (name : Text)
        → Lacks space name
        → All IsWords (pass_words (output / name) (keys partitions))
    pass name k =
        pass_words-IsWords (output / name) (child-Lacks output name h k) (keys partitions)
          partitions-Lacks

-- The first command names the directory of the first pass.
Lacks-output :
    (output : FilePath)
    → All (All (Lacks space)) (expected_words output)
    → Lacks space (path_str output)
unfolding expected_words flat_map pass_words
Lacks-output output h =
    ground (arith, contains-path_str output (text "pass1") space (unfold contains in refl), h.0.1.0)

pub validate_read_only_plan-eq-ok :
    (plan : List Text) (output : FilePath)
    → (validate_read_only_plan plan output ≡ ok tt)
      ↔ (map (split space) plan ≡ expected_words output)
unfolding validate_read_only_plan
validate_read_only_plan-eq-ok plan output =
    ground (arith, list_beq_iff (map (split space) plan) (expected_words output))

-- The allowlist accepts exactly the plan of `build_plan`, and that only where the output
-- directory's path holds no space.
pub validate_read_only_plan_iff :
    (plan : List Text) (output : FilePath)
    → (validate_read_only_plan plan output ≡ ok tt)
      ↔ ((plan ≡ build_plan output) × (contains (path_str output) space ≡ false))
validate_read_only_plan_iff plan output = (
  λ h.
      let e = (validate_read_only_plan-eq-ok plan output).0 h in
      (
        sym (unwords-split plan) ∙ ap unwords e ∙ unwords-expected_words output,
        Lacks-output output (rw e at (split-IsWords plan)),
      ),
  λ (e, clean). (validate_read_only_plan-eq-ok plan output).1 (
      rw e (
        rw (← (unwords-expected_words output))
          (split_words (expected_words output) (expected_words-IsWords output clean)))),
)

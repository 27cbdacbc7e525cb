-- ===== src/Capture/Main/Commands.antt =====
-- Which processes scripts/capture-recovery-baseline.py starts.
use oukitel_rt7_linux.Prelude.{
  ℕ, zero, suc, ◌==◌, ◌≡◌, ◌⊎◌, inl, inr, refl, Bool, true, false, List, [], ◌∷◌, ◌++◌, Option,
  none, some, Result, ok, err, All, All-append, Bool-cases, list_eq, nat_eq,
}
use oukitel_rt7_linux.Prelude.Exec.{Keeps, Keeps-pure, Keeps-raise, Keeps-bind, ◌>>◌, pure, gets}
use oukitel_rt7_linux.Python.Text.{Text}
use oukitel_rt7_linux.Python.Dict
use oukitel_rt7_linux.Python.Text.Split.{join}
use oukitel_rt7_linux.Python.Hash.{Hash}
use oukitel_rt7_linux.Python.Path.{FilePath}
use oukitel_rt7_linux.Python.Files.{Node, file, directory, exists}
use oukitel_rt7_linux.Plan.{PlanError}
use oukitel_rt7_linux.Capture.Defs.{CaptureError, mtkclient_failed}
use oukitel_rt7_linux.Capture.Host.{Host, World, Capture, read, sha256_of, print, write_text}
use oukitel_rt7_linux.Capture.Tool.{
  require, git_command, probe_command, read_text, or_decode_error, start, check_status, checked,
  validate_tool,
}
use oukitel_rt7_linux.Capture.Both.{validate_capture}
use oukitel_rt7_linux.Capture.Both.Quiet.{
  Commands, Keeps-gets, Keeps-read, Keeps-sha256_of, Keeps-print, Keeps-write_text,
  Keeps-validate_capture,
}
use oukitel_rt7_linux.Capture.Main.{
  Options, or_refuse, make_new, keep_directory, make_parents, make_output, print_commands,
  mtk_command, execute_plan, finish, check_inputs, main,
}

module _ (host : Host) (options : Options) where
  -- The two checks of the tool, and mtkclient with the plan if the options say so.
  abbrev pub IsAllowed : List Text → Type 0
  IsAllowed command =
      ((mtk_root : FilePath) × (command ≡ git_command mtk_root))
      ⊎ ((command ≡ probe_command host.python)
          ⊎ ((options.execute ≡ true)
              × ((mtk_root : FilePath) × (preloader : FilePath) × (output : FilePath) × (command
                    ≡ mtk_command host options mtk_root preloader output))))

  abbrev pub AllAllowed : List (List Text) → Type 0
  AllAllowed commands = All IsAllowed commands

  abbrev Kept : {A : Type 0} → Capture A → Type 0
  Kept m = Keeps (Commands AllAllowed) m

  Kept-gets : {A : Type 0} (f : World → A) → Kept (gets f)
  Kept-gets = Keeps-gets AllAllowed

  Kept-read : (path : FilePath) → Kept (read path)
  Kept-read = Keeps-read AllAllowed

  Kept-sha256_of : (hash : Hash) (path : FilePath) → Kept (sha256_of hash path)
  Kept-sha256_of = Keeps-sha256_of AllAllowed

  Kept-print : (line : Text) → Kept (print line)
  Kept-print = Keeps-print AllAllowed

  Kept-write_text : (path : FilePath) (content : Text) → Kept (write_text path content)
  Kept-write_text = Keeps-write_text AllAllowed

  Kept-require : (b : Bool) (e : CaptureError) → Kept (require b e)
  Kept-require true e = Keeps-pure (Commands AllAllowed) tt
  Kept-require false e = Keeps-raise (Commands AllAllowed) e

  ruleset rules = (
    Keeps-pure, Keeps-raise, Keeps-bind, Kept-gets, Kept-read, Kept-sha256_of, Kept-print,
    Kept-write_text, Kept-require,
  )

  Kept-start :
      (command : List Text) (place : Option FilePath)
      → IsAllowed command
      → Kept (start host command place)
  unfolding start
  Kept-start command place h = record {
    keeps = λ w p. All-append IsAllowed w.commands (command ∷ []) p (h, tt);
  }

  Kept-checked :
      (command : List Text) (place : Option FilePath)
      → IsAllowed command
      → Kept (checked host command place)
  unfolding checked
  Kept-checked command place h =
      Keeps-bind (Commands AllAllowed) _ _ (Kept-start command place h) status
    where
      status : (done : ℕ × Text) → Kept (check_status host done)
      status (zero, out) = search rules
      status (suc n, out) = search rules

  Kept-read_text : (path : FilePath) → Kept (read_text path)
  unfolding read_text
  Kept-read_text path =
      Keeps-bind (Commands AllAllowed) _ _ (Keeps-read AllAllowed path) (λ bytes. decoded _)
    where
      decoded : (o : Option Text) → Kept (or_decode_error path o)
      decoded none = search rules
      decoded (some s) = search rules

  Kept-validate_tool : (mtk_root : FilePath) → Kept (validate_tool host mtk_root)
  unfolding validate_tool
  Kept-validate_tool mtk_root =
      Keeps-bind (Commands AllAllowed) _ _
        (Kept-checked (git_command mtk_root) none (inl (mtk_root, refl)))
        (λ out. Keeps-bind (Commands AllAllowed) _ _ (Kept-require _ _) (λ _.
          Keeps-bind (Commands AllAllowed) _ _
            (Kept-checked (probe_command host.python) (some mtk_root) (inr (inl refl)))
            (λ _. search (rules, Kept-read_text) depth 20)))

  Kept-make_new : (path : FilePath) → Kept (make_new path)
  unfolding make_new
  Kept-make_new path = record {
    keeps = λ w p. elim (Bool-cases (exists w.files path)) [ inl e ↦ rw e p | inr e ↦ rw e p ];
  }

  Kept-make_parents : (paths : List FilePath) → Kept (make_parents paths)
  unfolding make_parents
  Kept-make_parents [] = search rules
  Kept-make_parents ([] ∷ paths) = Kept-make_parents paths
  Kept-make_parents ((name ∷ path) ∷ paths) =
      Keeps-bind (Commands AllAllowed) _ _
        (record { keeps = λ w p. one (Dict.lookup (name ∷ path) w.files) w p })
        (λ _. Kept-make_parents paths)
    where
      one :
          (o : Option Node) (w : World)
          → AllAllowed w.commands
          → AllAllowed (keep_directory (name ∷ path) o w).1.commands
      one (some directory) w p = p
      one (some (file _)) w p = p
      one none w p = p

  Kept-make_output : (output : FilePath) → Kept (make_output output)
  unfolding make_output
  Kept-make_output output = search (rules, Kept-make_parents, Kept-make_new) depth 20

  Kept-print_commands : (plan : List Text) → Kept (print_commands plan)
  unfolding print_commands
  Kept-print_commands [] = search rules
  Kept-print_commands (command ∷ plan) =
      Keeps-bind (Commands AllAllowed) _ _ (Kept-print _) (λ _. Kept-print_commands plan)

  Kept-or_refuse : {A : Type 0} (r : Result PlanError A) → Kept (or_refuse r)
  Kept-or_refuse (ok a) = search rules
  Kept-or_refuse (err e) = search rules

  Kept-execute_plan :
      (mtk_root preloader output : FilePath) (plan : List Text)
      → options.execute ≡ true
      → Kept (execute_plan host options mtk_root preloader output plan)
  unfolding execute_plan
  Kept-execute_plan mtk_root preloader output plan h =
      Keeps-bind (Commands AllAllowed) _ _ (Kept-make_output output) (λ _.
        Keeps-bind (Commands AllAllowed) _ _ (Kept-make_new _) (λ _.
          Keeps-bind (Commands AllAllowed) _ _ (Kept-make_new _) (λ _.
            Keeps-bind (Commands AllAllowed) _ _ (Kept-write_text _ (join 10 plan ++ 10 ∷ [])) (λ _.
              Keeps-bind (Commands AllAllowed) _ _
                (Kept-start (mtk_command host options mtk_root preloader output) (some output)
                  (inr (inr (h, (mtk_root, preloader, output, refl)))))
                (λ done. validated done.0)))))
    where
      validated :
          (status : ℕ)
          → Kept {A = ℕ} (
              require (status == 0) (mtkclient_failed status)
              >> (validate_capture host output >> pure 0))
      validated status =
          Keeps-bind (Commands AllAllowed) _ _
            (Kept-require (status == 0) (mtkclient_failed status))
            (λ _.
              Keeps-bind (Commands AllAllowed) _ _ (Keeps-validate_capture AllAllowed host output)
                (λ _. Keeps-pure (Commands AllAllowed) 0))

  Kept-finish :
      (mtk_root preloader output : FilePath) (plan : List Text) (execute : Bool)
      → options.execute ≡ execute
      → Kept (finish host options mtk_root preloader output plan execute)
  Kept-finish mtk_root preloader output plan true h =
      Kept-execute_plan mtk_root preloader output plan h
  Kept-finish mtk_root preloader output plan false h = search rules

  Kept-finished :
      (mtk_root preloader output : FilePath) (plan : List Text)
      → Kept (finish host options mtk_root preloader output plan options.execute)
  Kept-finished mtk_root preloader output plan =
      Kept-finish mtk_root preloader output plan options.execute refl

  Kept-check_inputs :
      (mtk_root preloader output : FilePath)
      → Kept (check_inputs host options mtk_root preloader output)
  unfolding check_inputs
  Kept-check_inputs mtk_root preloader output = search (rules, Kept-validate_tool) depth 20

  Kept-main : Kept (main host options)
  unfolding main
  Kept-main =
      search (rules, Kept-or_refuse, Kept-check_inputs, Kept-print_commands, Kept-finished) depth 30

  -- Whatever the options and the outcome, a run that begins with no commands noted starts no process
  -- but git to read the commit, the interpreter to check the configuration of the chip and, only
  -- with `--execute`, mtkclient with the file of the plan.
  pub main-IsAllowed :
      (w : World) → w.commands ≡ [] → All IsAllowed (main host options w).1.commands
  main-IsAllowed w fresh = Kept-main.keeps w (rw fresh tt)

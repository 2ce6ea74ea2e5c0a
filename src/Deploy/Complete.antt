-- ===== src/Deploy/Complete.antt =====
-- What stands in a container behind a deployment, by the documented behaviour of the commands that
-- the deployment runs there.
use mathlib.Core.Path.{subst⁻¹}
use chaosblade_operator.Base.{
  String, ◌==◌, ◌≡◌, refl, ap, ◌∙◌, arith, eq_iff, inl, inr, Bool, true, false, ◌||◌, Option, none,
  some, List, [], ◌∷◌, All, path_dir, trim_space, Bool-cases, Option-cases, if◌then◌else◌,
}
use chaosblade_operator.Api.{Response}
use chaosblade_operator.Channel.{Stream, Streamed, ExecOptions, IsQuiet, decide, exec}
use chaosblade_operator.Model.Flags.{ExpModel}
use chaosblade_operator.Model.Identifier.{ContainerObjectMeta}
use chaosblade_operator.Commands.Defs.{get_target_chaosblade_path}
use chaosblade_operator.Deploy.Defs.{
  DeployOptions, copy_options, get_deploy_mode, operator_path, options_for, tar_command,
  strip_slash, check_file_exists, create_dir, copy_to_pod, deploy_to_pod,
}
use chaosblade_operator.Deploy.Blade.{
  Target, deploy_files, deploy_chaos_blade, options_of, target_of, answer,
}
use chaosblade_operator.Deploy.Leaves.{
  IsContainer, AreSupplied, IsRefusal, required, Leaves-deploy_files, deploy_files_there,
}

-- The documented behaviour of the commands `test -e`, `mkdir -p` and `tar -x` in a container, where
-- `supplies archive dir file` says that the archive, unpacked in the directory, leaves the file.
-- Without an error, `test` finds what is there, `mkdir` leaves the directory and `tar` what the archive
-- supplies; none of them takes a file away, and `test` changes nothing.
pub record IsShell {W : Type 0} (stream : Stream W) (o : DeployOptions) (holds : W → String → Bool)
    (supplies : String → String → String → Type 0) : Type 0 where
  pub test_still :
      (f : String) (w : W)
      → (stream (options_for stream o ("test" ∷ "-e" ∷ f ∷ []) none true) w).1 ≡ w
  pub test_finds :
      (f : String) (w : W)
      → holds w f ≡ true
      → IsQuiet (stream (options_for stream o ("test" ∷ "-e" ∷ f ∷ []) none true) w).0
  pub test_misses :
      (f : String) (w : W)
      → IsQuiet (stream (options_for stream o ("test" ∷ "-e" ∷ f ∷ []) none true) w).0
      → holds w f ≡ true
  pub mkdir_makes :
      (d : String) (w : W)
      → let (s, w') = stream (options_for stream o ("mkdir" ∷ "-p" ∷ d ∷ []) none true) w in
        IsQuiet s → holds w' d ≡ true
  pub mkdir_keeps :
      (d f : String) (w : W)
      → holds w f ≡ true
      → holds (stream (options_for stream o ("mkdir" ∷ "-p" ∷ d ∷ []) none true) w).1 f ≡ true
  pub tar_unpacks :
      (archive dir f : String) (w : W)
      → supplies archive dir f
      → let (s, w') = stream (options_for stream o (tar_command dir) (some archive) true) w in
        IsQuiet s → holds w' f ≡ true
  pub tar_keeps :
      (archive dir f : String) (w : W)
      → holds w f ≡ true
      → holds (stream (options_for stream o (tar_command dir) (some archive) true) w).1 f ≡ true

-- A command that only reports errors reports none exactly if it is quiet.
abbrev silent : ExecOptions → Streamed → Option String
silent = decide (λ e. some e) (λ out. none)

silent-IsQuiet : (options : ExecOptions) (s : Streamed) → silent options s ≡ none → IsQuiet s
unfolding decide
silent-IsQuiet options s h = elim (Bool-cases (trim_space s.errput == "")) [
  | inr loud ↦ absurd (ground arith)
  | inl blank ↦ elim (Option-cases s.error) [
    | inl fine ↦ record { no_errput = (eq_iff (trim_space s.errput) "").0 blank; no_error = fine }
    | inr (e, failed) ↦ absurd (ground arith)
  ]
]

IsQuiet-silent :
    (options : ExecOptions) (s : Streamed)
    → options.ignore_output ≡ true
    → IsQuiet s
    → silent options s ≡ none
unfolding decide
IsQuiet-silent options s ignored quiet =
    ground (arith, quiet.no_errput, quiet.no_error, eq_iff (trim_space s.errput) "")

module _ {W : Type 0} (stream : Stream W) (tar : String → String → String) (default_url : String)
    (c : ContainerObjectMeta) (holds : W → String → Bool)
    (supplies : String → String → String → Type 0)
    (shell : IsShell stream (options_of stream tar default_url c) holds supplies) where
  open shell use {
    test_still, test_finds, test_misses, mkdir_makes, mkdir_keeps, tar_unpacks, tar_keeps,
  }

  abbrev o : DeployOptions
  o = options_of stream tar default_url c

  -- The archive that is made of a file of the operator, unpacked where the copy unpacks it, leaves the
  -- file of the container.
  abbrev pub IsSupplied : String → String → Type 0
  IsSupplied src dest = supplies (tar src (strip_slash dest)) (path_dir (strip_slash dest)) dest

  abbrev copied : Target W
  copied = target_of stream tar default_url copy_options c

  abbrev command : List String → Option String → ExecOptions
  command args stdin = options_for stream o args stdin true

  -- Behind a guard that refuses.
  guarded :
      (b : Bool) (e : String) (w : W) (x : Option String × W) (f : String)
      → (x.0 ≡ none → holds x.1 f ≡ true)
      → (if b then (some e, w) else x).0 ≡ none
      → holds (if b then (some e, w) else x).1 f ≡ true
  guarded true e w x f h k = absurd (cc)
  guarded false e w x f h k = h k

  guarded_keeps :
      (b : Bool) (e : String) (w : W) (x : Option String × W) (f : String)
      → holds w f ≡ true
      → holds x.1 f ≡ true
      → holds (if b then (some e, w) else x).1 f ≡ true
  guarded_keeps true e w x f h k = h
  guarded_keeps false e w x f h k = k

  copied-IsContainer : IsContainer copied holds IsSupplied
  unfolding check_file_exists create_dir deploy_to_pod copy_to_pod exec
  copied-IsContainer = record {
    still = λ f w. test_still f w;
    truthful =
        λ f w h. test_misses f w (silent-IsQuiet (command ("test" ∷ "-e" ∷ f ∷ []) none) _ h);
    sees =
        λ f w h. IsQuiet-silent (command ("test" ∷ "-e" ∷ f ∷ []) none) _ refl (test_finds f w h);
    puts = λ s d w has.
        let args = tar_command (path_dir (strip_slash d)) in
        let archive = tar s (strip_slash d) in
        guarded (s == "" || d == "") "filepath can not be empty" w _ d (λ h.
          tar_unpacks archive (path_dir (strip_slash d)) d w has
            (silent-IsQuiet (command args (some archive)) _ h));
    put_keeps = λ s d f w h.
        guarded_keeps (s == "" || d == "") "filepath can not be empty" w _ f h
          (tar_keeps (tar s (strip_slash d)) (path_dir (strip_slash d)) f w h);
    makes = λ d w.
        guarded (d == "") "illegal directory name" w _ d
          (λ h. mkdir_makes d w (silent-IsQuiet (command ("mkdir" ∷ "-p" ∷ d ∷ []) none) _ h));
    make_dir_keeps =
        λ d f w h. guarded_keeps (d == "") "illegal directory name" w _ f h (mkdir_keeps d f w h);
  }

  module _ (model : ExpModel)
      (configured : get_deploy_mode default_url model ≡ some copy_options) where
    abbrev pub path : String
    path = get_target_chaosblade_path operator_path model

    abbrev pub deployed : Bool → W → Response × W
    deployed = deploy_chaos_blade stream tar default_url model c

    deployed_lem :
        (override : Bool) (w : W)
        → deployed override w ≡ answer (deploy_files copied override path model.action_programs w)
    unfolding deploy_chaos_blade
    deployed_lem override w = rw (configured, deploy_chaos_blade) refl

    Stands : W → Type 0
    Stands w = All (λ f. holds w f ≡ true) (required path model.action_programs)

    -- In copy mode, in a container whose commands behave as documented (`IsShell`), and if the archives
    -- that are made of the operator's files hold them: where deployChaosBlade answers with success, the
    -- directory of the programs, the three files of the tool and every program of the action stand in
    -- the container, whether they were there before or not.
    pub deploy_complete :
        (override : Bool) (w : W)
        → AreSupplied IsSupplied path model.action_programs
        → (deployed override w).0.success ≡ true
        → All (λ f. holds (deployed override w).1 f ≡ true) (required path model.action_programs)
    unfolding Stands
    deploy_complete override w has_all =
        let r = deploy_files copied override path model.action_programs w in
        let (keep, has, refusal) =
          Leaves-deploy_files copied holds IsSupplied copied-IsContainer override path
            model.action_programs w has_all in
        subst⁻¹ (λ p. p.0.success ≡ true → Stands p.1) (deployed_lem override w)
          (at_end r refusal has)
      where
        at_end :
            (r : Option Response × W)
            → IsRefusal copied holds IsSupplied copied-IsContainer r.0
            → (r.0 ≡ none → Stands r.1)
            → (answer r).0.success ≡ true
            → Stands (answer r).1
        at_end (none, v) refusal has done = has refl
        at_end (some x, v) refusal has done = absurd (cc)

    -- In copy mode, in a container whose commands behave as documented (`IsShell`) and where the directory
    -- of the programs, the three files of the tool and every program of the action stand: a deployment
    -- without force succeeds and changes nothing.
    pub deploy_again :
        (w : W)
        → All (λ f. holds w f ≡ true) (required path model.action_programs)
        → ((deployed false w).0.success ≡ true) × ((deployed false w).1 ≡ w)
    deploy_again w there =
        let e =
          deployed_lem false w
          ∙ ap answer (
              deploy_files_there copied holds IsSupplied copied-IsContainer path
                model.action_programs w there) in
        (ap (λ p. p.0.success) e, ap (λ p. p.1) e)

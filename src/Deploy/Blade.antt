-- ===== src/Deploy/Blade.antt =====
-- deployChaosBlade of exec/model/executor_copy.go, over the three things that it does in a container.
use chaosblade_operator.Base.{
  String, ◌==◌, Bool, true, false, Option, none, some, List, [], ◌∷◌, if◌then◌else◌, path_join,
}
use chaosblade_operator.Api.{
  Response, response_success, response_fail, parameter_less, deploy_chaos_blade_failed,
  parameter_invalid_blade_path_error, k8s_exec_failed,
}
use chaosblade_operator.Channel.{Stream}
use chaosblade_operator.Model.Flags.{ExpModel}
use chaosblade_operator.Model.Identifier.{ContainerObjectMeta}
use chaosblade_operator.Commands.Defs.{get_target_chaosblade_path}
use chaosblade_operator.Deploy.Defs.{
  DeployOptions, DeployMode, get_deploy_mode, download_url_flag, check_file_exists, create_dir,
  deploy_to_pod, operator_path, operator_bin, operator_lib, operator_yaml, operator_blade,
}

-- The operations on a container: each answers an error or nothing.
pub record Target (W : Type 0) : Type 0 where
  pub exists : String → W → Option String × W
  pub make_dir : String → W → Option String × W
  pub put : String → String → W → Option String × W

-- Where a program of an action lies: in the container, and in the operator.
unfoldable pub program_file : String → String → String
unfolding path_join
program_file path program =
    if program == "java" then path_join path "lib" else path_join (path_join path "bin") program

unfoldable pub operator_program_file : String → String
unfolding path_join
operator_program_file program =
    if program == "java" then operator_lib else path_join operator_bin program

module _ {W : Type 0} (target : Target W) (override : Bool) where
  open target use {exists, make_dir, put}

  abbrev pub replied : (String → Response) → Option String × W → Option Response × W
  replied fail (none, w) = (none, w)
  replied fail (some e, w) = (some (fail e), w)

  abbrev pub unless_there :
      (String → Response) → String → String → Option String × W → Option Response × W
  unless_there fail src dest (none, w) = (none, w)
  unless_there fail src dest (some e, w) = replied fail (put src dest w)

  -- One file: it is put into the container if that is forced or the file is not there.
  unfoldable pub ensure : (String → Response) → String → String → W → Option Response × W
  ensure fail src dest w = elim override [
    | true ↦ replied fail (put src dest w)
    | false ↦ unless_there fail src dest (exists dest w)
  ]

  abbrev pub made : String → Option String × W → Option Response × W
  made dir (none, w) = (none, w)
  made dir (some e, w) =
      replied
        (λ err.
          response_fail parameter_invalid_blade_path_error ("chaosblade-path" ∷ dir ∷ err ∷ []))
        (make_dir dir w)

  unfoldable pub ensure_dir : String → W → Option Response × W
  ensure_dir dir w = made dir (exists dir w)

  -- The next part, if the one before did not fail.
  abbrev pub and_then : Option Response × W → (W → Option Response × W) → Option Response × W
  and_then (some r, w) more = (some r, w)
  and_then (none, w) more = more w

  abbrev pub deploy_failed : String → String → Response
  deploy_failed path err = response_fail deploy_chaos_blade_failed (path ∷ err ∷ [])

  abbrev pub program_failed : String → Response
  program_failed err = response_fail k8s_exec_failed ("copyToPod" ∷ err ∷ [])

  -- The loop over the programs of the action.
  unfoldable pub ensure_programs : String → List String → W → Option Response × W
  unfolding ensure program_file operator_program_file
  ensure_programs path [] w = (none, w)
  ensure_programs path (program ∷ programs) w =
      and_then (ensure program_failed (operator_program_file program) (program_file path program) w)
        (ensure_programs path programs)

  -- The three files of the tool, and the programs.
  unfoldable pub deploy_files : String → List String → W → Option Response × W
  unfolding ensure_dir ensure ensure_programs path_join
  deploy_files path programs w =
      let blade = path_join path "blade" in
      let yaml = path_join path "yaml" in
      let chaos_os = path_join (path_join path "bin") "chaos_os" in
      and_then (ensure_dir (path_join path "bin") w) (λ w1.
        and_then (ensure (deploy_failed blade) operator_blade blade w1) (λ w2.
          and_then (ensure (deploy_failed yaml) operator_yaml yaml w2) (λ w3.
            and_then
              (ensure (deploy_failed chaos_os) (path_join operator_bin "chaos_os") chaos_os w3)
              (ensure_programs path programs))))

abbrev pub answer {ℓ} : {W : Type ℓ} → Option Response × W → Response × W
answer (none, w) = (response_success, w)
answer (some r, w) = (r, w)

module _ {W : Type 0} (stream : Stream W) (tar : String → String → String)
    (default_url : String) where
  abbrev pub options_of : ContainerObjectMeta → DeployOptions
  options_of c = record {
    container = c.container_name;
    namespace = c.namespace;
    pod_name = c.pod_name;
  }

  -- What deployChaosBlade uses of the container, in one of the modes.
  abbrev pub target_of : DeployMode → ContainerObjectMeta → Target W
  target_of mode c = record {
    exists = check_file_exists stream (options_of c);
    make_dir = create_dir stream (options_of c);
    put = deploy_to_pod stream (options_of c) tar mode;
  }

  unfoldable pub deploy_chaos_blade : ExpModel → ContainerObjectMeta → Bool → W → Response × W
  unfolding get_deploy_mode get_target_chaosblade_path deploy_files
  deploy_chaos_blade model c override w = elim (get_deploy_mode default_url model) [
    | none ↦ (response_fail parameter_less (download_url_flag ∷ []), w)
    | some mode ↦ answer (
        deploy_files (target_of mode c) override (get_target_chaosblade_path operator_path model)
          model.action_programs w)
  ]

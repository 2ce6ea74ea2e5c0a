-- ===== src/Deploy/Defs.antt =====
-- exec/model/deploy.go, download.go, DeployToPod of copy.go, and getDeployMode and deployChaosBlade of
-- executor.go and executor_copy.go. The stream into the container and the tar stream are parameters.
use Prim.Native.Char.{Char}
use Prim.Native.String.{[] as nil, ◌∷◌ as ◌⊳◌}
use chaosblade_operator.Base.{
  String, ◌⧺◌, ◌==◌, Bool, true, false, not, ◌&&◌, ◌||◌, Option, none, some, List, [], ◌∷◌, ◌++◌,
  if◌then◌else◌, index, beq, pos, negsuc, atoi, path_dir, trim_space, has_suffix, trim_prefix,
  decimal_ℤ,
}
use chaosblade_operator.Channel.{ExecOptions, Stream, exec}
use chaosblade_operator.Model.Flags.{ExpModel}

abbrev pub operator_path : String
operator_path = "/opt/chaosblade"

abbrev pub operator_bin : String
operator_bin = "/opt/chaosblade/bin"

abbrev pub operator_lib : String
operator_lib = "/opt/chaosblade/lib"

abbrev pub operator_yaml : String
operator_yaml = "/opt/chaosblade/yaml"

abbrev pub operator_blade : String
operator_blade = "/opt/chaosblade/blade"

pub record DeployOptions : Type 0 where
  pub container : String
  pub namespace : String
  pub pod_name : String

pub data DeployMode : Type 0 where
  copy_options : DeployMode
  download_options : String → DeployMode

abbrev deploy_mode_flag : String
deploy_mode_flag = "chaosblade-deploy-mode"

abbrev pub download_url_flag : String
download_url_flag = "chaosblade-download-url"

-- getDeployMode, with the download address of the operator; `none` is its error.
unfoldable pub get_deploy_mode : String → ExpModel → Option DeployMode
get_deploy_mode default_url model =
    let mode = index model.action_flags deploy_mode_flag in
    let given = index model.action_flags download_url_flag in
    let url = if given == "" then default_url else given in
    if mode == "copy"
    then some copy_options
    else if mode == "download"
    then if url == "" then none else some (download_options url)
    else some copy_options

-- getUrl.
unfoldable pub get_url : String → String → String
unfolding trim_prefix
get_url url src =
    let obj =
      if src == operator_blade
      then "blade"
      else if src == operator_yaml
      then "yaml.tar.gz"
      else if src == operator_lib
      then "lib.tar.gz"
      else trim_prefix src (operator_path ⧺ "/") in
    url ⧺ ("/" ⧺ obj)

abbrev init : Char → String → String
init c nil = nil
init c (d ⊳ s) = c ⊳ init d s

-- One slash at the end is left out.
unfoldable pub strip_slash : String → String
unfolding has_suffix
strip_slash nil = nil
strip_slash (c ⊳ s) = if not ((c ⊳ s) == "/") && has_suffix (c ⊳ s) "/" then init c s else c ⊳ s

-- The command that unpacks a stream into a directory.
unfoldable pub tar_command : String → List String
tar_command dir =
    let command = "tar" ∷ "--no-same-permissions" ∷ "--no-same-owner" ∷ "-xmf" ∷ "-" ∷ [] in
    if dir == "" then command else command ++ "-C" ∷ dir ∷ []

module _ {W : Type 0} (stream : Stream W) (o : DeployOptions) where
  abbrev pub options_for : List String → Option String → Bool → ExecOptions
  options_for command stdin ignore_output = record {
    pod_name = o.pod_name;
    pod_namespace = o.namespace;
    container_name = o.container;
    command = command;
    stdin = stdin;
    ignore_output = ignore_output;
  }

  -- A command that only reports errors.
  abbrev pub run_silent : List String → Option String → W → Option String × W
  run_silent command stdin w =
      exec (λ e. some e) (λ out. none) stream (options_for command stdin true) w

  -- CheckFileExists: `none` where the file exists.
  unfoldable pub check_file_exists : String → W → Option String × W
  unfolding exec
  check_file_exists dest = run_silent ("test" ∷ "-e" ∷ dest ∷ []) none

  unfoldable pub create_dir : String → W → Option String × W
  unfolding exec
  create_dir dir w =
      if dir == ""
      then (some "illegal directory name", w)
      else run_silent ("mkdir" ∷ "-p" ∷ dir ∷ []) none w

  -- A command whose answer is a text, errors included.
  abbrev run_text : List String → Bool → W → Option String × W
  run_text command ignore_output w =
      exec (λ e. some e) (λ out. some out) stream (options_for command none ignore_output) w

  unfoldable pub uncompress : String → W → Option String × W
  unfolding exec path_dir
  uncompress file =
      let dir = path_dir file in
      run_text
        ("/bin/sh"
          ∷ "-c"
          ∷ ("tar -zxf " ⧺ (file ⧺ (" -C " ⧺ (dir ⧺ (" && chmod -R 755 " ⧺ dir)))))
          ∷ [])
        true

  -- What is made of the status code that the download prints: `none` where it is 200.
  unfoldable pub code_error : String → Option String
  unfolding atoi trim_space decimal_ℤ
  code_error status = elim (atoi (trim_space status)) [
    | none ↦ some status
    | some (negsuc n) ↦ some ("response code is " ⧺ decimal_ℤ (negsuc n))
    | some (pos n) ↦ if beq n 200 then none else some ("response code is " ⧺ decimal_ℤ (pos n))
  ]

  -- Behind the download. Its command always answers with a text, so the first case does not occur.
  abbrev finish_download : Bool → String → Option String × W → Option String × W
  finish_download is_tar dest (none, w) = (some "", w)
  finish_download is_tar dest (some status, w) = elim (code_error status) [
    | some e ↦ (some e, w)
    | none ↦ elim is_tar [ true ↦ uncompress dest w | false ↦ (none, w) ]
  ]

  -- DeployToPod of download.go; the first argument is the address.
  unfoldable pub download_to_pod : String → String → String → W → Option String × W
  unfolding get_url has_suffix exec uncompress code_error
  download_to_pod base src dest w =
      let url = get_url base src in
      let is_tar = has_suffix url "tar.gz" in
      let file = if is_tar then dest ⧺ ".tar.gz" else dest in
      if src == ""
      then (some "the chaosblade downloaded address is empty", w)
      else finish_download is_tar file (
          run_text
            ("sh"
              ∷ "-c"
              ∷ ("curl -s -L -w %{http_code} -o "
                  ⧺ (file ⧺ (" " ⧺ (url ⧺ (" && chmod 755 " ⧺ file)))))
              ∷ [])
            false w)

  -- DeployToPod of copy.go; `tar src dest` is the stream that makeTar writes.
  unfoldable pub copy_to_pod : (String → String → String) → String → String → W → Option String × W
  unfolding strip_slash path_dir tar_command exec
  copy_to_pod tar src dest w =
      let target = strip_slash dest in
      let dir = path_dir target in
      if src == "" || dest == ""
      then (some "filepath can not be empty", w)
      else run_silent (tar_command dir) (some (tar src target)) w

  unfoldable pub deploy_to_pod :
      (String → String → String) → DeployMode → String → String → W → Option String × W
  unfolding copy_to_pod download_to_pod
  deploy_to_pod tar copy_options src dest w = copy_to_pod tar src dest w
  deploy_to_pod tar (download_options url) src dest w = download_to_pod url src dest w

-- ===== src/Deploy/Tests.antt =====
-- A container as a list of files, and the theorems there.
use chaosblade_operator.Base.{
  String, ◌==◌, ◌≡◌, refl, Bool, true, false, ◌||◌, Option, none, some, List, [], ◌∷◌, All, arith,
  trim_space, eq_iff, if◌then◌else◌,
}
use chaosblade_operator.Channel.{Streamed, Stream, IsQuiet}
use chaosblade_operator.Model.Flags.{ExpModel}
use chaosblade_operator.Model.Identifier.{ContainerObjectMeta}
use chaosblade_operator.Commands.Defs.{get_target_chaosblade_path}
use chaosblade_operator.Deploy.Defs.{
  operator_path, copy_options, tar_command, get_deploy_mode, get_url, strip_slash,
  check_file_exists, create_dir, deploy_to_pod,
}
use chaosblade_operator.Deploy.Blade.{program_file, deploy_chaos_blade, options_of}
use chaosblade_operator.Deploy.Leaves.{AreSupplied, required}
use chaosblade_operator.Deploy.Complete.{IsShell, IsSupplied, deploy_complete, deploy_again}

abbrev contains : List String → String → Bool
contains [] f = false
contains (g ∷ gs) f = g == f || contains gs f

abbrev holds : List String → String → Bool
holds w f = contains w (strip_slash f)

abbrev streamed : Bool → Streamed
streamed ok = record { errput = ""; output = ""; error = if ok then none else some "exit 1" }

-- `test -e`, `mkdir -p`, and a tar stream that is the name of its file.
abbrev run : Option String → List String → List String → Streamed × List String
run (some file) command w = (streamed true, file ∷ w)
run none [] w = (streamed true, w)
run none (a ∷ []) w = (streamed true, w)
run none (a ∷ b ∷ []) w = (streamed true, w)
run none (a ∷ b ∷ f ∷ rest) w =
    if a == "test" then (streamed (holds w f), w) else (streamed true, strip_slash f ∷ w)

abbrev box : Stream (List String)
box options w = run options.stdin options.command w

abbrev tar : String → String → String
tar src target = target

abbrev meta : ContainerObjectMeta
meta = record {
  id = "";
  container_runtime = "docker";
  container_id = "0123";
  container_name = "app";
  pod_name = "web";
  node_name = "n1";
  namespace = "default";
}

abbrev load : ExpModel
load = record {
  target = "cpu";
  scope = "pod";
  action_name = "load";
  action_flags = [];
  action_programs = "chaos_burncpu" ∷ "java" ∷ [];
  action_process_hang = false;
}

-- An archive is the name of its file.
abbrev IsUnpacked : String → String → String → Type 0
IsUnpacked archive dir f = archive ≡ strip_slash f

quiet_only : (b : Bool) → IsQuiet (streamed b) → b ≡ true
quiet_only true q = refl
quiet_only false q = absurd (cc (q.no_error))

streamed-IsQuiet : (b : Bool) → b ≡ true → IsQuiet (streamed b)
unfolding trim_space
streamed-IsQuiet true e = record { no_errput = refl; no_error = refl }
streamed-IsQuiet false e = absurd (cc)

boxed : IsShell box (options_of box tar "" meta) holds IsUnpacked
unfolding tar_command
boxed = record {
  test_still = λ f w. refl;
  test_finds = λ f w h. streamed-IsQuiet (holds w f) h;
  test_misses = λ f w q. quiet_only (holds w f) q;
  mkdir_makes = λ d w q. ground (arith, eq_iff (strip_slash d) (strip_slash d));
  mkdir_keeps = λ d f w h. ground (arith, h);
  tar_unpacks = λ archive dir f w e q. ground (arith, eq_iff archive (strip_slash f));
  tar_keeps = λ archive dir f w h. ground (arith, h);
}

blade-AreSupplied :
    AreSupplied
      (IsSupplied box tar "" meta holds IsUnpacked boxed)
      (get_target_chaosblade_path operator_path load)
      load.action_programs
unfolding get_target_chaosblade_path strip_slash program_file
blade-AreSupplied = (refl, refl, refl, (refl, (refl, tt)))

configured : get_deploy_mode "" load ≡ some copy_options
unfolding get_deploy_mode
configured = refl

succeeded : (deploy_chaos_blade box tar "" load meta false []).0.success ≡ true
unfolding deploy_chaos_blade check_file_exists create_dir deploy_to_pod
succeeded = refl

deploy_complete_example :
    All
      (λ f. holds (deploy_chaos_blade box tar "" load meta false []).1 f ≡ true)
      (required (get_target_chaosblade_path operator_path load) load.action_programs)
deploy_complete_example =
    deploy_complete box tar "" meta holds IsUnpacked boxed load configured false []
      blade-AreSupplied succeeded

abbrev full : List String
full =
    "/opt/chaosblade/bin" ∷ "/opt/chaosblade/blade" ∷ "/opt/chaosblade/yaml"
    ∷ "/opt/chaosblade/bin/chaos_os" ∷ "/opt/chaosblade/bin/chaos_burncpu" ∷ "/opt/chaosblade/lib"
    ∷ []

full_there :
    All
      (λ f. holds full f ≡ true)
      (required (get_target_chaosblade_path operator_path load) load.action_programs)
unfolding get_target_chaosblade_path strip_slash program_file
full_there = (refl, (refl, (refl, (refl, (refl, (refl, tt))))))

deploy_again_example :
    ((deploy_chaos_blade box tar "" load meta false full).0.success ≡ true)
    × ((deploy_chaos_blade box tar "" load meta false full).1 ≡ full)
deploy_again_example =
    deploy_again box tar "" meta holds IsUnpacked boxed load configured full full_there

url_test : get_url "http://x" "/opt/chaosblade/bin/chaos_os" ≡ "http://x/bin/chaos_os"
unfolding get_url
url_test = refl

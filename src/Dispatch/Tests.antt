-- ===== src/Dispatch/Tests.antt =====
-- Three controllers that count their calls, and the theorems on the dispatcher there.
use chaosblade_operator.Base.{ℕ, ◌+◌, String, ◌≡◌, refl, true, none, some, [], ◌∷◌}
use chaosblade_operator.Api.{
  running, destroying, ExperimentSpec, ResourceStatus, ExperimentStatus, zero_status, no_message,
  create_success_experiment_status, create_destroyed_experiment_status, return_success, ChaosBlade,
  returns,
}
use chaosblade_operator.Reconcile.{Client, forget, reconcile, with_status}
use chaosblade_operator.Reconcile.Loops.{destroy_each}
use chaosblade_operator.Dispatch.Defs.{
  ExperimentController, Controllers, controller_of, dispatcher, new_dispatcher_executor,
}
use chaosblade_operator.Dispatch.Scopes.{controller_of-new, unknown_scope_blocks}

-- A controller that succeeds and counts.
abbrev counting : String → ExperimentController ℕ
counting name = record {
  name = name;
  create = λ id exp w. (return_success (create_success_experiment_status []), w + 1);
  destroy = λ id exp old w. (return_success (create_destroyed_experiment_status []), w + 1);
}

abbrev three : Controllers ℕ
three = new_dispatcher_executor (counting "node") (counting "pod") (counting "container")

abbrev exp : String → ExperimentSpec
exp scope = record { scope = scope; target = "cpu"; action = "load"; desc = ""; matchers = [] }

abbrev resource : ResourceStatus
resource = record {
  id = "r";
  state = "Success";
  code = none;
  error = no_message;
  success = true;
  kind = "pod";
  identifier = "default/n1/web";
}

abbrev old : ExperimentStatus
old = record zero_status {
  scope = "pod";
  target = "cpu";
  action = "load";
  res_statuses = resource ∷ [];
}

pod_known : controller_of three "pod" ≡ some (counting "pod")
pod_known = controller_of-new (counting "node") (counting "pod") (counting "container") "pod"

vm_unknown : controller_of three "vm" ≡ none
vm_unknown = controller_of-new (counting "node") (counting "pod") (counting "container") "vm"

abbrev blade : ChaosBlade
blade = record {
  name = "b";
  finalizers = [];
  deletion_timestamp = some 7;
  annotations = [];
  spec = record { experiments = exp "pod" ∷ exp "vm" ∷ [] };
  status = record { phase = running; exp_statuses = old ∷ old ∷ [] };
}

-- A server that counts its writes in the same number.
abbrev server : Client ℕ
server = record {
  get = λ name w. some blade;
  update = λ cb w. (record { ok = true; object = cb }, w + 100);
  update_status = λ cb w. (record { ok = true; object = cb }, w + 100);
}

unknown_scope_blocks_example :
    reconcile
      (record { client = server; executor = dispatcher three; unmarshal = λ (s : String). none })
      "b"
      5
    ≡ (
      returns forget,
      (server.update_status
          (with_status blade destroying
            (destroy_each (dispatcher three) "b" (exp "pod" ∷ exp "vm" ∷ []) (old ∷ old ∷ []) 5).0)
          (destroy_each (dispatcher three) "b" (exp "pod" ∷ exp "vm" ∷ []) (old ∷ old ∷ []) 5).1).1,
    )
unknown_scope_blocks_example =
    unknown_scope_blocks three server (λ s. none) 5 blade (exp "pod" ∷ []) [] (exp "vm") refl refl
      vm_unknown refl (λ e. cc) refl

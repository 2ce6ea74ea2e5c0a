-- ===== src/Commands/Generated.antt =====
-- Which identifiers the experiments in containers come to.
use chaosblade_operator.Base.{
  String, ◌≡◌, ◌≢◌, ◌↔◌, inl, inr, refl, sym, ◌∙◌, arith, eq_iff, Bool, true, false, Option, none,
  some, List, [], ◌∷◌, ◌++◌, map, append-nil, Option-cases,
}
use chaosblade_operator.Api.{Response, panics, no_message}
use chaosblade_operator.Model.Flags.{ExpModel}
use chaosblade_operator.Model.Identifier.{ContainerObjectMeta}
use chaosblade_operator.Version.{check_version_have_cri_command}
use chaosblade_operator.Commands.Defs.{
  DaemonClient, PodNames, ExperimentIdentifierInPod, get_daemonset_pod_name,
}
use chaosblade_operator.Commands.Daemons.{metas, map-append_one}
use chaosblade_operator.Commands.Identifiers.{
  ReadStatuses, get_new_container_id_by_pod, destroy_docker_command, generate_docker,
}
use chaosblade_operator.Commands.Targets.{
  without_uid, by_runtime, generate_nsexec, get_container_experiment_identifiers,
  get_experiment_identifiers,
}

module _ (docker containerd : String) {W : Type 0} (client : DaemonClient W) where
  module _ (operator_path image_repo image_version override_flag version : String)
      (deploy : ExpModel → ContainerObjectMeta → Bool → W → Response × W) (read : ReadStatuses W)
      (convert : ExpModel → String) where
    -- Of a list of containers: generating the identifiers panics exactly if the list is empty, the
    -- scope is not "node", the commands address containers through their runtime and the version of
    -- the tool does not have the cri command.
    pub get_experiment_identifiers-panics_iff :
        (given : ExpModel) (destroying : Bool) (cs : List ContainerObjectMeta) (names : PodNames)
        (w : W)
        → (get_experiment_identifiers docker containerd client operator_path image_repo
              image_version override_flag version deploy read convert given destroying
              (some cs)
              names
              w
            ≡ panics)
          ↔ ((given.scope ≢ "node")
              × (by_runtime (without_uid given) ≡ true)
              × (check_version_have_cri_command version ≡ false)
              × (cs ≡ []))
    unfolding get_experiment_identifiers get_container_experiment_identifiers
    get_experiment_identifiers-panics_iff given destroying [] names w =
        ground (arith, eq_iff given.scope "node")
    get_experiment_identifiers-panics_iff given destroying (c ∷ cs) names w =
        ground (arith, eq_iff given.scope "node")

  abbrev pub some_commands : List ExperimentIdentifierInPod → List (Option String)
  some_commands l = map (λ (i : ExperimentIdentifierInPod). some i.command) l

  generate_nsexec-all :
      (command_of : ContainerObjectMeta → Option String) (cs : List ContainerObjectMeta)
      (acc : List ExperimentIdentifierInPod) (names : PodNames) (w : W)
      → (generate_nsexec docker containerd client command_of cs acc names w).0.0.0 ≡ true
      → let l = (generate_nsexec docker containerd client command_of cs acc names w).0.0.1 in
        (metas l ≡ metas acc ++ cs) × (some_commands l ≡ some_commands acc ++ map command_of cs)
  unfolding generate_nsexec
  generate_nsexec-all command_of [] acc names w = λ h. (sym (append-nil _), sym (append-nil _))
  generate_nsexec-all command_of (c ∷ cs) acc names w = elim (Option-cases (command_of c)) [
    | inl unsupported ↦ rw (unsupported, generate_nsexec) (λ h. absurd (cc))
    | inr (g, made) ↦ elim (Option-cases (get_daemonset_pod_name client c.node_name names w).0.0) [
      | inl none_found ↦ rw (made, none_found, generate_nsexec) (λ h. absurd (cc))
      | inr (p, found) ↦
          rw (made, found, generate_nsexec)
            (λ h.
              let one : ExperimentIdentifierInPod = record {
                meta = c;
                command = g;
                error = no_message;
                code = none;
                chaosblade_pod_name = p;
              } in
              let (_, names') = (get_daemonset_pod_name client c.node_name names w).0 in
              let w' = (get_daemonset_pod_name client c.node_name names w).1 in
              let (ms, cmds) = generate_nsexec-all command_of cs (acc ++ one ∷ []) names' w' h in
              (
                ms ∙ map-append_one (λ (i : ExperimentIdentifierInPod). i.meta) acc one cs,
                cmds
                    ∙ map-append_one (λ (i : ExperimentIdentifierInPod). some i.command) acc one
                        (map command_of cs),
              ))
    ]
  ]

  -- The loop that addresses containers through nsexec, where it meets no error, gives one command for
  -- each container, in their order, and it is the command of that container.
  pub generate_nsexec_complete :
      (command_of : ContainerObjectMeta → Option String) (cs : List ContainerObjectMeta)
      (names : PodNames) (w : W)
      → (generate_nsexec docker containerd client command_of cs [] names w).0.0.0 ≡ true
      → let l = (generate_nsexec docker containerd client command_of cs [] names w).0.0.1 in
        (metas l ≡ cs) × (some_commands l ≡ map command_of cs)
  generate_nsexec_complete command_of cs names w h = generate_nsexec-all command_of cs [] names w h

  module _ (read : ReadStatuses W) (command : String) where
    -- Destroying a network experiment through docker while no pod can be read: as long as the tool's
    -- pods are looked up without an error the generation succeeds, with no command for any container.
    pub generate_docker_skips :
        ((namespace pod : String) (w : W) → (read namespace pod w).0 ≡ none)
        → ((node : String) (names : PodNames) (w : W)
            → (get_daemonset_pod_name client node names w).0.0 ≢ none)
        → (cs : List ContainerObjectMeta) (acc : List ExperimentIdentifierInPod) (names : PodNames)
          (w : W)
        → (generate_docker docker containerd client read true command cs acc names w).0.0
          ≡ (true, acc)
    unfolding generate_docker destroy_docker_command get_new_container_id_by_pod
    generate_docker_skips unread placed [] acc names w = refl
    generate_docker_skips unread placed (c ∷ cs) acc names w =
        elim (Option-cases (get_daemonset_pod_name client c.node_name names w).0.0) [
          | inl none_found ↦ absurd (placed c.node_name names w none_found)
          | inr (p, found) ↦
              rw
                (
                  found,
                  unread c.namespace c.pod_name
                      (get_daemonset_pod_name client c.node_name names w).1,
                  generate_docker,
                )
                (generate_docker_skips unread placed cs acc _ _)
        ]

-- ===== src/Commands/Daemons.antt =====
-- Which pod of the tool runs a command, and for which containers there are commands.
use chaosblade_operator.Base.{
  String, ◌≡◌, ◌≢◌, inl, inr, refl, sym, ap, ◌∙◌, arith, eq_iff, true, none, some, List, [], ◌∷◌,
  ◌++◌, map, append-nil, index, Option-cases,
}
use chaosblade_operator.Api.{no_message}
use chaosblade_operator.Model.Identifier.{ContainerObjectMeta}
use chaosblade_operator.Commands.Defs.{
  DaemonClient, PodNames, names_of, ExperimentIdentifierInPod, get_daemonset_pod_name, generate,
}

abbrev pub metas : List ExperimentIdentifierInPod → List ContainerObjectMeta
metas l = map (λ (i : ExperimentIdentifierInPod). i.meta) l

abbrev pub commands : List ExperimentIdentifierInPod → List String
commands l = map (λ (i : ExperimentIdentifierInPod). i.command) l

pub map-append_one {ℓ κ} :
    {A : Type ℓ} {B : Type κ} (f : A → B) (l : List A) (x : A) (rest : List B)
    → map f (l ++ x ∷ []) ++ rest ≡ map f l ++ (f x ∷ rest)
map-append_one f [] x rest = refl
map-append_one f (y ∷ l) x rest = ap (λ m. f y ∷ m) (map-append_one f l x rest)

module _ {W : Type 0} (client : DaemonClient W) where
  -- A name in the cache whose pod can be read is used, and nothing else is asked for.
  pub cached_name_used :
      (node : String) (names : PodNames) (w : W)
      → index names node ≢ ""
      → (client.get (index names node) w).0 ≡ true
      → get_daemonset_pod_name client node names w
        ≡ ((some (index names node), names), (client.get (index names node) w).1)
  unfolding get_daemonset_pod_name
  cached_name_used node names w full there = ground (arith, eq_iff (index names node) "")

  -- A node that is not in the cache and has no pod of the tool gets the empty name without an error,
  -- if the pods can be listed.
  pub missing_pod_accepted :
      (node : String) (names : PodNames) (w w' : W) (pods : List (String × String))
      → index names node ≡ ""
      → client.list w ≡ (some pods, w')
      → index (names_of pods []) node ≡ ""
      → get_daemonset_pod_name client node names w ≡ ((some "", names_of pods []), w')
  unfolding get_daemonset_pod_name
  missing_pod_accepted node names w w' pods unknown listed absent =
      ground (arith, eq_iff (index names node) "", ap (λ p. p.0) listed, ap (λ p. p.1) listed)

  generate-all :
      (command_of : ContainerObjectMeta → String) (cs : List ContainerObjectMeta)
      (acc : List ExperimentIdentifierInPod) (names : PodNames) (w : W)
      → (generate client command_of cs acc names w).0.0.0 ≡ true
      → let l = (generate client command_of cs acc names w).0.0.1 in
        (metas l ≡ metas acc ++ cs) × (commands l ≡ commands acc ++ map command_of cs)
  unfolding generate
  generate-all command_of [] acc names w = λ h. (sym (append-nil _), sym (append-nil _))
  generate-all command_of (c ∷ cs) acc names w =
      elim (Option-cases (get_daemonset_pod_name client c.node_name names w).0.0) [
        | inl none_found ↦ rw (none_found, generate) (λ h. absurd (cc))
        | inr (p, found) ↦
            rw (found, generate)
              (λ h.
                let one : ExperimentIdentifierInPod = record {
                  meta = c;
                  command = command_of c;
                  error = no_message;
                  code = none;
                  chaosblade_pod_name = p;
                } in
                let (_, names') = (get_daemonset_pod_name client c.node_name names w).0 in
                let w' = (get_daemonset_pod_name client c.node_name names w).1 in
                let (ms, cmds) = generate-all command_of cs (acc ++ one ∷ []) names' w' h in
                (
                  ms ∙ map-append_one (λ (i : ExperimentIdentifierInPod). i.meta) acc one cs,
                  cmds
                      ∙ map-append_one (λ (i : ExperimentIdentifierInPod). i.command) acc one
                          (map command_of cs),
                ))
      ]

  -- A generation that meets no error gives one command for each matched container, in their order,
  -- and it is the command of that container.
  pub generate_complete :
      (command_of : ContainerObjectMeta → String) (cs : List ContainerObjectMeta) (names : PodNames)
      (w : W)
      → (generate client command_of cs [] names w).0.0.0 ≡ true
      → let l = (generate client command_of cs [] names w).0.0.1 in
        (metas l ≡ cs) × (commands l ≡ map command_of cs)
  generate_complete command_of cs names w h = generate-all command_of cs [] names w h

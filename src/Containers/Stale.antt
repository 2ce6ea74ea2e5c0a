-- ===== src/Containers/Stale.antt =====
-- What a container that is not running does to the containers behind it.
use chaosblade_operator.Base.{
  String, ◌==◌, ◌≡◌, ◌≢◌, ◌⊎◌, inl, inr, refl, ap, ◌∙◌, arith, eq_iff, false, none, some, List, [],
  ◌∷◌, ◌++◌, if◌then◌else◌, split, comma, All, Lacks, split-Lacks, Bool-cases, Option-cases,
}
use chaosblade_operator.Api.{Response, returns}
use chaosblade_operator.Kube.{ContainerStatus, Pod}
use chaosblade_operator.Model.Identifier.{ContainerObjectMeta}
use chaosblade_operator.Containers.Defs.{
  status_error, Found, found, refused, match_loop, stopped, identify, meta_of, match_one, scan,
  match_statuses, match_pod, match_pods, get_matched_container_meta_list, container_names_flag,
  invalid,
}
use chaosblade_operator.Containers.Matched.{
  identity_of, IsHealthy, chosen, match_one-chosen, healthy_error,
}

module _ (docker containerd : String) where
  module _ (name index_value : String) (given : name ≢ "") (single : Lacks comma name) where
    abbrev pub IsNamed : List ContainerStatus → Type 0
    IsNamed [] = ⊥
    IsNamed (cs ∷ css) = (cs.name ≡ name) ⊎ IsNamed css

    abbrev pub HasIdentity : ContainerStatus → Type 0
    HasIdentity cs =
        identify docker containerd cs.container_id ≡ returns (identity_of docker containerd cs)

    error_stays :
        (cs : ContainerStatus) (m : String) → (m' : String) × (status_error cs (some m) ≡ some m')
    unfolding status_error
    error_stays cs m = elim (Option-cases (status_error cs (some m))) [
      | inl lost ↦ absurd (ground arith)
      | inr kept ↦ kept
    ]

    match_one-stale :
        (meta : ContainerObjectMeta) (m : String) (acc : List ContainerObjectMeta)
        → match_one docker containerd "" name index_value meta (some m) acc ≡ (
            if name == meta.container_name
            then refused acc (invalid container_names_flag name meta.container_name m)
            else found acc)
    unfolding match_one match_loop
    match_one-stale meta m acc =
        rw (split-Lacks comma name single, match_one) (ground (arith, eq_iff name ""))

    scan-stale :
        (pod : Pod) (css : List ContainerStatus) (m : String)
        → IsNamed css
        → All HasIdentity css
        → (r : Response) × (scan docker containerd "" name index_value pod css (some m) []
            ≡ stopped (refused [] r))
          × (r.success ≡ false)
    unfolding scan
    scan-stale pod [] m h k = absurd h
    scan-stale pod (cs ∷ css) m h (known, rest) =
        let (m', e) = error_stays cs m in
        let meta = meta_of docker containerd pod cs.name (identity_of docker containerd cs) in
        rw (known, scan)
          (rw (e, match_one-stale meta m' [], scan)
            (elim (Bool-cases (name == cs.name)) [
              | inl same ↦
                  rw (same, scan) (invalid container_names_flag name cs.name m', refl, refl)
              | inr other ↦
                  rw (other, scan) (rw e (scan-stale pod css m' (later cs css other h) rest))
            ]))
      where
        later :
            (cs : ContainerStatus) (css : List ContainerStatus)
            → (name == cs.name) ≡ false
            → IsNamed (cs ∷ css)
            → IsNamed css
        later cs css other (inl same) = absurd (ground (arith, eq_iff name cs.name))
        later cs css other (inr behind) = behind

    stopped_error :
        (cs : ContainerStatus) → cs.running ≡ false → (m : String) × (status_error cs none ≡ some m)
    unfolding status_error
    stopped_error cs halted = elim (Option-cases (status_error cs none)) [
      | inl lost ↦ absurd (ground arith)
      | inr kept ↦ kept
    ]

    -- A container that runs, has ids, and has another name.
    abbrev pub IsOther : ContainerStatus → Type 0
    IsOther cs = IsHealthy docker containerd cs × (cs.name ≢ name)

    none_chosen :
        (meta : ContainerObjectMeta)
        → meta.container_name ≢ name
        → chosen (split comma name) meta ≡ []
    none_chosen meta other =
        rw (split-Lacks comma name single)
          (ground (arith, eq_iff name "", eq_iff name meta.container_name))

    scan-front :
        (pod : Pod) (front css : List ContainerStatus)
        → All IsOther front
        → scan docker containerd "" name index_value pod (front ++ css) none []
          ≡ scan docker containerd "" name index_value pod css none []
    unfolding scan
    scan-front pod [] css h = refl
    scan-front pod (cs ∷ front) css ((healthy, other), rest) =
        let meta = meta_of docker containerd pod cs.name (identity_of docker containerd cs) in
        let fine = healthy_error docker containerd name index_value given cs healthy in
        rw (healthy.2, scan)
          (rw (fine, match_one-chosen docker containerd name index_value given meta [], scan)
            (rw fine (rw (none_chosen meta other) (scan-front pod front css rest))))

    match_pod-stopped :
        (pod : Pod) (css : List ContainerStatus) (result : Found)
        → css ≢ []
        → pod.container_statuses ≡ css
        → scan docker containerd "" name index_value pod css none [] ≡ stopped result
        → match_pod docker containerd "" name index_value pod [] ≡ result
    unfolding match_pod match_statuses
    match_pod-stopped pod [] result some_one e stop = absurd (some_one refl)
    match_pod-stopped pod (cs ∷ css) result some_one e stop =
        ap (λ l. match_statuses docker containerd "" name index_value pod l []) e
        ∙ rw (stop, match_statuses) refl

    not_empty : (front css : List ContainerStatus) (cs : ContainerStatus) → (front ++ cs ∷ css) ≢ []
    not_empty [] css cs e = cc
    not_empty (x ∷ front) css cs e = cc

    -- One name without a comma is asked for, and no ids. In the first pod some containers that run, have
    -- ids and have other names stand first; then comes one that does not run and has another name, and
    -- somewhere behind it one that has the name. From the one that does not run on, the ids can be read
    -- (an id of docker has twelve characters). The function fails, whether the container that is asked
    -- for runs or not, since the error on the earlier container is still there.
    pub stale_error_refuses :
        (pod : Pod) (pods : List Pod) (front : List ContainerStatus) (sick : ContainerStatus)
        (css : List ContainerStatus)
        → pod.container_statuses ≡ front ++ sick ∷ css
        → All IsOther front
        → sick.running ≡ false
        → sick.name ≢ name
        → IsNamed css
        → All HasIdentity (sick ∷ css)
        → (r : Response) × (get_matched_container_meta_list docker containerd "" name index_value
              (pod ∷ pods)
            ≡ returns ([], r))
          × (r.success ≡ false)
    unfolding get_matched_container_meta_list match_pods scan
    stale_error_refuses pod pods front sick css e others halted other asked (known, rest) =
        let (m, error) = stopped_error sick halted in
        let meta = meta_of docker containerd pod sick.name (identity_of docker containerd sick) in
        let (r, stop, failed) = scan-stale pod css m asked rest in
        let differ : (name == sick.name) ≡ false = ground (arith, eq_iff name sick.name) in
        let stops : scan docker containerd "" name index_value pod (sick ∷ css) none []
            ≡ stopped (refused [] r) =
          rw (known, scan) (rw (error, match_one-stale meta m [], differ, scan) (rw error stop)) in
        (
          r,
          rw
              (
                match_pod-stopped pod (front ++ sick ∷ css) (refused [] r)
                    (not_empty front css sick) e (scan-front pod front (sick ∷ css) others ∙ stops),
                get_matched_container_meta_list,
                match_pods,
              )
              refl,
          failed,
        )

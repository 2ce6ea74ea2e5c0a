-- ===== src/Webhook/Mutation.antt =====
-- What the mutation makes of a pod.
use mathlib.Core.Path.{subst}
use chaosblade_operator.Base.{
  String, ◌==◌, ◌≡◌, ◌⊎◌, inl, inr, refl, sym, ap, ◌∙◌, arith, true, false, none, some, List, [],
  ◌∷◌, Option-cases, Bool-cases,
}
use chaosblade_operator.Api.{Outcome, returns}
use chaosblade_operator.Webhook.Defs.{
  VolumeMount, Container, Pod, Mutated, annotation, has_sidecar, Search, search, target, failed,
  add_sidecar, sidecar, mutate_with, mutate_pods_fn,
}

abbrev done : Pod → Outcome Mutated
done pod = returns (none, pod)

-- What a pod can be after the mutation: as it was, or with two containers, the sidecar and the first
-- of its own.
pub data IsMutation (image port : String) (pod : Pod) : Pod → Type 0 where
  unchanged : IsMutation image port pod pod
  injected :
      (first : Container) (others : List Container) (mount : VolumeMount) (sub_path : String)
      → pod.containers ≡ first ∷ others
      → IsMutation image port pod
          (record pod { containers = sidecar image port mount sub_path ∷ first ∷ [] })

module _ (image port : String) where
  add_sidecar-IsMutation :
      (pod new : Pod) (first : Container) (others : List Container) (volume sub_path : String)
      (s : Search)
      → pod.containers ≡ first ∷ others
      → add_sidecar image port pod first volume sub_path s ≡ (none, new)
      → IsMutation image port pod new
  unfolding add_sidecar
  add_sidecar-IsMutation pod new first others volume sub_path (failed e) h k = absurd (cc)
  add_sidecar-IsMutation pod new first others volume sub_path (target none) h k = absurd (cc)
  add_sidecar-IsMutation pod new first others volume sub_path (target (some mount)) h k =
      elim (Bool-cases (mount.name == "")) [
        | inl empty ↦ absurd (ground arith)
        | inr named ↦
            subst (IsMutation image port pod) (ap (λ (m : Mutated). m.1) (written named ∙ k))
              (injected first others mount sub_path h)
      ]
    where
      written :
          (mount.name == "") ≡ false
          → (none, record pod { containers = sidecar image port mount sub_path ∷ first ∷ [] })
            ≡ add_sidecar image port pod first volume sub_path (target (some mount))
      written named = rw (named, add_sidecar) refl

  mutate_with-IsMutation :
      (pod new : Pod) (volume sub_path : String) (containers : List Container)
      → pod.containers ≡ containers
      → mutate_with image port pod volume sub_path ≡ returns (none, new)
      → IsMutation image port pod new
  unfolding mutate_with
  mutate_with-IsMutation pod new volume sub_path [] h e = absurd (ground arith)
  mutate_with-IsMutation pod new volume sub_path (first ∷ others) h e =
      elim (Bool-cases (has_sidecar pod.containers)) [
        | inl present ↦ subst (IsMutation image port pod) (same (left present)) unchanged
        | inr absent ↦
            add_sidecar-IsMutation pod new first others volume sub_path
              (search volume first.volume_mounts none) h (unwrap (added absent))
      ]
    where
      same : {m : Pod} → done m ≡ done new → m ≡ new
      same q = cc

      unwrap : {m : Mutated} → returns m ≡ done new → m ≡ (none, new)
      unwrap q = cc

      left : has_sidecar pod.containers ≡ true → done pod ≡ done new
      left present = rw (sym e, present, mutate_with) refl

      added :
          has_sidecar pod.containers ≡ false
          → returns (
              add_sidecar image port pod first volume sub_path
                (search volume first.volume_mounts none))
            ≡ done new
      added absent = rw (sym e, absent, mutate_with) (ground arith)

  -- A mutation without an error leaves the pod as it was, or leaves exactly two containers: the sidecar
  -- and the first one of the pod. Nothing else of the pod changes.
  pub mutate_pods_fn-IsMutation :
      (pod new : Pod)
      → mutate_pods_fn image port pod ≡ returns (none, new)
      → IsMutation image port pod new
  unfolding mutate_pods_fn
  mutate_pods_fn-IsMutation pod new e =
      elim (Option-cases (annotation pod.annotations "chaosblade/inject-volume")) [
        | inl missing ↦
            subst (IsMutation image port pod) (same (left (rw (missing, mutate_pods_fn) refl)))
              unchanged
        | inr (volume, v) ↦
            elim (Option-cases (annotation pod.annotations "chaosblade/inject-volume-subpath")) [
              | inl missing ↦
                  subst (IsMutation image port pod)
                    (same (left (rw (v, missing, mutate_pods_fn) refl))) unchanged
              | inr (sub_path, p) ↦
                  mutate_with-IsMutation pod new volume sub_path pod.containers refl
                    (sym (rw (v, p, mutate_pods_fn) refl) ∙ e)
            ]
      ]
    where
      same : {m : Pod} → done m ≡ done new → m ≡ new
      same q = cc

      left : mutate_pods_fn image port pod ≡ done pod → done pod ≡ done new
      left q = sym q ∙ e

  -- A pod without one of the two annotations, and a pod that has the sidecar, stays as it is.
  pub mutate_leaves :
      (pod : Pod)
      → (annotation pod.annotations "chaosblade/inject-volume" ≡ none)
        ⊎ (annotation pod.annotations "chaosblade/inject-volume-subpath" ≡ none)
        ⊎ (has_sidecar pod.containers ≡ true)
      → mutate_pods_fn image port pod ≡ returns (none, pod)
  unfolding mutate_pods_fn mutate_with
  mutate_leaves pod h = ground arith

  IsMutation-settles :
      (pod new : Pod)
      → IsMutation image port pod new
      → (new ≡ pod) ⊎ (has_sidecar new.containers ≡ true)
  unfolding has_sidecar sidecar
  IsMutation-settles pod new unchanged = inl refl
  IsMutation-settles pod new (injected first others mount sub_path h) = inr refl

  -- A mutated pod is mutated no further: a second run reports no error and changes nothing.
  pub mutate_twice :
      (pod new : Pod)
      → mutate_pods_fn image port pod ≡ returns (none, new)
      → mutate_pods_fn image port new ≡ returns (none, new)
  mutate_twice pod new e = elim (IsMutation-settles pod new (mutate_pods_fn-IsMutation pod new e)) [
    | inl same ↦ rw same (e ∙ ap (λ m. returns (none, m)) same)
    | inr present ↦ mutate_leaves new (inr (inr present))
  ]

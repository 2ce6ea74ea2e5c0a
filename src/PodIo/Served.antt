-- ===== src/PodIo/Served.antt =====
-- The I/O experiment together with the server of the file system that it talks to.
use chaosblade_operator.Base.{
  String, ◌≡◌, ◌⊎◌, inr, refl, ap, ◌∙◌, arith, true, Option, none, some, [], ◌∷◌, if◌then◌else◌,
}
use chaosblade_operator.Api.{
  ResourceStatus, ExperimentStatus, Response, create_success_resource_status,
  create_success_experiment_status, create_destroyed_experiment_status,
}
use chaosblade_operator.Model.Flags.{ExpModel}
use chaosblade_operator.Model.Identifier.{ContainerObjectMeta, get_identifier}
use chaosblade_operator.HookFs.Defs.{
  InjectMessage, Cache, load, store_each, inject_handler, recover_handler, default_hook_points,
}
use chaosblade_operator.HookFs.Client.{
  Posted, fetched, Http, inject_url, recover_url, json, inject_fault, revoke, post_error, after_get,
}
use chaosblade_operator.HookFs.Faults.{has, load-recover_handler, load-store_each}
use chaosblade_operator.Pods.Defs.{Client, Pod, found, is_pod_ready, pod_status, summary}
use chaosblade_operator.PodIo.Requests.{IsUint32, request_of-IsUint32}
use chaosblade_operator.PodIo.Defs.{
  request_of, request, get_chaosfs_client, send, create_one, create_loop, destroy_one, destroy_loop,
  create, destroy, injected, create_read, revoked, destroy_read,
}

post_error-none :
    (p : Posted)
    → p.error ≡ none
    → p.code ≡ 200
    → {W : Type 0} (http : Http W) → post_error http p ≡ none
post_error-none p e c http = ground arith

-- The server of the file system behind HTTP, as documented: the message can be encoded, its text can
-- be decoded again, and a request to an address is handled by the server there, whose cache `view` shows.
-- Reading a pod changes no cache.
pub record IsServed {W : Type 0} (client : Client W) (http : Http W)
    (marshal : InjectMessage → String ⊎ String) (decode : String → Option InjectMessage)
    (view : String → W → Cache) (msg : InjectMessage) : Type 0 where
  pub encodes : IsUint32 msg → (body : String) × (marshal msg ≡ inr body) × (decode body ≡ some msg)
  pub posts :
      (addr body : String) (w : W)
      → decode body ≡ some msg
      → let (p, w') = http.post_curl (inject_url addr) body json w in
        (p.error ≡ none)
        × (p.code ≡ 200)
        × (view addr w' ≡ (inject_handler decode body (view addr w)).1)
  pub gets :
      (addr : String) (w : W)
      → ((http.get (recover_url addr) w).0 ≡ fetched "success" 200)
        × (view addr (http.get (recover_url addr) w).1 ≡ recover_handler (view addr w))
  pub reads :
      (addr namespace name : String) (w : W)
      → view addr (client.get namespace name w).1 ≡ view addr w

module _ {W : Type 0} (client : Client W) (http : Http W)
    (marshal : InjectMessage → String ⊎ String) (decode : String → Option InjectMessage)
    (view : String → W → Cache) (msg : InjectMessage)
    (served : IsServed client http marshal decode view msg) where
  inject_fault_served :
      (addr : String) (w : W)
      → IsUint32 msg
      → ((inject_fault http marshal addr msg w).0 ≡ none)
        × (view addr (inject_fault http marshal addr msg w).1
            ≡ store_each msg.methods msg (view addr w))
  unfolding inject_fault inject_handler
  inject_fault_served addr w small =
      let (body, m, d) = served.encodes small in
      let (no_error, ok, stored) = served.posts addr body w d in
      rw (m, inject_fault)
        (
          post_error-none (http.post_curl (inject_url addr) body json w).0 no_error ok http,
          stored ∙ handled body d,
        )
    where
      handled :
          (body : String)
          → decode body ≡ some msg
          → (inject_handler decode body (view addr w)).1 ≡ store_each msg.methods msg (view addr w)
      handled body d = rw (d, inject_handler) refl

  revoke_served :
      (addr : String) (w : W)
      → ((revoke http addr w).0 ≡ none)
        × (view addr (revoke http addr w).1 ≡ recover_handler (view addr w))
  unfolding revoke
  revoke_served addr w =
      let (answered, recovered) = served.gets addr w in
      let w' = (http.get (recover_url addr) w).1 in
      (
        ap (λ f. (after_get http (f, w')).0) answered,
        ap (λ f. view addr (after_get http (f, w')).1) answered ∙ recovered,
      )

  -- A matched container of a ready pod with a port for the file system, and flags that are integers.
  module _ (return_result : ExperimentStatus → Response) (c : ContainerObjectMeta) (pod : Pod)
      (addr : String) (model : ExpModel)
      (readable : (w : W) → (client.get c.namespace c.pod_name w).0 ≡ found pod)
      (ready : is_pod_ready pod ≡ true) (reachable : get_chaosfs_client pod ≡ some addr)
      (legal : request_of model.action_flags ≡ request msg) where
    abbrev start : ResourceStatus
    start = pod_status "" (get_identifier c)

    abbrev done : ResourceStatus
    done = create_success_resource_status start

    create_read_served :
        (w : W)
        → create_read client http marshal start model.action_flags (found pod, w)
          ≡ injected client http marshal start pod (inject_fault http marshal addr msg w)
    unfolding send
    create_read_served w = rw (ready, legal, reachable, create_read, send) refl

    create_one_served :
        (w : W)
        → ((create_one client http marshal model.action_flags c w).0 ≡ (done, true))
          × (view addr (create_one client http marshal model.action_flags c w).1
              ≡ store_each msg.methods msg (view addr w))
    unfolding create_one
    create_one_served w =
        let w1 = (client.get c.namespace c.pod_name w).1 in
        let (fine, stored) =
          inject_fault_served addr w1 (request_of-IsUint32 model.action_flags msg legal) in
        let r = inject_fault http marshal addr msg w1 in
        let e : create_one client http marshal model.action_flags c w
            ≡ injected client http marshal start pod (none, r.1) =
          ap (λ f. create_read client http marshal start model.action_flags (f, w1)) (readable w)
          ∙ create_read_served w1
          ∙ ap (λ err. injected client http marshal start pod (err, r.1)) fine in
        (
          ap (λ p. p.0) e,
          ap (λ p. view addr p.1) e
              ∙ stored
              ∙ ap (store_each msg.methods msg) (served.reads addr _ _ w),
        )

    destroy_one_served :
        (w : W)
        → ((destroy_one client http marshal c w).0 ≡ [])
          × (view addr (destroy_one client http marshal c w).1 ≡ recover_handler (view addr w))
    unfolding destroy_one
    destroy_one_served w =
        let w1 = (client.get c.namespace c.pod_name w).1 in
        let (fine, recovered) = revoke_served addr w1 in
        let r = revoke http addr w1 in
        let e : destroy_one client http marshal c w ≡ ([], r.1) =
          ap (λ f. destroy_read client http marshal start (f, w1)) (readable w)
          ∙ rw (ready, reachable, destroy_read) refl
          ∙ ap (λ err. revoked client http marshal start pod (err, r.1)) fine in
        (
          ap (λ p. p.0) e,
          ap (λ p. view addr p.1) e ∙ recovered ∙ ap recover_handler (served.reads addr _ _ w),
        )

    abbrev created : W → Response × W
    created = create client http marshal return_result model (some (c ∷ []))

    abbrev destroyed : W → Response × W
    destroyed = destroy client http marshal return_result (some (c ∷ []))

    -- A served pod that can be read and is ready, with a port for the file system, and flags that are
    -- integers: creating the experiment for one container of it succeeds, and the cache of the file
    -- system then holds the request for each of its methods and is otherwise as it was.
    pub create_stores :
        (w : W)
        → ((created w).0
            ≡ return_result (
                create_success_experiment_status
                  (create_success_resource_status (pod_status "" (get_identifier c)) ∷ [])))
          × ((method : String)
              → load (view addr (created w).1) method
                ≡ (if has msg.methods method then some msg else load (view addr w) method))
    unfolding create create_loop summary
    create_stores w =
        let (status, stored) = create_one_served w in
        (
          ap (λ p. return_result (summary p.1 (p.0 ∷ []))) status,
          λ method.
              ap (λ cache. load cache method) stored
              ∙ load-store_each msg.methods msg (view addr w) method,
        )

    -- Under the same conditions, creating the experiment and then destroying it: the destruction
    -- succeeds without mentioning a resource, no default hook point has a fault any more, and any other
    -- method of the request keeps it.
    pub destroy-create :
        (w : W)
        → ((destroyed (created w).1).0 ≡ return_result (create_destroyed_experiment_status []))
          × ((method : String)
              → load (view addr (destroyed (created w).1).1) method ≡ (
                  if has default_hook_points method
                  then none
                  else if has msg.methods method
                  then some msg
                  else load (view addr w) method))
    unfolding destroy destroy_loop
    destroy-create w =
        let v = (created w).1 in
        let (statuses, recovered) = destroy_one_served v in
        (
          ap (λ sts. return_result (create_destroyed_experiment_status sts)) statuses,
          λ method.
              ap (λ cache. load cache method) recovered
              ∙ load-recover_handler (view addr v) method
              ∙ ap (λ l. if has default_hook_points method then none else l)
                  ((create_stores w).1 method),
        )

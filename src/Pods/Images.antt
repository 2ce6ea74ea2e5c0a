-- ===== src/Pods/Images.antt =====
-- The images that the experiment "fail" leaves.
use chaosblade_operator.Base.{
  String, ◌⧺◌, ◌==◌, ◌≡◌, inl, inr, refl, ap, ◌∙◌, arith, eq_iff, true, false, List, [], ◌∷◌, index,
  assign, index-assign, Bool-cases, if◌then◌else◌,
}
use chaosblade_operator.Pods.Defs.{
  Pod, Container, is_annotation_exist, fail_key, fail_containers, failed_pod,
}

exist-assign :
    (m : List (String × String)) (k v j : String)
    → is_annotation_exist (assign m k v) j ≡ (if k == j then true else is_annotation_exist m j)
unfolding is_annotation_exist assign
exist-assign [] k v j = refl
exist-assign ((i, w) ∷ m) k v j =
    ground (arith, eq_iff k j, eq_iff i k, eq_iff i j, exist-assign m k v j)

-- An annotation that is there is kept.
exist_kept :
    (m : List (String × String)) (cs : List Container) (k : String)
    → is_annotation_exist m k ≡ true
    → (is_annotation_exist (fail_containers m cs).0 k ≡ true)
      × (index (fail_containers m cs).0 k ≡ index m k)
unfolding fail_containers
exist_kept m [] k h = (h, refl)
exist_kept m (c ∷ cs) k h = elim (Bool-cases (is_annotation_exist m (fail_key c.name))) [
  | inl known ↦ rw (known, fail_containers) (exist_kept m cs k h)
  | inr fresh ↦
      let differ : (fail_key c.name == k) ≡ false = ground (arith, eq_iff (fail_key c.name) k) in
      let m' = assign m (fail_key c.name) c.image in
      let (p, q) = exist_kept m' cs k (rw (exist-assign m (fail_key c.name) c.image k, differ) h) in
      rw (fresh, fail_containers)
        (p, q ∙ rw (index-assign m (fail_key c.name) c.image k, differ) refl)
]

settled-cons :
    (m : List (String × String)) (c : Container) (cs : List Container)
    → is_annotation_exist m (fail_key c.name) ≡ true
    → fail_containers m cs ≡ (m, cs)
    → fail_containers m (c ∷ cs) ≡ (m, c ∷ cs)
unfolding fail_containers
settled-cons m c cs known rest =
    rw (known, fail_containers)
      (ap (λ (p : List (String × String) × List Container). (p.0, c ∷ p.1)) rest)

-- The annotations that a run leaves stop a second run over the containers that it leaves.
settled :
    (m : List (String × String)) (cs : List Container)
    → let (m', cs') = fail_containers m cs in fail_containers m' cs' ≡ (m', cs')
unfolding fail_containers
settled m [] = refl
settled m (c ∷ cs) = elim (Bool-cases (is_annotation_exist m (fail_key c.name))) [
  | inl known ↦
      rw (known, fail_containers)
        (settled-cons (fail_containers m cs).0 c (fail_containers m cs).1
          (exist_kept m cs (fail_key c.name) known).0 (settled m cs))
  | inr fresh ↦
      let m' = assign m (fail_key c.name) c.image in
      rw (fresh, fail_containers)
        (settled-cons (fail_containers m' cs).0 (record c { image = c.image ⧺ "-fault-injection" })
          (fail_containers m' cs).1 (exist_kept m' cs (fail_key c.name) (noted m c)).0
          (settled m' cs))
]
  where
    noted :
        (m : List (String × String)) (c : Container)
        → is_annotation_exist (assign m (fail_key c.name) c.image) (fail_key c.name) ≡ true
    noted m c =
        rw (exist-assign m (fail_key c.name) c.image (fail_key c.name))
          (ground (arith, eq_iff (fail_key c.name) (fail_key c.name)))

-- Failing a pod twice is failing it once: no image gets the suffix a second time, and the annotations
-- stay.
pub failed_pod_twice : (pod : Pod) → failed_pod (failed_pod pod) ≡ failed_pod pod
unfolding failed_pod
failed_pod_twice pod =
    ap
      (λ (p : List (String × String) × List Container). record pod {
        annotations = p.0;
        containers = p.1;
      })
      (settled pod.annotations pod.containers)

-- The annotation of a container that had none holds the image that the container had, for the first
-- container of its name.
pub original_image_noted :
    (m : List (String × String)) (c : Container) (cs : List Container)
    → is_annotation_exist m (fail_key c.name) ≡ false
    → index (fail_containers m (c ∷ cs)).0 (fail_key c.name) ≡ c.image
unfolding fail_containers
original_image_noted m c cs fresh =
    let key = fail_key c.name in
    let m' = assign m key c.image in
    let itself : (key == key) ≡ true = (eq_iff key key).1 refl in
    rw (fresh, fail_containers)
      ((exist_kept m' cs key (rw (exist-assign m key c.image key, itself) refl)).1
        ∙ rw (index-assign m key c.image key, itself) refl)

-- ===== src/Kube.antt =====
-- The Kubernetes objects, with the fields that the operator reads or writes.
use chaosblade_operator.Base.{ℕ, String, Bool, Option, List}

-- A container of a pod's status. `running` is State.Running != nil.
pub record ContainerStatus : Type 0 where
  pub name : String
  pub container_id : String
  pub running : Bool

-- A pod as the experiments select it.
pub record Pod : Type 0 where
  pub name : String
  pub namespace : String
  pub node_name : String
  pub labels : List (String × String)
  pub deletion_timestamp : Option ℕ
  pub container_statuses : List ContainerStatus

-- A node as the experiments select it.
pub record Node : Type 0 where
  pub name : String
  pub labels : List (String × String)

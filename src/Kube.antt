-- ===== src/Kube.antt =====
-- GetPods of internal/kube/kube.go. What the cluster answers is a parameter, and does not change during a call.
pub mod Direct
pub mod Int32
use election_agent.Prelude.{
  String, ◌⊎◌, inl, inr, Bool, false, not, ◌&&◌, ◌||◌, Option, none, some, List, [], ◌∷◌, ◌==◌,
  if◌then◌else◌,
}
use election_agent.Prelude.Int.{ℤ}
use election_agent.Kube.Int32.{to_int32}
use election_agent.Errors.{Error, text}

-- OwnerReference, by kind and name
pub record OwnerRef : Type 0 where
  pub kind : String
  pub name : String

-- PodCondition
pub record Condition : Type 0 where
  pub type : String
  pub status : String

-- The fields of a pod of the cluster that are read.
pub record KubePod : Type 0 where
  pub name : String
  pub owners : List OwnerRef
  pub ip : String
  pub phase : String
  pub reason : String
  pub deleted : Bool
  pub conditions : List Condition

-- A ReplicaSet of the cluster; an annotation that is missing is empty.
pub record KubeReplicaSet : Type 0 where
  pub owners : List OwnerRef
  pub annotation : String → String
  pub available : ℤ
  pub fully_labeled : ℤ
  pub ready : ℤ
  pub replicas : ℤ

-- The PodStatus, ReplicaSet and Pod of the protocol.
pub record PodStatus : Type 0 where
  pub phase : String
  pub reason : String
  pub terminating : Bool
  pub pod_scheduled : Bool
  pub pod_initialized : Bool
  pub pod_ready : Bool
  pub containers_ready : Bool

pub record ReplicaSet : Type 0 where
  pub name : String
  pub revision : ℤ
  pub available : ℤ
  pub fully_labeled : ℤ
  pub ready : ℤ
  pub replicas : ℤ
  pub desired_replicas : ℤ
  pub max_replicas : ℤ

pub record Pod : Type 0 where
  pub name : String
  pub deployment : String
  pub ip : String
  pub status : PodStatus
  pub replica_set : ReplicaSet

-- The clientset: pods, ReplicaSets and the selector of a deployment by namespace and name, and the
-- pods of a namespace that a selector selects.
pub record Cluster : Type 1 where
  pub Selector : Type 0
  pub get_pod : String → String → KubePod ⊎ Error
  pub get_replica_set : String → String → KubeReplicaSet ⊎ Error
  pub get_deployment : String → String → Selector ⊎ Error
  pub list_pods : String → Selector → List KubePod ⊎ Error

abbrev pub no_replica_set : Error
no_replica_set = text "failed to find a ReplicaSet in pod"

-- podCond
unfoldable pub pod_cond : List Condition → String → Bool
pod_cond [] type = false
pod_cond (cond ∷ conds) type =
    let rest = pod_cond conds type in if cond.type == type then cond.status == "True" else rest

-- The name of the first owner of a kind, or "".
unfoldable pub first_owner : String → List OwnerRef → String
first_owner kind [] = ""
first_owner kind (o ∷ owners) =
    let rest = first_owner kind owners in if o.kind == kind then o.name else rest

abbrev pub is_owned : String → List OwnerRef → Bool
is_owned kind [] = false
is_owned kind (o ∷ owners) = o.kind == kind || is_owned kind owners

-- podItem
unfoldable pub pod_item : String → String → KubePod → KubeReplicaSet → Pod
unfolding pod_cond to_int32
pod_item deployment rs_name pod rs = record {
  name = pod.name;
  deployment = deployment;
  ip = pod.ip;
  status = record {
    phase = pod.phase;
    reason = pod.reason;
    terminating = pod.deleted && not (pod.reason == "NodeLost");
    pod_scheduled = pod_cond pod.conditions "PodScheduled";
    pod_initialized = pod_cond pod.conditions "Initialized";
    pod_ready = pod_cond pod.conditions "Ready";
    containers_ready = pod_cond pod.conditions "ContainersReady";
  };
  replica_set = record {
    name = rs_name;
    revision = to_int32 (rs.annotation "deployment.kubernetes.io/revision");
    available = rs.available;
    fully_labeled = rs.fully_labeled;
    ready = rs.ready;
    replicas = rs.replicas;
    desired_replicas = to_int32 (rs.annotation "deployment.kubernetes.io/desired-replicas");
    max_replicas = to_int32 (rs.annotation "deployment.kubernetes.io/max-replicas");
  };
}

-- rsCache
abbrev pub RsCache : Type 0
RsCache = List (String × KubeReplicaSet)

abbrev pub cached : RsCache → String → Option KubeReplicaSet
cached [] name = none
cached ((n, rs) ∷ cache) name = if n == name then some rs else cached cache name

module _ (K : Cluster) where
  open K use {Selector, get_pod, get_replica_set, get_deployment, list_pods}

  -- The loop over the owners of a pod in getDeploymentNameByPodName.
  unfoldable pub owner_deployment : String → List OwnerRef → String ⊎ Error
  unfolding first_owner
  owner_deployment namespace [] = inr no_replica_set
  owner_deployment namespace (o ∷ owners) =
      let rest = owner_deployment namespace owners in
      if not (o.kind == "ReplicaSet") then rest else elim (get_replica_set namespace o.name) [
        | inr e ↦ inr e
        | inl rs ↦
            if is_owned "Deployment" rs.owners
            then inl (first_owner "Deployment" rs.owners)
            else rest
      ]

  -- getDeploymentNameByPodName
  unfoldable pub deployment_of_pod : String → String → String ⊎ Error
  unfolding owner_deployment
  deployment_of_pod namespace pod_name = elim (get_pod namespace pod_name) [
    | inr e ↦ inr e
    | inl pod ↦ owner_deployment namespace pod.owners
  ]

  -- The ReplicaSet by the cache, and the cache after it.
  unfoldable pub find_replica_set : String → RsCache → String → (KubeReplicaSet × RsCache) ⊎ Error
  find_replica_set namespace cache name = elim (cached cache name) [
    | some rs ↦ inl (rs, cache)
    | none ↦ elim (get_replica_set namespace name) [
      | inr e ↦ inr e
      | inl rs ↦ inl (rs, (name, rs) ∷ cache)
    ]
  ]

  -- The loop over the pods; the items that were made are returned with an error.
  unfoldable pub pod_items : String → String → RsCache → List KubePod → List Pod × Option Error
  unfolding find_replica_set first_owner pod_item
  pod_items namespace deployment cache [] = ([], none)
  pod_items namespace deployment cache (pod ∷ pods) =
      let rs_name = first_owner "ReplicaSet" pod.owners in
      if rs_name == ""
      then ([], some no_replica_set)
      else elim (find_replica_set namespace cache rs_name) [
        | inr e ↦ ([], some e)
        | inl (rs, cache') ↦
            let (items, err) = pod_items namespace deployment cache' pods in
            (pod_item deployment rs_name pod rs ∷ items, err)
      ]

  -- The part of GetPods after the name of the deployment.
  unfoldable pub deployment_pods : String → String → List Pod × Option Error
  unfolding pod_items
  deployment_pods namespace deployment = elim (get_deployment namespace deployment) [
    | inr e ↦ ([], some e)
    | inl selector ↦ elim (list_pods namespace selector) [
      | inr e ↦ ([], some e)
      | inl pods ↦ pod_items namespace deployment [] pods
    ]
  ]

  -- GetPods
  unfoldable pub get_pods : String → String → String → List Pod × Option Error
  unfolding deployment_of_pod deployment_pods
  get_pods namespace deployment pod_name =
      if pod_name == ""
      then deployment_pods namespace deployment
      else elim (deployment_of_pod namespace pod_name) [
        | inr e ↦ ([], some e)
        | inl name ↦ deployment_pods namespace name
      ]

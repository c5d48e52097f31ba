-- ===== src/Tests/Pods.antt =====
-- A deployment of two pods of one ReplicaSet.
use election_agent.Prelude.{String, ◌≡◌, refl, inl, inr, false, [], ◌∷◌, ◌==◌, if◌then◌else◌}
use election_agent.Prelude.Int.{pos, negsuc}
use election_agent.Errors.{Error, text}
use election_agent.Kube.{
  KubePod, KubeReplicaSet, Cluster, get_pods, deployment_of_pod, owner_deployment, first_owner,
}
use election_agent.Kube.Int32.{to_int32, parse_int}
use election_agent.Kube.Direct.{items, get_pods-eq-items}

abbrev pod : String → KubePod
pod name = record {
  name = name;
  owners = record { kind = "ReplicaSet"; name = "agent-7" } ∷ [];
  ip = "10.0.0.1";
  phase = "Running";
  reason = "";
  deleted = false;
  conditions = record { type = "Ready"; status = "True" } ∷ [];
}

abbrev replica_set : KubeReplicaSet
replica_set = record {
  owners = record { kind = "Deployment"; name = "agent" } ∷ [];
  annotation = λ a. if a == "deployment.kubernetes.io/revision" then "7" else "";
  available = pos 2;
  fully_labeled = pos 2;
  ready = pos 2;
  replicas = pos 2;
}

abbrev missing : Error
missing = text "not found"

abbrev cluster : Cluster
cluster = record {
  Selector = String;
  get_pod = λ namespace name. inl (pod name);
  get_replica_set = λ namespace name. if name == "agent-7" then inl replica_set else inr missing;
  get_deployment = λ namespace name. if name == "agent" then inl name else inr missing;
  list_pods = λ namespace selector. inl (pod "a" ∷ pod "b" ∷ []);
}

by_pod : deployment_of_pod cluster "prod" "a" ≡ inl "agent"
unfolding deployment_of_pod owner_deployment first_owner
by_pod = refl

get_pods-eq-items_example :
    (get_pods cluster "prod" "agent" "" ≡ items cluster "prod" "agent" (pod "a" ∷ pod "b" ∷ []))
    × (("a" == "") ≡ false
        → deployment_of_pod cluster "prod" "a" ≡ inl "agent"
        → get_pods cluster "prod" "other" "a"
          ≡ items cluster "prod" "agent" (pod "a" ∷ pod "b" ∷ []))
get_pods-eq-items_example =
    get_pods-eq-items cluster "prod" "agent" "other" "a" "agent" (pod "a" ∷ pod "b" ∷ []) refl refl

smallest : to_int32 "-2147483648" ≡ negsuc 2147483647
unfolding to_int32 parse_int
smallest = refl

too_large : to_int32 "2147483648" ≡ pos 0
unfolding to_int32 parse_int
too_large = refl

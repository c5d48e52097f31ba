-- ===== src/Api/Pods.antt =====
-- The handlers of pods: ElectionGRPCService.GetPods of internal/api/grpc.go and getPods of http.go
-- beside it, over the Kubernetes client.
use election_agent.Prelude.{
  ℕ, String, Bool, not, ◌||◌, Option, none, some, List, [], ◌==◌, eqb, if◌then◌else◌, is_some,
  length,
}
use election_agent.Kube.{Cluster, Pod, get_pods}

module _ (K : Cluster) where
  -- ElectionGRPCService.GetPods, with kube.enable and a client: the pods, or a code
  unfoldable pub grpc_get_pods : Bool → String → String → String → List Pod × Option String
  unfolding get_pods
  grpc_get_pods enabled namespace deployment pod_name =
      if not enabled
      then ([], some "Unimplemented")
      else let (pods, err) = get_pods K namespace deployment pod_name in
        (pods, if is_some err then some "NotFound" else none)

  -- ElectionHTTPService.getPods: the status, and the pods if it is 200. The JSON encoder does not
  -- fail on the pods.
  unfoldable pub http_get_pods : Bool → String → String → ℕ × List Pod
  unfolding get_pods
  http_get_pods enabled namespace deployment =
      if not enabled
      then (501, [])
      else if namespace == "" || deployment == ""
      then (400, [])
      else let (pods, err) = get_pods K namespace deployment "" in
        if is_some err then (if eqb (length pods) 0 then 404 else 400, []) else (200, pods)

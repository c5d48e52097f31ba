-- ===== src/Kube/Direct.antt =====
-- GetPods against its description without the cache.
use election_agent.Prelude.{
  String, ◌≡◌, refl, sym, ap, ◌∙◌, ◌⊎◌, inl, inr, false, Option, none, some, List, [], ◌∷◌, ◌==◌,
  eq_iff, arith, if◌then◌else◌, Bool-cases, Option-cases,
}
use mathlib.Core.Option.{some-injective}
use election_agent.Errors.{Error}
use election_agent.Kube.{
  Cluster, KubePod, KubeReplicaSet, Pod, RsCache, cached, no_replica_set, first_owner, pod_item,
  find_replica_set, pod_items, deployment_pods, deployment_of_pod, get_pods,
}

Sum-cases : {A B : Type 0} (x : A ⊎ B) → ((a : A) × (x ≡ inl a)) ⊎ ((b : B) × (x ≡ inr b))
Sum-cases (inl a) = inl (a, refl)
Sum-cases (inr b) = inr (b, refl)

module _ (K : Cluster) (namespace : String) where
  open K use {get_replica_set}

  -- The item of one pod, by what the cluster says of its ReplicaSet.
  abbrev pub item : String → KubePod → Pod ⊎ Error
  item deployment pod =
      let rs_name = first_owner "ReplicaSet" pod.owners in
      if rs_name == "" then inr no_replica_set else elim (get_replica_set namespace rs_name) [
        | inr e ↦ inr e
        | inl rs ↦ inl (pod_item deployment rs_name pod rs)
      ]

  -- The items up to the first error.
  abbrev pub items : String → List KubePod → List Pod × Option Error
  items deployment [] = ([], none)
  items deployment (pod ∷ pods) =
      let rest = items deployment pods in
      elim (item deployment pod) [ inr e ↦ ([], some e) | inl i ↦ (i ∷ rest.0, rest.1) ]

  -- The cache holds what the cluster says.
  abbrev IsFresh : RsCache → Type 0
  IsFresh cache =
      (name : String) (rs : KubeReplicaSet)
      → cached cache name ≡ some rs
      → get_replica_set namespace name ≡ inl rs

  IsFresh-cons :
      (cache : RsCache) (name : String) (rs : KubeReplicaSet)
      → IsFresh cache
      → get_replica_set namespace name ≡ inl rs
      → IsFresh ((name, rs) ∷ cache)
  IsFresh-cons cache name rs fresh e n r h = elim (Bool-cases (name == n)) [
    | inl f ↦
        ap (get_replica_set namespace) (sym ((eq_iff name n).0 f))
        ∙ e
        ∙ ap inl (some-injective _ _ (rw f at h))
    | inr f ↦ fresh n r (rw f at h)
  ]

  pod_items-eq-items :
      (deployment : String) (cache : RsCache) (pods : List KubePod)
      → IsFresh cache
      → pod_items K namespace deployment cache pods ≡ items deployment pods
  unfolding pod_items find_replica_set
  pod_items-eq-items deployment cache [] fresh = refl
  pod_items-eq-items deployment cache (pod ∷ pods) fresh =
      let name = first_owner "ReplicaSet" pod.owners in
      elim (Bool-cases (name == "")) [
        | inl f ↦ rw (pod_items, items, item, f) refl
        | inr f ↦ elim (Option-cases (cached cache name)) [
          | inr (rs, c) ↦
              rw (pod_items, items, item, find_replica_set, f, c, fresh name rs c)
                (ap (λ r. (pod_item deployment name pod rs ∷ r.0, r.1))
                  (pod_items-eq-items deployment cache pods fresh))
          | inl c ↦ elim (Sum-cases (get_replica_set namespace name)) [
            | inr (e, h) ↦ rw (pod_items, items, item, find_replica_set, f, c, h) refl
            | inl (rs, h) ↦
                rw (pod_items, items, item, find_replica_set, f, c, h)
                  (ap (λ r. (pod_item deployment name pod rs ∷ r.0, r.1))
                    (pod_items-eq-items deployment ((name, rs) ∷ cache) pods
                      (IsFresh-cons cache name rs fresh h)))
          ]
        ]
      ]

  -- If the deployment is found and its pods can be listed, GetPods, by the name of the deployment
  -- or of a pod that leads to it, returns for each pod in order the item that its ReplicaSet in the
  -- cluster gives, up to the first pod without one or whose ReplicaSet is not found, and then that
  -- error: the cache of ReplicaSets makes no difference.
  pub get_pods-eq-items :
      (deployment given pod_name : String) (selector : K.Selector) (pods : List KubePod)
      → K.get_deployment namespace deployment ≡ inl selector
      → K.list_pods namespace selector ≡ inl pods
      → (get_pods K namespace deployment "" ≡ items deployment pods)
        × ((pod_name == "") ≡ false
            → deployment_of_pod K namespace pod_name ≡ inl deployment
            → get_pods K namespace given pod_name ≡ items deployment pods)
  unfolding get_pods deployment_pods
  get_pods-eq-items deployment given pod_name selector pods d l =
      let same = pod_items-eq-items deployment [] pods (λ name rs h. absurd (ground (arith, h))) in
      (rw (deployment_pods, d, l) same, λ e h. rw (e, h, deployment_pods, d, l) same)

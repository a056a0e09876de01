-- ===== src/Tools/Workload.antt =====
-- internal/tools/scope.go: which pods an investigation resolves.
use kube_cure.Prelude.{
  true, ◌&&◌, ◌≡◌, ◌≢◌, ◌⊎◌, ◌↔◌, inl, inr, refl, Option, none, some, arith, Bool-cases,
}
use kube_cure.Text.{Text, text_eq, text_eq_iff}
use kube_cure.Cluster.{
  Pod, ReplicaSet, OwnerReference, Answer, found, refused, controller_of, ApiError, not_found,
  conflict, already_exists, api_failure,
}
use kube_cure.Agent.Model.{ok}
use kube_cure.Tools.Scope.{
  Client, Scope, pod_kind, replica_set_kind, deployment_kind, is_deployment, through_replica_set,
  controlled, in_workload,
}

-- A Deployment of the name controls.
abbrev pub ByDeployment : Text → Option OwnerReference → Type 0
ByDeployment name o =
    (top : OwnerReference) × (o ≡ some top) × (top.kind ≡ deployment_kind) × (top.name ≡ name)

is_deployment_iff :
    (name : Text) (o : Option OwnerReference) → (is_deployment name o ≡ true) ↔ ByDeployment name o
unfolding is_deployment
is_deployment_iff name none = (λ h. absurd (ground arith), λ (top, e, k, n). absurd (ground arith))
is_deployment_iff name (some top) = (
  λ h. (
    top,
    refl,
    ground (arith, text_eq_iff top.kind deployment_kind),
    ground (arith, text_eq_iff top.name name),
  ),
  λ (t, e, k, n). ground (arith, text_eq_iff top.kind deployment_kind, text_eq_iff top.name name),
)

kinds_differ : replica_set_kind ≢ deployment_kind
unfolding replica_set_kind deployment_kind text_eq
kinds_differ e = let h = (text_eq_iff replica_set_kind deployment_kind).1 e in absurd (ground arith)

module _ (client : Client) (scope : Scope) where
  -- The pod's controller is the owner.
  abbrev pub Direct : OwnerReference → Type 0
  Direct ref = (ref.kind ≡ scope.owner_kind) × (ref.name ≡ scope.owner_name)

  -- The pod's controller is a ReplicaSet, found in the pod's namespace, that the Deployment controls.
  abbrev pub Through : Pod → OwnerReference → Type 0
  Through pod ref =
      (rs : ReplicaSet) × (client.get_replica_set pod.namespace ref.name ≡ found rs)
      × (ref.kind ≡ replica_set_kind)
      × (scope.owner_kind ≡ deployment_kind)
      × ByDeployment scope.owner_name (controller_of rs.owner_references)

  abbrev pub Owned : Pod → Type 0
  Owned pod =
      (ref : OwnerReference) × (controller_of pod.owner_references ≡ some ref)
      × (Direct ref ⊎ Through pod ref)

  -- In the namespace, and the pod itself or owned.
  abbrev pub Member : Pod → Type 0
  Member pod =
      (pod.namespace ≡ scope.namespace)
      × (((scope.owner_kind ≡ pod_kind) × (pod.name ≡ scope.owner_name))
          ⊎ ((scope.owner_kind ≢ pod_kind) × Owned pod))

  through_iff :
      (a : Answer ReplicaSet)
      → (through_replica_set client scope a ≡ ok true) ↔ (
          (rs : ReplicaSet) × (a ≡ found rs)
          × ByDeployment scope.owner_name (controller_of rs.owner_references))
  unfolding through_replica_set
  through_iff (found rs) = (
    λ h. (
      rs,
      refl,
      (is_deployment_iff scope.owner_name (controller_of rs.owner_references)).0 (ground arith),
    ),
    λ (r, e, d).
        let h = (is_deployment_iff scope.owner_name (controller_of r.owner_references)).1 d in
        ground arith,
  )
  through_iff (refused e) = (λ h. absurd (refused_no e h), λ (r, e', d). absurd (ground arith))
    where
      refused_no : (e : ApiError) → through_replica_set client scope (refused e) ≢ ok true
      refused_no not_found h = ground arith
      refused_no conflict h = ground arith
      refused_no already_exists h = ground arith
      refused_no (api_failure why) h = ground arith

  abbrev pub OwnedBy : Pod → Option OwnerReference → Type 0
  OwnedBy pod o = (ref : OwnerReference) × (o ≡ some ref) × (Direct ref ⊎ Through pod ref)

  controlled_sound :
      (pod : Pod) (o : Option OwnerReference)
      → controlled client scope pod o ≡ ok true
      → OwnedBy pod o
  unfolding controlled
  controlled_sound pod none h = absurd (ground arith)
  controlled_sound pod (some ref) h =
      elim (Bool-cases (text_eq ref.kind scope.owner_kind && text_eq ref.name scope.owner_name)) [
        | inl e ↦ (
          ref,
          refl,
          inl (
            ground (arith, text_eq_iff ref.kind scope.owner_kind),
            ground (arith, text_eq_iff ref.name scope.owner_name),
          ),
        )
        | inr e ↦
            let (rs, read, by) =
              (through_iff (client.get_replica_set pod.namespace ref.name)).0 (ground arith) in
            (
              ref,
              refl,
              inr (
                rs,
                read,
                ground (arith, text_eq_iff ref.kind replica_set_kind),
                ground (arith, text_eq_iff scope.owner_kind deployment_kind),
                by,
              ),
            )
      ]

  controlled_complete :
      (pod : Pod) (o : Option OwnerReference)
      → OwnedBy pod o
      → controlled client scope pod o ≡ ok true
  unfolding controlled
  controlled_complete pod none (ref, e, h) = absurd (ground arith)
  controlled_complete pod (some x) (ref, e, inl (k, n)) =
      ground (arith, text_eq_iff ref.kind scope.owner_kind, text_eq_iff ref.name scope.owner_name)
  controlled_complete pod (some x) (ref, e, inr (rs, f, k, o, by)) =
      let through = (through_iff (client.get_replica_set pod.namespace ref.name)).1 (rs, f, by) in
      ground (
        arith,
        through,
        kinds_differ,
        text_eq_iff x.kind replica_set_kind,
        text_eq_iff x.kind scope.owner_kind,
        text_eq_iff scope.owner_kind deployment_kind,
      )

  -- Membership is decided as described.
  pub in_workload_iff : (pod : Pod) → (in_workload client scope pod ≡ ok true) ↔ Member pod
  unfolding in_workload
  in_workload_iff pod = (
    λ h. elim (Bool-cases (text_eq scope.owner_kind pod_kind)) [
      | inl e ↦ (
        ground (arith, text_eq_iff pod.namespace scope.namespace),
        inl (
          ground (arith, text_eq_iff scope.owner_kind pod_kind),
          ground (arith, text_eq_iff pod.name scope.owner_name),
        ),
      )
      | inr e ↦ (
        ground (arith, text_eq_iff pod.namespace scope.namespace),
        inr (
          ground (arith, text_eq_iff scope.owner_kind pod_kind),
          controlled_sound pod (controller_of pod.owner_references) (ground arith),
        ),
      )
    ],
    λ (n, m). elim m [
      | inl (k, e) ↦ ground (
        arith,
        text_eq_iff pod.namespace scope.namespace,
        text_eq_iff scope.owner_kind pod_kind,
        text_eq_iff pod.name scope.owner_name,
      )
      | inr (k, owned) ↦
          let c = controlled_complete pod (controller_of pod.owner_references) owned in
          ground (
            arith,
            text_eq_iff pod.namespace scope.namespace,
            text_eq_iff scope.owner_kind pod_kind,
          )
    ],
  )

-- ===== src/Tools/Scope.antt =====
-- internal/tools/scope.go: what one investigation may read. The reads of one tool call see one
-- snapshot of the cluster, given by a client.
use kube_cure.Prelude.{
  ℕ, Bool, true, false, ◌&&◌, ◌||◌, not, Option, none, some, List, [], ◌∷◌, ◌++◌, if◌then◌else◌,
}
use kube_cure.Text.{Text, codes, text_eq, is_empty, quote}
use kube_cure.Api.Failure.{FailureType}
use kube_cure.Api.Diagnosis.{Diagnosis}
use kube_cure.Cluster.{
  Pod, PodSpec, Container, ReplicaSet, OwnerReference, ApiError, not_found, conflict,
  already_exists, api_failure, Answer, found, refused, controller_of,
}
use kube_cure.Agent.Model.{Result, ok, err, CallError, denied, failed}
use kube_cure.Evidence.Collect.{Target}

-- The reads of controller-runtime's client, by namespace and name.
pub record Client : Type 0 where
  pub get_pod : Text → Text → Answer Pod
  pub get_replica_set : Text → Text → Answer ReplicaSet
  pub list_pods : Text → Answer (List Pod)
  pub list_diagnoses : Text → Answer (List Diagnosis)

pub record Scope : Type 0 where
  pub namespace : Text
  pub diagnosis_name : Text
  pub failure_type : FailureType
  pub container : Text
  pub target_pod : Text
  pub owner_kind : Text
  pub owner_name : Text
  pub max_calls : ℕ

unfoldable pub pod_kind : Text
pod_kind = codes "Pod"

unfoldable pub replica_set_kind : Text
replica_set_kind = codes "ReplicaSet"

unfoldable pub deployment_kind : Text
deployment_kind = codes "Deployment"

unfoldable pub scope_for_diagnosis : Diagnosis → ℕ → Scope
scope_for_diagnosis d max_calls =
    let scope : Scope = record {
      namespace = d.namespace;
      diagnosis_name = d.name;
      failure_type = d.spec.failure_type;
      container = d.spec.container;
      target_pod = d.spec.target.name;
      owner_kind = pod_kind;
      owner_name = d.spec.target.name;
      max_calls = max_calls;
    } in
    elim d.spec.target.owner [
      | none ↦ scope
      | some owner ↦ record scope { owner_kind = owner.kind; owner_name = owner.name }
    ]

unfoldable pub api_error_text : ApiError → Text
api_error_text not_found = codes "not found"
api_error_text conflict = codes "conflict"
api_error_text already_exists = codes "already exists"
api_error_text (api_failure why) = why

infixl 5 ◌>>=◌
abbrev pub ◌>>=◌ :
    {A B : Type 0} → Result CallError A → (A → Result CallError B) → Result CallError B
ok a >>= f = f a
err e >>= f = err e

-- An error of the client that is not inspected.
abbrev pub read_error : {A : Type 0} → ApiError → Result CallError A
read_error e = err (failed (api_error_text e))

-- `owner != nil && owner.Kind == "Deployment" && owner.Name == name`
unfoldable pub is_deployment : Text → Option OwnerReference → Bool
is_deployment name none = false
is_deployment name (some owner) = text_eq owner.kind deployment_kind && text_eq owner.name name

unfoldable pub gone_text : Text
gone_text = codes "the diagnosed pod is gone and the workload has no remaining pods"

missing_text : Text → Text
missing_text name =
    codes "pod " ++ (quote name ++ codes " does not exist in the investigated workload")

outside_text : Scope → Text → Text
outside_text scope name =
    codes "pod "
    ++ (quote name
        ++ (codes " is outside the investigated workload "
            ++ (scope.owner_kind ++ (codes "/" ++ scope.owner_name))))

module _ (client : Client) (scope : Scope) where
  -- What the ReplicaSet between a pod and a Deployment says.
  unfoldable pub through_replica_set : Answer ReplicaSet → Result CallError Bool
  through_replica_set (found rs) =
      ok (is_deployment scope.owner_name (controller_of rs.owner_references))
  through_replica_set (refused not_found) = ok false
  through_replica_set (refused conflict) = read_error conflict
  through_replica_set (refused already_exists) = read_error already_exists
  through_replica_set (refused (api_failure why)) = read_error (api_failure why)

  unfoldable pub controlled : Pod → Option OwnerReference → Result CallError Bool
  unfolding through_replica_set
  controlled pod none = ok false
  controlled pod (some ref) =
      if text_eq ref.kind scope.owner_kind && text_eq ref.name scope.owner_name
      then ok true
      else if not (text_eq ref.kind replica_set_kind)
          || not (text_eq scope.owner_kind deployment_kind)
      then ok false
      else through_replica_set (client.get_replica_set pod.namespace ref.name)

  unfoldable pub in_workload : Pod → Result CallError Bool
  unfolding controlled
  in_workload pod =
      if not (text_eq pod.namespace scope.namespace)
      then ok false
      else if text_eq scope.owner_kind pod_kind
      then ok (text_eq pod.name scope.owner_name)
      else controlled pod (controller_of pod.owner_references)

  -- The first pod of the workload.
  unfoldable pub first_member : List Pod → Result CallError Pod
  first_member [] = err (denied gone_text)
  first_member (pod ∷ rest) = elim (in_workload pod) [
    | err e ↦ err e
    | ok true ↦ ok pod
    | ok false ↦ first_member rest
  ]

  unfoldable pub replacement : Answer (List Pod) → Result CallError Pod
  replacement (found pods) = first_member pods
  replacement (refused e) = read_error e

  unfoldable pub target_or_replacement : Answer Pod → Result CallError Pod
  unfolding replacement
  target_or_replacement (found pod) = ok pod
  target_or_replacement (refused not_found) = replacement (client.list_pods scope.namespace)
  target_or_replacement (refused conflict) = read_error conflict
  target_or_replacement (refused already_exists) = read_error already_exists
  target_or_replacement (refused (api_failure why)) = read_error (api_failure why)

  unfoldable pub default_pod : Result CallError Pod
  unfolding target_or_replacement
  default_pod = target_or_replacement (client.get_pod scope.namespace scope.target_pod)

  unfoldable pub admit : Text → Answer Pod → Result CallError Pod
  unfolding missing_text outside_text
  admit name (found pod) = do
    member ← in_workload pod
    if member then ok pod else err (denied (outside_text scope name))
  admit name (refused not_found) = err (denied (missing_text name))
  admit name (refused conflict) = read_error conflict
  admit name (refused already_exists) = read_error already_exists
  admit name (refused (api_failure why)) = read_error (api_failure why)

  unfoldable pub resolve_pod : Text → Result CallError Pod
  unfolding admit
  resolve_pod name =
      if is_empty name then default_pod else admit name (client.get_pod scope.namespace name)

unfoldable pub target_of : Scope → Pod → Text → Target
target_of scope pod container = record {
  pod = pod;
  container = if is_empty container then scope.container else container;
  failure_type = scope.failure_type;
  owner_kind = scope.owner_kind;
  owner_name = scope.owner_name;
}

abbrev pub empty_spec : PodSpec
empty_spec = record {
  containers = [];
  volumes = [];
  restart_policy = [];
  node_name = [];
  node_selector = [];
  tolerations = [];
}

-- A pod of which only the namespace and the name are set.
abbrev pub bare_pod : Text → Text → Pod
bare_pod namespace name = record {
  name = name;
  namespace = namespace;
  uid = [];
  labels = [];
  deletion_timestamp = none;
  owner_references = [];
  spec = empty_spec;
  status = record {
    phase = [];
    reason = [];
    message = [];
    conditions = [];
    container_statuses = [];
  };
}

unfoldable pub workload_target : Scope → Target
workload_target scope = record {
  pod = bare_pod scope.namespace scope.target_pod;
  container = scope.container;
  failure_type = scope.failure_type;
  owner_kind = scope.owner_kind;
  owner_name = scope.owner_name;
}

unfoldable pub has_container : List Container → Text → Bool
has_container [] name = false
has_container (c ∷ rest) name = text_eq c.name name || has_container rest name

-- ===== src/Controller/Policy.antt =====
-- internal/controller/pod_controller.go: what a reconcile reads, the workload, the policy and the rate
-- limit.
use kube_cure.Prelude.{
  ℕ, ◌+◌, ℤ, pos, ltb, ltb_ℤ, leb_ℤ, Bool, true, false, not, Option, none, some, List, [], ◌∷◌,
  ◌||◌, if◌then◌else◌,
}
use kube_cure.Text.{Text, codes, text_eq}
use kube_cure.Api.Failure.{FailureType, same_failure}
use kube_cure.Api.Diagnosis.{Diagnosis}
use kube_cure.Api.Policy.{HealingPolicy}
use kube_cure.Cluster.{
  Pod, ReplicaSet, OwnerReference, Answer, found, refused, not_found, conflict, already_exists,
  api_failure, controller_of,
}
use kube_cure.Detector.Name.{direct_owner}

abbrev pub system_namespaces : List Text
system_namespaces =
    codes "kube-system"
    ∷ codes "kube-public"
    ∷ codes "kube-node-lease"
    ∷ codes "local-path-storage"
    ∷ codes "kubecure-system"
    ∷ []

unfoldable pub member : Text → List Text → Bool
member t [] = false
member t (x ∷ xs) = text_eq x t || member t xs

-- The answers that one reconcile gets.
pub record Reads : Type 0 where
  pub get_pod : Text → Text → Answer Pod
  pub get_replica_set : Text → Text → Answer ReplicaSet
  pub list_policies : Text → Answer (List HealingPolicy)
  pub get_diagnosis : Text → Text → Answer Diagnosis
  pub list_diagnoses : Text → Answer (List Diagnosis)

pub record WorkloadRef : Type 0 where
  pub kind : Text
  pub name : Text
  pub uid : Text

-- The controller of a ReplicaSet, or the ReplicaSet itself.
unfoldable pub top_owner : Text → Text → Text → Option OwnerReference → WorkloadRef
top_owner kind name uid none = record { kind = kind; name = name; uid = uid }
top_owner kind name uid (some ref) = record { kind = ref.kind; name = ref.name; uid = ref.uid }

unfoldable pub through_replica_set : Text → Text → Answer ReplicaSet → Answer WorkloadRef
unfolding top_owner
through_replica_set kind name (found rs) =
    found (top_owner kind name rs.uid (controller_of rs.owner_references))
through_replica_set kind name (refused not_found) =
    found (record { kind = kind; name = name; uid = [] })
through_replica_set kind name (refused conflict) = refused conflict
through_replica_set kind name (refused already_exists) = refused already_exists
through_replica_set kind name (refused (api_failure why)) = refused (api_failure why)

unfoldable pub resolve_workload : Reads → Pod → Answer WorkloadRef
unfolding through_replica_set
resolve_workload reads pod = elim (direct_owner pod) [
  | none ↦ found (record { kind = codes "Pod"; name = pod.name; uid = pod.uid })
  | some (kind, name) ↦
      if not (text_eq kind (codes "ReplicaSet"))
      then found (record { kind = kind; name = name; uid = [] })
      else through_replica_set kind name (reads.get_replica_set pod.namespace name)
]

abbrev pub default_policy_name : Text
default_policy_name = codes "default"

unfoldable pub named_default : List HealingPolicy → Option HealingPolicy
named_default [] = none
named_default (p ∷ ps) = if text_eq p.name default_policy_name then some p else named_default ps

-- `none` when the namespace has not opted in.
unfoldable pub choose_policy : List HealingPolicy → Option HealingPolicy
unfolding named_default
choose_policy [] = none
choose_policy (p ∷ ps) = elim (named_default (p ∷ ps)) [ some q ↦ some q | none ↦ some p ]

unfoldable pub names_type : FailureType → List FailureType → Bool
names_type ft [] = false
names_type ft (t ∷ ts) = same_failure t ft || names_type ft ts

unfoldable pub policy_covers : HealingPolicy → FailureType → Bool
unfolding names_type
policy_covers policy ft = elim policy.spec.failure_types [
  | [] ↦ true
  | t ∷ ts ↦ names_type ft (t ∷ ts)
]

abbrev pub hour : ℕ
hour = 3600000000000

-- `CreationTimestamp.After(now - 1h)`. The count is below 2^31.
unfoldable pub recent_count : ℕ → List Diagnosis → ℕ
recent_count now [] = 0
recent_count now (d ∷ ds) =
    (if ltb now (d.creation_timestamp + hour) then 1 else 0) + recent_count now ds

unfoldable pub count_within : ℕ → ℤ → Answer (List Diagnosis) → Answer Bool
unfolding recent_count
count_within now limit (refused e) = refused e
count_within now limit (found ds) = found (ltb_ℤ (pos (recent_count now ds)) limit)

unfoldable pub within_rate_limit : Reads → ℕ → Text → HealingPolicy → Answer Bool
unfolding count_within
within_rate_limit reads now namespace policy =
    if leb_ℤ policy.spec.max_diagnoses_per_hour (pos 0)
    then found true
    else count_within now policy.spec.max_diagnoses_per_hour (reads.list_diagnoses namespace)

-- ===== src/Evidence/Matrix.antt =====
-- internal/evidence/matrix.go: what each failure type needs, and in which order it is sought.
use kube_cure.Prelude.{ℕ, Bool, true, false, List, [], ◌∷◌, ◌++◌, ◌==◌, if◌then◌else◌}
use kube_cure.Text.{Text, codes}
use kube_cure.Api.Failure.{
  FailureType, crash_loop_back_off, oom_killed, image_pull_back_off, create_container_config_error,
  run_container_error, unschedulable, probe_failure, evicted,
}
use kube_cure.Api.Evidence.{
  EvidenceKind, previous_logs, current_logs, events, workload_spec, rollout_history,
  config_references, service_endpoints, node_status, sibling_pods, resource_usage,
}

pub data Requirement : Type 0 where
  not_applicable opportunistic required : Requirement

abbrev pub kind_index : EvidenceKind → ℕ
kind_index previous_logs = 0
kind_index current_logs = 1
kind_index events = 2
kind_index workload_spec = 3
kind_index rollout_history = 4
kind_index config_references = 5
kind_index service_endpoints = 6
kind_index node_status = 7
kind_index sibling_pods = 8
kind_index resource_usage = 9

-- `a == b`
abbrev pub same_kind : EvidenceKind → EvidenceKind → Bool
same_kind a b = kind_index a == kind_index b

unfoldable pub matrix : FailureType → List (EvidenceKind × Requirement)
matrix crash_loop_back_off =
    (previous_logs, required)
    ∷ (events, required)
    ∷ (workload_spec, required)
    ∷ (rollout_history, required)
    ∷ (current_logs, opportunistic)
    ∷ (sibling_pods, opportunistic)
    ∷ []
matrix oom_killed =
    (previous_logs, required)
    ∷ (events, required)
    ∷ (workload_spec, required)
    ∷ (rollout_history, required)
    ∷ (resource_usage, required)
    ∷ (current_logs, opportunistic)
    ∷ (sibling_pods, opportunistic)
    ∷ []
matrix image_pull_back_off =
    (events, required) ∷ (workload_spec, required) ∷ (rollout_history, opportunistic) ∷ []
matrix create_container_config_error =
    (events, required)
    ∷ (workload_spec, required)
    ∷ (config_references, required)
    ∷ (rollout_history, opportunistic)
    ∷ []
matrix run_container_error =
    (events, required) ∷ (workload_spec, required) ∷ (config_references, opportunistic) ∷ []
matrix unschedulable =
    (events, required)
    ∷ (workload_spec, required)
    ∷ (node_status, required)
    ∷ (sibling_pods, opportunistic)
    ∷ []
matrix probe_failure =
    (current_logs, required)
    ∷ (events, required)
    ∷ (workload_spec, required)
    ∷ (service_endpoints, required)
    ∷ (previous_logs, opportunistic)
    ∷ (rollout_history, opportunistic)
    ∷ []
matrix evicted =
    (events, required)
    ∷ (workload_spec, required)
    ∷ (node_status, required)
    ∷ (sibling_pods, required)
    ∷ (previous_logs, opportunistic)
    ∷ (resource_usage, opportunistic)
    ∷ []

abbrev pub all_kinds : List EvidenceKind
all_kinds =
    previous_logs ∷ current_logs ∷ events ∷ workload_spec ∷ rollout_history ∷ config_references
    ∷ service_endpoints ∷ node_status ∷ sibling_pods ∷ resource_usage ∷ []

unfoldable pub kind_lookup : EvidenceKind → List (EvidenceKind × Requirement) → Requirement
kind_lookup kind [] = not_applicable
kind_lookup kind ((k, req) ∷ rest) = if same_kind k kind then req else kind_lookup kind rest

unfoldable pub requirement_for : FailureType → EvidenceKind → Requirement
unfolding matrix kind_lookup
requirement_for failure_type kind = kind_lookup kind (matrix failure_type)

abbrev pub is_required : Requirement → Bool
is_required required = true
is_required _ = false

abbrev pub is_opportunistic : Requirement → Bool
is_opportunistic opportunistic = true
is_opportunistic _ = false

-- The kinds of a list whose requirement passes a test, in order.
unfoldable pub kinds_with :
    (Requirement → Bool) → FailureType → List EvidenceKind → List EvidenceKind
kinds_with test failure_type [] = []
kinds_with test failure_type (kind ∷ kinds) =
    if test (requirement_for failure_type kind)
    then kind ∷ kinds_with test failure_type kinds
    else kinds_with test failure_type kinds

unfoldable pub plan : FailureType → List EvidenceKind
unfolding kinds_with requirement_for
plan failure_type =
    kinds_with is_required failure_type all_kinds
    ++ kinds_with is_opportunistic failure_type all_kinds

unfoldable pub not_relevant : Text
not_relevant = codes "not relevant to this failure type"

log_reason : FailureType → Text
log_reason image_pull_back_off = codes "no image was pulled, so no container ever ran"
log_reason create_container_config_error =
    codes "the container could not be created, so it produced no output"
log_reason run_container_error =
    codes "the container could not be created, so it produced no output"
log_reason unschedulable = codes "the pod was never placed on a node"
log_reason _ = not_relevant

unfoldable pub not_applicable_reason : FailureType → EvidenceKind → Text
unfolding log_reason
not_applicable_reason failure_type previous_logs = log_reason failure_type
not_applicable_reason failure_type current_logs = log_reason failure_type
not_applicable_reason failure_type service_endpoints = not_relevant
not_applicable_reason failure_type node_status =
    codes "the failure is not attributable to the host node"
not_applicable_reason failure_type _ = not_relevant

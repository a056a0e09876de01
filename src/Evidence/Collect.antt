-- ===== src/Evidence/Collect.antt =====
-- internal/evidence/collector.go: `Collect`, `populateContainerFacts` and the dispatch of `gather`.
-- The reads themselves are parameters, one for each kind: they ask the API server.
use kube_cure.Prelude.{
  ℕ, ◌+◌, ◌%◌, Bool, true, false, not, ◌&&◌, Option, none, some, List, [], ◌∷◌, ◌++◌, if◌then◌else◌,
}
use kube_cure.Text.{Text, codes, text_eq, is_empty, trim_space}
use kube_cure.Api.Failure.{FailureType}
use kube_cure.Api.Evidence
use kube_cure.Api.Evidence.{
  EvidenceKind, previous_logs, current_logs, events, workload_spec, rollout_history,
  config_references, service_endpoints, node_status, sibling_pods, resource_usage, CollectionStatus,
  EvidenceItem, is_collected,
}
use kube_cure.Cluster.{Pod, ContainerStatus, Terminated}
use kube_cure.Evidence.Matrix.{Requirement, requirement_for, all_kinds, not_applicable_reason}
use kube_cure.Evidence.Redact.{Redactor, redact, truncate}

abbrev pub content_limit : ℕ
content_limit = 8192

pub record Target : Type 0 where
  pub pod : Pod
  pub container : Text
  pub failure_type : FailureType
  pub owner_kind : Text
  pub owner_name : Text

-- A read gives content, or an error with its text.
pub data Gathered : Type 0 where
  content : Text → Gathered
  unreadable : Text → Gathered

-- The argument of `logs` says whether the previous instance is meant.
pub record Readers : Type 0 where
  pub logs : Target → Bool → Gathered
  pub events : Target → Gathered
  pub workload_spec : Target → Gathered
  pub rollout_history : Target → Gathered
  pub config_references : Target → Gathered
  pub service_endpoints : Target → Gathered
  pub node_status : Target → Gathered
  pub sibling_pods : Target → Gathered
  pub resource_usage : Target → Gathered

unfoldable pub gather : Readers → Target → EvidenceKind → Gathered
gather readers target previous_logs = readers.logs target true
gather readers target current_logs = readers.logs target false
gather readers target events = readers.events target
gather readers target workload_spec = readers.workload_spec target
gather readers target rollout_history = readers.rollout_history target
gather readers target config_references = readers.config_references target
gather readers target service_endpoints = readers.service_endpoints target
gather readers target node_status = readers.node_status target
gather readers target sibling_pods = readers.sibling_pods target
gather readers target resource_usage = readers.resource_usage target

abbrev pub no_evidence : Evidence.Evidence
no_evidence = record {
  items = [];
  complete = false;
  missing_required = [];
  exit_code = none;
  restart_count = 0;
  termination_reason = [];
  waiting_reason = [];
  redacted_fields = 0;
}

unfoldable pub with_termination : Option Terminated → Evidence.Evidence → Evidence.Evidence
with_termination none ev = ev
with_termination (some term) ev = record ev {
  termination_reason = term.reason;
  exit_code = some term.exit_code;
}

-- The last termination, or else the present one.
unfoldable pub termination_of : ContainerStatus → Option Terminated
termination_of cs = elim cs.last_termination_state.terminated [
  | some term ↦ some term
  | none ↦ cs.state.terminated
]

unfoldable pub container_facts : ContainerStatus → Evidence.Evidence → Evidence.Evidence
unfolding with_termination termination_of
container_facts cs ev =
    let ev' =
      with_termination (termination_of cs) (record ev { restart_count = cs.restart_count }) in
    elim cs.state.waiting [ some wait ↦ record ev' { waiting_reason = wait.reason } | none ↦ ev' ]

unfoldable pub populate_container_facts :
    Text → List ContainerStatus → Evidence.Evidence → Evidence.Evidence
unfolding container_facts
populate_container_facts container [] ev = ev
populate_container_facts container (cs ∷ rest) ev =
    if not (is_empty container) && not (text_eq cs.name container)
    then populate_container_facts container rest ev
    else container_facts cs ev

unfoldable pub no_content : Text
no_content = codes "no content returned"

unfoldable pub none_missing : List EvidenceKind → Bool
none_missing [] = true
none_missing (kind ∷ kinds) = false

module _ (redactors : List Redactor) (readers : Readers) (target : Target) where
  unfoldable pub gathered_item : EvidenceKind → Bool → Gathered → EvidenceItem × ℕ
  gathered_item kind needed (unreadable why) = (
    record {
      kind = kind;
      status = CollectionStatus.unavailable;
      required = needed;
      reason = why;
      content = [];
    },
    0,
  )
  gathered_item kind needed (content text) =
      if is_empty (trim_space text)
      then (
        record {
          kind = kind;
          status = CollectionStatus.unavailable;
          required = needed;
          reason = no_content;
          content = [];
        },
        0,
      )
      else (
        record {
          kind = kind;
          status = CollectionStatus.collected;
          required = needed;
          reason = [];
          content = truncate (redact redactors text).0 content_limit;
        },
        (redact redactors text).1,
      )

  -- The item of a kind, and how many values were redacted in it.
  unfoldable pub item_for : EvidenceKind → EvidenceItem × ℕ
  unfolding gathered_item
  item_for kind = elim (requirement_for target.failure_type kind) [
    | Requirement.not_applicable ↦ (
      record {
        kind = kind;
        status = CollectionStatus.not_applicable;
        required = false;
        reason = not_applicable_reason target.failure_type kind;
        content = [];
      },
      0,
    )
    | Requirement.opportunistic ↦ gathered_item kind false (gather readers target kind)
    | Requirement.required ↦ gathered_item kind true (gather readers target kind)
  ]

  unfoldable pub add_item : EvidenceItem × ℕ → Evidence.Evidence → Evidence.Evidence
  add_item (it, count) ev = record ev {
    items = ev.items ++ it ∷ [];
    missing_required =
        if it.required && not (is_collected it.status)
        then ev.missing_required ++ it.kind ∷ []
        else ev.missing_required;
    redacted_fields = (ev.redacted_fields + count) % 4294967296;
  }

  unfoldable pub collect_kinds : List EvidenceKind → Evidence.Evidence → Evidence.Evidence
  unfolding item_for add_item
  collect_kinds [] ev = ev
  collect_kinds (kind ∷ kinds) ev = collect_kinds kinds (add_item (item_for kind) ev)

  unfoldable pub collect : Evidence.Evidence
  unfolding none_missing
  collect =
      let ev = collect_kinds all_kinds (
        populate_container_facts target.container target.pod.status.container_statuses
          no_evidence) in
      record ev { complete = none_missing ev.missing_required }

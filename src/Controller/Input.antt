-- ===== src/Controller/Input.antt =====
-- internal/controller/investigator_controller.go: `buildInput` and what it uses.
use kube_cure.Prelude.{
  ℕ, ◌*◌, Bool, true, false, not, ◌&&◌, none, some, List, [], ◌∷◌, ◌++◌, length, take, leb, map,
  if◌then◌else◌,
}
use kube_cure.Text.{Text, codes, text_eq, is_empty, show_nat}
use kube_cure.Text.Numbers.{show_int}
use kube_cure.Json.{Json, Fields, no_fields, field, RawMessage, blank, malformed, value, same_key}
use kube_cure.Api.Failure.{failure_text, action_text, ActionType}
use kube_cure.Api.Evidence
use kube_cure.Api.Evidence.{EvidenceKind, EvidenceItem, kind_text, is_collected, is_unavailable}
use kube_cure.Api.Diagnosis.{Diagnosis}
use kube_cure.Api.Policy.{AgentConfig}
use kube_cure.Agent.Types as agent
use kube_cure.Agent.Types.{Input, Pricing, BaselineItem, Requirement, Findings, stop_text}

abbrev pub baseline_excerpt_limit : ℕ
baseline_excerpt_limit = 1500

abbrev pub broker_headroom : ℕ
broker_headroom = 2

abbrev pub max_recorded_tool_calls : ℕ
max_recorded_tool_calls = 30

unfoldable pub tool_for_evidence : EvidenceKind → Text
tool_for_evidence EvidenceKind.previous_logs = codes "get_pod_logs"
tool_for_evidence EvidenceKind.current_logs = codes "get_pod_logs"
tool_for_evidence EvidenceKind.events = codes "get_pod_events"
tool_for_evidence EvidenceKind.workload_spec = codes "get_workload_spec"
tool_for_evidence EvidenceKind.rollout_history = codes "get_recent_changes"
tool_for_evidence EvidenceKind.config_references = codes "get_config_references"
tool_for_evidence EvidenceKind.service_endpoints = codes "get_service_endpoints"
tool_for_evidence EvidenceKind.node_status = codes "get_node_status"
tool_for_evidence EvidenceKind.sibling_pods = codes "get_related_pods"
tool_for_evidence EvidenceKind.resource_usage = codes "get_resource_usage"

unfoldable pub proposable_actions : List Text
proposable_actions = map action_text (
    ActionType.set_memory_limit ∷ ActionType.set_cpu_limit ∷ ActionType.set_image
    ∷ ActionType.set_probe_delay ∷ ActionType.set_probe_port ∷ ActionType.add_resource_requests
    ∷ ActionType.rollback_to_revision ∷ ActionType.restart_workload ∷ ActionType.no_action ∷ [])

unfoldable pub excerpt : Text → ℕ → Text
excerpt content limit =
    if leb (length content) limit
    then content
    else take limit content ++ codes "\n[excerpt truncated]"

-- `json.Unmarshal` into a struct with a Boolean: keys that are not known and values of another type
-- are passed over, and nothing is assigned when the bytes are not one JSON value.
previous_of : Fields → Bool → Bool
previous_of no_fields old = old
previous_of (field key (Json.boolean b) rest) old =
    previous_of rest (if same_key key (codes "previous") then b else old)
previous_of (field key v rest) old = previous_of rest old

unfoldable pub previous_argument : RawMessage → Bool
unfolding previous_of
previous_argument raw = elim raw.parsed [
  | blank ↦ false
  | malformed ↦ false
  | value (Json.object fields) false ↦ previous_of fields false
  | value j more ↦ false
]

unfoldable pub is_log_kind : EvidenceKind → Bool
is_log_kind EvidenceKind.previous_logs = true
is_log_kind EvidenceKind.current_logs = true
is_log_kind _ = false

abbrev is_previous : EvidenceKind → Bool
is_previous EvidenceKind.previous_logs = true
is_previous _ = false

abbrev same_bool : Bool → Bool → Bool
same_bool true b = b
same_bool false b = not b

-- The two log kinds share a tool and differ by an argument.
unfoldable pub satisfier_for : EvidenceKind → Text → RawMessage → Bool
satisfier_for kind name arguments =
    if is_log_kind kind
    then text_eq name (tool_for_evidence kind)
      && same_bool (previous_argument arguments) (is_previous kind)
    else text_eq name (tool_for_evidence kind)

unfoldable pub labelled : Text → Text → List Text
labelled label text = if is_empty text then [] else (label ++ text) ∷ []

unfoldable pub facts_of : Evidence.Evidence → List Text
facts_of ev =
    (elim ev.exit_code [ none ↦ [] | some c ↦ (codes "Previous exit code: " ++ show_int c) ∷ [] ])
    ++ (labelled (codes "Previous termination reason: ") ev.termination_reason
        ++ (labelled (codes "Currently displayed as: ") ev.waiting_reason
            ++ (codes "Restart count: " ++ show_nat ev.restart_count) ∷ []))

unfoldable pub baseline_of : List EvidenceItem → List BaselineItem
baseline_of [] = []
baseline_of (it ∷ rest) =
    if is_collected it.status
    then record {
      id = codes "B:" ++ kind_text it.kind;
      kind = kind_text it.kind;
      excerpt = excerpt it.content baseline_excerpt_limit;
    }
      ∷ baseline_of rest
    else baseline_of rest

unfoldable pub requirement_of : EvidenceItem → agent.Requirement
requirement_of it = record {
  kind = kind_text it.kind;
  tool = tool_for_evidence it.kind;
  collected = is_collected it.status;
  obtainable = not (is_unavailable it.status);
  satisfied_by = some (satisfier_for it.kind);
}

unfoldable pub requirements_of : List EvidenceItem → List agent.Requirement
requirements_of [] = []
requirements_of (it ∷ rest) =
    if it.required then requirement_of it ∷ requirements_of rest else requirements_of rest

unfoldable pub build_input : Diagnosis → AgentConfig → Pricing → Input
build_input d cfg pricing =
    let start : Input = record {
      failure_type = failure_text d.spec.failure_type;
      namespace = d.namespace;
      workload = elim d.spec.target.owner [
        | none ↦ codes "Pod/" ++ d.spec.target.name
        | some owner ↦ owner.kind ++ (codes "/" ++ owner.name)
      ];
      container = d.spec.container;
      facts = [];
      baseline = [];
      requirements = [];
      allowed_actions = proposable_actions;
      budget = record {
        max_tool_calls = cfg.max_tool_calls;
        max_tokens = cfg.max_tokens;
        max_cost_micro_usd = cfg.max_cost_micro_usd;
        timeout = cfg.timeout_seconds * 1000000000;
      };
      pricing = pricing;
    } in
    elim d.status.evidence [
      | none ↦ start
      | some ev ↦ record start {
        facts = facts_of ev;
        baseline = baseline_of ev.items;
        requirements = requirements_of ev.items;
      }
    ]

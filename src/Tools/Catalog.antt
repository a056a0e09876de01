-- ===== src/Tools/Catalog.antt =====
-- internal/tools/catalog.go and `decodeArgs` of broker.go: the tools and what each reads. The order
-- that `sort.Slice` leaves among equally old diagnoses and the layout of the JSON that a history
-- search returns are parameters.
use kube_cure.Prelude.{
  ℕ, zero, suc, ◌&&◌, Bool, true, false, not, Option, none, some, List, [], ◌∷◌, ◌++◌,
  if◌then◌else◌,
}
use kube_cure.Text.{Text, codes, text_eq, is_empty, quote}
use kube_cure.Json.{
  Json, RawMessage, blank, malformed, value, syntax_error, unknown_field, Decoded, decoded, invalid,
  same_key, decode_string, decode_bool, decode_struct, json_error_text,
}
use kube_cure.Api.Failure.{failure_text}
use kube_cure.Api.Evidence.{EvidenceKind}
use kube_cure.Api.Diagnosis.{Diagnosis, Phase}
use kube_cure.Cluster.{Pod, Answer, found, refused}
use kube_cure.Agent.Model.{Result, ok, err, CallError, denied, failed}
use kube_cure.Evidence.Collect.{Readers, Gathered, content, unreadable, gather}
use kube_cure.Tools.Scope.{
  Client, Scope, ◌>>=◌, read_error, resolve_pod, target_of, workload_target, has_container,
}

abbrev pub similar_limit : ℕ
similar_limit = 10

pub record LogArgs : Type 0 where
  pub pod : Text
  pub container : Text
  pub previous : Bool

unfoldable pub invalid_text : Text → Text
invalid_text why = codes "invalid arguments: " ++ why

unfoldable pub finish_args : {A : Type 0} → Bool → Decoded A → Result CallError A
finish_args more (invalid e) = err (denied (invalid_text (json_error_text e)))
finish_args true (decoded a) = err (denied (invalid_text (codes "trailing content")))
finish_args false (decoded a) = ok a

-- Strict decoding. No arguments and the bare text "null" stand for an empty object.
unfoldable pub decode_args :
    {A : Type 0} → (Json → A → Decoded A) → A → RawMessage → Result CallError A
unfolding finish_args
decode_args into zero_value raw = elim raw.parsed [
  | blank ↦ ok zero_value
  | malformed ↦ finish_args false (invalid syntax_error)
  | value j more ↦ finish_args more (into j zero_value)
]

unfoldable pub pod_field : Text → Json → Text → Decoded Text
pod_field key v pod =
    if same_key key (codes "pod") then decode_string v pod else invalid (unknown_field key)

unfoldable pub decode_pod_args : RawMessage → Result CallError Text
unfolding pod_field
decode_pod_args raw = decode_args (decode_struct pod_field) [] raw

unfoldable pub log_field : Text → Json → LogArgs → Decoded LogArgs
log_field key v args =
    if same_key key (codes "pod")
    then elim (decode_string v args.pod) [
      | decoded t ↦ decoded (record args { pod = t })
      | invalid e ↦ invalid e
    ]
    else if same_key key (codes "container")
    then elim (decode_string v args.container) [
      | decoded t ↦ decoded (record args { container = t })
      | invalid e ↦ invalid e
    ]
    else if same_key key (codes "previous")
    then elim (decode_bool v args.previous) [
      | decoded b ↦ decoded (record args { previous = b })
      | invalid e ↦ invalid e
    ]
    else invalid (unknown_field key)

unfoldable pub decode_log_args : RawMessage → Result CallError LogArgs
unfolding log_field
decode_log_args raw =
    decode_args (decode_struct log_field) (record { pod = []; container = []; previous = false })
      raw

-- A struct with no field: every key is unknown.
unfoldable pub no_field : Text → Json → Unit {0} → Decoded (Unit {0})
no_field key v u = invalid (unknown_field key)

unfoldable pub decode_no_args : RawMessage → Result CallError (Unit {0})
unfolding no_field
decode_no_args raw = decode_args (decode_struct no_field) tt raw

unfoldable pub similar_field : Text → Json → Text → Decoded Text
similar_field key v t =
    if same_key key (codes "failureType") then decode_string v t else invalid (unknown_field key)

unfoldable pub decode_similar_args : RawMessage → Result CallError Text
unfolding similar_field
decode_similar_args raw = decode_args (decode_struct similar_field) [] raw

unfoldable pub gathered_result : Gathered → Result CallError Text
gathered_result (content text) = ok text
gathered_result (unreadable why) = err (failed why)

-- What a history search tells of a diagnosis.
pub record SimilarEntry : Type 0 where
  pub diagnosis : Text
  pub created : ℕ
  pub phase : Phase
  pub workload : Option Text
  pub root_cause : Option Text
  pub action : Option Text
  pub verified : Option Bool

unfoldable pub similar_entry : Diagnosis → SimilarEntry
similar_entry d = record {
  diagnosis = d.name;
  created = d.creation_timestamp;
  phase = d.status.phase;
  workload = elim d.spec.target.owner [
    | none ↦ none
    | some owner ↦ some (owner.kind ++ (codes "/" ++ owner.name))
  ];
  root_cause = elim d.status.hypotheses [ [] ↦ none | h ∷ hs ↦ some h.root_cause ];
  action = elim d.status.plan [
    | none ↦ none
    | some plan ↦ elim plan.selected [ none ↦ none | some a ↦ some a.type ]
  ];
  verified = elim d.status.remediation [ none ↦ none | some r ↦ r.verified ];
}

-- Whether a diagnosis is another one, with the wanted failure type.
unfoldable pub is_similar : Scope → Text → Diagnosis → Bool
is_similar scope wanted d =
    not (text_eq d.name scope.diagnosis_name) && text_eq (failure_text d.spec.failure_type) wanted

-- The loop over the history; `room` is how many entries may still be added.
unfoldable pub similar_entries : Scope → Text → ℕ → List Diagnosis → List SimilarEntry
similar_entries scope wanted zero ds = []
similar_entries scope wanted (suc room) [] = []
similar_entries scope wanted (suc room) (d ∷ ds) = elim (is_similar scope wanted d) [
  | true ↦ similar_entry d ∷ similar_entries scope wanted room ds
  | false ↦ similar_entries scope wanted (suc room) ds
]

-- What the source leaves to the standard library and the API server.
pub record Registry : Type 0 where
  pub client : Client
  pub readers : Readers
  pub sort_recent : List Diagnosis → List Diagnosis
  pub render : List SimilarEntry → Text

none_similar : Text → Text
none_similar wanted = codes "no earlier " ++ (wanted ++ codes " diagnoses in this namespace")

unfoldable pub shown : (List SimilarEntry → Text) → Text → List SimilarEntry → Result CallError Text
unfolding none_similar
shown render wanted [] = ok (none_similar wanted)
shown render wanted (e ∷ es) = ok (render (e ∷ es))

module _ (registry : Registry) (scope : Scope) where
  unfoldable pub read_logs : Pod → LogArgs → Result CallError Text
  read_logs pod args =
      let target = target_of scope pod args.container in
      if not (is_empty target.container) && not (has_container pod.spec.containers target.container)
      then err (
          denied (
            codes "pod "
            ++ (quote pod.name ++ (codes " has no container " ++ quote target.container))))
      else gathered_result (
          gather registry.readers target
            (if args.previous then EvidenceKind.previous_logs else EvidenceKind.current_logs))

  unfoldable pub run_logs : RawMessage → Result CallError Text
  unfolding read_logs
  run_logs arguments = do
    args ← decode_log_args arguments
    pod ← resolve_pod registry.client scope args.pod
    read_logs pod args

  unfoldable pub pod_evidence : EvidenceKind → RawMessage → Result CallError Text
  pod_evidence kind arguments = do
    name ← decode_pod_args arguments
    pod ← resolve_pod registry.client scope name
    gathered_result (gather registry.readers (target_of scope pod []) kind)

  unfoldable pub workload_evidence : EvidenceKind → RawMessage → Result CallError Text
  workload_evidence kind arguments = do
    none_given ← decode_no_args arguments
    gathered_result (gather registry.readers (workload_target scope) kind)

  unfoldable pub report_similar : Text → Answer (List Diagnosis) → Result CallError Text
  unfolding shown
  report_similar wanted (refused e) = read_error e
  report_similar wanted (found ds) =
      shown registry.render wanted
        (similar_entries scope wanted similar_limit (registry.sort_recent ds))

  unfoldable pub run_similar : RawMessage → Result CallError Text
  unfolding report_similar
  run_similar arguments = do
    given ← decode_similar_args arguments
    report_similar (if is_empty given then failure_text scope.failure_type else given)
        (registry.client.list_diagnoses scope.namespace)

  -- The catalogue: each name with its handler.
  unfoldable pub catalog : List (Text × (RawMessage → Result CallError Text))
  unfolding run_logs pod_evidence workload_evidence run_similar
  catalog =
      (codes "get_pod_logs", run_logs)
      ∷ (codes "get_pod_events", pod_evidence EvidenceKind.events)
      ∷ (codes "get_workload_spec", workload_evidence EvidenceKind.workload_spec)
      ∷ (codes "get_recent_changes", workload_evidence EvidenceKind.rollout_history)
      ∷ (codes "get_related_pods", pod_evidence EvidenceKind.sibling_pods)
      ∷ (codes "get_service_endpoints", pod_evidence EvidenceKind.service_endpoints)
      ∷ (codes "get_node_status", pod_evidence EvidenceKind.node_status)
      ∷ (codes "get_config_references", pod_evidence EvidenceKind.config_references)
      ∷ (codes "get_resource_usage", pod_evidence EvidenceKind.resource_usage)
      ∷ (codes "search_similar_diagnoses", run_similar)
      ∷ []

-- ===== src/Api/Evidence.antt =====
-- The evidence types of api/v1alpha1/diagnosis_types.go.
use kube_cure.Prelude.{ℕ, ℤ, Bool, true, false, Option, List}
use kube_cure.Text.{Text, codes}

pub data EvidenceKind : Type 0 where
  previous_logs current_logs events workload_spec rollout_history : EvidenceKind
  config_references service_endpoints node_status sibling_pods resource_usage : EvidenceKind

unfoldable pub kind_text : EvidenceKind → Text
kind_text previous_logs = codes "PreviousLogs"
kind_text current_logs = codes "CurrentLogs"
kind_text events = codes "Events"
kind_text workload_spec = codes "WorkloadSpec"
kind_text rollout_history = codes "RolloutHistory"
kind_text config_references = codes "ConfigReferences"
kind_text service_endpoints = codes "ServiceEndpoints"
kind_text node_status = codes "NodeStatus"
kind_text sibling_pods = codes "SiblingPods"
kind_text resource_usage = codes "ResourceUsage"

pub data CollectionStatus : Type 0 where
  collected not_applicable unavailable : CollectionStatus

abbrev pub is_collected : CollectionStatus → Bool
is_collected collected = true
is_collected not_applicable = false
is_collected unavailable = false

abbrev pub is_unavailable : CollectionStatus → Bool
is_unavailable unavailable = true
is_unavailable collected = false
is_unavailable not_applicable = false

pub record EvidenceItem : Type 0 where
  pub kind : EvidenceKind
  pub status : CollectionStatus
  pub required : Bool
  pub reason : Text
  pub content : Text

-- `redacted_fields` is an int32, kept as its bit pattern.
pub record Evidence : Type 0 where
  pub items : List EvidenceItem
  pub complete : Bool
  pub missing_required : List EvidenceKind
  pub exit_code : Option ℤ
  pub restart_count : ℕ
  pub termination_reason : Text
  pub waiting_reason : Text
  pub redacted_fields : ℕ

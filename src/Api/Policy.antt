-- ===== src/Api/Policy.antt =====
-- api/v1alpha1/healingpolicy_types.go. Durations are nanoseconds. The bounds that the CRD states
-- for the agent's limits are all at least 1, so these are natural numbers.
use kube_cure.Prelude.{ℕ, ℤ, Bool, List}
use kube_cure.Text.{Text}
use kube_cure.Api.Failure.{FailureType, ActionType, RemediationMode, BlastRadius}

pub record AnalyzerConfig : Type 0 where
  pub provider : Text
  pub escalate_to_provider : Text
  pub min_rule_confidence : ℤ

pub record AgentConfig : Type 0 where
  pub enabled : Bool
  pub max_tool_calls : ℕ
  pub max_tokens : ℕ
  pub max_cost_micro_usd : ℕ
  pub timeout_seconds : ℕ
  pub judge_enabled : Bool

pub record RemediationConfig : Type 0 where
  pub mode : RemediationMode
  pub min_confidence : ℤ
  pub allowed_actions : List ActionType
  pub max_blast_radius : BlastRadius
  pub require_reversible : Bool
  pub verification_window : ℕ

pub record HealingPolicySpec : Type 0 where
  pub failure_types : List FailureType
  pub analyzer : AnalyzerConfig
  pub agent : AgentConfig
  pub remediation : RemediationConfig
  pub max_diagnoses_per_hour : ℤ
  pub resolved_retention : ℕ

pub record HealingPolicyStatus : Type 0 where
  pub active_diagnoses : ℕ
  pub diagnoses_this_hour : ℕ

pub record HealingPolicy : Type 0 where
  pub name : Text
  pub namespace : Text
  pub spec : HealingPolicySpec
  pub status : HealingPolicyStatus

-- ===== src/Agent/Types.antt =====
-- The data of internal/agent/investigator.go and findings.go. Token counts and costs are sums of
-- at most 56 turns of int32 counts, far below the range of int64, so they are natural numbers.
use kube_cure.Prelude.{ℕ, ℤ, Bool, Option, List}
use kube_cure.Text.{Text, codes}
use kube_cure.Json.{RawMessage}
use kube_cure.Api.Failure.{Action}

pub record Budget : Type 0 where
  pub max_tool_calls : ℕ
  pub max_tokens : ℕ
  pub max_cost_micro_usd : ℕ
  pub timeout : ℕ

pub record Pricing : Type 0 where
  pub input_micro_usd_per_million : ℕ
  pub output_micro_usd_per_million : ℕ

pub record BaselineItem : Type 0 where
  pub id : Text
  pub kind : Text
  pub excerpt : Text

-- `satisfied_by` is `none` for a nil function.
pub record Requirement : Type 0 where
  pub kind : Text
  pub tool : Text
  pub collected : Bool
  pub obtainable : Bool
  pub satisfied_by : Option (Text → RawMessage → Bool)

pub record Input : Type 0 where
  pub failure_type : Text
  pub namespace : Text
  pub workload : Text
  pub container : Text
  pub facts : List Text
  pub baseline : List BaselineItem
  pub requirements : List Requirement
  pub allowed_actions : List Text
  pub budget : Budget
  pub pricing : Pricing

pub record Hypothesis : Type 0 where
  pub id : Text
  pub rank : ℕ
  pub root_cause : Text
  pub confidence_percent : ℤ
  pub evidence_citations : List Text
  pub proposed_actions : List Action

-- The strings that `StopReason` takes.
pub data StopReason : Type 0 where
  unset concluded wall_clock tokens cost turn_limit : StopReason

unfoldable pub stop_text : StopReason → Text
stop_text StopReason.unset = codes ""
stop_text StopReason.concluded = codes "concluded"
stop_text StopReason.wall_clock = codes "wall clock budget exhausted"
stop_text StopReason.tokens = codes "token budget exhausted"
stop_text StopReason.cost = codes "cost budget exhausted"
stop_text StopReason.turn_limit = codes "turn limit reached without a valid conclusion"

pub record Findings : Type 0 where
  pub hypotheses : List Hypothesis
  pub tool_calls : ℕ
  pub turns : ℕ
  pub tokens : ℕ
  pub cost_micro_usd : ℕ
  pub cost_known : Bool
  pub duration : ℕ
  pub budget_exhausted : Bool
  pub degraded : Bool
  pub missing_required : List Text
  pub stop_reason : StopReason

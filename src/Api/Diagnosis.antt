-- ===== src/Api/Diagnosis.antt =====
-- The rest of api/v1alpha1/diagnosis_types.go. Times are nanoseconds, and 0 is Go's zero time.
-- Of the status, the list of standard conditions is left out: nothing reads or writes it.
use kube_cure.Prelude.{ℕ, ℤ, Bool, true, false, Option, List}
use kube_cure.Text.{Text}
use kube_cure.Api.Failure.{FailureType, Action, RemediationMode, BlastRadius, Reversibility}
use kube_cure.Api.Evidence.{Evidence}

-- `unset` is the empty string, which a freshly created object has before its first status write.
pub data Phase : Type 0 where
  unset detected enriched hypothesized judged planned : Phase
  remediating verifying healed failed awaiting_human : Phase

abbrev pub is_detected : Phase → Bool
is_detected detected = true
is_detected _ = false

abbrev pub is_enriched : Phase → Bool
is_enriched enriched = true
is_enriched _ = false

pub record OwnerRef : Type 0 where
  pub kind : Text
  pub name : Text

pub record TargetRef : Type 0 where
  pub name : Text
  pub uid : Text
  pub owner : Option OwnerRef

pub record DiagnosisSpec : Type 0 where
  pub target : TargetRef
  pub failure_type : FailureType
  pub container : Text
  pub signature : Text
  pub observed_at : ℕ
  pub policy_ref : Text

pub record Timings : Type 0 where
  pub detected_at : Option ℕ
  pub enriched_at : Option ℕ
  pub hypothesized_at : Option ℕ
  pub judged_at : Option ℕ
  pub planned_at : Option ℕ
  pub remediated_at : Option ℕ
  pub healed_at : Option ℕ

pub record Hypothesis : Type 0 where
  pub id : Text
  pub rank : ℕ
  pub root_cause : Text
  pub confidence_percent : ℤ
  pub evidence_citations : List Text
  pub proposed_actions : List Action

pub record ToolCall : Type 0 where
  pub tool : Text
  pub arguments : Text
  pub summary : Text
  pub duration_millis : ℕ
  pub error : Text

pub record Investigation : Type 0 where
  pub provider : Text
  pub agentic : Bool
  pub tool_calls : List ToolCall
  pub tokens_used : ℕ
  pub cost_micro_usd : ℕ
  pub duration_millis : ℕ
  pub budget_exhausted : Bool
  pub stop_reason : Text
  pub degraded : Bool
  pub turns : ℕ

pub record Verdict : Type 0 where
  pub hypothesis_id : Text
  pub supported : Bool
  pub reasoning : Text
  pub adjusted_confidence_percent : ℤ

pub record Judgement : Type 0 where
  pub provider : Text
  pub verdicts : List Verdict
  pub selected_hypothesis_id : Text

pub record RankedAction : Type 0 where
  pub action : Action
  pub blast_radius : BlastRadius
  pub reversibility : Reversibility
  pub addresses_recent_change : Bool
  pub policy_eligible : Bool
  pub score : ℤ

pub data PlanDecision : Type 0 where
  apply defer_plan no_plan : PlanDecision

pub record Plan : Type 0 where
  pub decision : PlanDecision
  pub reason : Text
  pub selected : Option Action
  pub candidates : List RankedAction

pub record Remediation : Type 0 where
  pub mode : RemediationMode
  pub applied : Bool
  pub skip_reason : Text
  pub patch : Text
  pub reference : Text
  pub verified : Option Bool

pub record DiagnosisStatus : Type 0 where
  pub phase : Phase
  pub timings : Timings
  pub time_to_diagnosis : Text
  pub time_to_recovery : Text
  pub evidence : Option Evidence
  pub investigation : Option Investigation
  pub hypotheses : List Hypothesis
  pub judgement : Option Judgement
  pub plan : Option Plan
  pub remediation : Option Remediation
  pub observed_generation : ℕ

-- Of the object's metadata, what the controllers use.
pub record Diagnosis : Type 0 where
  pub name : Text
  pub namespace : Text
  pub creation_timestamp : ℕ
  pub resource_version : ℕ
  pub labels : List (Text × Text)
  pub spec : DiagnosisSpec
  pub status : DiagnosisStatus

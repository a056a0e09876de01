-- ===== src/Agent/State.antt =====
-- internal/agent/investigator.go: the state of the loop, and the steps that touch no collaborator.
-- `concludeThreshold` is 0.8; its comparisons in float64 are exact for integers below 2^50, where
-- they agree with 4 * limit ≤ 5 * used.
use kube_cure.Prelude.{
  ℕ, ◌+◌, ◌-◌, ◌*◌, ◌/◌, Bool, true, false, not, ◌&&◌, ◌||◌, Option, none, some, List, [], ◌∷◌,
  ◌++◌, ltb, leb, map, if◌then◌else◌,
}
use kube_cure.Text.{Text, codes, text_eq, join}
use kube_cure.Json.{RawMessage}
use kube_cure.Agent.Model.{ToolCall, Usage, CallError, denied, failed, Result, ok, err}
use kube_cure.Agent.Types.{
  Pricing, BaselineItem, Requirement, Input, Hypothesis, StopReason, Findings,
}
use kube_cure.Agent.Findings.{
  Validated, valid, problems, validate_submission, cap_confidence, degraded_confidence_cap,
}

abbrev pub extra_turns : ℕ
extra_turns = 6

unfoldable pub submit_tool : Text
submit_tool = codes "submit_findings"

unfoldable pub pricing_known : Pricing → Bool
pricing_known p = ltb 0 p.input_micro_usd_per_million || ltb 0 p.output_micro_usd_per_million

-- `input` carries the requirements as they change; `ledger` is a map, the latest entry first.
pub record LoopState : Type 0 where
  pub input : Input
  pub findings : Findings
  pub ledger : List (Text × Text)
  pub started : ℕ
  pub next_evidence : ℕ

baseline_ledger : List BaselineItem → List (Text × Text) → List (Text × Text)
baseline_ledger [] ledger = ledger
baseline_ledger (b ∷ bs) ledger = baseline_ledger bs ((b.id, b.kind) ∷ ledger)

unfoldable pub initial_state : Input → ℕ → LoopState
unfolding baseline_ledger
initial_state input started = record {
  input = input;
  findings = record {
    hypotheses = [];
    tool_calls = 0;
    turns = 0;
    tokens = 0;
    cost_micro_usd = 0;
    cost_known = pricing_known input.pricing;
    duration = 0;
    budget_exhausted = false;
    degraded = false;
    missing_required = [];
    stop_reason = StopReason.unset;
  };
  ledger = baseline_ledger input.baseline [];
  started = started;
  next_evidence = 1;
}

-- Kinds of the requirements that are neither collected nor obtainable.
unfoldable pub missing_unobtainable : List Requirement → List Text
missing_unobtainable [] = []
missing_unobtainable (r ∷ rs) =
    if not r.collected && not r.obtainable
    then r.kind ∷ missing_unobtainable rs
    else missing_unobtainable rs

unfoldable pub missing_obtainable : List Requirement → List Text
missing_obtainable [] = []
missing_obtainable (r ∷ rs) =
    if not r.collected && r.obtainable
    then (r.kind ++ (codes " (call " ++ (r.tool ++ codes ")"))) ∷ missing_obtainable rs
    else missing_obtainable rs

abbrev pub is_nil {ℓ} : {A : Type ℓ} → List A → Bool
is_nil [] = true
is_nil (x ∷ xs) = false

unfoldable pub tool_budget_left : LoopState → Bool
tool_budget_left st = ltb st.findings.tool_calls st.input.budget.max_tool_calls

unfoldable pub accept_valid : List Hypothesis → LoopState → Validated × LoopState
accept_valid hypotheses st =
    let obtainable = missing_obtainable st.input.requirements in
    let missing = missing_unobtainable st.input.requirements ++ obtainable in
    if not (is_nil obtainable) && tool_budget_left st
    then (
      problems (
          (codes "required evidence has not been gathered yet: " ++ join (codes ", ") obtainable)
          ∷ []),
      st,
    )
    else if is_nil missing
    then (valid hypotheses, st)
    else (
      valid (cap_confidence degraded_confidence_cap hypotheses),
      record st { findings = record st.findings { degraded = true; missing_required = missing } },
    )

unfoldable pub accept : RawMessage → LoopState → Validated × LoopState
accept arguments st = elim (validate_submission arguments st.ledger st.input.allowed_actions) [
  | problems ps ↦ (problems ps, st)
  | valid hypotheses ↦ accept_valid hypotheses st
]

unfoldable pub requirement_matches : Requirement → ToolCall → Bool
requirement_matches r call = elim r.satisfied_by [
  | none ↦ text_eq r.tool call.name
  | some satisfied_by ↦ satisfied_by call.name call.arguments
]

-- A success collects the evidence, a failed read makes it unobtainable, a denial says nothing.
settle : Requirement → Result CallError Text → Requirement
settle r (ok content) = record r { collected = true }
settle r (err (failed why)) = record r { obtainable = false }
settle r (err (denied why)) = r

unfoldable pub update_requirement : ToolCall → Result CallError Text → Requirement → Requirement
unfolding settle
update_requirement call result r =
    if r.collected then r else if requirement_matches r call then settle r result else r

unfoldable pub record_requirement : ToolCall → Result CallError Text → LoopState → LoopState
record_requirement call result st = record st {
  input = record st.input {
    requirements = map (update_requirement call result) st.input.requirements;
  };
}

unfoldable pub account : Usage → LoopState → LoopState
account u st =
    let p = st.input.pricing in
    let f = st.findings in
    let spent =
      u.input_tokens * p.input_micro_usd_per_million / 1000000
      + u.output_tokens * p.output_micro_usd_per_million / 1000000 in
    record st {
      findings = record f {
        tokens = f.tokens + (u.input_tokens + u.output_tokens);
        cost_micro_usd = if f.cost_known then f.cost_micro_usd + spent else f.cost_micro_usd;
      };
    }

-- The argument tells whether the context is done; `none` is the empty reason.
unfoldable pub exhausted : Bool → LoopState → Option StopReason
exhausted expired st =
    let b = st.input.budget in
    let f = st.findings in
    if expired
    then some StopReason.wall_clock
    else if ltb 0 b.max_tokens && leb b.max_tokens f.tokens
    then some StopReason.tokens
    else if f.cost_known && ltb 0 b.max_cost_micro_usd && leb b.max_cost_micro_usd f.cost_micro_usd
    then some StopReason.cost
    else none

unfoldable pub nearly_exhausted : LoopState → Bool
nearly_exhausted st =
    let b = st.input.budget in
    let f = st.findings in
    if ltb 0 b.max_tool_calls && leb (b.max_tool_calls - 1) f.tool_calls
    then true
    else if ltb 0 b.max_tokens && leb (4 * b.max_tokens) (5 * f.tokens)
    then true
    else f.cost_known
      && ltb 0 b.max_cost_micro_usd
      && leb (4 * b.max_cost_micro_usd) (5 * f.cost_micro_usd)

-- The loop passes `true` for `exhausted` at every call.
unfoldable pub stop : StopReason → LoopState → LoopState
stop reason st = record st {
  findings = record st.findings { stop_reason = reason; budget_exhausted = true; hypotheses = [] };
}

-- ===== src/Examples/Agent.antt =====
-- internal/agent on one submission, and on a conversation in which the model submits it at once.
use kube_cure.Prelude.{
  ℕ, suc, ◌+◌, ◌≤◌, ℤ, pos, true, false, ◌≡◌, ◌≢◌, ◌↔◌, ◌⊎◌, refl, none, some, List, [], ◌∷◌,
}
use kube_cure.Text.{Text, codes}
use kube_cure.Json
use kube_cure.Json.{Json, Parsed, value, RawMessage, no_fields, field, no_items, item}
use kube_cure.Agent.Model.{Broker, Model, Clock, Role, ok, err, failed}
use kube_cure.Agent.Types.{Input, Hypothesis, StopReason}
use kube_cure.Agent.Findings.{
  RawHypothesis, Validated, valid, problems, submission_problems, rank, validate_submission,
}
use kube_cure.Agent.Spec.{SubmissionOk}
use kube_cure.Agent.State.{LoopState, initial_state, accept}
use kube_cure.Agent.Loop.{run}
use kube_cure.Agent.Valid.{submission_problems_iff}
use kube_cure.Agent.Ranking.{rank_stable, Ranked, NumberedFrom, LeastOf, with_confidence}
use kube_cure.Agent.Gate.{accept_gate, Accepted, Report}
use kube_cure.Agent.Admission.{accept_exact, Accepts, Rejects, Admissible}
use kube_cure.Agent.Metered.{Counts, run_metered}
use kube_cure.Agent.Outcome.{run_ends, run_concludes, run_reports_no_duration}
use kube_cure.Agent.Endings.{Exhausted, Aborted}

abbrev pub input : Input
input = record {
  failure_type = codes "OOMKilled";
  namespace = codes "shop";
  workload = codes "Deployment/api";
  container = codes "app";
  facts = [];
  baseline = record { id = codes "B1"; kind = codes "Events"; excerpt = codes "killed" } ∷ [];
  requirements =
      record {
        kind = codes "CurrentLogs";
        tool = codes "get_pod_logs";
        collected = false;
        obtainable = false;
        satisfied_by = none;
      }
      ∷ [];
  allowed_actions = codes "IncreaseMemory" ∷ [];
  budget = record { max_tool_calls = 2; max_tokens = 0; max_cost_micro_usd = 0; timeout = 0 };
  pricing = record { input_micro_usd_per_million = 0; output_micro_usd_per_million = 0 };
}

abbrev raw_hypothesis : RawHypothesis
raw_hypothesis = record {
  root_cause = codes "leak";
  confidence_percent = pos 90;
  evidence_citations = codes "B1" ∷ [];
  proposed_actions = [];
}

abbrev message : Json → RawMessage
message j = record { bytes = []; compacted = none; parsed = value j false }

abbrev submission : RawMessage
submission = message (
    Json.object (
      field (codes "hypotheses")
        (Json.array (
          item
            (Json.object (
              field (codes "rootCause") (Json.string (codes "leak")) (
                field (codes "confidencePercent") (Json.integer (pos 90)) (
                  field (codes "evidenceCitations")
                    (Json.array (item (Json.string (codes "B1")) no_items)) no_fields))))
            no_items))
        no_fields))

submission_problems_iff_example :
    (submission_problems ((codes "B1", codes "Events") ∷ []) [] (raw_hypothesis ∷ []) ≡ [])
    ↔ SubmissionOk ((codes "B1", codes "Events") ∷ []) [] (raw_hypothesis ∷ [])
submission_problems_iff_example =
    submission_problems_iff ((codes "B1", codes "Events") ∷ []) [] (raw_hypothesis ∷ [])

abbrev hypothesis : ℤ → Text → Hypothesis
hypothesis c cause = record {
  id = [];
  rank = 0;
  root_cause = cause;
  confidence_percent = c;
  evidence_citations = codes "B1" ∷ [];
  proposed_actions = [];
}

abbrev unranked : List Hypothesis
unranked =
    hypothesis (pos 40) (codes "leak")
    ∷ hypothesis (pos 90) (codes "limit")
    ∷ hypothesis (pos 40) (codes "load")
    ∷ []

rank_stable_example :
    Ranked (rank unranked)
    × NumberedFrom 0 (rank unranked)
    × (with_confidence (pos 40) (rank unranked) ≡ with_confidence (pos 40) unranked)
rank_stable_example = rank_stable unranked (pos 40)

abbrev state : LoopState
state = initial_state input 0

abbrev accepted_hypotheses : List Hypothesis
accepted_hypotheses = record (hypothesis (pos 70) (codes "leak")) { id = codes "H1"; rank = 1 } ∷ []

abbrev degraded_state : LoopState
degraded_state = record state {
  findings = record state.findings { degraded = true; missing_required = codes "CurrentLogs" ∷ [] };
}

accept_gate_example : Accepted state accepted_hypotheses degraded_state
unfolding accept validate_submission kube_cure.Agent.Findings.decode_submission Json.decode_first
    Json.decode_struct Json.same_key Json.decode_slice Json.decode_string Json.decode_int
    submission_problems kube_cure.Agent.Findings.hypothesis_problems kube_cure.Text.trim_space
    kube_cure.Agent.Findings.in_ledger kube_cure.Agent.Findings.ledger_get initial_state
    kube_cure.Text.text_eq kube_cure.Agent.State.accept_valid
    kube_cure.Agent.State.missing_obtainable kube_cure.Agent.Findings.action_field
    kube_cure.Agent.Findings.action_problems kube_cure.Agent.Findings.cap_confidence
    kube_cure.Agent.Findings.cause_problems kube_cure.Agent.Findings.citation_problems
    kube_cure.Agent.Findings.decode_action kube_cure.Agent.Findings.decode_hypothesis
    kube_cure.Agent.Findings.decode_text kube_cure.Agent.Findings.dedupe
    kube_cure.Agent.Findings.dedupe_from kube_cure.Agent.Findings.hypothesis_field
    kube_cure.Agent.Findings.insert_ranked kube_cure.Agent.Findings.is_allowed
    kube_cure.Agent.Findings.number_from kube_cure.Agent.Findings.problems_from rank
    kube_cure.Agent.Findings.sort_hypotheses kube_cure.Agent.Findings.submission_field
    kube_cure.Agent.Findings.to_hypothesis kube_cure.Agent.State.missing_unobtainable
    kube_cure.Agent.State.pricing_known kube_cure.Agent.State.tool_budget_left Json.decode_fields
    Json.json_error_text kube_cure.Text.join kube_cure.Text.quote kube_cure.Text.show_nat
    kube_cure.Text.trim
accept_gate_example = accept_gate submission state accepted_hypotheses degraded_state refl

accept_exact_example :
    (Accepts submission state ↔ Admissible submission state)
    × (Rejects submission state ↔ (Admissible submission state → ⊥))
accept_exact_example = accept_exact submission state

-- The world counts the requests to the model.
abbrev clock : Clock ℕ
clock = record { now = λ w. w; expired = λ w. (false, w) }

abbrev broker : Broker ℕ
broker = record { tools = []; call = λ name arguments w. (err (failed (codes "unreachable")), w) }

abbrev submitting_model : Model ℕ
submitting_model = record {
  name = codes "scripted";
  generate = λ request w. (
    ok (record {
      message = record {
        role = Role.model;
        text = [];
        tool_calls =
            record { id = codes "c1"; name = codes "submit_findings"; arguments = submission } ∷ [];
        tool_results = [];
        provider_state = none;
      };
      usage = record { input_tokens = 100; output_tokens = 20 };
    }),
    suc w,
  );
}

run_ends_example :
    let out = run broker submitting_model clock [] [] input 0 in
    (out.returned.tool_calls ≤ 2)
    × (out.returned.turns ≤ 2 + 6)
    × (((out.returned.stop_reason ≡ StopReason.concluded)
          × (out.returned.budget_exhausted ≡ false)
          × (out.returned.hypotheses ≢ [])
          × (out.error ≡ none))
        ⊎ (Exhausted out.returned × (out.error ≡ none))
        ⊎ (Aborted out.returned × ((why : Text) × (out.error ≡ some why))))
run_ends_example = run_ends broker submitting_model clock [] [] input 0

run_concludes_example :
    let out = run broker submitting_model clock [] [] input 0 in
    Report out.state.ledger input.allowed_actions out.returned.hypotheses
    × ((out.returned.degraded ≡ false)
        ⊎ (LeastOf (pos 70) out.returned.hypotheses × (out.returned.missing_required ≢ [])))
unfolding accept validate_submission kube_cure.Agent.Findings.decode_submission Json.decode_first
    Json.decode_struct Json.same_key Json.decode_slice Json.decode_string Json.decode_int
    submission_problems kube_cure.Agent.Findings.hypothesis_problems kube_cure.Text.trim_space
    kube_cure.Agent.Findings.in_ledger kube_cure.Agent.Findings.ledger_get initial_state
    kube_cure.Text.text_eq kube_cure.Agent.State.accept_valid
    kube_cure.Agent.State.missing_obtainable kube_cure.Agent.Findings.action_field
    kube_cure.Agent.Findings.action_problems kube_cure.Agent.Findings.cap_confidence
    kube_cure.Agent.Findings.cause_problems kube_cure.Agent.Findings.citation_problems
    kube_cure.Agent.Findings.decode_action kube_cure.Agent.Findings.decode_hypothesis
    kube_cure.Agent.Findings.decode_text kube_cure.Agent.Findings.dedupe
    kube_cure.Agent.Findings.dedupe_from kube_cure.Agent.Findings.hypothesis_field
    kube_cure.Agent.Findings.insert_ranked kube_cure.Agent.Findings.is_allowed
    kube_cure.Agent.Findings.number_from kube_cure.Agent.Findings.problems_from rank
    kube_cure.Agent.Findings.sort_hypotheses kube_cure.Agent.Findings.submission_field
    kube_cure.Agent.Findings.to_hypothesis kube_cure.Agent.State.missing_unobtainable
    kube_cure.Agent.State.pricing_known kube_cure.Agent.State.tool_budget_left Json.decode_fields
    Json.json_error_text kube_cure.Text.join kube_cure.Text.quote kube_cure.Text.show_nat
    kube_cure.Text.trim run kube_cure.Agent.Loop.loop kube_cure.Agent.Loop.max_turns
    kube_cure.Agent.Loop.turn kube_cure.Agent.State.exhausted kube_cure.Agent.Loop.handle_calls
    kube_cure.Agent.Loop.handle_call kube_cure.Agent.State.submit_tool kube_cure.Agent.Loop.submit
    kube_cure.Agent.Loop.judged kube_cure.Agent.Loop.replied kube_cure.Agent.Loop.after_calls
    kube_cure.Agent.Loop.generated kube_cure.Agent.Loop.checked kube_cure.Agent.State.account
    kube_cure.Agent.Loop.turn_begun kube_cure.Agent.Loop.conclude
run_concludes_example = run_concludes broker submitting_model clock [] [] input 0 refl

run_reports_no_duration_example :
    (run broker submitting_model clock [] [] input 0).returned.duration ≡ 0
run_reports_no_duration_example =
    run_reports_no_duration broker submitting_model clock [] [] input 0

-- The world counts the calls of the broker; the model asks for one tool at each turn.
abbrev counting_broker : Broker ℕ
counting_broker = record {
  tools = [];
  call = λ name arguments w. (err (failed (codes "unreachable")), w + 1);
}

abbrev asking_model : Model ℕ
asking_model = record {
  name = codes "scripted";
  generate = λ request w. (
    ok (record {
      message = record {
        role = Role.model;
        text = [];
        tool_calls =
            record { id = codes "c1"; name = codes "get_pod_logs"; arguments = submission } ∷ [];
        tool_results = [];
        provider_state = none;
      };
      usage = record { input_tokens = 100; output_tokens = 20 };
    }),
    w,
  );
}

counting : Counts counting_broker asking_model clock (λ w. w)
counting = record {
  by_broker = λ name arguments w. refl;
  by_model = λ request w. refl;
  by_clock = λ w. refl;
}

run_metered_example :
    let out = run counting_broker asking_model clock [] [] input 0 in
    out.world ≡ 0 + out.returned.tool_calls
run_metered_example = run_metered counting_broker asking_model clock (λ w. w) counting [] [] input 0

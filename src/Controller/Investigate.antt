-- ===== src/Controller/Investigate.antt =====
-- internal/controller/investigator_controller.go. The world of an investigation is what the cluster,
-- the model and the clock read and change; the broker's record of calls goes with it.
use kube_cure.Prelude.{
  ℕ, zero, suc, ◌+◌, ◌/◌, ◌%◌, true, not, Option, none, some, List, [], ◌∷◌, ◌++◌, take,
  if◌then◌else◌,
}
use kube_cure.Text.{Text, codes}
use kube_cure.Api.Diagnosis
use kube_cure.Api.Diagnosis.{Diagnosis, DiagnosisStatus, Investigation, Timings, Phase, is_enriched}
use kube_cure.Api.Policy.{HealingPolicy, AgentConfig}
use kube_cure.Cluster.{
  Answer, found, refused, ApiError, not_found, conflict, already_exists, api_failure,
}
use kube_cure.Agent.Model.{Broker, Model, Clock, ToolSpec}
use kube_cure.Agent.Types as agent
use kube_cure.Agent.Types.{Input, Pricing, BaselineItem, Requirement, Findings, stop_text}
use kube_cure.Agent.Loop.{Outcome, run}
use kube_cure.Evidence.Redact.{Redactor}
use kube_cure.Tools.Scope.{scope_for_diagnosis}
use kube_cure.Tools.Catalog.{Registry}
use kube_cure.Tools.Broker as tools
use kube_cure.Tools.Broker.{bind_to, call}
use kube_cure.Controller.Store.{Reconciled, done, retry, update_status}
use kube_cure.Controller.Pod.{ignore_not_found}
use kube_cure.Controller.Input.{broker_headroom, max_recorded_tool_calls, build_input}

-- The ranks and the confidences of findings are far below 2^31, so that their conversions to int32
-- keep them.
unfoldable pub to_api_hypotheses : List agent.Hypothesis → List Diagnosis.Hypothesis
to_api_hypotheses [] = []
to_api_hypotheses (h ∷ hs) =
    record {
      id = h.id;
      rank = h.rank;
      root_cause = h.root_cause;
      confidence_percent = h.confidence_percent;
      evidence_citations = h.evidence_citations;
      proposed_actions = h.proposed_actions;
    }
    ∷ to_api_hypotheses hs

-- The counts are int32, kept as their bit patterns.
unfoldable pub investigation_of : Text → Findings → List Diagnosis.ToolCall → Investigation
investigation_of provider f calls = record {
  provider = provider;
  agentic = true;
  tool_calls = take max_recorded_tool_calls calls;
  tokens_used = f.tokens % 4294967296;
  cost_micro_usd = f.cost_micro_usd;
  duration_millis = f.duration / 1000000;
  budget_exhausted = f.budget_exhausted;
  stop_reason = stop_text f.stop_reason;
  degraded = f.degraded;
  turns = f.turns % 4294967296;
}

unfoldable pub hypothesized_status :
    ℕ → Investigation → List Diagnosis.Hypothesis → DiagnosisStatus → DiagnosisStatus
hypothesized_status now inv hs s = record s {
  investigation = some inv;
  hypotheses = hs;
  phase = Phase.hypothesized;
  timings = record s.timings { hypothesized_at = some now };
}

-- What one attempt to record finds: the diagnosis as then read, the fault of the write, the time.
pub record Attempt : Type 0 where
  pub latest : Answer Diagnosis
  pub fault : Option ApiError
  pub now : ℕ

unfoldable pub or_again :
    Option Reconciled → List Diagnosis → Reconciled × List Diagnosis → Reconciled × List Diagnosis
or_again (some r) store later = (r, store)
or_again none store later = later

module _ (inv : Investigation) (hs : List Diagnosis.Hypothesis) (attempts : ℕ → Attempt) where
  -- The outcome of an attempt: `none` for a conflict, which is retried.
  unfoldable pub attempted : Option ApiError × List Diagnosis → Option Reconciled × List Diagnosis
  attempted (none, store) = (some done, store)
  attempted (some conflict, store) = (none, store)
  attempted (some not_found, store) = (some (retry not_found), store)
  attempted (some already_exists, store) = (some (retry already_exists), store)
  attempted (some (api_failure why), store) = (some (retry (api_failure why)), store)

  unfoldable pub attempt_on :
      Answer Diagnosis → Option ApiError → ℕ → List Diagnosis → Option ApiError × List Diagnosis
  attempt_on (refused e) fault now store = (some e, store)
  attempt_on (found d) fault now store =
      if not (is_enriched d.status.phase)
      then (none, store)
      else update_status fault (record d { status = hypothesized_status now inv hs d.status }) store

  -- `retry.RetryOnConflict` makes five attempts at most and returns the last conflict.
  unfoldable pub record_from : ℕ → ℕ → List Diagnosis → Reconciled × List Diagnosis
  record_from zero i store = (retry conflict, store)
  record_from (suc left) i store =
      let tried =
        attempted (attempt_on (attempts i).latest (attempts i).fault (attempts i).now store) in
      let later = record_from left (suc i) tried.1 in or_again tried.0 tried.1 later

abbrev pub retry_steps : ℕ
retry_steps = 5

-- The environment of the investigator: what the world says at a time, and a model, if configured.
pub record Environment (W : Type 0) : Type 0 where
  pub registry : W → Registry
  pub clock : Clock W
  pub model : Option (Model W)
  pub specs : List ToolSpec
  pub after_tool : W → W

module _ {W : Type 0} (env : Environment W) (redactors : List Redactor) where
  -- The broker of an investigation, as the agent sees it.
  unfoldable pub bound : Broker (W × tools.Broker)
  bound = record {
    tools = env.specs;
    call = λ name arguments (w, b).
        let w' = env.after_tool w in
        let r =
          call redactors (env.registry w) (env.clock.now w) (env.clock.now w') b name arguments in
        (r.0, (w', r.1));
  }

  unfoldable pub lift_model : Model W → Model (W × tools.Broker)
  lift_model m = record {
    name = m.name;
    generate = λ request (w, b). let r = m.generate request w in (r.0, (r.1, b));
  }

  unfoldable pub lift_clock : Clock (W × tools.Broker)
  lift_clock = record {
    now = λ p. env.clock.now p.0;
    expired = λ (w, b). let r = env.clock.expired w in (r.0, (r.1, b));
  }

  module _ (system_prompt : Text) (submit_spec : List Text → ToolSpec) (pricing : Pricing) where
    unfoldable pub investigation :
        Model W → Diagnosis → AgentConfig → W → Outcome (W × tools.Broker)
    investigation model d cfg w =
        let input = build_input d cfg pricing in
        let b = bind_to (scope_for_diagnosis d (input.budget.max_tool_calls + broker_headroom)) in
        let specs = env.specs ++ submit_spec input.allowed_actions ∷ [] in
        run bound (lift_model model) lift_clock system_prompt specs input (w, b)

    -- The recording of what an investigation returned.
    unfoldable pub record_outcome :
        (ℕ → Attempt)
        → Text
        → Text
        → Outcome (W × tools.Broker)
        → List Diagnosis
        → Reconciled × List Diagnosis
    record_outcome attempts name provider out store = elim out.error [
      | some why ↦
          (retry (api_failure (codes "investigating " ++ (name ++ (codes ": " ++ why)))), store)
      | none ↦
          record_from (investigation_of provider out.returned out.world.1.calls)
            (to_api_hypotheses out.returned.hypotheses) attempts retry_steps 0 store
    ]

    unfoldable pub with_policy :
        (ℕ → Attempt)
        → Diagnosis
        → W
        → List Diagnosis
        → Answer HealingPolicy
        → Reconciled × List Diagnosis
    with_policy attempts d w store (refused e) = (ignore_not_found e, store)
    with_policy attempts d w store (found policy) =
        if not policy.spec.agent.enabled then (done, store) else elim env.model [
          | none ↦ (done, store)
          | some model ↦
              record_outcome attempts d.name model.name (investigation model d policy.spec.agent w)
                store
        ]

    unfoldable pub investigate_read :
        (Text → Text → Answer HealingPolicy)
        → (ℕ → Attempt)
        → W
        → List Diagnosis
        → Answer Diagnosis
        → Reconciled × List Diagnosis
    investigate_read get_policy attempts w store (refused e) = (ignore_not_found e, store)
    investigate_read get_policy attempts w store (found d) =
        if not (is_enriched d.status.phase)
        then (done, store)
        else with_policy attempts d w store (get_policy d.namespace d.spec.policy_ref)

    unfoldable pub investigate :
        (Text → Text → Answer Diagnosis)
        → (Text → Text → Answer HealingPolicy)
        → (ℕ → Attempt)
        → W
        → Text
        → Text
        → List Diagnosis
        → Reconciled × List Diagnosis
    investigate get_diagnosis get_policy attempts w namespace name store =
        investigate_read get_policy attempts w store (get_diagnosis namespace name)

-- ===== src/Controller/Backstop.antt =====
-- internal/controller/investigator_controller.go: the broker's ceiling stands above the agent's budget.
use kube_cure.Prelude.{ℕ, ◌+◌, ◌≤◌, ◌≡◌, refl, arith, List, [], ◌∷◌, ◌++◌, length, length-append}
use kube_cure.Text.{Text}
use kube_cure.Api.Diagnosis.{Diagnosis}
use kube_cure.Api.Policy.{AgentConfig}
use kube_cure.Agent.Model.{Model, ToolSpec}
use kube_cure.Agent.Types.{Pricing}
use kube_cure.Agent.Outcome.{run_ends}
use kube_cure.Agent.Metered.{Counts, run_metered}
use kube_cure.Evidence.Redact.{Redactor}
use kube_cure.Tools.Broker as tools
use kube_cure.Tools.Broker.{call, bind_to}
use kube_cure.Tools.Scope.{scope_for_diagnosis}
use kube_cure.Controller.Input.{build_input, broker_headroom}
use kube_cure.Controller.Investigate.{Environment, bound, lift_model, lift_clock, investigation}

budget-build_input :
    (d : Diagnosis) (cfg : AgentConfig) (pricing : Pricing)
    → (build_input d cfg pricing).budget.max_tool_calls ≡ cfg.max_tool_calls
unfolding build_input
budget-build_input d cfg pricing = ground arith

bind_to-ceiling :
    (d : Diagnosis) (n : ℕ)
    → let b = bind_to (scope_for_diagnosis d (n + broker_headroom)) in
      (length b.calls ≡ 0) × (b.scope.max_calls ≡ n + 2)
unfolding bind_to scope_for_diagnosis
bind_to-ceiling d n = ground arith

module _ {W : Type 0} (env : Environment W) (redactors : List Redactor) (model : Model W) where
  recorded : W × tools.Broker → ℕ
  recorded p = length p.1.calls

  bound-Counts :
      Counts
        (bound env redactors)
        (lift_model env redactors model)
        (lift_clock env redactors)
        recorded
  unfolding bound lift_model lift_clock call recorded
  bound-Counts = record {
    by_broker = λ name arguments w. length-append w.1.calls _;
    by_model = λ request w. refl;
    by_clock = λ w. refl;
  }

  -- The ceiling beside the count: a call leaves the scope as it is.
  recorded_below : W × tools.Broker → ℕ
  recorded_below p = length p.1.calls + p.1.scope.max_calls

  ceiling-Counts :
      Counts
        (bound env redactors)
        (lift_model env redactors model)
        (lift_clock env redactors)
        recorded_below
  unfolding bound lift_model lift_clock call recorded_below
  ceiling-Counts = record {
    by_broker = λ name arguments w. omega (arith, length-append w.1.calls _);
    by_model = λ request w. refl;
    by_clock = λ w. refl;
  }

  -- An investigation leaves one audit record for each tool call that its findings report, and no more
  -- than the policy's number of calls; and the broker ends with a ceiling that is at least two calls
  -- above the calls that it has recorded.
  pub investigation_recorded :
      (system_prompt : Text) (submit_spec : List Text → ToolSpec) (pricing : Pricing)
      (d : Diagnosis) (cfg : AgentConfig) (w : W)
      → let out = investigation env redactors system_prompt submit_spec pricing model d cfg w in
        (length out.world.1.calls ≡ out.returned.tool_calls)
        × (length out.world.1.calls ≤ cfg.max_tool_calls)
        × (length out.world.1.calls + 2 ≤ out.world.1.scope.max_calls)
  unfolding investigation recorded recorded_below
  investigation_recorded system_prompt submit_spec pricing d cfg w =
      let input = build_input d cfg pricing in
      let b = bind_to (scope_for_diagnosis d (input.budget.max_tool_calls + broker_headroom)) in
      let specs = env.specs ++ submit_spec input.allowed_actions ∷ [] in
      let same =
        run_metered (bound env redactors) (lift_model env redactors model)
          (lift_clock env redactors) recorded bound-Counts system_prompt specs input (w, b) in
      let ceiling =
        run_metered (bound env redactors) (lift_model env redactors model)
          (lift_clock env redactors) recorded_below ceiling-Counts system_prompt specs input
          (w, b) in
      let within =
        (run_ends (bound env redactors) (lift_model env redactors model) (lift_clock env redactors)
          system_prompt specs input (w, b)).0 in
      let budget = budget-build_input d cfg pricing in
      let start = bind_to-ceiling d input.budget.max_tool_calls in
      (
        omega (arith, same, start),
        omega (arith, same, within, budget, start),
        omega (arith, same, ceiling, within, budget, start),
      )

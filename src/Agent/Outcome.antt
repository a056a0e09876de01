-- ===== src/Agent/Outcome.antt =====
-- internal/agent/investigator.go: the ways in which `Run` ends.
use kube_cure.Prelude.{
  ℕ, ◌+◌, ◌≤◌, true, false, ◌≡◌, ◌≢◌, inl, inr, Option, none, some, List, [], ◌∷◌, length, arith,
  Bool-cases, ◌⊎◌, pos, ap, sym, subst, ◌∙◌,
}
use mathlib.Core.Path.{subst₂}
use kube_cure.Text.{Text}
use kube_cure.Agent.Model.{ToolSpec, Broker, Model, Clock}
use kube_cure.Agent.Types.{Input, StopReason, Findings}
use kube_cure.Agent.State.{LoopState, initial_state}
use kube_cure.Agent.Prompt.{initial_context}
use kube_cure.Agent.Gate.{Report, Accepted, accept_gate}
use kube_cure.Agent.Ranking.{LeastOf}
use kube_cure.Agent.Loop.{user_message, loop, run, max_turns}
use kube_cure.Agent.Bounds.{Concluded}
use kube_cure.Agent.Endings.{
  Exhausted, Aborted, Ways, Ending, loop-ok, initial-Running, turns-initial,
}

-- What a conclusion reports, by the ledger and the permitted actions.
module _ (input : Input) (n : ℕ) (s : LoopState) (c : Concluded input n s) where
  accepted : Accepted c.before s.findings.hypotheses c.after
  accepted = accept_gate c.arguments c.before s.findings.hypotheses c.after c.acceptance

  concluded-Report : Report s.ledger input.allowed_actions s.findings.hypotheses
  concluded-Report =
      subst₂ (λ l a. Report l a s.findings.hypotheses) c.ledger c.running.allowed accepted.report

  concluded-ne : s.findings.hypotheses ≢ []
  concluded-ne e = absurd (omega (arith, concluded-Report.some_given, ap {B = ℕ} length e))

  concluded-degraded :
      s.findings.degraded ≡ true
      → LeastOf (pos 70) s.findings.hypotheses × (s.findings.missing_required ≢ [])
  concluded-degraded d = elim accepted.outcome [
    | inl (m, same) ↦ absurd (ground (arith, same, c.running.not_degraded, c.degraded))
    | inr (lacking, capped, marked) ↦
        (capped, λ e. ground (arith, marked, lacking, c.missing_required))
  ]

module _ {W : Type 0} (broker : Broker W) (model : Model W) (clock : Clock W) (prompt : Text)
    (tools : List ToolSpec) (input : Input) (w : W) where
  run-Ending : Ending input (input.budget.max_tool_calls + 6) (
      loop broker model clock prompt tools
        (input.budget.max_tool_calls + 6)
        (user_message (initial_context input) [] ∷ [])
        (initial_state input (clock.now w))
        w)
  run-Ending =
      loop-ok broker model clock prompt tools input (input.budget.max_tool_calls + 6) 0
        (input.budget.max_tool_calls + 6) _ (initial_state input (clock.now w)) w (omega arith)
        (initial-Running input (clock.now w)) (turns-initial input (clock.now w))

  -- Whatever the model, the broker and the clock do, a run makes at most the budgeted number of
  -- tool calls and at most six turns more, and it ends in one of three ways. It reports the
  -- hypotheses of an accepted submission, with the reason "concluded" and no error; or it is marked
  -- as exhausted, with no hypotheses, no degradation, no error and the reason of a limit; or it
  -- returns an error of the model, with no hypotheses and no reason.
  pub run_ends :
      let out = run broker model clock prompt tools input w in
      (out.returned.tool_calls ≤ input.budget.max_tool_calls)
      × (out.returned.turns ≤ input.budget.max_tool_calls + 6)
      × (((out.returned.stop_reason ≡ StopReason.concluded)
            × (out.returned.budget_exhausted ≡ false)
            × (out.returned.hypotheses ≢ [])
            × (out.error ≡ none))
          ⊎ (Exhausted out.returned × (out.error ≡ none))
          ⊎ (Aborted out.returned × ((why : Text) × (out.error ≡ some why))))
  unfolding run max_turns
  run_ends = (run-Ending.calls, run-Ending.taken, ways _ _ _ run-Ending.way)
    where
      ways :
          (f : Findings) (error : Option Text) (s : LoopState)
          → Ways input (input.budget.max_tool_calls + 6) f error s
          → ((f.stop_reason ≡ StopReason.concluded)
              × (f.budget_exhausted ≡ false)
              × (f.hypotheses ≢ [])
              × (error ≡ none))
            ⊎ (Exhausted f × (error ≡ none))
            ⊎ (Aborted f × ((why : Text) × (error ≡ some why)))
      ways f error s (inl (n, k, c, g, e)) = inl (
        ground (arith, c.reason),
        ground (arith, c.not_exhausted),
        λ z. concluded-ne input n s c (ap (λ (y : Findings). y.hypotheses) (sym g) ∙ z),
        e,
      )
      ways f error s (inr x) = inr x

  -- A run that concludes reports between one and five hypotheses, ranked by falling confidence.
  -- Each has a root cause, a confidence from 0 to 100 and permitted actions only, and each of its
  -- citations stands in the ledger of evidence that the run ends with. Either the findings are not
  -- marked as degraded, or no confidence is above 70 and they name what is missing.
  pub run_concludes :
      let out = run broker model clock prompt tools input w in
      out.returned.stop_reason ≡ StopReason.concluded
      → Report out.state.ledger input.allowed_actions out.returned.hypotheses
        × ((out.returned.degraded ≡ false)
            ⊎ (LeastOf (pos 70) out.returned.hypotheses × (out.returned.missing_required ≢ [])))
  unfolding run max_turns
  run_concludes stopped = reports _ _ _ run-Ending.way stopped
    where
      reports :
          (f : Findings) (error : Option Text) (s : LoopState)
          → Ways input (input.budget.max_tool_calls + 6) f error s
          → f.stop_reason ≡ StopReason.concluded
          → Report s.ledger input.allowed_actions f.hypotheses
            × ((f.degraded ≡ false) ⊎ (LeastOf (pos 70) f.hypotheses × (f.missing_required ≢ [])))
      reports f error s (inl (n, k, c, g, e)) x =
          subst
            (λ (y : Findings).
              Report s.ledger input.allowed_actions y.hypotheses
              × ((y.degraded ≡ false)
                  ⊎ (LeastOf (pos 70) y.hypotheses × (y.missing_required ≢ []))))
            (sym g)
            (
              concluded-Report input n s c,
              elim (Bool-cases s.findings.degraded) [
                | inl d ↦ inr (concluded-degraded input n s c d)
                | inr d ↦ inl d
              ],
            )
      reports f error s (inr (inl (h, e))) x = absurd (h.reason.0 x)
      reports f error s (inr (inr (h, e))) x = absurd (ground (arith, h.reason))

  -- The deferred assignment never reaches the caller: the duration in the returned findings is 0,
  -- however much time the run took.
  pub run_reports_no_duration : (run broker model clock prompt tools input w).returned.duration ≡ 0
  unfolding run max_turns
  run_reports_no_duration = run-Ending.duration

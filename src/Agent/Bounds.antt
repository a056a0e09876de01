-- ===== src/Agent/Bounds.antt =====
-- internal/agent/investigator.go: how far a run can go, and how it ends.
use kube_cure.Prelude.{
  ℕ, ◌≤◌, true, false, ◌≡◌, inl, inr, List, [], ◌∷◌, ◌++◌, arith, Bool-cases, refl,
}
use kube_cure.Text.{Text, text_eq}
use kube_cure.Json.{RawMessage}
use kube_cure.Agent.Model.{ToolCall, ToolResult, CallError, Result, ok, err, Broker}
use kube_cure.Agent.Types.{Input, StopReason}
use kube_cure.Agent.Findings.{Validated, valid, problems}
use kube_cure.Agent.State.{
  LoopState, submit_tool, accept, accept_valid, tool_budget_left, record_requirement,
}
use kube_cure.Agent.Gate.{accept_rejects}
use kube_cure.Agent.Loop.{
  CallStep, answered, submitted, TurnStep, results, finished, submit, judged, read, received,
  counted, handle_call, handle_calls,
}

-- A run that has not ended: no result yet, and the tool calls within the budget.
pub record Running (origin : Input) (st : LoopState) : Type 0 where
  pub budget : st.input.budget.max_tool_calls ≡ origin.budget.max_tool_calls
  pub allowed : st.input.allowed_actions ≡ origin.allowed_actions
  pub within : st.findings.tool_calls ≤ origin.budget.max_tool_calls
  pub none_reported : st.findings.hypotheses ≡ []
  pub not_exhausted : st.findings.budget_exhausted ≡ false
  pub undecided : st.findings.stop_reason ≡ StopReason.unset
  pub not_degraded : st.findings.degraded ≡ false
  pub none_missing : st.findings.missing_required ≡ []
  pub no_duration : st.findings.duration ≡ 0

-- The state after a valid submission: `before` is the state in which it was accepted.
pub record Concluded (origin : Input) (turns : ℕ) (s : LoopState) : Type 0 where
  pub reason : s.findings.stop_reason ≡ StopReason.concluded
  pub not_exhausted : s.findings.budget_exhausted ≡ false
  pub calls : s.findings.tool_calls ≤ origin.budget.max_tool_calls
  pub taken : s.findings.turns ≡ turns
  pub still : s.findings.duration ≡ 0
  pub before : LoopState
  pub after : LoopState
  pub arguments : RawMessage
  pub acceptance : accept arguments before ≡ (valid s.findings.hypotheses, after)
  pub degraded : s.findings.degraded ≡ after.findings.degraded
  pub missing_required : s.findings.missing_required ≡ after.findings.missing_required
  pub ledger : before.ledger ≡ s.ledger
  pub running : Running origin before

-- What a call or a turn's calls leave.
abbrev pub CallOk : {W : Type 0} → Input → ℕ → CallStep W → Type 0
CallOk origin turns (answered r st w) = Running origin st × (st.findings.turns ≡ turns)
CallOk origin turns (submitted st w) = Concluded origin turns st

abbrev pub TurnOk : {W : Type 0} → Input → ℕ → TurnStep W → Type 0
TurnOk origin turns (results rs st w) = Running origin st × (st.findings.turns ≡ turns)
TurnOk origin turns (finished st w) = Concluded origin turns st

pub accept_keeps :
    (arguments : RawMessage) (st : LoopState) (v : Validated) (st' : LoopState)
    → accept arguments st ≡ (v, st')
    → (st'.findings.tool_calls ≡ st.findings.tool_calls)
      × (st'.findings.turns ≡ st.findings.turns)
      × (st'.findings.budget_exhausted ≡ st.findings.budget_exhausted)
      × (st'.findings.duration ≡ st.findings.duration)
      × (st'.ledger ≡ st.ledger)
unfolding accept accept_valid
accept_keeps arguments st v st' h =
    (ground arith, ground arith, ground arith, ground arith, ground arith)

module _ {W : Type 0} (broker : Broker W) (origin : Input) (turns : ℕ) where
  judged-ok :
      (call : ToolCall) (st : LoopState) (w : W) (v : Validated) (st' : LoopState)
      → Running origin st
      → st.findings.turns ≡ turns
      → accept call.arguments st ≡ (v, st')
      → CallOk origin turns (judged call (v, st') w)
  unfolding judged
  judged-ok call st w (problems ps) st' r t e =
      let same = accept_rejects call.arguments st ps st' e in rw same (r, t)
  judged-ok call st w (valid hs) st' r t e =
      let k = accept_keeps call.arguments st (valid hs) st' e in
      record {
        reason = refl;
        not_exhausted = ground arith;
        calls = omega (arith, k.0, r.within);
        taken = ground arith;
        still = ground arith;
        before = st;
        after = st';
        arguments = call.arguments;
        acceptance = e;
        degraded = refl;
        missing_required = refl;
        ledger = ground arith;
        running = r;
      }

  submit-ok :
      (call : ToolCall) (st : LoopState) (w : W)
      → Running origin st
      → st.findings.turns ≡ turns
      → CallOk origin turns (submit call st w)
  unfolding submit
  submit-ok call st w r t =
      let (v, st') = accept call.arguments st in judged-ok call st w v st' r t refl

  received-ok :
      (call : ToolCall) (st : LoopState) (result : Result CallError Text) (w : W)
      → Running origin st
      → st.findings.turns ≡ turns
      → CallOk origin turns (received call st result w)
  unfolding received
  received-ok call st (err e) w r t = (r, t)
  received-ok call st (ok content) w r t = (
    record {
      budget = r.budget;
      allowed = r.allowed;
      within = r.within;
      none_reported = r.none_reported;
      not_exhausted = r.not_exhausted;
      undecided = r.undecided;
      not_degraded = r.not_degraded;
      none_missing = r.none_missing;
      no_duration = r.no_duration;
    },
    t,
  )

  counted-Running :
      (call : ToolCall) (result : Result CallError Text) (st : LoopState)
      → Running origin st
      → tool_budget_left st ≡ true
      → Running origin (record_requirement call result (counted st))
  unfolding record_requirement counted tool_budget_left
  counted-Running call result st r b = ground arith

  read-ok :
      (call : ToolCall) (st : LoopState) (w : W)
      → Running origin st
      → tool_budget_left st ≡ true
      → st.findings.turns ≡ turns
      → CallOk origin turns (read broker call st w)
  unfolding read record_requirement
  read-ok call st w r b t =
      let (result, w') = broker.call call.name call.arguments w in
      received-ok call _ result w' (counted-Running call result st r b) t

  handle_call-ok :
      (call : ToolCall) (st : LoopState) (w : W)
      → Running origin st
      → st.findings.turns ≡ turns
      → CallOk origin turns (handle_call broker call st w)
  unfolding handle_call
  handle_call-ok call st w r t = elim (Bool-cases (text_eq call.name submit_tool)) [
    | inl e ↦ rw e (submit-ok call st w r t)
    | inr e ↦ elim (Bool-cases (tool_budget_left st)) [
      | inl b ↦ rw (e, b) (read-ok call st w r b t)
      | inr b ↦ rw (e, b) (r, t)
    ]
  ]

  step-ok :
      (done : List ToolResult) (calls : List ToolCall) (step : CallStep W)
      → ((rs : List ToolResult) (st : LoopState) (w : W)
          → Running origin st
          → st.findings.turns ≡ turns
          → TurnOk origin turns (handle_calls broker rs calls st w))
      → CallOk origin turns step
      → TurnOk origin turns (elim step [
        | submitted st' w' ↦ finished st' w'
        | answered r st' w' ↦ handle_calls broker (done ++ r ∷ []) calls st' w'
      ])
  step-ok done calls (submitted st w) ih c = c
  step-ok done calls (answered r st w) ih c = ih (done ++ r ∷ []) st w c.0 c.1

  pub handle_calls-ok :
      (calls : List ToolCall) (done : List ToolResult) (st : LoopState) (w : W)
      → Running origin st
      → st.findings.turns ≡ turns
      → TurnOk origin turns (handle_calls broker done calls st w)
  unfolding handle_calls
  handle_calls-ok [] done st w r t = (r, t)
  handle_calls-ok (call ∷ calls) done st w r t =
      step-ok done calls (handle_call broker call st w)
        (λ rs st' w' r' t'. handle_calls-ok calls rs st' w' r' t') (handle_call-ok call st w r t)

-- ===== src/Agent/Loop.antt =====
-- internal/agent/investigator.go: `handleCalls` and `Run`, over a broker, a model and a clock.
use kube_cure.Prelude.{
  ℕ, zero, suc, ◌+◌, ◌-◌, Bool, true, false, Option, none, some, List, [], ◌∷◌, ◌++◌, if◌then◌else◌,
}
use kube_cure.Text.{Text, codes, text_eq, join, show_nat}
use kube_cure.Agent.Model.{
  Role, ToolCall, ToolResult, Message, Request, Response, ToolSpec, CallError, denied, failed,
  ModelError, deadline_exceeded, provider_error, Result, ok, err, Broker, Model, Clock,
}
use kube_cure.Agent.Types.{Input, StopReason, Findings}
use kube_cure.Agent.Findings.{Validated, valid, problems}
use kube_cure.Agent.Prompt.{wrap_evidence, initial_context}
use kube_cure.Agent.State.{
  LoopState, initial_state, submit_tool, extra_turns, accept, tool_budget_left, record_requirement,
  account, exhausted, nearly_exhausted, stop,
}

-- agent.ErrDenied, and the text of an error of the broker.
unfoldable pub call_error_text : CallError → Text
call_error_text (denied why) = codes "tool call denied: " ++ why
call_error_text (failed why) = why

unfoldable pub answer : ToolCall → Bool → Text → ToolResult
answer call is_error content = record {
  call_id = call.id;
  name = call.name;
  content = content;
  is_error = is_error;
}

unfoldable pub rejection_text : List Text → Text
rejection_text ps =
    codes "The submission was rejected and the investigation continues:\n- "
    ++ join (codes "\n- ") ps

unfoldable pub budget_text : Text
budget_text = codes "The tool call budget is exhausted. Call " ++ (submit_tool ++ codes " now.")

unfoldable pub continue_text : Text
continue_text =
    codes "Continue by calling a tool. When the evidence supports a conclusion, call "
    ++ (submit_tool ++ codes ".")

unfoldable pub nearly_text : Text
nearly_text =
    codes "The investigation budget is nearly exhausted. Call "
    ++ (submit_tool ++ codes " now with the best conclusion the evidence supports.")

-- One call is answered, or it is the submission that ends the investigation.
pub data CallStep (W : Type 0) : Type 0 where
  answered : ToolResult → LoopState → W → CallStep W
  submitted : LoopState → W → CallStep W

-- What a turn's calls lead to: `finished` is Go's `done`.
pub data TurnStep (W : Type 0) : Type 0 where
  results : List ToolResult → LoopState → W → TurnStep W
  finished : LoopState → W → TurnStep W

-- The loop's end: the findings that `Run` returns and its error, with the state at the return.
pub record Outcome (W : Type 0) : Type 0 where
  pub returned : Findings
  pub error : Option Text
  pub state : LoopState
  pub world : W

pub data LoopStep (W : Type 0) : Type 0 where
  again : List Message → LoopState → W → LoopStep W
  over : Outcome W → LoopStep W

unfoldable pub user_message : Text → List ToolResult → Message
user_message text tool_results = record {
  role = Role.user;
  text = text;
  tool_calls = [];
  tool_results = tool_results;
  provider_state = none;
}

unfoldable pub conclude : {W : Type 0} → Option Text → LoopState → W → LoopStep W
conclude error st w = over (record { returned = st.findings; error = error; state = st; world = w })

-- The call is counted, and made.
unfoldable pub counted : LoopState → LoopState
counted st = record st { findings = record st.findings { tool_calls = st.findings.tool_calls + 1 } }

unfoldable pub evidence_added : ToolCall → LoopState → LoopState
evidence_added call st = record st {
  ledger = (69 ∷ show_nat st.next_evidence, call.name) ∷ st.ledger;
  next_evidence = st.next_evidence + 1;
}

unfoldable pub turn_begun : LoopState → LoopState
turn_begun st = record st { findings = record st.findings { turns = st.findings.turns + 1 } }

unfoldable pub judged : {W : Type 0} → ToolCall → Validated × LoopState → W → CallStep W
judged call (valid hypotheses, st) w =
    submitted
      (record st {
        findings = record st.findings {
          hypotheses = hypotheses;
          stop_reason = StopReason.concluded;
        };
      })
      w
judged call (problems ps, st) w = answered (answer call true (rejection_text ps)) st w

unfoldable pub submit : {W : Type 0} → ToolCall → LoopState → W → CallStep W
unfolding judged
submit call st w = judged call (accept call.arguments st) w

unfoldable pub received :
    {W : Type 0} → ToolCall → LoopState → Result CallError Text → W → CallStep W
unfolding evidence_added
received call st (err e) w = answered (answer call true (call_error_text e)) st w
received call st (ok content) w =
    answered (answer call false (wrap_evidence (69 ∷ show_nat st.next_evidence) call.name content))
      (evidence_added call st) w

module _ {W : Type 0} (broker : Broker W) where
  unfoldable pub read : ToolCall → LoopState → W → CallStep W
  unfolding counted received
  read call st w =
      let (result, w') = broker.call call.name call.arguments w in
      received call (record_requirement call result (counted st)) result w'

  unfoldable pub handle_call : ToolCall → LoopState → W → CallStep W
  handle_call call st w =
      if text_eq call.name submit_tool
      then submit call st w
      else if tool_budget_left st
      then read call st w
      else answered (answer call true budget_text) st w

  unfoldable pub handle_calls : List ToolResult → List ToolCall → LoopState → W → TurnStep W
  handle_calls done [] st w = results done st w
  handle_calls done (call ∷ calls) st w = elim (handle_call call st w) [
    | submitted st' w' ↦ finished st' w'
    | answered r st' w' ↦ handle_calls (done ++ r ∷ []) calls st' w'
  ]

  module _ (model : Model W) (clock : Clock W) (system_prompt : Text) (tools : List ToolSpec) where
    -- The model's error ends the run: by the clock, or to be retried.
    unfoldable pub provider_failed : Bool → Text → LoopState → W → LoopStep W
    provider_failed true why st w = conclude none (stop StopReason.wall_clock st) w
    provider_failed false why st w =
        conclude (some (codes "model " ++ (model.name ++ (codes ": " ++ why)))) st w

    unfoldable pub model_failed : ModelError → LoopState → W → LoopStep W
    unfolding provider_failed
    model_failed deadline_exceeded st w = conclude none (stop StopReason.wall_clock st) w
    model_failed (provider_error why) st w =
        let (expired, w') = clock.expired w in provider_failed expired why st w'

    unfoldable pub after_calls : List Message → TurnStep W → LoopStep W
    after_calls messages (finished st w) = conclude none st w
    after_calls messages (results rs st w) =
        again (messages ++ user_message (if nearly_exhausted st then nearly_text else []) rs ∷ [])
          st w

    unfoldable pub replied : List ToolCall → List Message → LoopState → W → LoopStep W
    unfolding after_calls
    replied [] messages st w = again (messages ++ user_message continue_text [] ∷ []) st w
    replied (c ∷ cs) messages st w = after_calls messages (handle_calls [] (c ∷ cs) st w)

    unfoldable pub generated :
        List Message → Result ModelError Response → LoopState → W → LoopStep W
    unfolding replied model_failed
    generated messages (err e) st w = model_failed e st w
    generated messages (ok resp) st w =
        let reply = record resp.message { role = Role.model } in
        replied reply.tool_calls (messages ++ reply ∷ []) (account resp.usage st) w

    unfoldable pub checked : Option StopReason → List Message → LoopState → W → LoopStep W
    unfolding generated
    checked (some reason) messages st w = conclude none (stop reason st) w
    checked none messages st w =
        let request : Request = record {
          system = system_prompt;
          messages = messages;
          tools = tools;
        } in
        let (answer, w') = model.generate request w in generated messages answer (turn_begun st) w'

    -- One iteration of the loop.
    unfoldable pub turn : List Message → LoopState → W → LoopStep W
    unfolding checked
    turn messages st w =
        let (expired, w') = clock.expired w in checked (exhausted expired st) messages st w'

    -- `rounds` is what is left of `maxTurns`: each iteration that goes on has taken one turn.
    unfoldable pub loop : ℕ → List Message → LoopState → W → Outcome W
    loop zero messages st w =
        let st' = stop StopReason.turn_limit st in
        record { returned = st'.findings; error = none; state = st'; world = w }
    loop (suc rounds) messages st w = elim (turn messages st w) [
      | over outcome ↦ outcome
      | again messages' st' w' ↦ loop rounds messages' st' w'
    ]

    unfoldable pub max_turns : Input → ℕ
    max_turns input = input.budget.max_tool_calls + extra_turns

    -- The deferred function sets the duration in the state. The results are not named, so the
    -- findings have been copied into them by then.
    unfoldable pub run : Input → W → Outcome W
    run input w =
        let st = initial_state input (clock.now w) in
        let out = loop (max_turns input) (user_message (initial_context input) [] ∷ []) st w in
        let elapsed = clock.now out.world - out.state.started in
        record out {
          state = record out.state { findings = record out.state.findings { duration = elapsed } };
        }

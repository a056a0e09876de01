-- ===== src/Agent/Metered.antt =====
-- internal/agent/investigator.go: the loop's count of tool calls is the broker's. A meter reads from
-- the world how many calls the broker has had.
use kube_cure.Prelude.{
  ℕ, zero, suc, ◌+◌, Bool, true, false, ◌≡◌, refl, inl, inr, arith, Bool-cases, Option, none, some,
  List, [], ◌∷◌, ◌++◌,
}
use kube_cure.Text.{Text, text_eq}
use kube_cure.Json.{RawMessage}
use kube_cure.Agent.Model.{
  ToolCall, ToolResult, Message, Request, Response, ToolSpec, CallError, ModelError,
  deadline_exceeded, provider_error, Result, ok, err, Broker, Model, Clock,
}
use kube_cure.Agent.Types.{Input, StopReason}
use kube_cure.Agent.Findings.{Validated, valid, problems}
use kube_cure.Agent.State.{
  LoopState, initial_state, submit_tool, accept, tool_budget_left, account, exhausted, stop,
  record_requirement,
}
use kube_cure.Agent.Bounds.{accept_keeps}
use kube_cure.Agent.Loop.{
  CallStep, answered, submitted, TurnStep, results, finished, Outcome, LoopStep, again, over,
  conclude, handle_call, handle_calls, provider_failed, model_failed, after_calls, replied,
  generated, checked, turn_begun, turn, judged, submit, received, read, counted, loop, run,
}

-- A broker counts each of its calls, and neither the model nor the clock makes one.
pub record Counts {W : Type 0} (broker : Broker W) (model : Model W) (clock : Clock W)
    (meter : W → ℕ) : Type 0 where
  pub by_broker :
      (name : Text) (arguments : RawMessage) (w : W)
      → meter (broker.call name arguments w).1 ≡ meter w + 1
  pub by_model : (request : Request) (w : W) → meter (model.generate request w).1 ≡ meter w
  pub by_clock : (w : W) → meter (clock.expired w).1 ≡ meter w

module _ {W : Type 0} (broker : Broker W) (model : Model W) (clock : Clock W) (meter : W → ℕ)
    (counts : Counts broker model clock meter) (prompt : Text) (tools : List ToolSpec)
    (start : ℕ) where
  abbrev Balanced : LoopState → W → Type 0
  Balanced st w = meter w ≡ start + st.findings.tool_calls

  abbrev CallBalanced : CallStep W → Type 0
  CallBalanced (answered r st w) = Balanced st w
  CallBalanced (submitted st w) = Balanced st w

  abbrev TurnBalanced : TurnStep W → Type 0
  TurnBalanced (results rs st w) = Balanced st w
  TurnBalanced (finished st w) = Balanced st w

  abbrev OutBalanced : Outcome W → Type 0
  OutBalanced out = meter out.world ≡ start + out.returned.tool_calls

  abbrev LoopBalanced : LoopStep W → Type 0
  LoopBalanced (again ms st w) = Balanced st w
  LoopBalanced (over out) = OutBalanced out

  judged-Balanced :
      (call : ToolCall) (st : LoopState) (w : W) (v : Validated) (st' : LoopState)
      → Balanced st w
      → accept call.arguments st ≡ (v, st')
      → CallBalanced (judged call (v, st') w)
  unfolding judged
  judged-Balanced call st w (problems ps) st' b e =
      let k = accept_keeps call.arguments st (problems ps) st' e in omega (arith, b, k.0)
  judged-Balanced call st w (valid hs) st' b e =
      let k = accept_keeps call.arguments st (valid hs) st' e in omega (arith, b, k.0)

  submit-Balanced :
      (call : ToolCall) (st : LoopState) (w : W) → Balanced st w → CallBalanced (submit call st w)
  unfolding submit
  submit-Balanced call st w b =
      let (v, st') = accept call.arguments st in judged-Balanced call st w v st' b refl

  received-Balanced :
      (call : ToolCall) (st : LoopState) (result : Result CallError Text) (w : W)
      → Balanced st w
      → CallBalanced (received call st result w)
  unfolding received
  received-Balanced call st (err e) w b = b
  received-Balanced call st (ok content) w b = b

  read-Balanced :
      (call : ToolCall) (st : LoopState) (w : W)
      → Balanced st w
      → CallBalanced (read broker call st w)
  unfolding read counted record_requirement
  read-Balanced call st w b =
      let (result, w') = broker.call call.name call.arguments w in
      received-Balanced call (record_requirement call result (counted st)) result w'
        (omega (arith, b, counts.by_broker call.name call.arguments w))

  handle_call-Balanced :
      (call : ToolCall) (st : LoopState) (w : W)
      → Balanced st w
      → CallBalanced (handle_call broker call st w)
  unfolding handle_call
  handle_call-Balanced call st w b = elim (Bool-cases (text_eq call.name submit_tool)) [
    | inl e ↦ rw e (submit-Balanced call st w b)
    | inr e ↦ elim (Bool-cases (tool_budget_left st)) [
      | inl t ↦ rw (e, t) (read-Balanced call st w b)
      | inr t ↦ rw (e, t) b
    ]
  ]

  step-Balanced :
      (done : List ToolResult) (calls : List ToolCall) (step : CallStep W)
      → ((rs : List ToolResult) (st : LoopState) (w : W)
          → Balanced st w
          → TurnBalanced (handle_calls broker rs calls st w))
      → CallBalanced step
      → TurnBalanced (elim step [
        | submitted st' w' ↦ finished st' w'
        | answered r st' w' ↦ handle_calls broker (done ++ r ∷ []) calls st' w'
      ])
  step-Balanced done calls (submitted st w) ih c = c
  step-Balanced done calls (answered r st w) ih c = ih (done ++ r ∷ []) st w c

  handle_calls-Balanced :
      (calls : List ToolCall) (done : List ToolResult) (st : LoopState) (w : W)
      → Balanced st w
      → TurnBalanced (handle_calls broker done calls st w)
  unfolding handle_calls
  handle_calls-Balanced [] done st w b = b
  handle_calls-Balanced (call ∷ calls) done st w b =
      step-Balanced done calls (handle_call broker call st w)
        (λ rs st' w' b'. handle_calls-Balanced calls rs st' w' b')
        (handle_call-Balanced call st w b)

  provider_failed-Balanced :
      (expired : Bool) (why : Text) (st : LoopState) (w : W)
      → Balanced st w
      → LoopBalanced (provider_failed broker model clock prompt tools expired why st w)
  unfolding provider_failed conclude stop
  provider_failed-Balanced true why st w b = b
  provider_failed-Balanced false why st w b = b

  model_failed-Balanced :
      (e : ModelError) (st : LoopState) (w : W)
      → Balanced st w
      → LoopBalanced (model_failed broker model clock prompt tools e st w)
  unfolding model_failed conclude stop
  model_failed-Balanced deadline_exceeded st w b = b
  model_failed-Balanced (provider_error why) st w b =
      let (expired, w') = clock.expired w in
      provider_failed-Balanced expired why st w' (omega (arith, b, counts.by_clock w))

  after_calls-Balanced :
      (messages : List Message) (step : TurnStep W)
      → TurnBalanced step
      → LoopBalanced (after_calls broker model clock prompt tools messages step)
  unfolding after_calls conclude
  after_calls-Balanced messages (results rs st w) b = b
  after_calls-Balanced messages (finished st w) b = b

  replied-Balanced :
      (calls : List ToolCall) (messages : List Message) (st : LoopState) (w : W)
      → Balanced st w
      → LoopBalanced (replied broker model clock prompt tools calls messages st w)
  unfolding replied
  replied-Balanced [] messages st w b = b
  replied-Balanced (c ∷ cs) messages st w b =
      after_calls-Balanced messages (handle_calls broker [] (c ∷ cs) st w)
        (handle_calls-Balanced (c ∷ cs) [] st w b)

  generated-Balanced :
      (messages : List Message) (answer : Result ModelError Response) (st : LoopState) (w : W)
      → Balanced st w
      → LoopBalanced (generated broker model clock prompt tools messages answer st w)
  unfolding generated account
  generated-Balanced messages (err e) st w b = model_failed-Balanced e st w b
  generated-Balanced messages (ok resp) st w b = replied-Balanced _ _ (account resp.usage st) w b

  checked-Balanced :
      (reason : Option StopReason) (messages : List Message) (st : LoopState) (w : W)
      → Balanced st w
      → LoopBalanced (checked broker model clock prompt tools reason messages st w)
  unfolding checked conclude turn_begun stop
  checked-Balanced (some reason) messages st w b = b
  checked-Balanced none messages st w b =
      generated-Balanced messages _ (turn_begun st) _ (omega (arith, b, counts.by_model _ w))

  turn-Balanced :
      (messages : List Message) (st : LoopState) (w : W)
      → Balanced st w
      → LoopBalanced (turn broker model clock prompt tools messages st w)
  unfolding turn
  turn-Balanced messages st w b =
      let (expired, w') = clock.expired w in
      checked-Balanced (exhausted expired st) messages st w' (omega (arith, b, counts.by_clock w))

  next-Balanced :
      (rounds : ℕ) (step : LoopStep W)
      → LoopBalanced step
      → ((messages : List Message) (st : LoopState) (w : W)
          → Balanced st w
          → OutBalanced (loop broker model clock prompt tools rounds messages st w))
      → OutBalanced (elim step [
        | over outcome ↦ outcome
        | again messages' st' w' ↦ loop broker model clock prompt tools rounds messages' st' w'
      ])
  next-Balanced rounds (over out) k ih = k
  next-Balanced rounds (again messages st w) k ih = ih messages st w k

  loop-Balanced :
      (rounds : ℕ) (messages : List Message) (st : LoopState) (w : W)
      → Balanced st w
      → OutBalanced (loop broker model clock prompt tools rounds messages st w)
  unfolding loop stop
  loop-Balanced zero messages st w b = b
  loop-Balanced (suc rounds) messages st w b =
      next-Balanced rounds (turn broker model clock prompt tools messages st w)
        (turn-Balanced messages st w b)
        (λ messages' st' w' b'. loop-Balanced rounds messages' st' w' b')

-- With a meter that the broker's calls alone advance, by one each, a run advances it by exactly the
-- number of tool calls that it reports.
pub run_metered :
    {W : Type 0} (broker : Broker W) (model : Model W) (clock : Clock W) (meter : W → ℕ)
    → Counts broker model clock meter
    → (prompt : Text) (tools : List ToolSpec) (input : Input) (w : W)
    → let out = run broker model clock prompt tools input w in
      meter out.world ≡ meter w + out.returned.tool_calls
unfolding run initial_state
run_metered broker model clock meter counts prompt tools input w =
    loop-Balanced broker model clock meter counts prompt tools (meter w) _ _ _ w (omega arith)

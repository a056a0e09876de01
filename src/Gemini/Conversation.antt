-- ===== src/Gemini/Conversation.antt =====
-- internal/agent/investigator.go over internal/model/gemini: the conversations of a run.
use kube_cure.Prelude.{
  ◌≡◌, ◌≢◌, refl, ap, sym, ◌∙◌, Bool, true, false, Option, none, some, List, [], ◌∷◌, ◌++◌, arith,
  subst, if◌then◌else◌,
}
use kube_cure.Text.{Text}
use kube_cure.Genai.{Content}
use kube_cure.Agent.Model.{
  Role, ToolCall, ToolSpec, Message, Request, Response, ModelError, deadline_exceeded,
  provider_error, Result, ok, err, Broker, Clock,
}
use kube_cure.Agent.Prompt.{initial_context}
use kube_cure.Agent.State.{LoopState, nearly_exhausted, exhausted, account, initial_state}
use kube_cure.Agent.Types.{StopReason, Input}
use kube_cure.Agent.Loop.{
  again, TurnStep, results, finished, turn, user_message, after_calls, replied, conclude,
  model_failed, provider_failed, handle_calls, nearly_text, continue_text, generated, checked,
  turn_begun,
}
use kube_cure.Gemini.Convert.{Codec, to_contents, user_content}
use kube_cure.Gemini.Generate.{Client, generate, as_model}
use kube_cure.Gemini.Keys.{response_keys, tool_call_keys, result_keys}
use kube_cure.Gemini.Answers.{handle_calls-keys, user_content-keys}
use kube_cure.Gemini.Turns.{
  Paired, opening, Converts, ReadFrom, generate-ReadFrom, to_contents-text, to_contents-results,
  extended,
}

module _ {W : Type 0} (codec : Codec) (broker : Broker W) (client : Client W) (name : Text)
    (clock : Clock W) (system_prompt : Text) (tools : List ToolSpec) where
  after_calls-Converts :
      (messages : List Message) (c : Content) (reply : Message) (t : TurnStep W) (st : LoopState)
      (w : W) (call : ToolCall) (calls : List ToolCall) (messages' : List Message) (st' : LoopState)
      (w' : W)
      → ReadFrom codec c reply
      → reply.tool_calls ≡ call ∷ calls
      → handle_calls broker [] (call ∷ calls) st w ≡ t
      → after_calls broker
          (as_model codec client name)
          clock
          system_prompt
          tools
          (messages ++ reply ∷ [])
          t
        ≡ again messages' st' w'
      → Converts codec messages
      → Converts codec messages'
  unfolding after_calls conclude user_message result_keys tool_call_keys
  after_calls-Converts messages c reply (finished s v) st w call calls messages' st' w' from cs
        handled h before =
      absurd (ground arith)
  after_calls-Converts messages c reply (results [] s v) st w call calls messages' st' w' from cs
        handled h before =
      let keys = handle_calls-keys broker [] (call ∷ calls) st w [] s v handled in
      absurd (ground arith)
  after_calls-Converts messages c reply (results (r ∷ rs) s v) st w call calls messages' st' w' from
        cs handled h before =
      let keys = handle_calls-keys broker [] (call ∷ calls) st w (r ∷ rs) s v handled in
      let text = if nearly_exhausted s then nearly_text else [] in
      let u = user_message text (r ∷ rs) in
      let same : (messages ++ reply ∷ []) ++ u ∷ [] ≡ messages' = ground arith in
      subst (Converts codec) same (
        extended codec messages c reply u from (to_contents-results codec text r rs)
          (keys ∙ ap tool_call_keys (sym cs)) before)

  replied-Converts :
      (messages : List Message) (c : Content) (reply : Message) (calls : List ToolCall)
      (st : LoopState) (w : W) (messages' : List Message) (st' : LoopState) (w' : W)
      → ReadFrom codec c reply
      → reply.tool_calls ≡ calls
      → replied broker
          (as_model codec client name)
          clock
          system_prompt
          tools
          calls
          (messages ++ reply ∷ [])
          st
          w
        ≡ again messages' st' w'
      → Converts codec messages
      → Converts codec messages'
  unfolding replied result_keys tool_call_keys continue_text user_message
  replied-Converts messages c reply [] st w messages' st' w' from cs h before =
      let u = user_message continue_text [] in
      let same : (messages ++ reply ∷ []) ++ u ∷ [] ≡ messages' = ground arith in
      subst (Converts codec) same (
        extended codec messages c reply u from (to_contents-text codec _ _ [])
          (ap tool_call_keys (sym cs)) before)
  replied-Converts messages c reply (call ∷ calls) st w messages' st' w' from cs h before =
      after_calls-Converts messages c reply (handle_calls broker [] (call ∷ calls) st w) st w call
        calls messages' st' w' from cs refl h before

  provider_failed-over :
      (expired : Bool) (why : Text) (st : LoopState) (w : W) (messages' : List Message)
      (st' : LoopState) (w' : W)
      → provider_failed broker
          (as_model codec client name)
          clock
          system_prompt
          tools
          expired
          why
          st
          w
        ≢ again messages' st' w'
  unfolding provider_failed conclude
  provider_failed-over true why st w messages' st' w' h = ground arith
  provider_failed-over false why st w messages' st' w' h = ground arith

  -- A turn in which the model fails ends the run.
  model_failed-over :
      (e : ModelError) (st : LoopState) (w : W) (messages' : List Message) (st' : LoopState)
      (w' : W)
      → model_failed broker (as_model codec client name) clock system_prompt tools e st w
        ≢ again messages' st' w'
  unfolding model_failed conclude
  model_failed-over deadline_exceeded st w messages' st' w' h = ground arith
  model_failed-over (provider_error why) st w messages' st' w' h =
      let (expired, v) = clock.expired w in provider_failed-over expired why st v messages' st' w' h

  generated-Converts :
      (messages : List Message) (req : Request) (w : W) (a : Result ModelError Response × W)
      (st : LoopState) (messages' : List Message) (st' : LoopState) (w' : W)
      → generate codec client name req w ≡ a
      → generated broker (as_model codec client name) clock system_prompt tools messages a.0 st a.1
        ≡ again messages' st' w'
      → Converts codec messages
      → Converts codec messages'
  unfolding generated
  generated-Converts messages req w (err e, v) st messages' st' w' asked h before =
      absurd (model_failed-over e st v messages' st' w' h)
  generated-Converts messages req w (ok r, v) st messages' st' w' asked h before =
      let (c, ((role, state), keys)) = generate-ReadFrom codec client name req w r v asked in
      let reply = record r.message { role = Role.model } in
      replied-Converts messages c reply reply.tool_calls (account r.usage st) v messages' st' w'
        ((refl, state), keys) refl h before

  checked-Converts :
      (stop : Option StopReason) (messages : List Message) (st : LoopState) (w : W)
      (messages' : List Message) (st' : LoopState) (w' : W)
      → checked broker (as_model codec client name) clock system_prompt tools stop messages st w
        ≡ again messages' st' w'
      → Converts codec messages
      → Converts codec messages'
  unfolding checked conclude as_model
  checked-Converts (some reason) messages st w messages' st' w' h before = absurd (ground arith)
  checked-Converts none messages st w messages' st' w' h before =
      generated-Converts messages
        (record { system = system_prompt; messages = messages; tools = tools }) w _ (turn_begun st)
        messages' st' w' refl h before

  turn-Converts :
      (messages : List Message) (st : LoopState) (w : W) (messages' : List Message)
      (st' : LoopState) (w' : W)
      → turn broker (as_model codec client name) clock system_prompt tools messages st w
        ≡ again messages' st' w'
      → Converts codec messages
      → Converts codec messages'
  unfolding turn
  turn-Converts messages st w messages' st' w' h before =
      let (expired, v) = clock.expired w in
      checked-Converts (exhausted expired st) messages st v messages' st' w' h before

  -- The conversations of a run, before each turn.
  pub data Ongoing : List Message → LoopState → W → Type 0 where
    begun :
        (input : Input) (w : W)
        → Ongoing
            (user_message (initial_context input) [] ∷ [])
            (initial_state input (clock.now w))
            w
    went_on :
        {messages : List Message} {st : LoopState} {w : W} {messages' : List Message}
        {st' : LoopState} {w' : W}
        → Ongoing messages st w
        → turn broker (as_model codec client name) clock system_prompt tools messages st w
          ≡ again messages' st' w'
        → Ongoing messages' st' w'

-- In a run over Gemini the conversation before every turn can be converted to contents, without an
-- error, and in the contents every turn of the model is followed by one turn of the user that has
-- exactly one function response for each function call, in the order of the calls, with the id and
-- the name of the call.
pub conversation-Paired :
    {W : Type 0} (codec : Codec) (broker : Broker W) (client : Client W) (name : Text)
    (clock : Clock W) (system_prompt : Text) (tools : List ToolSpec) (messages : List Message)
    (st : LoopState) (w : W)
    → Ongoing codec broker client name clock system_prompt tools messages st w
    → (cs : List Content) × (to_contents codec messages ≡ ok cs) × Paired cs
unfolding to_contents user_message initial_context response_keys user_content result_keys
conversation-Paired codec broker client name clock prompt tools _ _ _ (begun input w) =
    let u = user_message (initial_context input) [] in
    (user_content u ∷ [], refl, opening (user_content u) (user_content-keys u ∙ refl))
conversation-Paired codec broker client name clock prompt tools _ _ _ (went_on r h) =
    turn-Converts codec broker client name clock prompt tools _ _ _ _ _ _ h
      (conversation-Paired codec broker client name clock prompt tools _ _ _ r)

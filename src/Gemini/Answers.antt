-- ===== src/Gemini/Answers.antt =====
-- internal/model/gemini/gemini.go with internal/agent/investigator.go: function calls and the
-- responses to them.
use kube_cure.Prelude.{
  ◌≡◌, refl, ap, sym, ◌∙◌, Option, none, some, List, [], ◌∷◌, ◌++◌, map, arith, append_assoc,
  append-nil, ◌⊎◌, inl, inr, Bool-cases,
}
use kube_cure.Text.{Text, codes, text_eq}
use kube_cure.Genai.{Part, FunctionCall}
use kube_cure.Agent.Model.{ToolCall, ToolResult, Message, Result, ok, err, Broker, CallError}
use kube_cure.Agent.Findings.{Validated, valid, problems}
use kube_cure.Agent.State.{LoopState, accept, submit_tool, tool_budget_left, record_requirement}
use kube_cure.Agent.Loop.{
  CallStep, answered, submitted, results, handle_call, handle_calls, judged, submit, received, read,
  counted, answer,
}
use kube_cure.Gemini.Convert.{
  Codec, bind-inverse, wrapped, text_parts, response_part, response_of, user_content,
}
use kube_cure.Gemini.Generate.{read_call, read_part, read_parts}
use kube_cure.Gemini.Keys.{
  call_key, call_keys, response_keys, tool_call_keys, result_keys, tool_call_keys-append,
  result_keys-append,
}

module _ (codec : Codec) where
  read_call-keys :
      (call : FunctionCall) (reply reply' : Message)
      → read_call codec call reply ≡ ok reply'
      → tool_call_keys reply'.tool_calls
        ≡ tool_call_keys reply.tool_calls ++ (call.id, call.name) ∷ []
  unfolding read_call tool_call_keys
  read_call-keys call reply reply' h =
      let (arguments, encoded, e) =
        bind-inverse (wrapped (codes "gemini: encoding call arguments: ") (codec.encode call.args))
          (λ a. ok (record reply {
            tool_calls =
                reply.tool_calls ++ record { id = call.id; name = call.name; arguments = a } ∷ [];
          }))
          h in
      let made : ToolCall = record { id = call.id; name = call.name; arguments = arguments } in
      let same : reply'.tool_calls ≡ reply.tool_calls ++ made ∷ [] = ground arith in
      ap tool_call_keys same ∙ tool_call_keys-append reply.tool_calls (made ∷ [])

  -- Reading a part adds its call.
  read_part-keys :
      (part : Part) (call : Option FunctionCall) (reply reply' : Message)
      → read_part codec part call reply ≡ ok reply'
      → tool_call_keys reply'.tool_calls ≡ tool_call_keys reply.tool_calls ++ call_key call
  unfolding read_part call_key
  read_part-keys part none reply reply' h =
      let same : reply'.tool_calls ≡ reply.tool_calls = ground arith in
      rw same (sym (append-nil (tool_call_keys reply.tool_calls)))
  read_part-keys part (some call) reply reply' h = read_call-keys call reply reply' h

  pub read_parts-keys :
      (parts : List Part) (reply reply' : Message)
      → read_parts codec parts reply ≡ ok reply'
      → tool_call_keys reply'.tool_calls ≡ tool_call_keys reply.tool_calls ++ call_keys parts
  unfolding read_parts call_keys
  read_parts-keys [] reply reply' h =
      let same : reply'.tool_calls ≡ reply.tool_calls = ground arith in
      rw same (sym (append-nil (tool_call_keys reply.tool_calls)))
  read_parts-keys (part ∷ rest) reply reply' h =
      let (next, one, more) =
        bind-inverse (read_part codec part part.function_call reply) (λ m. read_parts codec rest m)
          h in
      read_parts-keys rest next reply' more
      ∙ ap (λ keys. keys ++ call_keys rest) (read_part-keys part part.function_call reply next one)
      ∙ append_assoc (tool_call_keys reply.tool_calls) (call_key part.function_call)
          (call_keys rest)

CallStep-cases :
    {W : Type 0} (s : CallStep W)
    → ((st : LoopState) × (w : W) × (s ≡ submitted st w))
      ⊎ ((r : ToolResult) × (st : LoopState) × (w : W) × (s ≡ answered r st w))
CallStep-cases (submitted st w) = inl (st, w, refl)
CallStep-cases (answered r st w) = inr (r, st, w, refl)

-- A response names the call that it answers.
judged-key :
    {W : Type 0} (call : ToolCall) (v : Validated × LoopState) (w : W) (r : ToolResult)
    (st' : LoopState) (w' : W)
    → judged call v w ≡ answered r st' w'
    → (r.call_id ≡ call.id) × (r.name ≡ call.name)
unfolding judged answer
judged-key call (valid hs, st) w r st' w' h = absurd (ground arith)
judged-key call (problems ps, st) w r st' w' h = ground arith

received-key :
    {W : Type 0} (call : ToolCall) (st : LoopState) (a : Result CallError Text) (w : W)
    (r : ToolResult) (st' : LoopState) (w' : W)
    → received call st a w ≡ answered r st' w'
    → (r.call_id ≡ call.id) × (r.name ≡ call.name)
unfolding received answer
received-key call st (err e) w r st' w' h = ground arith
received-key call st (ok content) w r st' w' h = ground arith

module _ {W : Type 0} (broker : Broker W) where
  handle_call-key :
      (call : ToolCall) (st : LoopState) (w : W) (r : ToolResult) (st' : LoopState) (w' : W)
      → handle_call broker call st w ≡ answered r st' w'
      → (r.call_id ≡ call.id) × (r.name ≡ call.name)
  unfolding handle_call submit read answer
  handle_call-key call st w r st' w' h =
      let (result, w'') = broker.call call.name call.arguments w in
      elim (Bool-cases (text_eq call.name submit_tool)) [
        | inl e ↦ judged-key call (accept call.arguments st) w r st' w' (ground arith)
        | inr e ↦ elim (Bool-cases (tool_budget_left st)) [
          | inl left ↦
              received-key call (record_requirement call result (counted st)) result w'' r st' w'
                (ground arith)
          | inr spent ↦ ground arith
        ]
      ]

  pub handle_calls-keys :
      (done : List ToolResult) (calls : List ToolCall) (st : LoopState) (w : W)
      (rs : List ToolResult) (st' : LoopState) (w' : W)
      → handle_calls broker done calls st w ≡ results rs st' w'
      → result_keys rs ≡ result_keys done ++ tool_call_keys calls
  unfolding handle_calls tool_call_keys result_keys
  handle_calls-keys done [] st w rs st' w' h =
      let same : rs ≡ done = ground arith in rw same (sym (append-nil (result_keys done)))
  handle_calls-keys done (call ∷ calls) st w rs st' w' h =
      elim (CallStep-cases (handle_call broker call st w)) [
        | inl (s, v, e) ↦ absurd (ground arith)
        | inr (r, s, v, e) ↦
            let more : handle_calls broker (done ++ r ∷ []) calls s v ≡ results rs st' w' =
              ground arith in
            let (same_id, same_name) = handle_call-key call st w r s v e in
            handle_calls-keys (done ++ r ∷ []) calls s v rs st' w' more
            ∙ ap (λ keys. keys ++ tool_call_keys calls) (result_keys-append done (r ∷ []))
            ∙ append_assoc (result_keys done) (result_keys (r ∷ [])) (tool_call_keys calls)
            ∙ rw (same_id, same_name) refl
      ]

response_parts-keys : (rs : List ToolResult) → response_keys (map response_part rs) ≡ result_keys rs
unfolding response_keys result_keys response_part response_of
response_parts-keys [] = refl
response_parts-keys (r ∷ rest) = ap (λ keys. (r.call_id, r.name) ∷ keys) (response_parts-keys rest)

pub user_content-keys :
    (msg : Message) → response_keys (user_content msg).parts ≡ result_keys msg.tool_results
unfolding user_content text_parts response_keys
user_content-keys msg = with_text msg.text msg.tool_results
  where
    with_text :
        (text : Text) (rs : List ToolResult)
        → response_keys (text_parts text ++ map response_part rs) ≡ result_keys rs
    with_text [] rs = response_parts-keys rs
    with_text (c ∷ s) rs = response_parts-keys rs

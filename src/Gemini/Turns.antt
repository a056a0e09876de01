-- ===== src/Gemini/Turns.antt =====
-- internal/agent/investigator.go over internal/model/gemini: the conversation that Gemini is sent.
use kube_cure.Prelude.{
  ℕ, ◌≡◌, refl, ap, sym, ◌∙◌, Option, none, some, List, [], ◌∷◌, ◌++◌, arith, append_assoc,
}
use kube_cure.Text.{Text}
use kube_cure.Genai.{Content, Reply}
use kube_cure.Agent.Model.{ToolResult, Message, Request, Response, ok}
use kube_cure.Agent.Loop.{user_message}
use kube_cure.Gemini.Convert.{Codec, bind-inverse, to_contents, user_content}
use kube_cure.Gemini.Generate.{
  Client, generate, response_to, read_parts, empty_reply, first_content, request_of,
}
use kube_cure.Gemini.Keys.{call_keys, response_keys, tool_call_keys, result_keys}
use kube_cure.Gemini.Answers.{read_parts-keys, user_content-keys}
use kube_cure.Gemini.Replay.{Carries, read_parts-Carries, to_contents-middle, received-ok, sent-ok}

-- A conversation in which each turn of the model is followed by one of the user that answers its
-- calls: one response for each call, in order, with its id and its name.
pub data Paired : List Content → Type 0 where
  opening : (u : Content) → response_keys u.parts ≡ [] → Paired (u ∷ [])
  exchange :
      {before : List Content} (c u : Content)
      → Paired before
      → call_keys c.parts ≡ response_keys u.parts
      → Paired (before ++ c ∷ u ∷ [])

module _ (codec : Codec) where
  abbrev pub Converts : List Message → Type 0
  Converts messages = (cs : List Content) × (to_contents codec messages ≡ ok cs) × Paired cs

  -- What a reply has of the content that it was read from.
  abbrev pub ReadFrom : Content → Message → Type 0
  ReadFrom c msg = Carries c msg × (tool_call_keys msg.tool_calls ≡ call_keys c.parts)

  response-ReadFrom :
      (reply : Reply) (o : Option Content) (r : Response)
      → response_to codec reply o ≡ ok r
      → (c : Content) × ReadFrom c r.message
  unfolding response_to empty_reply tool_call_keys
  response-ReadFrom reply none r h = absurd (ground arith)
  response-ReadFrom reply (some c) r h =
      let (message, read, whole) = bind-inverse (read_parts codec c.parts (empty_reply c)) _ h in
      let same : r.message ≡ message = ground arith in
      rw same (
        c,
        (
          read_parts-Carries codec c c.parts (empty_reply c) message (refl, refl) read,
          read_parts-keys codec c.parts (empty_reply c) message read,
        ),
      )

  pub generate-ReadFrom :
      {W : Type 0} (client : Client W) (name : Text) (req : Request) (w : W) (r : Response) (w' : W)
      → generate codec client name req w ≡ (ok r, w')
      → (c : Content) × ReadFrom c r.message
  unfolding generate
  generate-ReadFrom client name req w r w' h =
      let (contents, config, asked, answered) =
        sent-ok codec client name (request_of codec req) w r w' h in
      let (reply, fetched, read) =
        received-ok codec (client.generate_content name contents config w) r w' answered in
      response-ReadFrom reply (first_content reply.candidates) r read

  pub to_contents-text :
      (c : ℕ) (s : Text) (rs : List ToolResult)
      → let u = user_message (c ∷ s) rs in to_contents codec (u ∷ []) ≡ ok (user_content u ∷ [])
  unfolding to_contents user_message
  to_contents-text c s rs = refl

  pub to_contents-results :
      (text : Text) (r : ToolResult) (rs : List ToolResult)
      → let u = user_message text (r ∷ rs) in to_contents codec (u ∷ []) ≡ ok (user_content u ∷ [])
  unfolding to_contents user_message
  to_contents-results [] r rs = refl
  to_contents-results (c ∷ s) r rs = refl

  -- A turn of the model and a turn of the user that answers it extend a conversation.
  pub extended :
      (messages : List Message) (c : Content) (reply u : Message)
      → ReadFrom c reply
      → to_contents codec (u ∷ []) ≡ ok (user_content u ∷ [])
      → result_keys u.tool_results ≡ tool_call_keys reply.tool_calls
      → Converts messages
      → Converts ((messages ++ reply ∷ []) ++ u ∷ [])
  extended messages c reply u (carries, read) user keys (cs, converts, paired) = (
    cs ++ c ∷ user_content u ∷ [],
    ap (to_contents codec) (append_assoc messages (reply ∷ []) (u ∷ []))
        ∙ to_contents-middle codec messages c reply (u ∷ []) carries
        ∙ rw (converts, user) refl,
    exchange c (user_content u) paired (sym (user_content-keys u ∙ keys ∙ read)),
  )

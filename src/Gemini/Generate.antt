-- ===== src/Gemini/Generate.antt =====
-- internal/model/gemini/gemini.go: `Generate`, over a client of Gemini that is a parameter.
use kube_cure.Prelude.{true, false, Option, none, some, List, [], ◌∷◌, ◌++◌}
use kube_cure.Text.{Text, codes}
use kube_cure.Genai.{Part, Content, Config, Reply, FunctionCall, FunctionDeclaration}
use kube_cure.Agent.Model as agent
use kube_cure.Agent.Model.{
  Role, ToolCall, Message, Request, Response, ModelError, deadline_exceeded, provider_error, Result,
  ok, err,
}
use kube_cure.Gemini.Convert.{
  Codec, ◌>>=◌, wrapped, empty_part, to_contents, to_declarations, usage_of,
}

-- `client.Models.GenerateContent(ctx, model, contents, config)`
pub record Client (W : Type 0) : Type 0 where
  pub generate_content : Text → List Content → Config → W → Result ModelError Reply × W

abbrev pub config_of : Text → List FunctionDeclaration → Config
config_of system declarations = record {
  system_instruction = record { role = []; parts = record empty_part { text = system } ∷ [] };
  declarations = declarations;
  mode_any = true;
}

-- `part.Text != "" && !part.Thought`; appending an empty text changes nothing.
unfoldable pub spoken : Part → Text
spoken part = elim part.thought [ true ↦ [] | false ↦ part.text ]

unfoldable pub first_content : List (Option Content) → Option Content
first_content [] = none
first_content (c ∷ rest) = c

unfoldable pub no_candidate : Text
no_candidate = codes "gemini: response contained no candidate"

unfoldable pub empty_reply : Content → Message
empty_reply content = record {
  role = Role.model;
  text = [];
  tool_calls = [];
  tool_results = [];
  provider_state = some content;
}

abbrev pub as_model_error : {A : Type 0} → Result Text A → Result ModelError A
as_model_error (ok a) = ok a
as_model_error (err why) = err (provider_error why)

module _ (codec : Codec) where
  unfoldable pub read_call : FunctionCall → Message → Result Text Message
  unfolding wrapped
  read_call call reply = do
    arguments ← wrapped (codes "gemini: encoding call arguments: ") (codec.encode call.args)
    ok (record reply {
      tool_calls =
          reply.tool_calls ++ record { id = call.id; name = call.name; arguments = arguments } ∷ [];
    })

  unfoldable pub read_part : Part → Option FunctionCall → Message → Result Text Message
  unfolding read_call spoken
  read_part part (some call) reply = read_call call reply
  read_part part none reply = ok (record reply { text = reply.text ++ spoken part })

  unfoldable pub read_parts : List Part → Message → Result Text Message
  unfolding read_part
  read_parts [] reply = ok reply
  read_parts (part ∷ rest) reply = do
    reply' ← read_part part part.function_call reply
    read_parts rest reply'

  unfoldable pub response_to : Reply → Option Content → Result Text Response
  unfolding read_parts empty_reply
  response_to reply none = err no_candidate
  response_to reply (some content) = do
    message ← read_parts content.parts (empty_reply content)
    ok (record { message = message; usage = usage_of reply.usage_metadata })

  unfoldable pub received :
      {W : Type 0} → Result ModelError Reply × W → Result ModelError Response × W
  unfolding response_to first_content
  received (err e, w) = (err e, w)
  received (ok reply, w) = (as_model_error (response_to reply (first_content reply.candidates)), w)

  unfoldable pub sent :
      {W : Type 0}
      → Client W
      → Text
      → Result Text (List Content × Config)
      → W
      → Result ModelError Response × W
  unfolding received
  sent client name (err why) w = (err (provider_error why), w)
  sent client name (ok (contents, config)) w =
      received (client.generate_content name contents config w)

  unfoldable pub request_of : Request → Result Text (List Content × Config)
  unfolding to_declarations to_contents
  request_of req = do
    declarations ← to_declarations codec req.tools
    contents ← to_contents codec req.messages
    ok (contents, config_of req.system declarations)

  unfoldable pub generate :
      {W : Type 0} → Client W → Text → Request → W → Result ModelError Response × W
  unfolding sent request_of
  generate client name req w = sent client name (request_of req) w

  -- The provider as the loop's model.
  unfoldable pub as_model : {W : Type 0} → Client W → Text → agent.Model W
  unfolding generate
  as_model client name = record { name = codes "gemini/" ++ name; generate = generate client name }

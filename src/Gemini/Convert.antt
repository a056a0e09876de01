-- ===== src/Gemini/Convert.antt =====
-- internal/model/gemini/gemini.go: `toDeclarations`, `toContents` and `usageOf`.
use kube_cure.Prelude.{
  ◌+◌, false, Option, none, some, List, [], ◌∷◌, ◌++◌, ◌≡◌, refl, map, if◌then◌else◌,
}
use kube_cure.Text.{Text, codes}
use kube_cure.Json.{RawMessage}
use kube_cure.Genai.{Args, FunctionResponse, Part, Content, FunctionDeclaration, UsageMetadata}
use kube_cure.Agent.Model.{
  Role, user, model, ToolCall, ToolResult, Message, Usage, ToolSpec, Result, ok, err,
}

-- json.Marshal and json.Unmarshal between the bytes of an argument or a schema and a map; the error
-- is its text.
pub record Codec : Type 0 where
  pub encode : Args → Result Text RawMessage
  pub decode : RawMessage → Result Text Args
  pub decode_schema : Text → Result Text Args

infixl 5 ◌>>=◌
abbrev pub ◌>>=◌ : {A B : Type 0} → Result Text A → (A → Result Text B) → Result Text B
ok a >>= f = f a
err e >>= f = err e

-- The steps of a chain that succeeds.
pub bind-inverse :
    {A B : Type 0} {b : B} (first : Result Text A) (next : A → Result Text B)
    → (first >>= next) ≡ ok b
    → (x : A) × (first ≡ ok x) × (next x ≡ ok b)
bind-inverse (err why) next h = cc
bind-inverse (ok x) next h = (x, refl, h)

-- An error wrapped by a text before it.
unfoldable pub wrapped : {A : Type 0} → Text → Result Text A → Result Text A
wrapped before (ok a) = ok a
wrapped before (err why) = err (before ++ why)

abbrev pub empty_part : Part
empty_part = record {
  text = [];
  thought = false;
  thought_signature = [];
  function_call = none;
  function_response = none;
}

-- `if msg.Text != "" { parts = append(parts, text) }`
unfoldable pub text_parts : Text → List Part
text_parts [] = []
text_parts (c ∷ s) = record empty_part { text = c ∷ s } ∷ []

unfoldable pub call_part : ToolCall → Args → Part
call_part call args = record empty_part {
  function_call = some (record { id = call.id; name = call.name; args = args });
}

unfoldable pub response_of : ToolResult → FunctionResponse
response_of r = record {
  id = r.call_id;
  name = r.name;
  response = (if r.is_error then codes "error" else codes "output", r.content) ∷ [];
}

unfoldable pub response_part : ToolResult → Part
unfolding response_of
response_part r = record empty_part { function_response = some (response_of r) }

unfoldable pub model_role : Text
model_role = codes "model"

unfoldable pub user_role : Text
user_role = codes "user"

unfoldable pub user_content : Message → Content
unfolding text_parts response_part
user_content msg = record {
  role = user_role;
  parts = text_parts msg.text ++ map response_part msg.tool_results;
}

-- A content with no parts is left out.
unfoldable pub if_any_parts : Content → List Content
if_any_parts c = elim c.parts [ [] ↦ [] | _ ∷ _ ↦ c ∷ [] ]

unfoldable pub usage_of : Option UsageMetadata → Usage
usage_of none = record { input_tokens = 0; output_tokens = 0 }
usage_of (some u) = record {
  input_tokens = u.prompt_token_count;
  output_tokens = u.candidates_token_count + u.thoughts_token_count;
}

module _ (codec : Codec) where
  unfoldable pub call_parts : List ToolCall → Result Text (List Part)
  unfolding wrapped call_part
  call_parts [] = ok []
  call_parts (call ∷ rest) = do
    args ← wrapped (codes "gemini: decoding call arguments: ") (codec.decode call.arguments)
    parts ← call_parts rest
    ok (call_part call args ∷ parts)

  -- A turn of the model that carries its original content is replayed as it is.
  unfoldable pub model_content : Message → Option Content → Result Text Content
  unfolding call_parts text_parts
  model_content msg (some original) = ok original
  model_content msg none = do
    parts ← call_parts msg.tool_calls
    ok (record { role = model_role; parts = text_parts msg.text ++ parts })

  unfoldable pub contents_of : Message → Role → Result Text (List Content)
  unfolding model_content user_content if_any_parts
  contents_of msg model = do c ← model_content msg msg.provider_state; ok (c ∷ [])
  contents_of msg user = ok (if_any_parts (user_content msg))

  unfoldable pub to_contents : List Message → Result Text (List Content)
  unfolding contents_of
  to_contents [] = ok []
  to_contents (msg ∷ rest) = do
    here ← contents_of msg msg.role
    later ← to_contents rest
    ok (here ++ later)

  unfoldable pub to_declarations : List ToolSpec → Result Text (List FunctionDeclaration)
  unfolding wrapped
  to_declarations [] = ok []
  to_declarations (s ∷ rest) = do
    schema ←
        wrapped (codes "gemini: tool " ++ (s.name ++ codes " has an invalid schema: "))
          (codec.decode_schema s.input_schema)
    later ← to_declarations rest
    ok (
        record { name = s.name; description = s.description; parameters_json_schema = schema }
        ∷ later)

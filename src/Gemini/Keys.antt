-- ===== src/Gemini/Keys.antt =====
-- internal/model/gemini/gemini.go and internal/agent: the ids and names by which calls are answered.
use kube_cure.Prelude.{◌≡◌, refl, ap, Option, none, some, List, [], ◌∷◌, ◌++◌}
use kube_cure.Text.{Text}
use kube_cure.Genai.{Part, FunctionCall, FunctionResponse}
use kube_cure.Agent.Model.{ToolCall, ToolResult}

-- The id and the name of a call and of what answers it.
abbrev pub Key : Type 0
Key = Text × Text

unfoldable pub call_key : Option FunctionCall → List Key
call_key none = []
call_key (some call) = (call.id, call.name) ∷ []

unfoldable pub call_keys : List Part → List Key
unfolding call_key
call_keys [] = []
call_keys (part ∷ rest) = call_key part.function_call ++ call_keys rest

unfoldable pub response_key : Option FunctionResponse → List Key
response_key none = []
response_key (some r) = (r.id, r.name) ∷ []

unfoldable pub response_keys : List Part → List Key
unfolding response_key
response_keys [] = []
response_keys (part ∷ rest) = response_key part.function_response ++ response_keys rest

unfoldable pub tool_call_keys : List ToolCall → List Key
tool_call_keys [] = []
tool_call_keys (call ∷ rest) = (call.id, call.name) ∷ tool_call_keys rest

unfoldable pub result_keys : List ToolResult → List Key
result_keys [] = []
result_keys (r ∷ rest) = (r.call_id, r.name) ∷ result_keys rest

pub tool_call_keys-append :
    (xs ys : List ToolCall) → tool_call_keys (xs ++ ys) ≡ tool_call_keys xs ++ tool_call_keys ys
unfolding tool_call_keys
tool_call_keys-append [] ys = refl
tool_call_keys-append (x ∷ xs) ys = ap (λ keys. (x.id, x.name) ∷ keys) (tool_call_keys-append xs ys)

pub result_keys-append :
    (xs ys : List ToolResult) → result_keys (xs ++ ys) ≡ result_keys xs ++ result_keys ys
unfolding result_keys
result_keys-append [] ys = refl
result_keys-append (x ∷ xs) ys = ap (λ keys. (x.call_id, x.name) ∷ keys) (result_keys-append xs ys)

-- ===== src/Examples/Gemini.antt =====
-- internal/model/gemini and cmd/model.go: a Gemini that thinks and calls one tool in each turn.
use kube_cure.Prelude.{
  ℕ, ◌+◌, ◌≡◌, refl, true, false, none, some, List, [], ◌∷◌, ◌++◌, arith, if◌then◌else◌,
}
use kube_cure.Text.{Text, codes, text_eq, show_nat}
use kube_cure.Json.{RawMessage, malformed, no_fields}
use kube_cure.Genai.{Content}
use kube_cure.Agent.Model as agent
use kube_cure.Agent.Model.{Message, Request, Response, Result, ok, err, Broker, Clock}
use kube_cure.Agent.State.{LoopState, initial_state}
use kube_cure.Agent.Loop.{LoopStep, again, over, turn, user_message}
use kube_cure.Agent.Prompt.{initial_context}
use kube_cure.Gemini.Convert.{Codec, ◌>>=◌, empty_part, to_contents}
use kube_cure.Gemini.Generate.{Client, generate, as_model}
use kube_cure.Gemini.Replay.{turn_replayed, Answered}
use kube_cure.Gemini.Turns.{Paired}
use kube_cure.Gemini.Conversation.{begun, went_on, conversation-Paired}
use kube_cure.Gemini.Environment.{
  env_api_key, env_price_input, env_price_output, model_name, model_from_env,
}
use kube_cure.Gemini.Configured.{model_from_env_roundtrip}
use kube_cure.Examples.Agent.{input}

abbrev no_arguments : RawMessage
no_arguments = record { bytes = codes "{}"; compacted = none; parsed = malformed }

abbrev codec : Codec
codec = record {
  encode = λ args. ok no_arguments;
  decode = λ raw. ok (some no_fields);
  decode_schema = λ text. ok (some no_fields);
}

abbrev thinking : Content
thinking = record {
  role = codes "model";
  parts =
      record empty_part { text = codes "hm"; thought = true; thought_signature = codes "sig" }
      ∷ record empty_part {
        function_call =
            some (record { id = codes "c1"; name = codes "get_pod_logs"; args = some no_fields });
      }
      ∷ [];
}

-- The world counts what was sent.
abbrev client : Client ℕ
client = record {
  generate_content = λ name contents config w.
      (ok (record { candidates = some thinking ∷ []; usage_metadata = none }), w + 1);
}

abbrev request : Request
request = record { system = []; messages = []; tools = [] }

abbrev reply : Response
reply = record {
  message = record {
    role = agent.Role.model;
    text = [];
    tool_calls =
        record { id = codes "c1"; name = codes "get_pod_logs"; arguments = no_arguments } ∷ [];
    tool_results = [];
    provider_state = some thinking;
  };
  usage = record { input_tokens = 0; output_tokens = 0 };
}

turn_replayed_example :
    (c : Content) × Answered codec client (codes "g") request 0 c 1
    × (to_contents codec (user_message (codes "why") [] ∷ reply.message ∷ []) ≡ (
        to_contents codec (user_message (codes "why") [] ∷ []) >>= λ cs.
        to_contents codec [] >>= λ ds. ok (cs ++ c ∷ ds)))
unfolding generate kube_cure.Gemini.Convert.usage_of
turn_replayed_example =
    turn_replayed codec client (codes "g") request 0 reply 1 (user_message (codes "why") [] ∷ []) []
      refl

abbrev broker : Broker ℕ
broker = record { tools = []; call = λ name arguments w. (ok (codes "out of memory"), w) }

abbrev clock : Clock ℕ
clock = record { now = λ w. w; expired = λ w. (false, w) }

abbrev first_turn : LoopStep ℕ
first_turn =
    turn broker (as_model codec client (codes "g")) clock [] []
      (user_message (initial_context input) [] ∷ []) (initial_state input 0) 0

abbrev messages_of : LoopStep ℕ → List Message
messages_of (over out) = []
messages_of (again messages st w) = messages

abbrev state_of : LoopStep ℕ → LoopState
state_of (over out) = out.state
state_of (again messages st w) = st

-- After the first turn.
conversation-Paired_example :
    (cs : List Content) × (to_contents codec (messages_of first_turn) ≡ ok cs) × Paired cs
unfolding turn initial_state kube_cure.Agent.State.exhausted kube_cure.Agent.State.pricing_known
    as_model user_message kube_cure.Agent.Loop.handle_calls kube_cure.Agent.Loop.handle_call text_eq
    kube_cure.Agent.State.submit_tool kube_cure.Agent.State.tool_budget_left
    kube_cure.Agent.State.account kube_cure.Agent.Loop.turn_begun kube_cure.Agent.Loop.read
conversation-Paired_example =
    conversation-Paired codec broker client (codes "g") clock [] [] (messages_of first_turn)
      (state_of first_turn) 1 (went_on (begun input 0) refl)

-- A key and two prices, and no name of a model.
abbrev environment : Text → Text
environment name =
    if text_eq name env_api_key
    then codes "key"
    else if text_eq name env_price_input
    then codes "300000"
    else if text_eq name env_price_output
    then codes "2500000"
    else []

model_from_env_roundtrip_example :
    model_from_env environment codec (λ key. ok client)
    ≡ ok (
      some (as_model codec client (model_name environment)),
      record { input_micro_usd_per_million = 300000; output_micro_usd_per_million = 2500000 },
    )
unfolding text_eq env_api_key env_price_input env_price_output show_nat
model_from_env_roundtrip_example =
    model_from_env_roundtrip environment codec (λ key. ok client) client 300000 2500000 refl refl
      refl refl (omega arith) (omega arith)

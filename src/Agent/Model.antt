-- ===== src/Agent/Model.antt =====
-- internal/agent/model.go and broker.go: the conversation, and what the loop is given to talk to.
-- Both interfaces are parameters of the loop, over a state `W` of the world that they read and
-- change: the model, the broker and the clock may answer differently at each call.
use kube_cure.Prelude.{ℕ, Bool, Option, List}
use kube_cure.Text.{Text}
use kube_cure.Json.{RawMessage}
use kube_cure.Genai.{Content}

pub data Role : Type 0 where
  user model : Role

pub record ToolCall : Type 0 where
  pub id : Text
  pub name : Text
  pub arguments : RawMessage

pub record ToolResult : Type 0 where
  pub call_id : Text
  pub name : Text
  pub content : Text
  pub is_error : Bool

-- `provider_state` is opaque to the loop, which hands it back and never looks inside. The one
-- provider keeps contents of Gemini there, and treats anything else as none.
pub record Message : Type 0 where
  pub role : Role
  pub text : Text
  pub tool_calls : List ToolCall
  pub tool_results : List ToolResult
  pub provider_state : Option Content

pub record Usage : Type 0 where
  pub input_tokens : ℕ
  pub output_tokens : ℕ

pub record ToolSpec : Type 0 where
  pub name : Text
  pub description : Text
  pub input_schema : Text

pub record Request : Type 0 where
  pub system : Text
  pub messages : List Message
  pub tools : List ToolSpec

pub record Response : Type 0 where
  pub message : Message
  pub usage : Usage

-- A refusal wraps ErrDenied; any other error of the broker is a failed read.
pub data CallError : Type 0 where
  denied : Text → CallError
  failed : Text → CallError

-- Whether an error of the model wraps context.DeadlineExceeded.
pub data ModelError : Type 0 where
  deadline_exceeded : ModelError
  provider_error : Text → ModelError

pub data Result {ℓ} (E : Type ℓ) (A : Type ℓ) : Type ℓ where
  ok : A → Result E A
  err : E → Result E A

pub record Broker (W : Type 0) : Type 0 where
  pub tools : List ToolSpec
  pub call : Text → RawMessage → W → Result CallError Text × W

pub record Model (W : Type 0) : Type 0 where
  pub name : Text
  pub generate : Request → W → Result ModelError Response × W

-- `expired` is `ctx.Err() != nil`; reading it may find that time has passed.
pub record Clock (W : Type 0) : Type 0 where
  pub now : W → ℕ
  pub expired : W → Bool × W

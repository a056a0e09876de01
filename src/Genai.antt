-- ===== src/Genai.antt =====
-- The types of google.golang.org/genai that internal/model/gemini reads and builds, with the fields
-- that it uses, and the calls that it leaves to others: parameters of the provider.
use kube_cure.Prelude.{ℕ, Bool, Option, List}
use kube_cure.Text.{Text}
use kube_cure.Json.{Fields}

-- A `map[string]any`, which may be nil.
abbrev pub Args : Type 0
Args = Option Fields

pub record FunctionCall : Type 0 where
  pub id : Text
  pub name : Text
  pub args : Args

pub record FunctionResponse : Type 0 where
  pub id : Text
  pub name : Text
  pub response : List (Text × Text)

pub record Part : Type 0 where
  pub text : Text
  pub thought : Bool
  pub thought_signature : Text
  pub function_call : Option FunctionCall
  pub function_response : Option FunctionResponse

pub record Content : Type 0 where
  pub role : Text
  pub parts : List Part

pub record FunctionDeclaration : Type 0 where
  pub name : Text
  pub description : Text
  pub parameters_json_schema : Args

-- `mode_any` says that the mode of function calling is ANY.
pub record Config : Type 0 where
  pub system_instruction : Content
  pub declarations : List FunctionDeclaration
  pub mode_any : Bool

pub record UsageMetadata : Type 0 where
  pub prompt_token_count : ℕ
  pub candidates_token_count : ℕ
  pub thoughts_token_count : ℕ

-- The content of each candidate may be nil.
pub record Reply : Type 0 where
  pub candidates : List (Option Content)
  pub usage_metadata : Option UsageMetadata

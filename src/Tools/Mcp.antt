-- ===== src/Tools/Mcp.antt =====
-- internal/tools/mcp.go, and cmd/kubecure-mcp/main.go from its flags to the server: the broker over the
-- Model Context Protocol. The protocol itself is the SDK's: it lists the tools that were added, and
-- calls the handler of the tool that a client names.
use kube_cure.Prelude.{
  ℕ, ℤ, pos_part, Bool, true, false, ◌||◌, Option, none, some, List, [], ◌∷◌, ◌++◌, map, ◌==◌,
  if◌then◌else◌,
}
use kube_cure.Text.{Text, codes, is_empty}
use kube_cure.Json.{RawMessage}
use kube_cure.Api.Diagnosis.{Diagnosis}
use kube_cure.Cluster.{Answer, found, refused}
use kube_cure.Agent.Model.{ToolSpec, Result, ok, err, CallError}
use kube_cure.Agent.Loop.{call_error_text}
use kube_cure.Evidence.Redact.{Redactor}
use kube_cure.Tools.Scope.{api_error_text, scope_for_diagnosis}
use kube_cure.Tools.Catalog.{Registry}
use kube_cure.Tools.Broker.{Broker, bind_to, call}
use kube_cure.Tools.Schemas.{specs}

pub record McpTool : Type 0 where
  pub name : Text
  pub description : Text
  pub input_schema : Text
  pub read_only_hint : Bool
  pub idempotent_hint : Bool
  pub destructive_hint : Bool

pub record McpServer : Type 0 where
  pub name : Text
  pub title : Text
  pub version : Text
  pub tools : List McpTool
  pub broker : Broker

pub record CallToolResult : Type 0 where
  pub is_error : Bool
  pub text : Text

unfoldable pub tool_of : ToolSpec → McpTool
tool_of spec = record {
  name = spec.name;
  description = spec.description;
  input_schema = spec.input_schema;
  read_only_hint = true;
  idempotent_hint = true;
  destructive_hint = false;
}

unfoldable pub new_mcp_server : Broker → Text → McpServer
unfolding tool_of
new_mcp_server b version = record {
  name = codes "kubecure";
  title = codes "KubeCure investigation tools";
  version = version;
  tools = map tool_of specs;
  broker = b;
}

-- A failure is reported as an error result with its reason, never as an error of the protocol.
unfoldable pub result_of : Result CallError Text → CallToolResult
result_of (ok text) = record { is_error = false; text = text }
result_of (err e) = record { is_error = true; text = call_error_text e }

-- The handler of the tool of a name.
unfoldable pub handle :
    List Redactor → Registry → ℕ → ℕ → Broker → Text → RawMessage → CallToolResult × Broker
unfolding result_of
handle redactors registry started ended b name arguments =
    let (result, b') = call redactors registry started ended b name arguments in
    (result_of result, b')

-- strings.Cut at one byte
unfoldable pub cut : ℕ → Text → Option (Text × Text)
cut c [] = none
cut c (x ∷ s) =
    if x == c
    then some ([], s)
    else elim (cut c s) [ none ↦ none | some (before, after) ↦ some (x ∷ before, after) ]

unfoldable pub both_given : Option (Text × Text) → Option (Text × Text)
both_given none = none
both_given (some (namespace, name)) =
    if is_empty namespace || is_empty name then none else some (namespace, name)

-- The flag `--diagnosis`, as namespace/name.
unfoldable pub parse_target : Text → Option (Text × Text)
unfolding cut both_given
parse_target target = both_given (cut 47 target)

unfoldable pub flag_error : Text
flag_error = codes "--diagnosis is required, in the form namespace/name"

unfoldable pub loading_error : Text → Text → Text → Text
loading_error namespace name why =
    codes "loading diagnosis " ++ (namespace ++ (codes "/" ++ (name ++ (codes ": " ++ why))))

unfoldable pub server_version : Text
server_version = codes "0.1.0"

unfoldable pub serve_diagnosis : Text → Text → ℤ → Answer Diagnosis → Result Text McpServer
unfolding loading_error
serve_diagnosis namespace name max_calls (found d) =
    ok (new_mcp_server (bind_to (scope_for_diagnosis d (pos_part max_calls))) server_version)
serve_diagnosis namespace name max_calls (refused e) =
    err (loading_error namespace name (api_error_text e))

unfoldable pub main_with :
    (Text → Text → Answer Diagnosis) → ℤ → Option (Text × Text) → Result Text McpServer
unfolding serve_diagnosis
main_with get_diagnosis max_calls none = err flag_error
main_with get_diagnosis max_calls (some (namespace, name)) =
    serve_diagnosis namespace name max_calls (get_diagnosis namespace name)

-- The two flags, with the clients built: the server that is run, or the fatal error.
unfoldable pub main : (Text → Text → Answer Diagnosis) → Text → ℤ → Result Text McpServer
unfolding main_with parse_target
main get_diagnosis target max_calls = main_with get_diagnosis max_calls (parse_target target)

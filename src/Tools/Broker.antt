-- ===== src/Tools/Broker.antt =====
-- internal/tools/broker.go: one call, its limits and its record.
use kube_cure.Prelude.{
  ℕ, ◌-◌, ◌/◌, Option, none, some, List, [], ◌∷◌, ◌++◌, length, take, leb, ◌==◌, if◌then◌else◌,
}
use kube_cure.Text.{Text, codes, text_eq, trim_space, show_nat, quote}
use kube_cure.Json.{RawMessage}
use kube_cure.Api.Diagnosis.{ToolCall}
use kube_cure.Agent.Model.{Result, ok, err, CallError, denied}
use kube_cure.Agent.Loop.{call_error_text}
use kube_cure.Evidence.Redact.{Redactor, redact, truncate}
use kube_cure.Tools.Scope.{Scope, ◌>>=◌}
use kube_cure.Tools.Catalog.{Registry, catalog}

abbrev pub result_limit : ℕ
result_limit = 8192

abbrev pub default_max_calls : ℕ
default_max_calls = 25

abbrev pub audit_field_limit : ℕ
audit_field_limit = 512

-- A registry bound to a scope, with the record of the calls made. The agent makes its calls one
-- after another, so that the lock is never contended.
pub record Broker : Type 0 where
  pub scope : Scope
  pub calls : List ToolCall

unfoldable pub bind_to : Scope → Broker
bind_to scope = record {
  scope = record scope {
    max_calls = if leb scope.max_calls 0 then default_max_calls else scope.max_calls;
  };
  calls = [];
}

unfoldable pub clip : Text → ℕ → Text
clip s limit = if leb (length s) limit then s else take (limit - 3) s ++ codes "..."

unfoldable pub compact_json : RawMessage → Text
compact_json raw = elim raw.compacted [ some compact ↦ compact | none ↦ raw.bytes ]

unfoldable pub first_line : Text → Text
first_line [] = []
first_line (c ∷ s) = if c == 10 then [] else c ∷ first_line s

unfoldable pub summarise : Text → Text
summarise result =
    show_nat (length result)
    ++ (codes " bytes: " ++ clip (trim_space (first_line (trim_space result))) 160)

unfoldable pub find_tool :
    Text
    → List (Text × (RawMessage → Result CallError Text))
    → Option (RawMessage → Result CallError Text)
find_tool name [] = none
find_tool name ((key, run) ∷ rest) = if text_eq key name then some run else find_tool name rest

ceiling_text : ℕ → Text
ceiling_text n = codes "call ceiling of " ++ (show_nat n ++ codes " reached for this investigation")

module _ (redactors : List Redactor) where
  unfoldable pub scrub : Text → Text
  scrub raw = truncate (redact redactors raw).0 result_limit

  unfoldable pub run_tool :
      Option (RawMessage → Result CallError Text) → Text → RawMessage → Result CallError Text
  unfolding scrub
  run_tool none name arguments = err (denied (codes "unknown tool " ++ quote name))
  run_tool (some run) name arguments = do raw ← run arguments; ok (scrub raw)

  unfoldable pub checked_call : Registry → Broker → Text → RawMessage → Result CallError Text
  unfolding ceiling_text run_tool find_tool
  checked_call registry b name arguments =
      if leb b.scope.max_calls (length b.calls)
      then err (denied (ceiling_text b.scope.max_calls))
      else run_tool (find_tool name (catalog registry b.scope)) name arguments

  -- What is recorded of a call; the duration is read from a clock around it.
  unfoldable pub record_of : Text → RawMessage → ℕ → Result CallError Text → ToolCall
  record_of name arguments duration_millis (ok result) = record {
    tool = name;
    arguments = clip (compact_json arguments) audit_field_limit;
    summary = clip (summarise result) audit_field_limit;
    duration_millis = duration_millis;
    error = [];
  }
  record_of name arguments duration_millis (err e) = record {
    tool = name;
    arguments = clip (compact_json arguments) audit_field_limit;
    summary = [];
    duration_millis = duration_millis;
    error = clip (call_error_text e) audit_field_limit;
  }

  unfoldable pub call :
      Registry → ℕ → ℕ → Broker → Text → RawMessage → Result CallError Text × Broker
  unfolding checked_call record_of
  call registry started ended b name arguments =
      let result = checked_call registry b name arguments in
      (
        result,
        record b {
          calls = b.calls ++ record_of name arguments ((ended - started) / 1000000) result ∷ [];
        },
      )

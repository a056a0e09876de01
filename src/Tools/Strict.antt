-- ===== src/Tools/Strict.antt =====
-- internal/tools/broker.go: `decodeArgs` refuses what a tool does not declare.
use kube_cure.Prelude.{
  ℕ, Bool, false, ◌≡◌, ◌⊎◌, inl, inr, refl, List, [], ◌∷◌, arith, Bool-cases, leb, length,
}
use kube_cure.Text.{Text, codes, text_eq}
use kube_cure.Json
use kube_cure.Json.{
  Json, Fields, no_fields, field, RawMessage, value, JsonError, json_error_text, Decoded, decoded,
  invalid, same_key, decode_struct, decode_fields,
}
use kube_cure.Api.Evidence.{EvidenceKind}
use kube_cure.Agent.Model.{Result, ok, err, CallError, denied}
use kube_cure.Evidence.Redact.{Redactor}
use kube_cure.Tools.Scope.{Scope, ◌>>=◌}
use kube_cure.Tools.Catalog.{
  Registry, decode_args, finish_args, pod_field, log_field, no_field, similar_field, invalid_text,
  decode_pod_args, decode_log_args, decode_no_args, decode_similar_args, run_logs, pod_evidence,
  workload_evidence, run_similar, catalog,
}
use kube_cure.Tools.Broker.{Broker, call, checked_call, run_tool, find_tool}

-- A key that no tool declares.
abbrev pub Undeclared : Text → Type 0
Undeclared key =
    (same_key key (codes "pod") ≡ false)
    × (same_key key (codes "container") ≡ false)
    × (same_key key (codes "previous") ≡ false)
    × (same_key key (codes "failureType") ≡ false)

-- An object with such a key among its own.
abbrev pub Smuggles : Fields → Type 0
Smuggles no_fields = ⊥
Smuggles (field key v rest) = Undeclared key ⊎ Smuggles rest

abbrev pub Denied : {A : Type 0} → Result CallError A → Type 0
Denied r = (why : Text) × (r ≡ err (denied why))

abbrev pub Refuses : {A : Type 0} → (Text → Json → A → Decoded A) → Type 0
Refuses {A} assign =
    (key : Text) (v : Json) (old : A)
    → Undeclared key
    → (e : JsonError) × (assign key v old ≡ invalid e)

Decoded-cases :
    {A : Type 0} (r : Decoded A) → ((a : A) × (r ≡ decoded a)) ⊎ ((e : JsonError) × (r ≡ invalid e))
Decoded-cases (decoded a) = inl (a, refl)
Decoded-cases (invalid e) = inr (e, refl)

fields_refused :
    {A : Type 0} (assign : Text → Json → A → Decoded A)
    → Refuses assign
    → (fields : Fields) (old : A) → Smuggles fields
    → (e : JsonError) × (decode_fields assign fields old ≡ invalid e)
unfolding decode_fields
fields_refused assign refuses no_fields old h = absurd h
fields_refused assign refuses (field key v rest) old (inl h) =
    let (e, r) = refuses key v old h in (e, ground arith)
fields_refused assign refuses (field key v rest) old (inr h) =
    elim (Decoded-cases (assign key v old)) [
      | inl (a, r) ↦ let (e, again) = fields_refused assign refuses rest a h in (e, ground arith)
      | inr (e, r) ↦ (e, ground arith)
    ]

pod-Refuses : Refuses pod_field
unfolding pod_field
pod-Refuses key v old (p, c, q, f) = (Json.unknown_field key, ground arith)

log-Refuses : Refuses log_field
unfolding log_field
log-Refuses key v old (p, c, q, f) = (Json.unknown_field key, ground arith)

no-Refuses : Refuses no_field
unfolding no_field
no-Refuses key v old h = (Json.unknown_field key, refl)

similar-Refuses : Refuses similar_field
unfolding similar_field
similar-Refuses key v old (p, c, q, f) = (Json.unknown_field key, ground arith)

module _ (arguments : RawMessage) (fields : Fields) (more : Bool)
    (reads : arguments.parsed ≡ value (Json.object fields) more) (smuggles : Smuggles fields) where
  args-Denied :
      {A : Type 0} (assign : Text → Json → A → Decoded A) (zero_value : A)
      → Refuses assign
      → Denied (decode_args (decode_struct assign) zero_value arguments)
  unfolding decode_args decode_struct finish_args
  args-Denied assign zero_value refuses =
      let (e, r) = fields_refused assign refuses fields zero_value smuggles in
      (invalid_text (json_error_text e), ground arith)

  bind-Denied :
      {A B : Type 0} (x : Result CallError A) (f : A → Result CallError B)
      → Denied x
      → Denied (x >>= f)
  bind-Denied (ok a) f (why, e) = absurd (ground arith)
  bind-Denied (err e) f (why, r) = (why, ground arith)

  module _ (registry : Registry) (scope : Scope) where
    abbrev AllDeny : List (Text × (RawMessage → Result CallError Text)) → Type 0
    AllDeny [] = Unit
    AllDeny ((key, run) ∷ rest) = Denied (run arguments) × AllDeny rest

    pod-Denied : (kind : EvidenceKind) → Denied (pod_evidence registry scope kind arguments)
    unfolding pod_evidence decode_pod_args
    pod-Denied kind = bind-Denied _ _ (args-Denied pod_field [] pod-Refuses)

    workload-Denied :
        (kind : EvidenceKind) → Denied (workload_evidence registry scope kind arguments)
    unfolding workload_evidence decode_no_args
    workload-Denied kind = bind-Denied _ _ (args-Denied no_field tt no-Refuses)

    logs-Denied : Denied (run_logs registry scope arguments)
    unfolding run_logs decode_log_args
    logs-Denied = bind-Denied _ _ (args-Denied log_field _ log-Refuses)

    similar-Denied : Denied (run_similar registry scope arguments)
    unfolding run_similar decode_similar_args
    similar-Denied = bind-Denied _ _ (args-Denied similar_field [] similar-Refuses)

    all_deny : AllDeny (catalog registry scope)
    unfolding catalog
    all_deny = (
      logs-Denied,
      (
        pod-Denied _,
        (
          workload-Denied _,
          (
            workload-Denied _,
            (
              pod-Denied _,
              (pod-Denied _, (pod-Denied _, (pod-Denied _, (pod-Denied _, (similar-Denied, tt))))),
            ),
          ),
        ),
      ),
    )

    run-Denied :
        (redactors : List Redactor) (name : Text)
        (tools : List (Text × (RawMessage → Result CallError Text)))
        → AllDeny tools
        → Denied (run_tool redactors (find_tool name tools) name arguments)
    unfolding run_tool find_tool
    run-Denied redactors name [] h = (_, refl)
    run-Denied redactors name ((key, run) ∷ rest) (d, h) = elim (Bool-cases (text_eq key name)) [
      | inl e ↦ rw e (bind-Denied _ _ d)
      | inr e ↦ rw e (run-Denied redactors name rest h)
    ]

-- A call whose arguments are an object with a key that no tool declares, such as a namespace, is
-- refused, whatever the tool, the value at the key and the other keys; and it is refused, not failed.
pub call-Denied :
    (redactors : List Redactor) (registry : Registry) (b : Broker) (started ended : ℕ) (name : Text)
    (arguments : RawMessage) (fields : Fields) (more : Bool)
    → arguments.parsed ≡ value (Json.object fields) more
    → Smuggles fields
    → (why : Text) × ((call redactors registry started ended b name arguments).0 ≡ err (denied why))
unfolding call checked_call
call-Denied redactors registry b started ended name arguments fields more reads smuggles =
    elim (Bool-cases (leb b.scope.max_calls (length b.calls))) [
      | inl e ↦ rw e (_, refl)
      | inr e ↦ rw e (
          run-Denied arguments fields more reads smuggles registry b.scope redactors name
            (catalog registry b.scope)
            (all_deny arguments fields more reads smuggles registry b.scope))
    ]

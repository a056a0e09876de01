-- ===== src/Examples/Tools.antt =====
-- internal/tools in the namespace of the failing pod.
use kube_cure.Prelude.{
  pos, ◌≤◌, ◌<◌, false, ◌≡◌, ◌↔◌, refl, inl, some, List, [], ◌∷◌, length, arith, if◌then◌else◌,
  ◌==◌,
}
use kube_cure.Text.{Text, codes, text_eq}
use kube_cure.Json
use kube_cure.Json.{Json, RawMessage, value, field, no_fields}
use kube_cure.Api.Diagnosis.{Diagnosis, Phase}
use kube_cure.Api.Failure.{oom_killed}
use kube_cure.Cluster.{Pod, Answer, found, refused, not_found}
use kube_cure.Agent.Model.{Result, ok, err, denied, CallError}
use kube_cure.Evidence.Collect.{content}
use kube_cure.Evidence.Redact.{redact, truncate}
use kube_cure.Tools.Scope.{Client, Scope, resolve_pod, scope_for_diagnosis}
use kube_cure.Tools.Catalog.{Registry, catalog, similar_entries, similar_entry, is_similar}
use kube_cure.Tools.Broker.{Broker, bind_to, call, find_tool}
use kube_cure.Tools.Resolve.{resolve_pod_iff, Resolves}
use kube_cure.Tools.Confine.{call_confined}
use kube_cure.Tools.Agreement.{Agree, Honest}
use kube_cure.Tools.Strict.{call-Denied, Smuggles}
use kube_cure.Tools.Audit.{serve_audited, call_ok}
use kube_cure.Tools.Record.{Request, serve, served_count, Logged}
use kube_cure.Tools.History.{similar_entries_lem, Searched}
use kube_cure.Tools.Mcp.{main, parse_target, new_mcp_server, server_version}
use kube_cure.Tools.Served.{Served, main_serves}
use kube_cure.Examples.Data.{failing_pod, replica_set, readers, redactors, diagnosis}

abbrev in_shop : Text → Answer Pod → Answer Pod
in_shop ns other = if text_eq ns (codes "shop") then found failing_pod else other

-- `elsewhere` is what the cluster answers in other namespaces.
abbrev client : Answer Pod → Client
client elsewhere = record {
  get_pod = λ ns name. in_shop ns elsewhere;
  get_replica_set = λ ns name. found replica_set;
  list_pods = λ ns. found (failing_pod ∷ []);
  list_diagnoses = λ ns. found [];
}

abbrev scope : Scope
scope = record {
  namespace = codes "shop";
  diagnosis_name = codes "api-oomkilled-1";
  failure_type = oom_killed;
  container = codes "app";
  target_pod = codes "api-7d9-x";
  owner_kind = codes "Deployment";
  owner_name = codes "api";
  max_calls = 2;
}

abbrev registry : Answer Pod → Registry
registry elsewhere = record {
  client = client elsewhere;
  readers = readers;
  sort_recent = λ ds. ds;
  render = λ es. [];
}

abbrev here : Registry
here = registry (refused not_found)

abbrev there : Registry
there = registry (found failing_pod)

abbrev broker : Broker
broker = record { scope = scope; calls = [] }

abbrev arguments : RawMessage
arguments = record {
  bytes = codes "{}";
  compacted = some (codes "{}");
  parsed = value (Json.object no_fields) false;
}

resolve_pod_iff_example :
    (resolve_pod here.client scope (codes "api-7d9-x") ≡ ok failing_pod)
    ↔ Resolves here.client scope (codes "api-7d9-x") failing_pod
resolve_pod_iff_example = resolve_pod_iff here.client scope (codes "api-7d9-x") failing_pod

agreement : Agree here there (codes "shop")
unfolding text_eq
agreement = record {
  pods = λ name. refl;
  replica_sets = λ name. refl;
  pod_lists = refl;
  histories = refl;
  evidence = λ t kind e. refl;
  sorting = λ ds. refl;
  same_render = refl;
}

honesty : Honest here.client (codes "shop")
unfolding text_eq
honesty name pod e = ground (arith)

call_confined_example :
    call redactors here 0 5 broker (codes "get_pod_logs") arguments
    ≡ call redactors there 0 5 broker (codes "get_pod_logs") arguments
call_confined_example =
    call_confined redactors here there broker agreement honesty 0 5 (codes "get_pod_logs") arguments

abbrev smuggling : RawMessage
smuggling = record arguments {
  parsed =
      value (Json.object (field (codes "namespace") (Json.string (codes "kube-system")) no_fields))
        false;
}

smuggled : Smuggles (field (codes "namespace") (Json.string (codes "kube-system")) no_fields)
unfolding Json.same_key
smuggled = inl (refl, refl, refl, refl)

call-Denied_example :
    (why : Text) × ((call redactors here 0 5 broker (codes "get_pod_events") smuggling).0
      ≡ err (denied why))
call-Denied_example =
    call-Denied redactors here broker 0 5 (codes "get_pod_events") smuggling
      (field (codes "namespace") (Json.string (codes "kube-system")) no_fields) false refl smuggled

abbrev requests : List Request
requests =
    record {
      registry = here;
      started = 0;
      ended = 5;
      name = codes "get_pod_logs";
      arguments = arguments;
    }
    ∷ record {
      registry = there;
      started = 6;
      ended = 9;
      name = codes "no_such_tool";
      arguments = arguments;
    }
    ∷ []

serve_audited_example :
    let done = serve redactors requests (bind_to scope) in
    (served_count done.0 ≤ (if scope.max_calls == 0 then 25 else scope.max_calls))
    × Logged requests done.0 done.1.calls
serve_audited_example = serve_audited redactors scope requests

abbrev history : List Diagnosis
history =
    diagnosis (codes "api-oomkilled-1") Phase.hypothesized
    ∷ diagnosis (codes "api-oomkilled-0") Phase.healed
    ∷ []

similar_entries_lem_example :
    Searched scope
      (codes "OOMKilled")
      10
      history
      (similar_entries scope (codes "OOMKilled") 10 history)
similar_entries_lem_example = similar_entries_lem scope (codes "OOMKilled") 10 history

call_ok_example :
    (length broker.calls < 2)
    × (length (codes "[REDACTED:token]") ≤ 8192)
    × ((run : RawMessage → Result CallError Text) × (raw : Text) × (find_tool
            (codes "get_pod_logs")
            (catalog here scope)
          ≡ some run)
        × (run arguments ≡ ok raw)
        × (codes "[REDACTED:token]" ≡ truncate (redact redactors raw).0 8192))
unfolding call catalog text_eq kube_cure.Tools.Catalog.decode_log_args
    kube_cure.Tools.Catalog.decode_args Json.decode_struct resolve_pod
    kube_cure.Tools.Scope.default_pod kube_cure.Tools.Scope.target_of
    kube_cure.Tools.Scope.has_container kube_cure.Tools.Catalog.gathered_result
    kube_cure.Evidence.Collect.gather truncate redact
call_ok_example =
    call_ok redactors here broker 0 5 (codes "get_pod_logs") arguments (codes "[REDACTED:token]")
      refl

abbrev stored : Text → Text → Answer Diagnosis
stored namespace name = found (diagnosis (codes "api-oomkilled-1") Phase.enriched)

main_serves_example : Served stored (codes "shop/api-oomkilled-1") (pos 5) (
    new_mcp_server
      (bind_to (scope_for_diagnosis (diagnosis (codes "api-oomkilled-1") Phase.enriched) 5))
      server_version)
unfolding main parse_target
main_serves_example =
    main_serves stored (codes "shop/api-oomkilled-1") (pos 5)
      (new_mcp_server
        (bind_to (scope_for_diagnosis (diagnosis (codes "api-oomkilled-1") Phase.enriched) 5))
        server_version)
      refl

-- ===== src/Tools/Confine.antt =====
-- internal/tools: what a call can depend on.
use kube_cure.Prelude.{ℕ, ◌≡◌, inl, inr, refl, fun_ext, List, [], if◌then◌else◌}
use kube_cure.Text.{Text}
use kube_cure.Json.{RawMessage}
use kube_cure.Api.Evidence.{EvidenceKind}
use kube_cure.Api.Diagnosis.{Diagnosis}
use kube_cure.Cluster.{Pod, Answer, found, refused}
use kube_cure.Agent.Model.{Result, ok, CallError}
use kube_cure.Evidence.Collect.{Target, gather}
use kube_cure.Evidence.Redact.{Redactor}
use kube_cure.Tools.Scope.{Scope, resolve_pod, ◌>>=◌, target_of, workload_target}
use kube_cure.Tools.Catalog.{
  Registry, LogArgs, read_logs, run_logs, pod_evidence, workload_evidence, run_similar,
  report_similar, catalog, decode_log_args, decode_pod_args, decode_no_args, decode_similar_args,
  gathered_result,
}
use kube_cure.Tools.Resolve.{resolve_pod_iff}
use kube_cure.Tools.Broker.{Broker, call, checked_call}
use kube_cure.Tools.Agreement.{Agree, Honest, bind-agree, resolve_pod-agree}

module _ (one two : Registry) (scope : Scope) (agree : Agree one two scope.namespace)
    (honest : Honest one.client scope.namespace) where
  -- Every pod that a name resolves to is in the scope's namespace.
  resolved_here :
      (name : Text) (pod : Pod)
      → resolve_pod one.client scope name ≡ ok pod
      → pod.namespace ≡ scope.namespace
  resolved_here name pod h = elim ((resolve_pod_iff one.client scope name pod).0 h) [
    | inl (n, e, m) ↦ m.0
    | inr (inl (n, e)) ↦ honest scope.target_pod pod e
    | inr (inr (n, e, (pods, l, (before, after, eq, out, m)))) ↦ m.0
  ]

  gathered-agree :
      (t : Target) (kind : EvidenceKind)
      → t.pod.namespace ≡ scope.namespace
      → gathered_result (gather one.readers t kind) ≡ gathered_result (gather two.readers t kind)
  gathered-agree t kind same = rw (agree.evidence t kind same) refl

  -- A handler that resolves a name and then reads only of the pod.
  resolved-agree :
      (name : Text) (f g : Pod → Result CallError Text)
      → ((pod : Pod) → pod.namespace ≡ scope.namespace → f pod ≡ g pod)
      → (resolve_pod one.client scope name >>= f) ≡ (resolve_pod two.client scope name >>= g)
  resolved-agree name f g h =
      bind-agree _ _ f g (resolve_pod-agree one two scope agree name)
        (λ pod r. h pod (resolved_here name pod r))

  read_logs-agree :
      (args : LogArgs) (pod : Pod)
      → pod.namespace ≡ scope.namespace
      → read_logs one scope pod args ≡ read_logs two scope pod args
  unfolding read_logs target_of
  read_logs-agree args pod same =
      rw
        (gathered-agree (target_of scope pod args.container)
          (if args.previous then EvidenceKind.previous_logs else EvidenceKind.current_logs) same)
        refl

  run_logs-agree : run_logs one scope ≡ run_logs two scope
  unfolding run_logs
  run_logs-agree = fun_ext (λ arguments.
      bind-agree (decode_log_args arguments) (decode_log_args arguments) _ _ refl
        (λ args _. resolved-agree args.pod _ _ (read_logs-agree args)))

  pod_evidence-agree :
      (kind : EvidenceKind) → pod_evidence one scope kind ≡ pod_evidence two scope kind
  unfolding pod_evidence target_of
  pod_evidence-agree kind = fun_ext (λ arguments.
      bind-agree (decode_pod_args arguments) (decode_pod_args arguments) _ _ refl
        (λ name _. resolved-agree name _ _ (λ pod. gathered-agree (target_of scope pod []) kind)))

  workload_evidence-agree :
      (kind : EvidenceKind) → workload_evidence one scope kind ≡ workload_evidence two scope kind
  unfolding workload_evidence workload_target
  workload_evidence-agree kind = fun_ext (λ arguments.
      bind-agree (decode_no_args arguments) (decode_no_args arguments) _ _ refl
        (λ _ _. gathered-agree (workload_target scope) kind refl))

  report-agree :
      (wanted : Text) (a : Answer (List Diagnosis))
      → report_similar one scope wanted a ≡ report_similar two scope wanted a
  unfolding report_similar
  report-agree wanted (found ds) = rw (agree.sorting ds, agree.same_render) refl
  report-agree wanted (refused e) = refl

  run_similar-agree : run_similar one scope ≡ run_similar two scope
  unfolding run_similar
  run_similar-agree = fun_ext (λ arguments.
      bind-agree (decode_similar_args arguments) (decode_similar_args arguments) _ _ refl
        (λ given _.
          rw agree.histories (report-agree _ (two.client.list_diagnoses scope.namespace))))

  catalog-agree : catalog one scope ≡ catalog two scope
  unfolding catalog
  catalog-agree =
      rw
        (
          run_logs-agree,
          run_similar-agree,
          pod_evidence-agree EvidenceKind.events,
          pod_evidence-agree EvidenceKind.sibling_pods,
          pod_evidence-agree EvidenceKind.service_endpoints,
          pod_evidence-agree EvidenceKind.node_status,
          pod_evidence-agree EvidenceKind.config_references,
          pod_evidence-agree EvidenceKind.resource_usage,
          workload_evidence-agree EvidenceKind.workload_spec,
          workload_evidence-agree EvidenceKind.rollout_history,
        )
        refl

-- A call depends on nothing outside the namespace of its scope: with two registries whose API clients
-- agree in that namespace and whose evidence agrees for the pods of that namespace, the same call
-- gives the same answer and the same record, whatever the name and the arguments, provided that a
-- pod the API finds in the namespace bears it.
pub call_confined :
    (redactors : List Redactor) (one two : Registry) (b : Broker)
    → Agree one two b.scope.namespace
    → Honest one.client b.scope.namespace
    → (started ended : ℕ) (name : Text) (arguments : RawMessage)
    → call redactors one started ended b name arguments
      ≡ call redactors two started ended b name arguments
unfolding call checked_call
call_confined redactors one two b agree honest started ended name arguments =
    rw (catalog-agree one two b.scope agree honest) refl

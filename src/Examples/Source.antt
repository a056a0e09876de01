-- ===== src/Examples/Source.antt =====
-- An API server that knows the failing pod's namespace, and the reads over it.
use kube_cure.Prelude.{
  ◌+◌, ◌≤◌, ◌⊎◌, ◌≡◌, ◌≢◌, ◌↔◌, Kept, AnyOf, refl, true, false, none, some, List, [], ◌∷◌, ◌++◌,
  length, All, arith, if◌then◌else◌,
}
use mathlib.Core.List.{Perm}
use kube_cure.Text.{Text, codes, text_eq}
use kube_cure.Json.{string, null}
use kube_cure.Json.Print.{map_of, slice_of, marshal_indent}
use kube_cure.Api.Failure.{oom_killed}
use kube_cure.Api.Evidence.{EvidenceKind}
use kube_cure.Cluster.{StringMap, ReplicaSet}
use kube_cure.Evidence.Collect.{Target, collect, content, gather}
use kube_cure.Evidence.Source.{
  Source, Fetched, got, refused, absent, forbidden, failure, complete, Deployment, EndpointSlice,
  Endpoint,
}
use kube_cure.Evidence.Reads.{readers_of}
use kube_cure.Evidence.Reads.References.{config_map, secret, references, names_in}
use kube_cure.Evidence.Reads.Endpoints.{count_slices, no_endpoints}
use kube_cure.Evidence.Reads.Rollout.{reported}
use kube_cure.Evidence.Secrecy.{collect_reads_no_values, change_values}
use kube_cure.Evidence.Reported.{times_reported}
use kube_cure.Evidence.Mentioned.{Mentioned}
use kube_cure.Evidence.Recorded.{references_exact, IsTold}
use kube_cure.Evidence.Serving.{count_slices_exact, endpoints_in, Ready, Serves}
use kube_cure.Evidence.Revisions.{reported_latest, OwnedBy, Falling}
use kube_cure.Evidence.Confined.{AgreeIn}
use kube_cure.Tools.Scope.{Scope, workload_target}
use kube_cure.Tools.Unowned.{unowned_spec_is_empty}
use kube_cure.Examples.Sorting.{insertion_sort, insertion_sort-Sorts}
use kube_cure.Examples.Data.{failing_pod, replica_set, redactors}

-- What stands in the namespace "shop"; `elsewhere` is found in the others.
abbrev data_in : Fetched StringMap → Text → Fetched StringMap
data_in elsewhere ns =
    if text_eq ns (codes "shop") then got ((codes "tls.key", codes "s3cret") ∷ []) else elsewhere

abbrev slices : List EndpointSlice
slices =
    record {
      endpoints =
          record { ready = some true; target = some (codes "api-7d9-y") }
          ∷ record { ready = some false; target = some (codes "api-7d9-x") }
          ∷ [];
    }
    ∷ record { endpoints = record { ready = none; target = none } ∷ [] }
    ∷ []

abbrev deployment : Deployment
deployment = record {
  uid = codes "d1";
  annotations = (codes "deployment.kubernetes.io/revision", codes "12") ∷ [];
  selector = record { match_labels = (codes "app", codes "api") ∷ []; match_expressions = [] };
  template = replica_set.template;
}

abbrev pub source : Fetched StringMap → Source
source elsewhere = record {
  pod_logs = λ r. complete (codes "out of memory");
  list_events = λ ns name limit. got [];
  get_deployment = λ ns name. got deployment;
  get_stateful_set = λ ns name. refused absent;
  get_daemon_set = λ ns name. refused absent;
  list_replica_sets = λ ns s. got (replica_set ∷ []);
  get_config_map = λ ns name. refused forbidden;
  get_secret = λ ns name. data_in elsewhere ns;
  list_services = λ ns. got [];
  list_endpoint_slices = λ ns name. got slices;
  list_nodes = got [];
  get_node = λ name. refused (failure (codes "timeout"));
  list_pods = λ ns l. got (failing_pod ∷ []);
  get_raw = λ path. refused absent;
  selector_error = λ s. none;
  selects = λ s l. true;
  sort_events = insertion_sort;
  sort_revisions = insertion_sort;
}

abbrev target : Target
target = record {
  pod = failing_pod;
  container = codes "app";
  failure_type = oom_killed;
  owner_kind = codes "Deployment";
  owner_name = codes "api";
}

abbrev pub empty_there : Source
empty_there = source (refused absent)

abbrev pub full_there : Source
full_there = source (got ((codes "token", codes "x") ∷ []))

-- The two differ in the other namespaces only.
pub sources_agree : AgreeIn empty_there full_there (codes "shop")
unfolding text_eq
sources_agree = record {
  logs = λ r e. refl;
  events = λ name limit. refl;
  deployments = λ name. refl;
  stateful_sets = λ name. refl;
  daemon_sets = λ name. refl;
  replica_sets = λ s. refl;
  config_maps = λ name. refl;
  secrets = λ name. refl;
  services = refl;
  bears = λ services e. ground arith;
  slices = λ name. refl;
  all_nodes = refl;
  nodes = λ name. refl;
  pods = λ l. refl;
  metrics = λ t e. refl;
  selectors = refl;
  selection = refl;
  event_sort = refl;
  revision_sort = refl;
}

collect_reads_no_values_example :
    collect redactors (readers_of (change_values (λ key v. codes "other") empty_there)) target
    ≡ collect redactors (readers_of empty_there) target
collect_reads_no_values_example =
    collect_reads_no_values redactors empty_there target (λ key v. codes "other")

references_exact_example :
    (times_reported secret (codes "api-tls") (references empty_there target) ≤ 1)
    × ((times_reported secret (codes "api-tls") (references empty_there target) ≡ 1)
        ↔ ((codes "api-tls" ≢ []) × Mentioned secret (codes "api-tls") target.pod.spec))
    × All (IsTold empty_there target.pod.namespace) (references empty_there target)
references_exact_example = references_exact empty_there target secret (codes "api-tls")

-- The failing pod names three objects: a ConfigMap, and one Secret twice.
references_test : length (references empty_there target) ≡ 2
unfolding references text_eq kube_cure.Evidence.Reads.References.reference_id
    kube_cure.Evidence.Reads.References.kind_name
references_test = refl

count_slices_exact_example :
    let counts = count_slices (codes "api-7d9-x") slices no_endpoints in
    ((ready : List Endpoint) × Kept Ready (endpoints_in slices) ready
      × (counts.ready ≡ length ready))
    × (counts.ready + counts.not_ready ≡ length (endpoints_in slices))
    × ((counts.serving ≡ true) ↔ AnyOf (Serves (codes "api-7d9-x")) (endpoints_in slices))
count_slices_exact_example = count_slices_exact (codes "api-7d9-x") slices

reported_latest_example :
    let shown = reported empty_there deployment (replica_set ∷ []) in
    (owned : List ReplicaSet) × (rest : List ReplicaSet) × Kept
      (OwnedBy deployment)
      (replica_set ∷ [])
      owned
    × Perm (shown ++ rest) owned
    × Falling (shown ++ rest)
    × (length shown ≤ 3)
    × ((rest ≡ []) ⊎ (length shown ≡ 3))
reported_latest_example =
    reported_latest empty_there deployment (replica_set ∷ []) insertion_sort-Sorts

-- A pod that nothing owns.
abbrev bare_scope : Scope
bare_scope = record {
  namespace = codes "shop";
  diagnosis_name = codes "api-oomkilled-1";
  failure_type = oom_killed;
  container = codes "app";
  target_pod = codes "api-7d9-x";
  owner_kind = codes "Pod";
  owner_name = codes "api-7d9-x";
  max_calls = 2;
}

unowned_spec_is_empty_example :
    gather (readers_of empty_there) (workload_target bare_scope) EvidenceKind.workload_spec
    ≡ content (
        marshal_indent (
          map_of (
            (codes "owner", string (codes "Pod" ++ (codes "/" ++ codes "api-7d9-x")))
            ∷ (codes "restartPolicy", string [])
            ∷ (codes "nodeSelector", null)
            ∷ (codes "containers", slice_of [])
            ∷ [])))
unowned_spec_is_empty_example =
    unowned_spec_is_empty empty_there bare_scope (λ e. cc e) (λ e. cc e) (λ e. cc e)

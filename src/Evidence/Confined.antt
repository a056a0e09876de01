-- ===== src/Evidence/Confined.antt =====
-- internal/evidence/collector.go under internal/tools: what the reads of an investigation can depend
-- on, down to the answers of the API server.
use kube_cure.Prelude.{
  ℕ, Bool, true, false, ◌≡◌, refl, ap, ◌∙◌, Option, none, some, List, [], ◌∷◌, map, keep_if,
  fun_ext, All, Bool-cases, inl, inr, arith,
}
use kube_cure.Text.{Text, codes, text_eq}
use kube_cure.Api.Evidence.{
  EvidenceKind, previous_logs, current_logs, events, workload_spec, rollout_history,
  config_references, service_endpoints, node_status, sibling_pods, resource_usage,
}
use kube_cure.Cluster.{ReplicaSet, StringMap}
use kube_cure.Evidence.Collect.{Target, Gathered, content, gather}
use kube_cure.Evidence.Source.{
  Source, LogRequest, LabelSelector, Service, Event, Deployment, Fetched, got, refused,
}
use kube_cure.Evidence.Reads
use kube_cure.Evidence.Reads.{readers_of}
use kube_cure.Evidence.Reads.Summarise.{reading, to_json}
use kube_cure.Evidence.Reads.Logs.{logs, log_text, log_request, usage_text, metrics_path}
use kube_cure.Evidence.Reads.Events.{event_limit, events_text, event_lines, more_recent}
use kube_cure.Evidence.Reads.Template.{pod_template}
use kube_cure.Evidence.Reads.Rollout.{deployment_history, listed, rollout_summary, reported}
use kube_cure.Evidence.Reads.References.{
  RefKind, config_map, secret, Recorded, Named, read_object, record_reference, record_all,
  references, references_text, none_recorded, names_in,
}
use kube_cure.Evidence.Reads.Endpoints.{service_entry, matched, selects_pod, entries_text}

-- Two API servers that answer alike for one namespace, and for the nodes, which have none. A service
-- of the namespace bears it, and the two libraries and sort.Slice are the same.
pub record AgreeIn (one two : Source) (ns : Text) : Type 0 where
  pub logs : (r : LogRequest) → r.namespace ≡ ns → one.pod_logs r ≡ two.pod_logs r
  pub events :
      (name : Text) (limit : ℕ) → one.list_events ns name limit ≡ two.list_events ns name limit
  pub deployments : (name : Text) → one.get_deployment ns name ≡ two.get_deployment ns name
  pub stateful_sets : (name : Text) → one.get_stateful_set ns name ≡ two.get_stateful_set ns name
  pub daemon_sets : (name : Text) → one.get_daemon_set ns name ≡ two.get_daemon_set ns name
  pub replica_sets : (s : LabelSelector) → one.list_replica_sets ns s ≡ two.list_replica_sets ns s
  pub config_maps : (name : Text) → one.get_config_map ns name ≡ two.get_config_map ns name
  pub secrets : (name : Text) → one.get_secret ns name ≡ two.get_secret ns name
  pub services : one.list_services ns ≡ two.list_services ns
  pub bears :
      (services : List Service)
      → one.list_services ns ≡ got services
      → All (λ svc. svc.namespace ≡ ns) services
  pub slices : (name : Text) → one.list_endpoint_slices ns name ≡ two.list_endpoint_slices ns name
  pub all_nodes : one.list_nodes ≡ two.list_nodes
  pub nodes : (name : Text) → one.get_node name ≡ two.get_node name
  pub pods : (l : StringMap) → one.list_pods ns l ≡ two.list_pods ns l
  pub metrics :
      (t : Target)
      → t.pod.namespace ≡ ns
      → one.get_raw (metrics_path t) ≡ two.get_raw (metrics_path t)
  pub selectors : one.selector_error ≡ two.selector_error
  pub selection : one.selects ≡ two.selects
  pub event_sort : one.sort_events ≡ two.sort_events
  pub revision_sort : one.sort_revisions ≡ two.sort_revisions

reading-agree :
    {A : Type 0} (a b : Fetched A) (f g : A → Gathered)
    → a ≡ b
    → ((x : A) → a ≡ got x → f x ≡ g x)
    → reading a f ≡ reading b g
reading-agree a b f g e h = same a f g h ∙ ap (λ c. reading c g) e
  where
    same :
        {A : Type 0} (a : Fetched A) (f g : A → Gathered)
        → ((x : A) → a ≡ got x → f x ≡ g x)
        → reading a f ≡ reading a g
    same (got x) f g h = h x refl
    same (refused e) f g h = refl

module _ (one two : Source) (target : Target) (agree : AgreeIn one two target.pod.namespace) where
  logs-agree : (previous : Bool) → logs one target previous ≡ logs two target previous
  unfolding logs log_request
  logs-agree previous = ap log_text (agree.logs (log_request target previous) refl)

  usage-agree : Reads.Logs.resource_usage one target ≡ Reads.Logs.resource_usage two target
  unfolding Reads.Logs.resource_usage
  usage-agree = ap usage_text (agree.metrics target refl)

  sorted-agree : (a : Fetched (List Event)) → events_text one a ≡ events_text two a
  unfolding events_text
  sorted-agree (got items) =
      ap (λ sort. content (event_lines (sort more_recent items))) agree.event_sort
  sorted-agree (refused e) = refl

  events-agree : Reads.Events.events one target ≡ Reads.Events.events two target
  unfolding Reads.Events.events
  events-agree =
      ap (events_text one) (agree.events target.pod.name event_limit)
      ∙ sorted-agree (two.list_events target.pod.namespace target.pod.name event_limit)

  template-agree : pod_template one target ≡ pod_template two target
  unfolding pod_template
  template-agree =
      rw
        (
          agree.deployments target.owner_name,
          agree.stateful_sets target.owner_name,
          agree.daemon_sets target.owner_name,
        )
        refl

  spec-agree : Reads.Template.workload_spec one target ≡ Reads.Template.workload_spec two target
  unfolding Reads.Template.workload_spec
  spec-agree = reading-agree _ _ _ _ template-agree (λ spec e. refl)

  summary-agree :
      (d : Deployment) (items : List ReplicaSet)
      → rollout_summary one d items ≡ rollout_summary two d items
  unfolding rollout_summary reported
  summary-agree d items = rw agree.revision_sort refl

  listed-agree :
      (d : Deployment) (why : Option Text)
      → listed one target.pod.namespace d why ≡ listed two target.pod.namespace d why
  unfolding listed
  listed-agree d none =
      reading-agree _ _ _ _ (agree.replica_sets d.selector)
        (λ items _. ap to_json (summary-agree d items))
  listed-agree d (some why) = refl

  history-agree :
      (d : Deployment)
      → deployment_history one target.pod.namespace d
        ≡ deployment_history two target.pod.namespace d
  unfolding deployment_history
  history-agree d =
      listed-agree d (one.selector_error d.selector)
      ∙ ap (λ error. listed two target.pod.namespace d (error d.selector)) agree.selectors

  rollout-agree :
      Reads.Rollout.rollout_history one target ≡ Reads.Rollout.rollout_history two target
  unfolding Reads.Rollout.rollout_history
  rollout-agree = elim (Bool-cases (text_eq target.owner_kind (codes "Deployment"))) [
    | inl e ↦
        rw e (reading-agree _ _ _ _ (agree.deployments target.owner_name) (λ d _. history-agree d))
    | inr e ↦ rw e refl
  ]

  read-agree :
      (kind : RefKind) (name : Text)
      → read_object one target.pod.namespace kind name
        ≡ read_object two target.pod.namespace kind name
  unfolding read_object
  read-agree config_map name = agree.config_maps name
  read-agree secret name = agree.secrets name

  record-agree :
      (state : Recorded) (kind : RefKind) (name : Text)
      → record_reference one target.pod.namespace state kind name
        ≡ record_reference two target.pod.namespace state kind name
  unfolding record_reference
  record-agree state kind name = rw (read-agree kind name) refl

  record_all-agree :
      (state : Recorded) (names : Named)
      → record_all one target.pod.namespace state names
        ≡ record_all two target.pod.namespace state names
  unfolding record_all
  record_all-agree state [] = refl
  record_all-agree state ((kind, name) ∷ rest) =
      record_all-agree (record_reference one target.pod.namespace state kind name) rest
      ∙ ap (λ s. record_all two target.pod.namespace s rest) (record-agree state kind name)

  references-agree : references one target ≡ references two target
  unfolding references
  references-agree = ap (λ s. s.refs) (record_all-agree none_recorded (names_in target.pod.spec))

  selects-agree :
      (svc : Service)
      → selects_pod one target.pod.labels svc ≡ selects_pod two target.pod.labels svc
  unfolding selects_pod
  selects-agree svc = rw agree.selection refl

  entry-agree :
      (svc : Service)
      → svc.namespace ≡ target.pod.namespace
      → service_entry one target.pod.name svc ≡ service_entry two target.pod.name svc
  unfolding service_entry
  entry-agree svc here = rw (here, agree.slices svc.name) refl

  -- Whatever is kept of the services of the namespace.
  kept-agree :
      (p : Service → Bool) (services : List Service)
      → All (λ svc. svc.namespace ≡ target.pod.namespace) services
      → map (service_entry one target.pod.name) (keep_if p services)
        ≡ map (service_entry two target.pod.name) (keep_if p services)
  kept-agree p [] h = refl
  kept-agree p (svc ∷ rest) (here, h) = ground (arith, entry-agree svc here, kept-agree p rest h)

  entries-agree :
      (services : List Service)
      → All (λ svc. svc.namespace ≡ target.pod.namespace) services
      → map (service_entry one target.pod.name) (matched one target services)
        ≡ map (service_entry two target.pod.name) (matched two target services)
  unfolding matched
  entries-agree services h =
      kept-agree (selects_pod one target.pod.labels) services h
      ∙ ap (λ p. map (service_entry two target.pod.name) (keep_if p services))
          (fun_ext selects-agree)

  endpoints-agree :
      Reads.Endpoints.service_endpoints one target ≡ Reads.Endpoints.service_endpoints two target
  unfolding Reads.Endpoints.service_endpoints
  endpoints-agree =
      reading-agree _ _ _ _ agree.services
        (λ services e. ap entries_text (entries-agree services (agree.bears services e)))

  nodes-agree : Reads.Nodes.node_status one target ≡ Reads.Nodes.node_status two target
  unfolding Reads.Nodes.node_status
  nodes-agree = rw (agree.all_nodes, agree.nodes target.pod.spec.node_name) refl

  siblings-agree : Reads.Siblings.sibling_pods one target ≡ Reads.Siblings.sibling_pods two target
  unfolding Reads.Siblings.sibling_pods
  siblings-agree = rw (agree.pods target.pod.labels) refl

  pub gather-agree :
      (kind : EvidenceKind)
      → gather (readers_of one) target kind ≡ gather (readers_of two) target kind
  unfolding gather readers_of Reads.References.config_references
  gather-agree previous_logs = logs-agree true
  gather-agree current_logs = logs-agree false
  gather-agree events = events-agree
  gather-agree workload_spec = spec-agree
  gather-agree rollout_history = rollout-agree
  gather-agree config_references = ap references_text references-agree
  gather-agree service_endpoints = endpoints-agree
  gather-agree node_status = nodes-agree
  gather-agree sibling_pods = siblings-agree
  gather-agree resource_usage = usage-agree

-- ===== src/Evidence/Source.antt =====
-- What the collector of internal/evidence/collector.go asks of the API server, and the two libraries
-- that it asks about selectors: parameters of the reads. The objects keep the fields that are read.
use kube_cure.Prelude.{ℕ, ℤ, Bool, Option, List, [], ◌∷◌, if◌then◌else◌}
use kube_cure.Text.{Text, text_eq}
use kube_cure.Json.{Json}
use kube_cure.Cluster.{Pod, PodSpec, ReplicaSet, StringMap}

-- An error of the API, by what apierrors tells of it: IsNotFound, IsForbidden, or neither of them.
pub data ReadError : Type 0 where
  absent forbidden : ReadError
  failure : Text → ReadError

pub data Fetched {ℓ} (A : Type ℓ) : Type ℓ where
  got : A → Fetched A
  refused : ReadError → Fetched A

pub record LogRequest : Type 0 where
  pub namespace : Text
  pub pod : Text
  pub container : Text
  pub previous : Bool
  pub tail_lines : ℕ

-- A stream of a log is not opened, or is read to its end, or breaks off with an error.
pub data LogStream : Type 0 where
  unopened : ReadError → LogStream
  complete : Text → LogStream
  broken : Text → LogStream

-- The times are 0 if they are not set.
pub record Event : Type 0 where
  pub type : Text
  pub reason : Text
  pub count : ℤ
  pub message : Text
  pub last_timestamp : ℕ
  pub event_time : ℕ
  pub creation_timestamp : ℕ

pub record Expression : Type 0 where
  pub key : Text
  pub operator : Text
  pub values : List Text

pub record LabelSelector : Type 0 where
  pub match_labels : StringMap
  pub match_expressions : List Expression

pub record Deployment : Type 0 where
  pub uid : Text
  pub annotations : StringMap
  pub selector : LabelSelector
  pub template : PodSpec

pub record Service : Type 0 where
  pub name : Text
  pub namespace : Text
  pub selector : StringMap
  pub ports : List Json

-- `ready` is the condition Ready and `target` the name of the object behind the endpoint.
pub record Endpoint : Type 0 where
  pub ready : Option Bool
  pub target : Option Text

pub record EndpointSlice : Type 0 where
  pub endpoints : List Endpoint

pub record NodeCondition : Type 0 where
  pub type : Text
  pub status : Text
  pub reason : Text
  pub message : Text

pub record Node : Type 0 where
  pub name : Text
  pub allocatable : Json
  pub taints : List Json
  pub conditions : List NodeCondition

-- Reads are by namespace and then name, or what a list is narrowed by. `selector_error` is the error
-- of LabelSelectorAsSelector and `selects` is `labels.SelectorFromSet(s).Matches(l)`. The two sorts
-- are sort.Slice, which leaves open the order of what its test does not tell apart.
pub record Source : Type 0 where
  pub pod_logs : LogRequest → LogStream
  pub list_events : Text → Text → ℕ → Fetched (List Event)
  pub get_deployment : Text → Text → Fetched Deployment
  pub get_stateful_set : Text → Text → Fetched PodSpec
  pub get_daemon_set : Text → Text → Fetched PodSpec
  pub list_replica_sets : Text → LabelSelector → Fetched (List ReplicaSet)
  pub get_config_map : Text → Text → Fetched StringMap
  pub get_secret : Text → Text → Fetched StringMap
  pub list_services : Text → Fetched (List Service)
  pub list_endpoint_slices : Text → Text → Fetched (List EndpointSlice)
  pub list_nodes : Fetched (List Node)
  pub get_node : Text → Fetched Node
  pub list_pods : Text → StringMap → Fetched (List Pod)
  pub get_raw : Text → Fetched Text
  pub selector_error : LabelSelector → Option Text
  pub selects : StringMap → StringMap → Bool
  pub sort_events : (Event → Event → Bool) → List Event → List Event
  pub sort_revisions : (ReplicaSet → ReplicaSet → Bool) → List ReplicaSet → List ReplicaSet

-- `m[key]`, which is empty for a missing key.
unfoldable pub map_value : StringMap → Text → Text
map_value [] key = []
map_value ((k, v) ∷ rest) key = if text_eq k key then v else map_value rest key

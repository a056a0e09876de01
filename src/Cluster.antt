-- ===== src/Cluster.antt =====
-- The Kubernetes objects that the code reads, with the fields that it uses. The types themselves
-- are those of k8s.io/api. An answer of the API server is an object, "not found", or another error.
use kube_cure.Prelude.{
  ◌≡◌, ◌⊎◌, inl, inr, refl, ℕ, ℤ, Bool, true, false, Option, none, some, List, [], ◌∷◌,
}
use kube_cure.Text.{Text}
use kube_cure.Json.{Json}

-- A map from strings to strings; an empty one is nil.
abbrev pub StringMap : Type 0
StringMap = List (Text × Text)

pub record OwnerReference : Type 0 where
  pub kind : Text
  pub name : Text
  pub uid : Text
  pub controller : Option Bool

pub record Waiting : Type 0 where
  pub reason : Text
  pub message : Text

pub record Terminated : Type 0 where
  pub reason : Text
  pub message : Text
  pub exit_code : ℤ

-- `running` is the time at which the container started.
pub record ContainerState : Type 0 where
  pub waiting : Option Waiting
  pub running : Option ℕ
  pub terminated : Option Terminated

pub record ContainerStatus : Type 0 where
  pub name : Text
  pub state : ContainerState
  pub last_termination_state : ContainerState
  pub ready : Bool
  pub restart_count : ℕ

pub record Probe : Type 0 where
  pub initial_delay_seconds : ℤ
  pub period_seconds : ℤ
  pub failure_threshold : ℤ
  pub marshalled : Json

-- The name of the object that a reference names.
pub record EnvFromSource : Type 0 where
  pub config_map_ref : Option Text
  pub secret_ref : Option Text

pub record EnvVarSource : Type 0 where
  pub config_map_key_ref : Option Text
  pub secret_key_ref : Option Text

pub record EnvVar : Type 0 where
  pub name : Text
  pub value_from : Option EnvVarSource

pub record Volume : Type 0 where
  pub config_map : Option Text
  pub secret : Option Text

-- What the code only passes on to encoding/json is kept as the JSON that it becomes.
pub record Container : Type 0 where
  pub name : Text
  pub image : Text
  pub command : List Text
  pub args : List Text
  pub env_from : List EnvFromSource
  pub env : List EnvVar
  pub resources : Json
  pub ports : List Json
  pub readiness_probe : Option Probe
  pub liveness_probe : Option Probe

pub record PodCondition : Type 0 where
  pub type : Text
  pub status : Text
  pub reason : Text
  pub message : Text
  pub last_transition_time : ℕ

pub record PodSpec : Type 0 where
  pub containers : List Container
  pub volumes : List Volume
  pub restart_policy : Text
  pub node_name : Text
  pub node_selector : StringMap
  pub tolerations : List Json

pub record PodStatus : Type 0 where
  pub phase : Text
  pub reason : Text
  pub message : Text
  pub conditions : List PodCondition
  pub container_statuses : List ContainerStatus

pub record Pod : Type 0 where
  pub name : Text
  pub namespace : Text
  pub uid : Text
  pub labels : StringMap
  pub deletion_timestamp : Option ℕ
  pub owner_references : List OwnerReference
  pub spec : PodSpec
  pub status : PodStatus

-- `replicas` is the count in the status, `template` the spec of the pod template.
pub record ReplicaSet : Type 0 where
  pub name : Text
  pub namespace : Text
  pub uid : Text
  pub annotations : StringMap
  pub creation_timestamp : ℕ
  pub owner_references : List OwnerReference
  pub replicas : ℤ
  pub template : PodSpec

-- `ref.Controller != nil && *ref.Controller`
abbrev pub is_controller : Option Bool → Bool
is_controller none = false
is_controller (some b) = b

-- `metav1.GetControllerOf`: the first reference that is marked as the controller.
unfoldable pub controller_of : List OwnerReference → Option OwnerReference
controller_of [] = none
controller_of (ref ∷ refs) = elim (is_controller ref.controller) [
  | true ↦ some ref
  | false ↦ controller_of refs
]

pub data ApiError : Type 0 where
  not_found : ApiError
  conflict : ApiError
  already_exists : ApiError
  api_failure : Text → ApiError

pub data Answer {ℓ} (A : Type ℓ) : Type ℓ where
  found : A → Answer A
  refused : ApiError → Answer A

-- To split on an answer and keep the equation.
pub Answer-cases {ℓ} :
    {A : Type ℓ} (a : Answer A) → ((x : A) × (a ≡ found x)) ⊎ ((e : ApiError) × (a ≡ refused e))
Answer-cases (found x) = inl (x, refl)
Answer-cases (refused e) = inr (e, refl)

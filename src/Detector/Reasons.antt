-- ===== src/Detector/Reasons.antt =====
-- internal/detector/detector.go: the constants, the signal, and the reasons that containers show.
use kube_cure.Prelude.{
  ℕ, ◌-◌, ℤ, pos, negsuc, Bool, false, ◌||◌, Option, none, some, List, [], ◌∷◌, leb, if◌then◌else◌,
}
use Prim.Native.Nat.{min}
use kube_cure.Text.{Text, codes, text_eq}
use kube_cure.Api.Failure.{
  FailureType, crash_loop_back_off, image_pull_back_off, create_container_config_error,
  run_container_error,
}
use kube_cure.Cluster.{ContainerStatus}

abbrev pub second : ℤ
second = pos 1000000000

abbrev pub unschedulable_grace : ℤ
unschedulable_grace = pos 30000000000

abbrev pub probe_grace_buffer : ℤ
probe_grace_buffer = pos 15000000000

abbrev pub default_probe_period : ℤ
default_probe_period = pos 10000000000

abbrev pub default_probe_failure_threshold : ℤ
default_probe_failure_threshold = pos 3

pub record Signal : Type 0 where
  pub failure_type : FailureType
  pub container : Text
  pub reason : Text
  pub observed_reason : Text
  pub message : Text
  pub exit_code : Option ℤ
  pub restart_count : ℕ

unfoldable pub reason_oom_killed : Text
reason_oom_killed = codes "OOMKilled"

unfoldable pub reason_evicted : Text
reason_evicted = codes "Evicted"

unfoldable pub reason_unschedulable : Text
reason_unschedulable = codes "Unschedulable"

unfoldable pub reason_crash_loop : Text
reason_crash_loop = codes "CrashLoopBackOff"

unfoldable pub reason_config_error : Text
reason_config_error = codes "CreateContainerConfigError"

abbrev pub image_reasons : List Text
image_reasons =
    codes "ImagePullBackOff"
    ∷ codes "ErrImagePull"
    ∷ codes "InvalidImageName"
    ∷ codes "ImageInspectError"
    ∷ codes "ErrImageNeverPull"
    ∷ []

abbrev pub run_reasons : List Text
run_reasons = codes "RunContainerError" ∷ codes "CreateContainerError" ∷ []

unfoldable pub pod_pending : Text
pod_pending = codes "Pending"

unfoldable pub pod_scheduled : Text
pod_scheduled = codes "PodScheduled"

unfoldable pub condition_false : Text
condition_false = codes "False"

unfoldable pub restart_policy_never : Text
restart_policy_never = codes "Never"

-- The cases of a `switch` that list several strings.
unfoldable pub one_of : Text → List Text → Bool
one_of r [] = false
one_of r (t ∷ ts) = text_eq r t || one_of r ts

unfoldable pub waiting_reason_to_failure_type : Text → Option FailureType
waiting_reason_to_failure_type reason =
    if text_eq reason reason_crash_loop
    then some crash_loop_back_off
    else if one_of reason image_reasons
    then some image_pull_back_off
    else if text_eq reason reason_config_error
    then some create_container_config_error
    else if one_of reason run_reasons
    then some run_container_error
    else none

-- `now.Sub(t)`, which saturates at the ends of int64
unfoldable pub sub_time : ℕ → ℕ → ℤ
sub_time now t =
    if leb t now
    then pos (min (now - t) 9223372036854775807)
    else negsuc (min (t - now - 1) 9223372036854775807)

-- `if s := f(); s != nil { return s }` followed by `rest`
abbrev pub or_else {ℓ} : {A : Type ℓ} → Option A → Option A → Option A
or_else none rest = rest
or_else (some a) rest = some a

module _ (cs : ContainerStatus) where
  unfoldable pub current_reason : Text
  current_reason = elim cs.state.waiting [
    | some wait ↦ wait.reason
    | none ↦ elim cs.state.terminated [ some term ↦ term.reason | none ↦ [] ]
  ]

  unfoldable pub last_exit_code : Option ℤ
  last_exit_code = elim cs.last_termination_state.terminated [
    | some term ↦ some term.exit_code
    | none ↦ none
  ]

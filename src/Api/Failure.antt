-- ===== src/Api/Failure.antt =====
-- api/v1alpha1/common_types.go. The CRD admits only the listed values, so each string enumeration
-- is a data type; `text` functions give the string that the Go constant holds.
use kube_cure.Prelude.{Bool, true, false}
use kube_cure.Text.{Text, codes}

pub data FailureType : Type 0 where
  crash_loop_back_off oom_killed image_pull_back_off create_container_config_error : FailureType
  run_container_error unschedulable probe_failure evicted : FailureType

unfoldable pub failure_text : FailureType → Text
failure_text crash_loop_back_off = codes "CrashLoopBackOff"
failure_text oom_killed = codes "OOMKilled"
failure_text image_pull_back_off = codes "ImagePullBackOff"
failure_text create_container_config_error = codes "CreateContainerConfigError"
failure_text run_container_error = codes "RunContainerError"
failure_text unschedulable = codes "Unschedulable"
failure_text probe_failure = codes "ProbeFailure"
failure_text evicted = codes "Evicted"

-- `a == b`
abbrev pub same_failure : FailureType → FailureType → Bool
same_failure crash_loop_back_off crash_loop_back_off = true
same_failure oom_killed oom_killed = true
same_failure image_pull_back_off image_pull_back_off = true
same_failure create_container_config_error create_container_config_error = true
same_failure run_container_error run_container_error = true
same_failure unschedulable unschedulable = true
same_failure probe_failure probe_failure = true
same_failure evicted evicted = true
same_failure _ _ = false

pub data ActionType : Type 0 where
  set_memory_limit set_cpu_limit set_image set_probe_delay set_probe_port : ActionType
  add_resource_requests rollback_to_revision restart_workload no_action : ActionType

unfoldable pub action_text : ActionType → Text
action_text set_memory_limit = codes "SetMemoryLimit"
action_text set_cpu_limit = codes "SetCPULimit"
action_text set_image = codes "SetImage"
action_text set_probe_delay = codes "SetProbeDelay"
action_text set_probe_port = codes "SetProbePort"
action_text add_resource_requests = codes "AddResourceRequests"
action_text rollback_to_revision = codes "RollbackToRevision"
action_text restart_workload = codes "RestartWorkload"
action_text no_action = codes "None"

-- `Action` of the API. The investigator writes its type from a string that it has checked against
-- the permitted ones, so the type is kept as that string.
pub record Action : Type 0 where
  pub type : Text
  pub container : Text
  pub value : Text

pub data RemediationMode : Type 0 where
  dry_run pull_request direct : RemediationMode

pub data BlastRadius : Type 0 where
  pod workload namespace cluster : BlastRadius

pub data Reversibility : Type 0 where
  instant rollout irreversible : Reversibility

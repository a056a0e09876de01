-- ===== src/Detector/Classify.antt =====
-- internal/detector/detector.go. A time is a number of nanoseconds since Go's zero time, and a
-- time.Duration is an integer with the wrap-around of int64 written out.
use kube_cure.Prelude.{
  ℕ, ℤ, pos, ◌+ℤ◌, ◌*ℤ◌, ltb_ℤ, leb_ℤ, is_zero, wrap64, Bool, true, false, not, ◌&&◌, Option, none,
  some, List, [], ◌∷◌, if◌then◌else◌,
}
use kube_cure.Text.{Text, codes, text_eq}
use kube_cure.Api.Failure.{
  FailureType, crash_loop_back_off, oom_killed, unschedulable, probe_failure, evicted,
}
use kube_cure.Cluster.{Pod, PodCondition, ContainerStatus, Container, Probe, Waiting, Terminated}
use kube_cure.Detector.Reasons.{
  second, unschedulable_grace, probe_grace_buffer, default_probe_period,
  default_probe_failure_threshold, Signal, reason_oom_killed, reason_evicted, reason_unschedulable,
  pod_pending, pod_scheduled, condition_false, restart_policy_never, waiting_reason_to_failure_type,
  sub_time, or_else, current_reason, last_exit_code,
}

unfoldable pub probe_budget : Probe → ℤ
probe_budget probe =
    let declared = wrap64 (probe.period_seconds *ℤ second) in
    let period = if leb_ℤ declared (pos 0) then default_probe_period else declared in
    let threshold =
      if leb_ℤ probe.failure_threshold (pos 0)
      then default_probe_failure_threshold
      else probe.failure_threshold in
    let initial = wrap64 (probe.initial_delay_seconds *ℤ second) in
    wrap64 (wrap64 (initial +ℤ wrap64 (threshold *ℤ period)) +ℤ probe_grace_buffer)

unfoldable pub readiness_budget : List Container → Text → Option ℤ
unfolding probe_budget
readiness_budget [] container = none
readiness_budget (c ∷ rest) container =
    if text_eq c.name container
    then elim c.readiness_probe [ none ↦ none | some probe ↦ some (probe_budget probe) ]
    else readiness_budget rest container

unfoldable pub probe_reason : Text
probe_reason = codes "ReadinessProbeFailed"

unfoldable pub probe_message : Text
probe_message =
    codes "container has been running past its declared readiness budget without becoming ready"

unfoldable pub probe_signal : ContainerStatus → Signal
probe_signal cs = record {
  failure_type = probe_failure;
  container = cs.name;
  reason = probe_reason;
  observed_reason = [];
  message = probe_message;
  exit_code = none;
  restart_count = cs.restart_count;
}

unfoldable pub classify_probe_failure : Pod → ContainerStatus → ℕ → Option Signal
unfolding probe_signal
classify_probe_failure pod cs now = elim cs.state.running [
  | none ↦ none
  | some started_at ↦
      if cs.ready then none else elim (readiness_budget pod.spec.containers cs.name) [
        | none ↦ none
        | some grace ↦
            if ltb_ℤ (sub_time now started_at) grace then none else some (probe_signal cs)
      ]
]

-- `term != nil && term.Reason == reasonOOMKilled`
unfoldable pub oom_termination : Option Terminated → Option Terminated
oom_termination none = none
oom_termination (some term) = if text_eq term.reason reason_oom_killed then some term else none

unfoldable pub waiting_failure : Option Waiting → Option (Waiting × FailureType)
waiting_failure none = none
waiting_failure (some wait) = elim (waiting_reason_to_failure_type wait.reason) [
  | some ft ↦ some (wait, ft)
  | none ↦ none
]

unfoldable pub crash_termination : Pod → Option Terminated → Option Terminated
crash_termination pod none = none
crash_termination pod (some term) =
    if not (is_zero term.exit_code) && not (text_eq pod.spec.restart_policy restart_policy_never)
    then some term
    else none

unfoldable pub classify_container : Pod → ContainerStatus → ℕ → Option Signal
unfolding oom_termination waiting_failure crash_termination
classify_container pod cs now = elim (oom_termination cs.last_termination_state.terminated) [
  | some term ↦ some (record {
    failure_type = oom_killed;
    container = cs.name;
    reason = term.reason;
    observed_reason = current_reason cs;
    message = term.message;
    exit_code = some term.exit_code;
    restart_count = cs.restart_count;
  })
  | none ↦ elim (oom_termination cs.state.terminated) [
    | some term ↦ some (record {
      failure_type = oom_killed;
      container = cs.name;
      reason = term.reason;
      observed_reason = [];
      message = term.message;
      exit_code = some term.exit_code;
      restart_count = cs.restart_count;
    })
    | none ↦ elim (waiting_failure cs.state.waiting) [
      | some (wait, ft) ↦ some (record {
        failure_type = ft;
        container = cs.name;
        reason = wait.reason;
        observed_reason = [];
        message = wait.message;
        exit_code = last_exit_code cs;
        restart_count = cs.restart_count;
      })
      | none ↦ elim (crash_termination pod cs.state.terminated) [
        | some term ↦ some (record {
          failure_type = crash_loop_back_off;
          container = cs.name;
          reason = term.reason;
          observed_reason = [];
          message = term.message;
          exit_code = some term.exit_code;
          restart_count = cs.restart_count;
        })
        | none ↦ classify_probe_failure pod cs now
      ]
    ]
  ]
]

unfoldable pub is_unschedulable : PodCondition → Bool
is_unschedulable cond =
    text_eq cond.type pod_scheduled
    && text_eq cond.status condition_false
    && text_eq cond.reason reason_unschedulable

unfoldable pub unschedulable_signal : PodCondition → Signal
unschedulable_signal cond = record {
  failure_type = unschedulable;
  container = [];
  reason = cond.reason;
  observed_reason = [];
  message = cond.message;
  exit_code = none;
  restart_count = 0;
}

unfoldable pub unschedulable_scan : List PodCondition → ℕ → Option Signal
unfolding is_unschedulable unschedulable_signal
unschedulable_scan [] now = none
unschedulable_scan (cond ∷ rest) now =
    if is_unschedulable cond
    then if ltb_ℤ (sub_time now cond.last_transition_time) unschedulable_grace
      then none
      else some (unschedulable_signal cond)
    else unschedulable_scan rest now

unfoldable pub classify_unschedulable : Pod → ℕ → Option Signal
unfolding unschedulable_scan
classify_unschedulable pod now =
    if text_eq pod.status.phase pod_pending
    then unschedulable_scan pod.status.conditions now
    else none

unfoldable pub container_scan : Pod → List ContainerStatus → ℕ → Option Signal
container_scan pod [] now = none
container_scan pod (cs ∷ rest) now =
    or_else (classify_container pod cs now) (container_scan pod rest now)

unfoldable pub is_some {ℓ} : {A : Type ℓ} → Option A → Bool
is_some none = false
is_some (some a) = true

unfoldable pub evicted_signal : Pod → Signal
evicted_signal pod = record {
  failure_type = evicted;
  container = [];
  reason = pod.status.reason;
  observed_reason = [];
  message = pod.status.message;
  exit_code = none;
  restart_count = 0;
}

unfoldable pub classify_live : Pod → ℕ → Option Signal
unfolding container_scan evicted_signal
classify_live pod now =
    if text_eq pod.status.reason reason_evicted
    then some (evicted_signal pod)
    else or_else (classify_unschedulable pod now)
        (container_scan pod pod.status.container_statuses now)

-- The argument is `none` for a nil pointer.
unfoldable pub classify : Option Pod → ℕ → Option Signal
unfolding is_some classify_live
classify none now = none
classify (some pod) now = if is_some pod.deletion_timestamp then none else classify_live pod now

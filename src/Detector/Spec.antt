-- ===== src/Detector/Spec.antt =====
-- What it means for a pod or one of its containers to exhibit a failure, said without the order in
-- which internal/detector/detector.go looks for it.
use kube_cure.Prelude.{ℕ, ℤ, pos, ◌≤ℤ◌, false, ◌≡◌, ◌≢◌, ◌⊎◌, Option, some, List, [], ◌∷◌}
use kube_cure.Text.{Text}
use kube_cure.Api.Failure.{
  FailureType, crash_loop_back_off, oom_killed, image_pull_back_off, create_container_config_error,
  run_container_error, unschedulable, probe_failure, evicted,
}
use kube_cure.Cluster.{Pod, PodCondition, ContainerStatus, Waiting, Terminated}
use kube_cure.Detector.Classify.{readiness_budget}
use kube_cure.Detector.Reasons.{
  reason_oom_killed, reason_unschedulable, reason_crash_loop, reason_config_error, reason_evicted,
  image_reasons, run_reasons, pod_pending, pod_scheduled, condition_false, restart_policy_never,
  sub_time, unschedulable_grace, Signal,
}

abbrev pub Among : Text → List Text → Type 0
Among r [] = ⊥
Among r (t ∷ ts) = (r ≡ t) ⊎ Among r ts

abbrev pub Killed : Option Terminated → Type 0
Killed state = (term : Terminated) × (state ≡ some term) × (term.reason ≡ reason_oom_killed)

abbrev pub WaitsFor : ContainerStatus → List Text → Type 0
WaitsFor cs reasons = (wait : Waiting) × (cs.state.waiting ≡ some wait) × Among wait.reason reasons

abbrev pub Crashed : Pod → ContainerStatus → Type 0
Crashed pod cs =
    (term : Terminated) × (cs.state.terminated ≡ some term)
    × (term.exit_code ≢ pos 0)
    × (pod.spec.restart_policy ≢ restart_policy_never)

-- Running, not ready, and past the budget that its readiness probe declares.
abbrev pub NeverReady : Pod → ContainerStatus → ℕ → Type 0
NeverReady pod cs now =
    (started_at : ℕ) × (grace : ℤ) × (cs.state.running ≡ some started_at)
    × (cs.ready ≡ false)
    × (readiness_budget pod.spec.containers cs.name ≡ some grace)
    × (grace ≤ℤ sub_time now started_at)

abbrev pub Exhibits : Pod → ContainerStatus → ℕ → FailureType → Type 0
Exhibits pod cs now oom_killed =
    Killed cs.last_termination_state.terminated ⊎ Killed cs.state.terminated
Exhibits pod cs now crash_loop_back_off = WaitsFor cs (reason_crash_loop ∷ []) ⊎ Crashed pod cs
Exhibits pod cs now image_pull_back_off = WaitsFor cs image_reasons
Exhibits pod cs now create_container_config_error = WaitsFor cs (reason_config_error ∷ [])
Exhibits pod cs now run_container_error = WaitsFor cs run_reasons
Exhibits pod cs now probe_failure = NeverReady pod cs now
Exhibits pod cs now unschedulable = ⊥
Exhibits pod cs now evicted = ⊥

-- A condition of the pod that says it cannot be placed, with the grace period over.
abbrev pub Unplaced : PodCondition → ℕ → Type 0
Unplaced cond now =
    (cond.type ≡ pod_scheduled)
    × (cond.status ≡ condition_false)
    × (cond.reason ≡ reason_unschedulable)
    × (unschedulable_grace ≤ℤ sub_time now cond.last_transition_time)

abbrev pub Some {ℓ} : {A : Type ℓ} → (A → Type 0) → List A → Type 0
Some P [] = ⊥
Some P (x ∷ xs) = P x ⊎ Some P xs

-- What a signal about a pod has to be borne out by.
abbrev pub BorneOut : Pod → ℕ → Signal → Type 0
BorneOut pod now s =
    ((s.failure_type ≡ evicted) × (pod.status.reason ≡ reason_evicted))
    ⊎ ((s.failure_type ≡ unschedulable)
        × (pod.status.phase ≡ pod_pending)
        × Some (λ cond. Unplaced cond now) pod.status.conditions)
    ⊎ Some (λ cs. (s.container ≡ cs.name) × Exhibits pod cs now s.failure_type)
        pod.status.container_statuses

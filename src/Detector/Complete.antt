-- ===== src/Detector/Complete.antt =====
-- internal/detector/detector.go: no failure that a container exhibits is missed, and a kill for
-- memory is reported before any other.
use kube_cure.Prelude.{
  ℕ, true, ◌≡◌, ◌≢◌, ◌⊎◌, inl, inr, none, some, List, [], ◌∷◌, arith, Option-cases, All,
}
use kube_cure.Text.{Text, text_eq_iff}
use kube_cure.Api.Failure.{
  FailureType, crash_loop_back_off, oom_killed, image_pull_back_off, create_container_config_error,
  run_container_error, unschedulable, probe_failure, evicted,
}
use kube_cure.Cluster.{Pod, ContainerStatus, Waiting, Terminated}
use kube_cure.Detector.Classify.{
  oom_termination, container_scan, classify_live, classify_probe_failure, classify_container,
  classify,
}
use kube_cure.Detector.Reasons.{
  reason_oom_killed, reason_crash_loop, reason_config_error, reason_evicted, image_reasons,
  run_reasons, restart_policy_never, Signal, one_of, waiting_reason_to_failure_type, current_reason,
}
use kube_cure.Detector.Spec.{Among, Killed, Exhibits}

one_of_complete : (r : Text) (ts : List Text) → Among r ts → one_of r ts ≡ true
unfolding one_of
one_of_complete r [] h = absurd h
one_of_complete r (t ∷ ts) (inl e) = ground (arith, text_eq_iff r t)
one_of_complete r (t ∷ ts) (inr h) = ground (arith, one_of_complete r ts h)

module _ (pod : Pod) (cs : ContainerStatus) (now : ℕ) where
  waiting_complete :
      (wait : Waiting)
      → cs.state.waiting ≡ some wait
      → waiting_reason_to_failure_type wait.reason ≢ none
      → classify_container pod cs now ≢ none
  unfolding classify_container
  waiting_complete wait e r = ground arith

  -- A container that exhibits a failure of some type gives a signal.
  container_complete :
      (ft : FailureType) → Exhibits pod cs now ft → classify_container pod cs now ≢ none
  unfolding classify_container classify_probe_failure waiting_reason_to_failure_type
  container_complete oom_killed (inl (term, e, r)) =
      ground (arith, text_eq_iff term.reason reason_oom_killed)
  container_complete oom_killed (inr (term, e, r)) =
      ground (arith, text_eq_iff term.reason reason_oom_killed)
  container_complete crash_loop_back_off (inl (wait, e, inl r)) =
      waiting_complete wait e (ground (arith, text_eq_iff wait.reason reason_crash_loop))
  container_complete crash_loop_back_off (inl (wait, e, inr r)) = absurd r
  container_complete crash_loop_back_off (inr (term, e, x, r)) =
      ground (arith, text_eq_iff pod.spec.restart_policy restart_policy_never)
  container_complete image_pull_back_off (wait, e, r) =
      waiting_complete wait e (ground (arith, one_of_complete wait.reason image_reasons r))
  container_complete create_container_config_error (wait, e, inl r) =
      waiting_complete wait e (ground (arith, text_eq_iff wait.reason reason_config_error))
  container_complete create_container_config_error (wait, e, inr r) = absurd r
  container_complete run_container_error (wait, e, r) =
      waiting_complete wait e (ground (arith, one_of_complete wait.reason run_reasons r))
  container_complete probe_failure (started, grace, e, r, b, t) = ground arith
  container_complete unschedulable x = absurd x
  container_complete evicted x = absurd x

  abbrev KilledSignal : Signal → Type 0
  KilledSignal s =
      (s.failure_type ≡ oom_killed)
      × (s.reason ≡ reason_oom_killed)
      × ((¬ Killed cs.last_termination_state.terminated) ⊎ (s.observed_reason ≡ current_reason cs))

  killed_signal :
      (s : Signal)
      → Exhibits pod cs now oom_killed
      → classify_container pod cs now ≡ some s
      → KilledSignal s
  unfolding classify_container
  killed_signal s (inl (term, e, r)) h = (
    ground (arith, text_eq_iff term.reason reason_oom_killed),
    ground (arith, text_eq_iff term.reason reason_oom_killed),
    inr (ground (arith, text_eq_iff term.reason reason_oom_killed)),
  )
  killed_signal s (inr (term, e, r)) h =
      elim (Option-cases (oom_termination cs.last_termination_state.terminated)) [
        | inl none_past ↦ (
          ground (arith, text_eq_iff term.reason reason_oom_killed),
          ground (arith, text_eq_iff term.reason reason_oom_killed),
          inl (λ (past, f, g). ground (arith, text_eq_iff past.reason reason_oom_killed)),
        )
        | inr (past, f) ↦ (ground arith, ground (arith, oom_past past f), inr (ground arith))
      ]
    where
      oom_past :
          (past : Terminated)
          → oom_termination cs.last_termination_state.terminated ≡ some past
          → past.reason ≡ reason_oom_killed
      oom_past past f = ground (arith, text_eq_iff past.reason reason_oom_killed)

  -- A container whose last or current termination was a kill for memory is reported as such,
  -- whatever else it exhibits; and if the last termination was one, what the cluster displays is kept
  -- beside it.
  pub oom_wins :
      Exhibits pod cs now oom_killed
      → (s : Signal) × (classify_container pod cs now ≡ some s)
        × (s.failure_type ≡ oom_killed)
        × (s.reason ≡ reason_oom_killed)
        × ((¬ Killed cs.last_termination_state.terminated)
            ⊎ (s.observed_reason ≡ current_reason cs))
  unfolding classify_container
  oom_wins x = elim (Option-cases (classify_container pod cs now)) [
    | inl e ↦ absurd (container_complete oom_killed x e)
    | inr (s, e) ↦ let k = killed_signal s x e in (s, e, k.0, k.1, k.2)
  ]

scan_complete :
    (pod : Pod) (css : List ContainerStatus) (now : ℕ)
    → container_scan pod css now ≡ none
    → All (λ cs. (ft : FailureType) → ¬ Exhibits pod cs now ft) css
unfolding container_scan
scan_complete pod [] now h = tt
scan_complete pod (cs ∷ rest) now h = (
  λ ft x. container_complete pod cs now ft x (ground arith),
  scan_complete pod rest now (ground arith),
)

-- When a pod that is not being deleted gives no signal, it is not evicted and none of its
-- containers exhibits a failure of any type.
pub classify_complete :
    (pod : Pod) (now : ℕ)
    → pod.deletion_timestamp ≡ none
    → classify (some pod) now ≡ none
    → (pod.status.reason ≢ reason_evicted)
      × All (λ cs. (ft : FailureType) → ¬ Exhibits pod cs now ft) pod.status.container_statuses
unfolding classify classify_live
classify_complete pod now alive h = (
  ground (arith, text_eq_iff pod.status.reason reason_evicted),
  scan_complete pod pod.status.container_statuses now
      (ground (arith, text_eq_iff pod.status.reason reason_evicted)),
)

-- ===== src/Detector/Sound.antt =====
-- internal/detector/detector.go: a signal is borne out by the pod, and a container without a signal
-- exhibits no failure.
use kube_cure.Prelude.{
  ℕ, pos, subst, true, ◌≡◌, ◌≢◌, sym, inl, inr, Option, none, some, List, [], ◌∷◌, arith,
  Bool-cases, Option-cases,
}
use kube_cure.Text.{Text, text_eq, text_eq_iff}
use kube_cure.Api.Failure.{
  FailureType, crash_loop_back_off, oom_killed, image_pull_back_off, create_container_config_error,
  run_container_error, unschedulable, probe_failure, evicted,
}
use kube_cure.Cluster.{Pod, PodCondition, ContainerStatus, Waiting, Terminated}
use kube_cure.Detector.Classify.{
  readiness_budget, oom_termination, waiting_failure, crash_termination, unschedulable_scan,
  is_unschedulable, container_scan, classify_live, classify_probe_failure, classify_container,
  classify_unschedulable, classify,
}
use kube_cure.Detector.Reasons.{
  reason_oom_killed, reason_unschedulable, reason_crash_loop, reason_config_error, reason_evicted,
  image_reasons, run_reasons, pod_pending, pod_scheduled, condition_false, restart_policy_never,
  Signal, one_of, waiting_reason_to_failure_type,
}
use kube_cure.Detector.Spec.{Among, Killed, Exhibits, Unplaced, Some, BorneOut}

one_of_iff : (r : Text) (ts : List Text) → one_of r ts ≡ true → Among r ts
unfolding one_of
one_of_iff r [] h = ground arith
one_of_iff r (t ∷ ts) h = elim (Bool-cases (text_eq r t)) [
  | inl e ↦ inl ((text_eq_iff r t).0 e)
  | inr e ↦ inr (one_of_iff r ts (ground arith))
]

-- The failure that a waiting reason stands for.
abbrev Named : Text → FailureType → Type 0
Named r crash_loop_back_off = Among r (reason_crash_loop ∷ [])
Named r image_pull_back_off = Among r image_reasons
Named r create_container_config_error = Among r (reason_config_error ∷ [])
Named r run_container_error = Among r run_reasons
Named r oom_killed = ⊥
Named r unschedulable = ⊥
Named r probe_failure = ⊥
Named r evicted = ⊥

reason_sound :
    (r : Text) (ft : FailureType) → waiting_reason_to_failure_type r ≡ some ft → Named r ft
unfolding waiting_reason_to_failure_type
reason_sound r crash_loop_back_off h = ground (arith, text_eq_iff r reason_crash_loop)
reason_sound r image_pull_back_off h = one_of_iff r image_reasons (ground arith)
reason_sound r create_container_config_error h = ground (arith, text_eq_iff r reason_config_error)
reason_sound r run_container_error h = one_of_iff r run_reasons (ground arith)
reason_sound r _ h = ground arith

oom_sound : (t : Option Terminated) (term : Terminated) → oom_termination t ≡ some term → Killed t
unfolding oom_termination
oom_sound none term h = absurd (ground arith)
oom_sound (some x) term h =
    (term, ground arith, ground (arith, text_eq_iff x.reason reason_oom_killed))

waiting_sound :
    (w : Option Waiting) (wait : Waiting) (ft : FailureType)
    → waiting_failure w ≡ some (wait, ft)
    → (w ≡ some wait) × (waiting_reason_to_failure_type wait.reason ≡ some ft)
unfolding waiting_failure
waiting_sound none wait ft h = ground arith
waiting_sound (some x) wait ft h = ground arith

crash_sound :
    (pod : Pod) (t : Option Terminated) (term : Terminated)
    → crash_termination pod t ≡ some term
    → (t ≡ some term) × (term.exit_code ≢ pos 0) × (pod.spec.restart_policy ≢ restart_policy_never)
unfolding crash_termination
crash_sound pod none term h = ground arith
crash_sound pod (some x) term h =
    ground (arith, text_eq_iff pod.spec.restart_policy restart_policy_never)

module _ (pod : Pod) (cs : ContainerStatus) (now : ℕ) where
  Named-Exhibits :
      (ft : FailureType) (wait : Waiting)
      → cs.state.waiting ≡ some wait
      → Named wait.reason ft
      → Exhibits pod cs now ft
  Named-Exhibits crash_loop_back_off wait e n = inl (wait, e, n)
  Named-Exhibits image_pull_back_off wait e n = (wait, e, n)
  Named-Exhibits create_container_config_error wait e n = (wait, e, n)
  Named-Exhibits run_container_error wait e n = (wait, e, n)
  Named-Exhibits oom_killed wait e n = absurd n
  Named-Exhibits unschedulable wait e n = absurd n
  Named-Exhibits probe_failure wait e n = absurd n
  Named-Exhibits evicted wait e n = absurd n

  abbrev Faithful : Signal → Type 0
  Faithful s = (s.container ≡ cs.name) × Exhibits pod cs now s.failure_type

  as_type :
      (s : Signal) (ft : FailureType)
      → (s.container ≡ cs.name) × (s.failure_type ≡ ft)
      → Exhibits pod cs now ft
      → Faithful s
  as_type s ft e x = (e.0, subst (Exhibits pod cs now) (sym e.1) x)

  probe_sound : (s : Signal) → classify_probe_failure pod cs now ≡ some s → Faithful s
  unfolding classify_probe_failure
  probe_sound s h = elim (Option-cases cs.state.running) [
    | inl e ↦ absurd (ground arith)
    | inr (started, e) ↦ elim (Option-cases (readiness_budget pod.spec.containers cs.name)) [
      | inl b ↦ absurd (ground arith)
      | inr (grace, b) ↦
          as_type s probe_failure (ground arith) (started, grace, e, ground arith, b, ground arith)
    ]
  ]

  container_sound : (s : Signal) → classify_container pod cs now ≡ some s → Faithful s
  unfolding classify_container
  container_sound s h = elim (Option-cases (oom_termination cs.last_termination_state.terminated)) [
    | inr (term, e) ↦ as_type s oom_killed (ground arith) (inl (oom_sound _ term e))
    | inl e ↦ elim (Option-cases (oom_termination cs.state.terminated)) [
      | inr (term, f) ↦ as_type s oom_killed (ground arith) (inr (oom_sound _ term f))
      | inl f ↦ elim (Option-cases (waiting_failure cs.state.waiting)) [
        | inr ((wait, ft), g) ↦
            let w = waiting_sound _ wait ft g in
            as_type s ft (ground arith)
              (Named-Exhibits ft wait w.0 (reason_sound wait.reason ft w.1))
        | inl g ↦ elim (Option-cases (crash_termination pod cs.state.terminated)) [
          | inr (term, k) ↦
              let c = crash_sound pod _ term k in
              as_type s crash_loop_back_off (ground arith) (inr (term, c.0, c.1, c.2))
          | inl k ↦ probe_sound s (ground arith)
        ]
      ]
    ]
  ]

scan_sound :
    (pod : Pod) (css : List ContainerStatus) (now : ℕ) (s : Signal)
    → container_scan pod css now ≡ some s
    → Some (λ cs. Faithful pod cs now s) css
unfolding container_scan
scan_sound pod [] now s h = ground arith
scan_sound pod (cs ∷ rest) now s h = elim (Option-cases (classify_container pod cs now)) [
  | inr (found, e) ↦ inl (container_sound pod cs now s (ground arith))
  | inl e ↦ inr (scan_sound pod rest now s (ground arith))
]

Unplaced-sound :
    (conds : List PodCondition) (now : ℕ) (s : Signal)
    → unschedulable_scan conds now ≡ some s
    → (s.failure_type ≡ unschedulable) × Some (λ cond. Unplaced cond now) conds
unfolding unschedulable_scan
Unplaced-sound [] now s h = ground arith
Unplaced-sound (cond ∷ rest) now s h = elim (Bool-cases (is_unschedulable cond)) [
  | inl e ↦ (ground arith, inl (unplaced e))
  | inr e ↦ let later = Unplaced-sound rest now s (ground arith) in (later.0, inr later.1)
]
  where
    unplaced : is_unschedulable cond ≡ true → Unplaced cond now
    unplaced e = ground (
      arith,
      text_eq_iff cond.type pod_scheduled,
      text_eq_iff cond.status condition_false,
      text_eq_iff cond.reason reason_unschedulable,
    )

live_sound :
    (pod : Pod) (now : ℕ) (s : Signal) → classify_live pod now ≡ some s → BorneOut pod now s
unfolding classify_live classify_unschedulable
live_sound pod now s h = elim (Bool-cases (text_eq pod.status.reason reason_evicted)) [
  | inl e ↦ inl (ground arith, (text_eq_iff pod.status.reason reason_evicted).0 e)
  | inr e ↦ elim (Option-cases (classify_unschedulable pod now)) [
    | inl u ↦ inr (inr (scan_sound pod pod.status.container_statuses now s (ground arith)))
    | inr (found, u) ↦
        let found_s = Unplaced-sound pod.status.conditions now s (ground arith) in
        inr
          (inl (found_s.0, (text_eq_iff pod.status.phase pod_pending).0 (ground arith), found_s.1))
  ]
]

-- A signal about a pod is borne out by that pod: it is evicted and says so, or it is pending with a
-- condition that says it cannot be placed and whose grace period is over, or the container that the
-- signal names exhibits the failure that the signal states. The pod is not being deleted.
pub classify_sound :
    (pod : Pod) (now : ℕ) (s : Signal)
    → classify (some pod) now ≡ some s
    → (pod.deletion_timestamp ≡ none) × BorneOut pod now s
unfolding classify
classify_sound pod now s h = elim (Option-cases pod.deletion_timestamp) [
  | inl e ↦ (e, live_sound pod now s (ground arith))
  | inr (t, e) ↦ absurd (ground arith)
]

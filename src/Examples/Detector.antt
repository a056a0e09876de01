-- ===== src/Examples/Detector.antt =====
-- internal/detector on the pod that was killed for memory.
use kube_cure.Prelude.{
  ◌+◌, ◌*◌, ℕ, zero, suc, pos, arith, all, not, ◌==◌, true, ◌≡◌, ◌≢◌, ◌⊎◌, ◌≤◌, refl, inl, none,
  some, [], ◌∷◌, ◌++◌, length, All, reverse,
}
use kube_cure.Text.{Text, codes, text_eq}
use kube_cure.Json.{null}
use kube_cure.Api.Failure.{FailureType, oom_killed, failure_text}
use kube_cure.Detector.Classify.{probe_budget, classify, classify_container, classify_unschedulable}
use kube_cure.Detector.Reasons.{
  Signal, pod_pending, current_reason, reason_oom_killed, reason_evicted,
}
use kube_cure.Detector.Spec.{BorneOut, Exhibits, Killed}
use kube_cure.Detector.Sound.{classify_sound}
use kube_cure.Detector.Complete.{classify_complete, oom_wins}
use kube_cure.Detector.Budget.{probe_budget_exact, seconds, period_of, threshold_of}
use kube_cure.Detector.Unique.{signature_key_injective, NoZero}
use kube_cure.Detector.Name.{
  signature, diagnosis_name, workload_segment, sanitize_name_segment, is_edge,
}
use kube_cure.Detector.Naming.{diagnosis_name_valid}
use kube_cure.Detector.Segments.{NameChar}
use kube_cure.Text.Trim.{StartsOff}
use kube_cure.Examples.Data.{failing_pod, idle_pod, container_status}

abbrev killed_signal : Signal
killed_signal = record {
  failure_type = oom_killed;
  container = codes "app";
  reason = codes "OOMKilled";
  observed_reason = codes "CrashLoopBackOff";
  message = [];
  exit_code = some (pos 137);
  restart_count = 4;
}

classify_sound_example :
    (failing_pod.deletion_timestamp ≡ none) × BorneOut failing_pod 1000 killed_signal
unfolding classify text_eq reason_evicted classify_unschedulable pod_pending classify_container
    reason_oom_killed current_reason
classify_sound_example = classify_sound failing_pod 1000 killed_signal refl

classify_complete_example :
    (idle_pod.status.reason ≢ reason_evicted)
    × All
        (λ cs. (ft : FailureType) → ¬ Exhibits idle_pod cs 1000 ft)
        idle_pod.status.container_statuses
unfolding classify text_eq reason_evicted classify_unschedulable pod_pending
classify_complete_example = classify_complete idle_pod 1000 refl refl

killed : Killed container_status.last_termination_state.terminated
unfolding reason_oom_killed
killed = (_, refl, refl)

oom_wins_example :
    (s : Signal) × (classify_container failing_pod container_status 1000 ≡ some s)
    × (s.failure_type ≡ oom_killed)
    × (s.reason ≡ reason_oom_killed)
    × ((¬ Killed container_status.last_termination_state.terminated)
        ⊎ (s.observed_reason ≡ current_reason container_status))
oom_wins_example = oom_wins failing_pod container_status 1000 (inl killed)

-- A digest that maps every text to 32 zero bytes.
abbrev zeros : ℕ → Text
zeros zero = []
zeros (suc n) = 0 ∷ zeros n

abbrev blank_sum : Text → Text
blank_sum s = zeros 32

diagnosis_name_valid_example :
    let s : Text =
      signature blank_sum
        (codes "shop")
        (codes "Deployment")
        (codes "api")
        (codes "app")
        oom_killed in
    let name : Text = diagnosis_name (codes "api") oom_killed s in
    (name
      ≡ workload_segment (codes "api")
        ++ 45 ∷ (sanitize_name_segment (failure_text oom_killed) ++ 45 ∷ s))
    × (length s ≡ 8)
    × (length name ≤ 216)
    × All NameChar name
    × StartsOff is_edge name
    × StartsOff is_edge (reverse name)
diagnosis_name_valid_example =
    diagnosis_name_valid blank_sum (λ s. refl) (codes "api") (codes "shop") (codes "Deployment")
      (codes "api") (codes "app") oom_killed

nonzero : (s : Text) → all (λ c. not (c == 0)) s ≡ true → NoZero s
nonzero [] h = tt
nonzero (c ∷ s) h = (λ e. ground arith, nonzero s (ground arith))

no_zeros : All NoZero (codes "shop" ∷ codes "Deployment" ∷ codes "api" ∷ codes "app" ∷ [])
no_zeros = (
  nonzero (codes "shop") refl,
  (
    nonzero (codes "Deployment") refl,
    (nonzero (codes "api") refl, (nonzero (codes "app") refl, tt)),
  ),
)

signature_key_injective_example :
    (codes "shop" ≡ codes "shop")
    × (codes "Deployment" ≡ codes "Deployment")
    × (codes "api" ≡ codes "api")
    × (codes "app" ≡ codes "app")
    × (oom_killed ≡ oom_killed)
signature_key_injective_example =
    signature_key_injective (codes "shop") (codes "Deployment") (codes "api") (codes "app")
      oom_killed (codes "shop") (codes "Deployment") (codes "api") (codes "app") oom_killed no_zeros
      no_zeros refl

probe_budget_exact_example :
    probe_budget (record {
      initial_delay_seconds = pos 5;
      period_seconds = pos 0;
      failure_threshold = pos 6;
      marshalled = null;
    })
    ≡ pos (seconds (5 + threshold_of 6 * period_of 0) + 15000000000)
probe_budget_exact_example = probe_budget_exact 5 0 6 null (omega arith)

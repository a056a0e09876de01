-- ===== src/Evidence/Planning.antt =====
-- internal/evidence/matrix.go: the plan holds what the matrix asks for, once and in order.
use kube_cure.Prelude.{
  ℕ, ◌+◌, Bool, true, not, ◌&&◌, ◌||◌, ◌≡◌, refl, List, [], ◌∷◌, all, if◌then◌else◌,
}
use kube_cure.Api.Failure.{
  FailureType, crash_loop_back_off, oom_killed, image_pull_back_off, create_container_config_error,
  run_container_error, unschedulable, probe_failure, evicted,
}
use kube_cure.Api.Evidence.{EvidenceKind, previous_logs}
use kube_cure.Evidence.Matrix.{
  Requirement, not_applicable, opportunistic, required, requirement_for, plan, same_kind,
  is_required,
}

abbrev pub occurrences : EvidenceKind → List EvidenceKind → ℕ
occurrences kind [] = 0
occurrences kind (k ∷ ks) = (if same_kind kind k then 1 else 0) + occurrences kind ks

abbrev pub times_planned : Requirement → ℕ
times_planned not_applicable = 0
times_planned opportunistic = 1
times_planned required = 1

-- No required kind stands behind one that is not required.
abbrev pub required_first : FailureType → List EvidenceKind → Bool
required_first ft [] = true
required_first ft (k ∷ ks) =
    (is_required (requirement_for ft k) || all (λ j. not (is_required (requirement_for ft j))) ks)
    && required_first ft ks

-- The plan of a failure type names each kind that applies to it once and no other, and the required
-- kinds come first.
pub plan_exact :
    (ft : FailureType) (kind : EvidenceKind)
    → (occurrences kind (plan ft) ≡ times_planned (requirement_for ft kind))
      × (required_first ft (plan ft) ≡ true)
unfolding plan
plan_exact crash_loop_back_off previous_logs = (refl, refl)
plan_exact oom_killed previous_logs = (refl, refl)
plan_exact image_pull_back_off previous_logs = (refl, refl)
plan_exact create_container_config_error previous_logs = (refl, refl)
plan_exact run_container_error previous_logs = (refl, refl)
plan_exact unschedulable previous_logs = (refl, refl)
plan_exact probe_failure previous_logs = (refl, refl)
plan_exact evicted previous_logs = (refl, refl)
plan_exact _ _ = (refl, refl)

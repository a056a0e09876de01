-- ===== src/Detector/Persist.antt =====
-- internal/detector/detector.go over time: the two grace periods only run out.
use kube_cure.Prelude.{ℕ, ◌≤◌, ◌≤ℤ◌, ◌≢◌, inl, inr, none, some, List, [], ◌∷◌, arith, Option-cases}
use kube_cure.Cluster.{Pod, PodCondition, ContainerStatus}
use kube_cure.Detector.Classify.{
  unschedulable_scan, container_scan, classify_live, classify_probe_failure, classify_container,
  classify_unschedulable, classify,
}
use kube_cure.Detector.Reasons.{sub_time}

sub_time_mono : (now later t : ℕ) → now ≤ later → sub_time now t ≤ℤ sub_time later t
unfolding sub_time
sub_time_mono now later t h = ground arith

module _ (pod : Pod) {now later : ℕ} (h : now ≤ later) where
  probe_persists :
      (cs : ContainerStatus)
      → classify_probe_failure pod cs now ≢ none
      → classify_probe_failure pod cs later ≢ none
  unfolding classify_probe_failure
  probe_persists cs x = elim (Option-cases cs.state.running) [
    | inl e ↦ absurd (x (ground arith))
    | inr (started, e) ↦ ground (arith, sub_time_mono now later started h)
  ]

  container_persists :
      (cs : ContainerStatus)
      → classify_container pod cs now ≢ none
      → classify_container pod cs later ≢ none
  unfolding classify_container
  container_persists cs x = ground (arith, probe_persists cs)

  scan_persists :
      (css : List ContainerStatus)
      → container_scan pod css now ≢ none
      → container_scan pod css later ≢ none
  unfolding container_scan
  scan_persists [] x = x
  scan_persists (cs ∷ rest) x = ground (arith, container_persists cs, scan_persists rest)

  unplaced_persists :
      (conds : List PodCondition)
      → unschedulable_scan conds now ≢ none
      → unschedulable_scan conds later ≢ none
  unfolding unschedulable_scan
  unplaced_persists [] x = x
  unplaced_persists (cond ∷ rest) x =
      ground (arith, sub_time_mono now later cond.last_transition_time h, unplaced_persists rest)

  unschedulable_persists :
      classify_unschedulable pod now ≢ none → classify_unschedulable pod later ≢ none
  unfolding classify_unschedulable
  unschedulable_persists x = ground (arith, unplaced_persists pod.status.conditions)

-- A pod that gives a signal goes on giving one for as long as it does not change: no signal is
-- withdrawn by the passing of time alone.
pub classify_persists :
    (pod : Pod) (now later : ℕ)
    → now ≤ later
    → classify (some pod) now ≢ none
    → classify (some pod) later ≢ none
unfolding classify classify_live
classify_persists pod now later h x =
    ground (arith, unschedulable_persists pod h, scan_persists pod h pod.status.container_statuses)

-- ===== src/Examples/Watching.antt =====
-- internal/controller on a pod that no node can take.
use kube_cure.Prelude.{ℕ, ◌≡◌, ◌≢◌, refl, Bool, none, some, List, [], ◌∷◌, All, arith}
use kube_cure.Text.{Text, codes, text_eq}
use kube_cure.Cluster.{Pod, found, refused, not_found}
use kube_cure.Detector.Classify.{classify, classify_unschedulable}
use kube_cure.Detector.Reasons.{
  reason_evicted, reason_unschedulable, pod_pending, pod_scheduled, condition_false, sub_time,
}
use kube_cure.Controller.Store.{done}
use kube_cure.Controller.Watch.{
  Delivery, PodEvent, created, deleted, updated, watch, Unchanged, late_failure_unseen,
}
use kube_cure.Examples.Data.{idle_pod, replica_set}

abbrev waiting_pod : Pod
waiting_pod = record idle_pod {
  status = record {
    phase = codes "Pending";
    reason = [];
    message = [];
    conditions =
        record {
          type = codes "PodScheduled";
          status = codes "False";
          reason = codes "Unschedulable";
          message = codes "0/3 nodes are available";
          last_transition_time = 1000000000;
        }
        ∷ [];
    container_statuses = [];
  };
}

abbrev digest : Text → Text
digest s = codes "0123456789abcdef0123456789abcdef"

abbrev same_phase : Pod → Pod → Bool
same_phase p q = text_eq p.status.phase q.status.phase

abbrev delivery : PodEvent → ℕ → Delivery
delivery event now = record {
  event = event;
  reads = record {
    get_pod = λ ns name. found waiting_pod;
    get_replica_set = λ ns name. found replica_set;
    list_policies = λ ns. found [];
    get_diagnosis = λ ns name. refused not_found;
    list_diagnoses = λ ns. found [];
  };
  faults = record { on_create = none; on_update = none };
  now = now;
}

abbrev after : List Delivery
after =
    delivery (updated waiting_pod waiting_pod) 60000000000
    ∷ delivery (deleted waiting_pod) 62000000000
    ∷ []

unseen_at : classify (some waiting_pod) 2000000000 ≡ none
unfolding classify classify_unschedulable text_eq reason_evicted pod_pending reason_unschedulable
    pod_scheduled condition_false sub_time
unseen_at = refl

shows : classify (some waiting_pod) 31000000000 ≢ none
unfolding classify classify_unschedulable text_eq reason_evicted pod_pending reason_unschedulable
    pod_scheduled condition_false sub_time
shows e = cc

quiet : All (λ d. Unchanged digest same_phase d.event) after
unfolding Unchanged text_eq
quiet = (refl, (tt, tt))

late_failure_unseen_example :
    (classify (some waiting_pod) 60000000000 ≢ none)
    × (watch digest same_phase (delivery (created waiting_pod) 2000000000 ∷ after) []
        ≡ (done ∷ [], []))
late_failure_unseen_example =
    late_failure_unseen digest same_phase (delivery (created waiting_pod) 2000000000) waiting_pod
      31000000000 60000000000 after [] refl refl unseen_at shows (omega arith) quiet

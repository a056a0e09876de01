-- ===== src/Controller/Pod.antt =====
-- internal/controller/pod_controller.go. What is read is given as the answers of the client, which
-- may be stale; what is written goes to the store. SHA-256 is a parameter. Log lines are left out.
-- One reading of the clock, `now`, stands for those of one reconcile and for the creation time that
-- the server sets.
use kube_cure.Prelude.{ℕ, Bool, true, false, not, Option, none, some, List, [], ◌∷◌, if◌then◌else◌}
use kube_cure.Text.{Text, codes, text_eq}
use kube_cure.Api.Failure.{failure_text}
use kube_cure.Api.Diagnosis.{Diagnosis, DiagnosisStatus, Timings, Phase}
use kube_cure.Api.Policy.{HealingPolicy}
use kube_cure.Cluster.{
  Pod, Answer, found, refused, ApiError, not_found, conflict, already_exists, api_failure,
}
use kube_cure.Detector.Classify.{classify}
use kube_cure.Detector.Reasons.{Signal}
use kube_cure.Detector.Name.{signature, diagnosis_name}
use kube_cure.Controller.Store.{Reconciled, done, requeue_after, retry, create, update_status}
use kube_cure.Controller.Policy.{
  system_namespaces, member, resolve_workload, choose_policy, policy_covers, within_rate_limit,
  Reads, WorkloadRef,
}

abbrev pub no_timings : Timings
no_timings = record {
  detected_at = none;
  enriched_at = none;
  hypothesized_at = none;
  judged_at = none;
  planned_at = none;
  remediated_at = none;
  healed_at = none;
}

abbrev pub no_status : DiagnosisStatus
no_status = record {
  phase = Phase.unset;
  timings = no_timings;
  time_to_diagnosis = [];
  time_to_recovery = [];
  evidence = none;
  investigation = none;
  hypotheses = [];
  judgement = none;
  plan = none;
  remediation = none;
  observed_generation = 0;
}

-- The object as the server has created it.
unfoldable pub build_diagnosis :
    ℕ → Pod → WorkloadRef → Signal → HealingPolicy → Text → Text → Diagnosis
build_diagnosis now pod workload signal policy name sig = record {
  name = name;
  namespace = pod.namespace;
  creation_timestamp = now;
  resource_version = 1;
  labels =
      (codes "kubecure.io/failure-type", failure_text signal.failure_type)
      ∷ (codes "kubecure.io/workload", workload.name)
      ∷ (codes "kubecure.io/signature", sig)
      ∷ [];
  spec = record {
    target = record {
      name = pod.name;
      uid = pod.uid;
      owner =
          if text_eq workload.kind (codes "Pod")
          then none
          else some (record { kind = workload.kind; name = workload.name });
    };
    failure_type = signal.failure_type;
    container = signal.container;
    signature = sig;
    observed_at = now;
    policy_ref = policy.name;
  };
  status = no_status;
}

-- `client.IgnoreNotFound` and `client.IgnoreAlreadyExists` of an error.
unfoldable pub ignore_not_found : ApiError → Reconciled
ignore_not_found not_found = done
ignore_not_found conflict = retry conflict
ignore_not_found already_exists = retry already_exists
ignore_not_found (api_failure why) = retry (api_failure why)

unfoldable pub ignore_already_exists : ApiError → Reconciled
ignore_already_exists already_exists = done
ignore_already_exists conflict = retry conflict
ignore_already_exists not_found = retry not_found
ignore_already_exists (api_failure why) = retry (api_failure why)

unfoldable pub after_write : Option ApiError → Reconciled
after_write none = done
after_write (some e) = retry e

-- The faults of the two writes of one reconcile.
pub record Faults : Type 0 where
  pub on_create : Option ApiError
  pub on_update : Option ApiError

unfoldable pub detected_status : ℕ → DiagnosisStatus → DiagnosisStatus
detected_status now s = record s {
  phase = Phase.detected;
  timings = record s.timings { detected_at = some now };
}

module _ (sum256 : Text → Text) (reads : Reads) (faults : Faults) (now : ℕ) where
  -- The created object, whose status is written next.
  unfoldable pub mark_detected :
      Diagnosis → Option ApiError × List Diagnosis → Reconciled × List Diagnosis
  unfolding ignore_already_exists after_write detected_status
  mark_detected d (some e, store) = (ignore_already_exists e, store)
  mark_detected d (none, store) =
      let written =
        update_status faults.on_update (record d { status = detected_status now d.status }) store in
      (after_write written.0, written.1)

  unfoldable pub open_diagnosis :
      Pod
      → WorkloadRef
      → Signal
      → HealingPolicy
      → Text
      → Text
      → List Diagnosis
      → Answer Bool
      → Reconciled × List Diagnosis
  unfolding build_diagnosis
  open_diagnosis pod workload signal policy name sig store (refused e) = (retry e, store)
  open_diagnosis pod workload signal policy name sig store (found false) =
      (requeue_after 300000000000, store)
  open_diagnosis pod workload signal policy name sig store (found true) =
      let d = build_diagnosis now pod workload signal policy name sig in
      mark_detected d (create faults.on_create d store)

  unfoldable pub if_new :
      Pod
      → WorkloadRef
      → Signal
      → HealingPolicy
      → Text
      → Text
      → List Diagnosis
      → Answer Diagnosis
      → Reconciled × List Diagnosis
  if_new pod workload signal policy name sig store (found existing) = (done, store)
  if_new pod workload signal policy name sig store (refused conflict) = (retry conflict, store)
  if_new pod workload signal policy name sig store (refused already_exists) =
      (retry already_exists, store)
  if_new pod workload signal policy name sig store (refused (api_failure why)) =
      (retry (api_failure why), store)
  if_new pod workload signal policy name sig store (refused not_found) =
      open_diagnosis pod workload signal policy name sig store
        (within_rate_limit reads now pod.namespace policy)

  unfoldable pub attributed :
      Pod
      → Signal
      → HealingPolicy
      → List Diagnosis
      → Answer WorkloadRef
      → Reconciled × List Diagnosis
  attributed pod signal policy store (refused e) = (retry e, store)
  attributed pod signal policy store (found workload) =
      let sig =
        signature sum256 pod.namespace workload.kind workload.name signal.container
          signal.failure_type in
      let name = diagnosis_name workload.name signal.failure_type sig in
      if_new pod workload signal policy name sig store (reads.get_diagnosis pod.namespace name)

  unfoldable pub chosen :
      Pod → Signal → List Diagnosis → Option HealingPolicy → Reconciled × List Diagnosis
  chosen pod signal store none = (done, store)
  chosen pod signal store (some policy) =
      if not (policy_covers policy signal.failure_type)
      then (done, store)
      else attributed pod signal policy store (resolve_workload reads pod)

  unfoldable pub governed :
      Pod → Signal → List Diagnosis → Answer (List HealingPolicy) → Reconciled × List Diagnosis
  governed pod signal store (refused e) = (retry e, store)
  governed pod signal store (found policies) = chosen pod signal store (choose_policy policies)

  unfoldable pub with_signal : Pod → List Diagnosis → Option Signal → Reconciled × List Diagnosis
  with_signal pod store none = (done, store)
  with_signal pod store (some signal) =
      governed pod signal store (reads.list_policies pod.namespace)

  unfoldable pub classified : List Diagnosis → Answer Pod → Reconciled × List Diagnosis
  unfolding ignore_not_found
  classified store (refused e) = (ignore_not_found e, store)
  classified store (found pod) = with_signal pod store (classify (some pod) now)

  unfoldable pub reconcile : Text → Text → List Diagnosis → Reconciled × List Diagnosis
  reconcile namespace name store =
      if member namespace system_namespaces
      then (done, store)
      else classified store (reads.get_pod namespace name)

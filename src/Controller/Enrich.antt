-- ===== src/Controller/Enrich.antt =====
-- internal/controller/evidence_controller.go.
use kube_cure.Prelude.{ℕ, true, not, Option, none, some, List, [], ◌∷◌, if◌then◌else◌}
use kube_cure.Text.{Text, codes, text_eq}
use kube_cure.Api.Evidence
use kube_cure.Api.Evidence.{EvidenceKind, CollectionStatus}
use kube_cure.Api.Diagnosis.{Diagnosis, DiagnosisStatus, Phase, is_detected}
use kube_cure.Cluster.{
  Pod, Answer, found, refused, ApiError, not_found, conflict, already_exists, api_failure,
}
use kube_cure.Evidence.Redact.{Redactor}
use kube_cure.Evidence.Collect.{Target, Readers, collect, no_evidence}
use kube_cure.Controller.Store.{Reconciled, done, retry, update_status}
use kube_cure.Controller.Pod.{ignore_not_found, after_write}
use kube_cure.Controller.Policy.{Reads}

-- A pod whose UID is another's is answered as not found.
unfoldable pub target_for : Diagnosis → Answer Pod → Answer Target
target_for d (refused e) = refused e
target_for d (found pod) =
    let target : Target = record {
      pod = pod;
      container = d.spec.container;
      failure_type = d.spec.failure_type;
      owner_kind = codes "Pod";
      owner_name = pod.name;
    } in
    if not (text_eq pod.uid d.spec.target.uid)
    then refused not_found
    else elim d.spec.target.owner [
      | none ↦ found target
      | some owner ↦ found (record target { owner_kind = owner.kind; owner_name = owner.name })
    ]

unfoldable pub deleted_evidence : Evidence.Evidence
deleted_evidence = record no_evidence {
  items =
      record {
        kind = EvidenceKind.previous_logs;
        status = CollectionStatus.unavailable;
        required = true;
        reason = codes "the pod was deleted before evidence could be gathered";
        content = [];
      }
      ∷ [];
  missing_required = EvidenceKind.previous_logs ∷ [];
}

unfoldable pub enriched_status : ℕ → Evidence.Evidence → DiagnosisStatus → DiagnosisStatus
enriched_status now ev s = record s {
  evidence = some ev;
  phase = Phase.enriched;
  timings = record s.timings { enriched_at = some now };
}

module _ (redactors : List Redactor) (readers : Readers) (reads : Reads) (fault : Option ApiError)
    (now : ℕ) where
  -- The status write of the diagnosis that was read.
  unfoldable pub write_evidence :
      Diagnosis → Evidence.Evidence → List Diagnosis → Reconciled × List Diagnosis
  write_evidence d ev store =
      let written =
        update_status fault (record d { status = enriched_status now ev d.status }) store in
      (after_write written.0, written.1)

  unfoldable pub with_target :
      Diagnosis → List Diagnosis → Answer Target → Reconciled × List Diagnosis
  with_target d store (found target) = write_evidence d (collect redactors readers target) store
  with_target d store (refused not_found) = write_evidence d deleted_evidence store
  with_target d store (refused conflict) = (retry conflict, store)
  with_target d store (refused already_exists) = (retry already_exists, store)
  with_target d store (refused (api_failure why)) = (retry (api_failure why), store)

  unfoldable pub enrich_read : List Diagnosis → Answer Diagnosis → Reconciled × List Diagnosis
  enrich_read store (refused e) = (ignore_not_found e, store)
  enrich_read store (found d) =
      if not (is_detected d.status.phase)
      then (done, store)
      else with_target d store (target_for d (reads.get_pod d.namespace d.spec.target.name))

  unfoldable pub enrich : Text → Text → List Diagnosis → Reconciled × List Diagnosis
  enrich namespace name store = enrich_read store (reads.get_diagnosis namespace name)

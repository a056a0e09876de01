-- ===== src/Controller/Watch.antt =====
-- internal/controller/pod_controller.go: the filter on the events of pods and the reconciles that it
-- lets through. An admitted event reconciles the pod that it is about. Deep equality of the two
-- statuses, with the fields that Cluster leaves out, is a parameter.
use kube_cure.Prelude.{
  ℕ, ◌≤◌, ◌≡◌, ◌≢◌, refl, ap, ◌∙◌, Bool, true, false, not, none, some, List, [], ◌∷◌, All, arith,
  if◌then◌else◌,
}
use kube_cure.Text.{Text}
use kube_cure.Api.Diagnosis.{Diagnosis}
use kube_cure.Cluster.{Pod, found}
use kube_cure.Detector.Classify.{classify}
use kube_cure.Detector.Persist.{classify_persists}
use kube_cure.Controller.Store.{Reconciled, done}
use kube_cure.Controller.Policy.{Reads}
use kube_cure.Controller.Pod.{Faults, reconcile, classified, with_signal}

pub data PodEvent : Type 0 where
  created : Pod → PodEvent
  deleted : Pod → PodEvent
  updated : (before after : Pod) → PodEvent

-- The object that the event is about.
unfoldable pub subject : PodEvent → Pod
subject (created pod) = pod
subject (deleted pod) = pod
subject (updated before after) = after

-- A watch on pods delivers pods, so that the assertions on the type hold.
unfoldable pub pod_status_changed : (Pod → Pod → Bool) → PodEvent → Bool
pod_status_changed same_status (created pod) = true
pod_status_changed same_status (deleted pod) = false
pod_status_changed same_status (updated before after) = not (same_status before after)

-- An event, with the answers, the faults and the time of its reconcile, if there is one.
pub record Delivery : Type 0 where
  pub event : PodEvent
  pub reads : Reads
  pub faults : Faults
  pub now : ℕ

module _ (sum256 : Text → Text) (same_status : Pod → Pod → Bool) where
  unfoldable pub reconcile_subject : Delivery → List Diagnosis → Reconciled × List Diagnosis
  unfolding subject
  reconcile_subject d store =
      let pod = subject d.event in
      reconcile sum256 d.reads d.faults d.now pod.namespace pod.name store

  -- What the reconciles return, in order, and the store after them.
  unfoldable pub watch : List Delivery → List Diagnosis → List Reconciled × List Diagnosis
  unfolding pod_status_changed reconcile_subject
  watch [] store = ([], store)
  watch (d ∷ ds) store =
      let (result, written) = reconcile_subject d store in
      let woken = watch ds written in
      let skipped = watch ds store in
      if pod_status_changed same_status d.event then (result ∷ woken.0, woken.1) else skipped

  -- The event brings no new status.
  unfoldable pub Unchanged : PodEvent → Type 0
  Unchanged (created pod) = ⊥
  Unchanged (deleted pod) = Unit
  Unchanged (updated before after) = same_status before after ≡ true

  Unchanged-dropped : (e : PodEvent) → Unchanged e → pod_status_changed same_status e ≡ false
  unfolding Unchanged pod_status_changed
  Unchanged-dropped (created pod) q = absurd q
  Unchanged-dropped (deleted pod) q = refl
  Unchanged-dropped (updated before after) q = ap not q

  watch-Unchanged :
      (ds : List Delivery) (store : List Diagnosis)
      → All (λ d. Unchanged d.event) ds
      → watch ds store ≡ ([], store)
  unfolding watch
  watch-Unchanged [] store q = refl
  watch-Unchanged (d ∷ ds) store (here, q) =
      rw (Unchanged-dropped d.event here) (watch-Unchanged ds store q)

  -- A reconcile of a pod that shows no failure is done, and writes nothing.
  healthy-done :
      (d : Delivery) (pod : Pod) (namespace name : Text) (store : List Diagnosis)
      → d.reads.get_pod namespace name ≡ found pod
      → classify (some pod) d.now ≡ none
      → reconcile sum256 d.reads d.faults d.now namespace name store ≡ (done, store)
  unfolding reconcile classified with_signal
  healthy-done d pod namespace name store got none_now = ground arith

  first-watch :
      (first : Delivery) (pod : Pod) (ds : List Delivery) (store : List Diagnosis)
      → first.event ≡ created pod
      → first.reads.get_pod pod.namespace pod.name ≡ found pod
      → classify (some pod) first.now ≡ none
      → watch (first ∷ ds) store ≡ (done ∷ (watch ds store).0, (watch ds store).1)
  unfolding watch reconcile_subject subject pod_status_changed
  first-watch first pod ds store is_created got none_now =
      rw (is_created, healthy-done first pod pod.namespace pod.name store got none_now) refl

  -- A pod that a grace period still covers when it is first seen is not diagnosed for as long as its
  -- status does not change. If the pod shows no failure when its creation is delivered and would
  -- show one at a time `due`, then it shows one at any later time; and of the creation followed by
  -- any events with no new status, at any times and with any answers, the creation alone is
  -- reconciled: it is done, without a further reconcile asked for, and the store stays as it was.
  pub late_failure_unseen :
      (first : Delivery) (pod : Pod) (due later : ℕ) (ds : List Delivery) (store : List Diagnosis)
      → first.event ≡ created pod
      → first.reads.get_pod pod.namespace pod.name ≡ found pod
      → classify (some pod) first.now ≡ none
      → classify (some pod) due ≢ none
      → due ≤ later
      → All (λ d. Unchanged d.event) ds
      → (classify (some pod) later ≢ none) × (watch (first ∷ ds) store ≡ (done ∷ [], store))
  late_failure_unseen first pod due later ds store is_created got none_now fails h quiet = (
    classify_persists pod due later h fails,
    first-watch first pod ds store is_created got none_now
        ∙ ap (λ w. (done ∷ w.0, w.1)) (watch-Unchanged ds store quiet),
  )

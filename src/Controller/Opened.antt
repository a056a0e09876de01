-- ===== src/Controller/Opened.antt =====
-- internal/controller/pod_controller.go: what a reconcile may add to the store, and when.
use kube_cure.Prelude.{
  ℕ, suc, Bool, true, false, ◌≡◌, ◌⊎◌, inl, inr, refl, arith, Bool-cases, Option-cases, none, some,
  List, [], ◌∷◌, ◌++◌,
}
use kube_cure.Text.{Text, text_eq_iff}
use kube_cure.Api.Diagnosis.{Diagnosis}
use kube_cure.Api.Policy.{HealingPolicy}
use kube_cure.Cluster.{
  Answer-cases, Pod, Answer, found, refused, ApiError, not_found, conflict, already_exists,
  api_failure,
}
use kube_cure.Detector.Classify.{classify}
use kube_cure.Detector.Reasons.{Signal}
use kube_cure.Detector.Name.{signature, diagnosis_name}
use kube_cure.Controller.Store.{Reconciled, done, retry, create, update_status, exists, same_object}
use kube_cure.Controller.Pod.{
  Faults, build_diagnosis, detected_status, mark_detected, open_diagnosis, if_new, attributed,
  governed, chosen, classified, with_signal, reconcile, after_write,
}
use kube_cure.Controller.Policy.{
  Reads, WorkloadRef, member, system_namespaces, resolve_workload, choose_policy, policy_covers,
  within_rate_limit,
}

same_object_self : (d : Diagnosis) → same_object d.namespace d.name d ≡ true
unfolding same_object
same_object_self d =
    ground (arith, (text_eq_iff d.namespace d.namespace).1 refl, (text_eq_iff d.name d.name).1 refl)

-- The object as its status write leaves it.
abbrev pub marked : ℕ → Diagnosis → Diagnosis
marked now d = record d {
  status = detected_status now d.status;
  resource_version = suc d.resource_version;
}

module _ (now : ℕ) (d : Diagnosis) where
  update-last :
      (store : List Diagnosis)
      → exists d.namespace d.name store ≡ false
      → update_status none (record d { status = detected_status now d.status }) (store ++ d ∷ [])
        ≡ (none, store ++ marked now d ∷ [])
  unfolding update_status exists
  update-last [] h = ground (arith, same_object_self d)
  update-last (x ∷ store) h = ground (arith, update-last store)

module _ (sum256 : Text → Text) (reads : Reads) (faults : Faults) (now : ℕ) where
  -- Why a diagnosis of this pod may be opened.
  pub record Grounds (namespace name : Text) (pod : Pod) (signal : Signal) (policy : HealingPolicy)
      (workload : WorkloadRef) (sig : Text) (key : Text) : Type 0 where
    pub application : member namespace system_namespaces ≡ false
    pub read : reads.get_pod namespace name ≡ found pod
    pub signalled : classify (some pod) now ≡ some signal
    pub opted_in :
        (ps : List HealingPolicy) × (reads.list_policies pod.namespace ≡ found ps)
        × (choose_policy ps ≡ some policy)
    pub covered : policy_covers policy signal.failure_type ≡ true
    pub attribution : resolve_workload reads pod ≡ found workload
    pub signed :
        sig
        ≡ signature sum256 pod.namespace workload.kind workload.name signal.container
            signal.failure_type
    pub called : key ≡ diagnosis_name workload.name signal.failure_type sig
    pub unknown : reads.get_diagnosis pod.namespace key ≡ refused not_found
    pub within : within_rate_limit reads now pod.namespace policy ≡ found true

  -- The store that creating `d` and marking it as detected leave.
  abbrev pub Added : Diagnosis → List Diagnosis → Reconciled × List Diagnosis → Type 0
  Added d store out =
      (exists d.namespace d.name store ≡ false)
      × ((out ≡ (done, store ++ marked now d ∷ []))
          ⊎ ((e : ApiError) × (faults.on_update ≡ some e) × (out ≡ (retry e, store ++ d ∷ []))))

  mark-Added :
      (d : Diagnosis) (store : List Diagnosis)
      → let out = mark_detected sum256 reads faults now d (create faults.on_create d store) in
        (out.1 ≡ store) ⊎ Added d store out
  unfolding mark_detected create after_write update_status
  mark-Added d store = elim (Option-cases faults.on_create) [
    | inr (e, f) ↦ inl (ground arith)
    | inl f ↦ elim (Bool-cases (exists d.namespace d.name store)) [
      | inl taken ↦ inl (ground arith)
      | inr free ↦ elim (Option-cases faults.on_update) [
        | inr (e, u) ↦ inr (free, inr (e, u, ground arith))
        | inl u ↦ inr (free, inl (let w = update-last now d store free in ground arith))
      ]
    ]
  ]

  -- What opening a diagnosis of a pod comes to.
  abbrev pub Opening : Text → Text → List Diagnosis → Reconciled × List Diagnosis → Type 0
  Opening namespace name store out =
      (pod : Pod) × (signal : Signal) × (policy : HealingPolicy) × (workload : WorkloadRef)
      × (sig : Text) × (key : Text) × Grounds namespace name pod signal policy workload sig key
      × Added (build_diagnosis now pod workload signal policy key sig) store out

  module _ (namespace name : Text) (store : List Diagnosis) where
    abbrev Result : Reconciled × List Diagnosis → Type 0
    Result out = (out.1 ≡ store) ⊎ Opening namespace name store out

    module _ (pod : Pod) (signal : Signal) (policy : HealingPolicy) where
      open-Opening :
          (workload : WorkloadRef) (sig key : Text) (b : Answer Bool)
          → (b ≡ found true → Grounds namespace name pod signal policy workload sig key)
          → Result
              (open_diagnosis sum256 reads faults now pod workload signal policy key sig store b)
      unfolding open_diagnosis
      open-Opening workload sig key (refused e) grounds = inl refl
      open-Opening workload sig key (found false) grounds = inl refl
      open-Opening workload sig key (found true) grounds =
          elim (mark-Added (build_diagnosis now pod workload signal policy key sig) store) [
            | inl same ↦ inl same
            | inr added ↦ inr (pod, signal, policy, workload, sig, key, grounds refl, added)
          ]

      if_new-Opening :
          (workload : WorkloadRef) (sig key : Text) (a : Answer Diagnosis)
          → (a ≡ refused not_found
              → within_rate_limit reads now pod.namespace policy ≡ found true
              → Grounds namespace name pod signal policy workload sig key)
          → Result (if_new sum256 reads faults now pod workload signal policy key sig store a)
      unfolding if_new
      if_new-Opening workload sig key (found existing) grounds = inl refl
      if_new-Opening workload sig key (refused conflict) grounds = inl refl
      if_new-Opening workload sig key (refused already_exists) grounds = inl refl
      if_new-Opening workload sig key (refused (api_failure why)) grounds = inl refl
      if_new-Opening workload sig key (refused not_found) grounds =
          open-Opening workload sig key (within_rate_limit reads now pod.namespace policy)
            (grounds refl)

      attributed-Opening :
          (w : Answer WorkloadRef)
          → resolve_workload reads pod ≡ w
          → ((workload : WorkloadRef) (sig key : Text)
              → resolve_workload reads pod ≡ found workload
              → sig
                ≡ signature sum256 pod.namespace workload.kind workload.name signal.container
                    signal.failure_type
              → key ≡ diagnosis_name workload.name signal.failure_type sig
              → reads.get_diagnosis pod.namespace key ≡ refused not_found
              → within_rate_limit reads now pod.namespace policy ≡ found true
              → Grounds namespace name pod signal policy workload sig key)
          → Result (attributed sum256 reads faults now pod signal policy store w)
      unfolding attributed
      attributed-Opening (refused e) h grounds = inl refl
      attributed-Opening (found workload) h grounds =
          let sig : Text =
            signature sum256 pod.namespace workload.kind workload.name signal.container
              signal.failure_type in
          let key : Text = diagnosis_name workload.name signal.failure_type sig in
          if_new-Opening workload sig key (reads.get_diagnosis pod.namespace key)
            (λ unknown within. grounds workload sig key h refl refl unknown within)

    governed-Opening :
        (pod : Pod) (signal : Signal) (a : Answer (List HealingPolicy))
        → member namespace system_namespaces ≡ false
        → reads.get_pod namespace name ≡ found pod
        → classify (some pod) now ≡ some signal
        → reads.list_policies pod.namespace ≡ a
        → Result (governed sum256 reads faults now pod signal store a)
    unfolding governed chosen
    governed-Opening pod signal (refused e) application read signalled listed = inl refl
    governed-Opening pod signal (found ps) application read signalled listed =
        elim (Option-cases (choose_policy ps)) [
          | inl e ↦ inl (rw e refl)
          | inr (policy, e) ↦ elim (Bool-cases (policy_covers policy signal.failure_type)) [
            | inr c ↦ inl (rw (e, c) refl)
            | inl c ↦
                rw (e, c)
                  (attributed-Opening pod signal policy (resolve_workload reads pod) refl
                    (λ workload sig key attribution signed called unknown within. record {
                      application = application;
                      read = read;
                      signalled = signalled;
                      opted_in = (ps, listed, e);
                      covered = c;
                      attribution = attribution;
                      signed = signed;
                      called = called;
                      unknown = unknown;
                      within = within;
                    }))
          ]
        ]

    -- A reconcile of a pod leaves the store as it is, or it adds one diagnosis, whose namespace and
    -- name no other has, and touches no other. It adds one only on all these grounds: the namespace
    -- is not a system namespace; the pod was read and gives a signal; the policy chosen for its
    -- namespace covers the failure type; the workload was resolved; the name is made of the
    -- workload, the failure type and the signature; no diagnosis of the name was read; and the rate
    -- limit leaves room. What is added describes that pod and signal and is in the phase detected,
    -- or, if the status write was refused, in no phase, and then the refusal is returned.
    pub reconcile_opens :
        let out = reconcile sum256 reads faults now namespace name store in
        (out.1 ≡ store) ⊎ Opening namespace name store out
    unfolding reconcile classified with_signal
    reconcile_opens = elim (Bool-cases (member namespace system_namespaces)) [
      | inl system ↦ inl (rw system refl)
      | inr application ↦ elim (Answer-cases (reads.get_pod namespace name)) [
        | inr (e, read) ↦ inl (rw (application, read) refl)
        | inl (pod, read) ↦ elim (Option-cases (classify (some pod) now)) [
          | inl quiet ↦ inl (rw (application, read, quiet) refl)
          | inr (signal, signalled) ↦
              rw (application, read, signalled)
                (governed-Opening pod signal (reads.list_policies pod.namespace) application read
                  signalled refl)
        ]
      ]
    ]

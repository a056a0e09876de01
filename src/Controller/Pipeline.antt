-- ===== src/Controller/Pipeline.antt =====
-- internal/controller: the three controllers, interleaved in any order, over one store.
use kube_cure.Prelude.{ℕ, false, ◌≡◌, ◌⊎◌, inl, inr, refl, ap, Option, List, [], ◌∷◌, ◌++◌}
use kube_cure.Text.{Text}
use kube_cure.Api.Diagnosis.{Diagnosis, Phase}
use kube_cure.Api.Policy.{HealingPolicy}
use kube_cure.Agent.Model.{ToolSpec}
use kube_cure.Agent.Types.{Pricing}
use kube_cure.Cluster.{Answer, found, ApiError}
use kube_cure.Evidence.Redact.{Redactor}
use kube_cure.Evidence.Collect.{Readers}
use kube_cure.Controller.Store.{exists}
use kube_cure.Controller.Pod.{Faults, reconcile, build_diagnosis, detected_status}
use kube_cure.Controller.Policy.{Reads}
use kube_cure.Controller.Opened.{reconcile_opens, marked}
use kube_cure.Controller.Enrich.{enrich}
use kube_cure.Controller.Investigate.{Environment, Attempt, investigate}
use kube_cure.Controller.Moves.{AllMoved, Fresh, Enriches, enrich_moves}
use kube_cure.Controller.Concludes.{Concludes, investigate_moves}

-- One reconcile of one controller, with whatever it reads and whichever writes fail. What the second
-- and the third read of a diagnosis at its stored version has the stored status.
pub data Step (sum256 : Text → Text) : List Diagnosis → List Diagnosis → Type 1 where
  by_pod :
      (reads : Reads) (faults : Faults) (now : ℕ) (namespace name : Text) (store : List Diagnosis)
      → Step sum256 store (reconcile sum256 reads faults now namespace name store).1
  by_evidence :
      (redactors : List Redactor) (readers : Readers) (reads : Reads) (fault : Option ApiError)
      (now : ℕ) (namespace name : Text) (store : List Diagnosis)
      → ((d : Diagnosis) → reads.get_diagnosis namespace name ≡ found d → Fresh store d)
      → Step sum256 store (enrich redactors readers reads fault now namespace name store).1
  by_investigator :
      {W : Type 0} (env : Environment W) (redactors : List Redactor) (system_prompt : Text)
      (submit_spec : List Text → ToolSpec) (pricing : Pricing)
      (get_diagnosis : Text → Text → Answer Diagnosis)
      (get_policy : Text → Text → Answer HealingPolicy) (attempts : ℕ → Attempt) (w : W)
      (namespace name : Text) (store : List Diagnosis)
      → ((j : ℕ) (d : Diagnosis) → (attempts j).latest ≡ found d → Fresh store d)
      → Step sum256 store
          (investigate env redactors system_prompt submit_spec pricing get_diagnosis get_policy
            attempts w namespace name store).1

-- Any number of reconciles.
pub data Steps (sum256 : Text → Text) : List Diagnosis → List Diagnosis → Type 1 where
  stay : (s : List Diagnosis) → Steps sum256 s s
  go : {s t u : List Diagnosis} → Step sum256 s t → Steps sum256 t u → Steps sum256 s u

-- What a step does to the store, said without the controllers.
abbrev pub Transition : List Diagnosis → List Diagnosis → Type 0
Transition s t =
    (t ≡ s)
    ⊎ ((d : Diagnosis) × (exists d.namespace d.name s ≡ false)
        × ((d.status.phase ≡ Phase.unset) ⊎ (d.status.phase ≡ Phase.detected))
        × (t ≡ s ++ d ∷ []))
    ⊎ AllMoved Enriches s t
    ⊎ AllMoved Concludes s t

opening-Transition :
    (sum256 : Text → Text) (reads : Reads) (faults : Faults) (now : ℕ) (namespace name : Text)
    (store : List Diagnosis)
    → Transition store (reconcile sum256 reads faults now namespace name store).1
unfolding build_diagnosis detected_status
opening-Transition sum256 reads faults now namespace name store =
    elim (reconcile_opens sum256 reads faults now namespace name store) [
      | inl same ↦ inl same
      | inr (pod, signal, policy, workload, sig, key, grounds, (free, inl e)) ↦ inr (
          inl (
            marked now (build_diagnosis now pod workload signal policy key sig),
            free,
            inr refl,
            ap (λ z. z.1) e,
          ))
      | inr (pod, signal, policy, workload, sig, key, grounds, (free, inr (x, u, e))) ↦ inr (
          inl (
            build_diagnosis now pod workload signal policy key sig,
            free,
            inl refl,
            ap (λ z. z.1) e,
          ))
    ]

-- Every step is such a transition.
pub Step-Transition :
    {sum256 : Text → Text} {s t : List Diagnosis} → Step sum256 s t → Transition s t
Step-Transition (by_pod reads faults now namespace name store) =
    opening-Transition _ reads faults now namespace name store
Step-Transition (by_evidence redactors readers reads fault now namespace name store fresh) =
    inr (inr (inl (enrich_moves redactors readers reads fault now namespace name store fresh)))
Step-Transition
      (by_investigator env redactors system_prompt submit_spec pricing get_diagnosis get_policy
        attempts w namespace name store fresh) =
    inr (
      inr (
        inr (
          investigate_moves env redactors system_prompt submit_spec pricing get_diagnosis get_policy
            attempts w namespace name store fresh)))

-- ===== src/Controller/Concludes.antt =====
-- internal/controller/investigator_controller.go: how a diagnosis leaves the phase enriched.
use kube_cure.Prelude.{
  ℕ, zero, suc, true, ◌≡◌, inl, inr, refl, ap, sym, ◌∙◌, arith, Bool-cases, Option-cases, Option,
  none, some, List, [], ◌∷◌,
}
use kube_cure.Text.{Text}
use kube_cure.Api.Diagnosis
use kube_cure.Api.Diagnosis.{Diagnosis, DiagnosisStatus, Investigation, Phase, is_enriched}
use kube_cure.Api.Policy.{HealingPolicy}
use kube_cure.Agent.Model.{ToolSpec}
use kube_cure.Agent.Types.{Pricing}
use kube_cure.Agent.Loop.{Outcome}
use kube_cure.Cluster.{
  Answer, found, refused, ApiError, not_found, conflict, already_exists, api_failure,
}
use kube_cure.Evidence.Redact.{Redactor}
use kube_cure.Tools.Broker as tools
use kube_cure.Controller.Store.{update_status}
use kube_cure.Controller.Investigate.{
  Environment, Attempt, attempted, attempt_on, record_from, or_again, record_outcome, with_policy,
  investigate_read, investigate, hypothesized_status, investigation, retry_steps,
}
use kube_cure.Controller.Moves.{AllMoved, Fresh, AllMoved-refl, update-AllMoved}

-- From enriched to hypothesized, with the record of an investigation and the evidence kept.
abbrev pub Concludes : Diagnosis → DiagnosisStatus → Type 0
Concludes e s =
    (e.status.phase ≡ Phase.enriched)
    × (s.phase ≡ Phase.hypothesized)
    × ((inv : Investigation) × (s.investigation ≡ some inv))
    × (s.evidence ≡ e.status.evidence)

is_enriched-eq : (p : Phase) → is_enriched p ≡ true → p ≡ Phase.enriched
is_enriched-eq p h = ground arith

refused-keeps :
    (fault : Option ApiError) (sent : Diagnosis) (store : List Diagnosis) (e : ApiError)
    → (update_status fault sent store).0 ≡ some e
    → (update_status fault sent store).1 ≡ store
unfolding update_status
refused-keeps (some x) sent store e h = refl
refused-keeps none sent [] e h = refl
refused-keeps none sent (d ∷ ds) e h = ground (arith, refused-keeps none sent ds e)

module _ (inv : Investigation) (hs : List Diagnosis.Hypothesis) (attempts : ℕ → Attempt) where
  attempt-AllMoved :
      (a : Answer Diagnosis) (fault : Option ApiError) (now : ℕ) (store : List Diagnosis)
      → ((d : Diagnosis) → a ≡ found d → Fresh store d)
      → AllMoved Concludes store (attempt_on inv hs attempts a fault now store).1
  unfolding attempt_on hypothesized_status
  attempt-AllMoved (refused e) fault now store fresh = AllMoved-refl Concludes store
  attempt-AllMoved (found d) fault now store fresh =
      elim (Bool-cases (is_enriched d.status.phase)) [
        | inr other ↦ rw other (AllMoved-refl Concludes store)
        | inl enriched ↦ rw enriched (
            update-AllMoved Concludes fault d (hypothesized_status now inv hs d.status) store
              (fresh d refl)
              (λ e same. (
                ap (λ (z : DiagnosisStatus). z.phase) same ∙ is_enriched-eq d.status.phase enriched,
                refl,
                (inv, refl),
                ap (λ (z : DiagnosisStatus). z.evidence) (sym same),
              )))
      ]

  attempt-keeps :
      (a : Answer Diagnosis) (fault : Option ApiError) (now : ℕ) (store : List Diagnosis)
      (e : ApiError)
      → (attempt_on inv hs attempts a fault now store).0 ≡ some e
      → (attempt_on inv hs attempts a fault now store).1 ≡ store
  unfolding attempt_on
  attempt-keeps (refused x) fault now store e h = refl
  attempt-keeps (found d) fault now store e h = elim (Bool-cases (is_enriched d.status.phase)) [
    | inr other ↦ rw other refl
    | inl enriched ↦ rw enriched (refused-keeps fault _ store e (ground arith))
  ]

  conflict-of :
      (r : Option ApiError × List Diagnosis)
      → (attempted inv hs attempts r).0 ≡ none
      → r.0 ≡ some conflict
  unfolding attempted
  conflict-of (none, store) h = absurd (ground arith)
  conflict-of (some conflict, store) h = refl
  conflict-of (some not_found, store) h = absurd (ground arith)
  conflict-of (some already_exists, store) h = absurd (ground arith)
  conflict-of (some (api_failure why), store) h = absurd (ground arith)

  attempted-keeps : (r : Option ApiError × List Diagnosis) → (attempted inv hs attempts r).1 ≡ r.1
  unfolding attempted
  attempted-keeps (none, store) = refl
  attempted-keeps (some conflict, store) = refl
  attempted-keeps (some not_found, store) = refl
  attempted-keeps (some already_exists, store) = refl
  attempted-keeps (some (api_failure why), store) = refl

  record-AllMoved :
      (left i : ℕ) (store : List Diagnosis)
      → ((j : ℕ) (d : Diagnosis) → (attempts j).latest ≡ found d → Fresh store d)
      → AllMoved Concludes store (record_from inv hs attempts left i store).1
  unfolding record_from or_again
  record-AllMoved zero i store fresh = AllMoved-refl Concludes store
  record-AllMoved (suc left) i store fresh =
      let r =
        attempt_on inv hs attempts (attempts i).latest (attempts i).fault (attempts i).now store in
      let moved : AllMoved Concludes store (attempted inv hs attempts r).1 =
        rw (attempted-keeps r) (
          attempt-AllMoved (attempts i).latest (attempts i).fault (attempts i).now store
            (fresh i)) in
      elim (Option-cases (attempted inv hs attempts r).0) [
        | inr (out, e) ↦ rw e moved
        | inl e ↦
            let same : (attempted inv hs attempts r).1 ≡ store =
              attempted-keeps r
              ∙ attempt-keeps (attempts i).latest (attempts i).fault (attempts i).now store conflict
                  (conflict-of r e) in
            rw (e, same) (record-AllMoved left (suc i) store fresh)
      ]

module _ {W : Type 0} (env : Environment W) (redactors : List Redactor) (system_prompt : Text)
    (submit_spec : List Text → ToolSpec) (pricing : Pricing) where
  outcome-AllMoved :
      (attempts : ℕ → Attempt) (name provider : Text) (out : Outcome (W × tools.Broker))
      (store : List Diagnosis)
      → ((j : ℕ) (d : Diagnosis) → (attempts j).latest ≡ found d → Fresh store d)
      → AllMoved Concludes store
          (record_outcome env redactors system_prompt submit_spec pricing attempts name provider out
            store).1
  unfolding record_outcome
  outcome-AllMoved attempts name provider out store fresh = elim (Option-cases out.error) [
    | inr (why, e) ↦ rw e (AllMoved-refl Concludes store)
    | inl e ↦ rw e (record-AllMoved _ _ attempts retry_steps 0 store fresh)
  ]

  policy-AllMoved :
      (attempts : ℕ → Attempt) (d : Diagnosis) (w : W) (store : List Diagnosis)
      (a : Answer HealingPolicy)
      → ((j : ℕ) (d : Diagnosis) → (attempts j).latest ≡ found d → Fresh store d)
      → AllMoved Concludes store
          (with_policy env redactors system_prompt submit_spec pricing attempts d w store a).1
  unfolding with_policy
  policy-AllMoved attempts d w store (refused e) fresh = AllMoved-refl Concludes store
  policy-AllMoved attempts d w store (found policy) fresh =
      elim (Bool-cases policy.spec.agent.enabled) [
        | inr off ↦ rw off (AllMoved-refl Concludes store)
        | inl on ↦ elim (Option-cases env.model) [
          | inl e ↦ rw (on, e) (AllMoved-refl Concludes store)
          | inr (model, e) ↦
              rw (on, e)
                (outcome-AllMoved attempts d.name model.name
                  (investigation env redactors system_prompt submit_spec pricing model d
                    policy.spec.agent w)
                  store fresh)
        ]
      ]

  -- The investigator adds and removes nothing. It moves at most diagnoses in the phase enriched, each
  -- to the phase hypothesized with an investigation recorded and its evidence kept, and it changes
  -- nothing of them but the status and the version, whatever the model and the tools answer and however often the recording
  -- is refused, provided that a diagnosis read at the stored version has the stored status.
  pub investigate_moves :
      (get_diagnosis : Text → Text → Answer Diagnosis)
      (get_policy : Text → Text → Answer HealingPolicy) (attempts : ℕ → Attempt) (w : W)
      (namespace name : Text) (store : List Diagnosis)
      → ((j : ℕ) (d : Diagnosis) → (attempts j).latest ≡ found d → Fresh store d)
      → AllMoved Concludes store
          (investigate env redactors system_prompt submit_spec pricing get_diagnosis get_policy
            attempts w namespace name store).1
  unfolding investigate investigate_read
  investigate_moves get_diagnosis get_policy attempts w namespace name store fresh =
      read (get_diagnosis namespace name)
    where
      read :
          (a : Answer Diagnosis)
          → AllMoved Concludes store
              (investigate_read env redactors system_prompt submit_spec pricing get_policy attempts
                w store a).1
      read (refused e) = AllMoved-refl Concludes store
      read (found d) = elim (Bool-cases (is_enriched d.status.phase)) [
        | inr other ↦ rw other (AllMoved-refl Concludes store)
        | inl enriched ↦
            rw enriched
              (policy-AllMoved attempts d w store (get_policy d.namespace d.spec.policy_ref) fresh)
      ]

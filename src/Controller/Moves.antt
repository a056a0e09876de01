-- ===== src/Controller/Moves.antt =====
-- internal/controller: how the evidence and the investigator controllers move a diagnosis.
use kube_cure.Prelude.{
  ℕ, suc, true, ◌==◌, ◌≡◌, ◌⊎◌, inl, inr, refl, ap, ◌∙◌, arith, Bool-cases, ==_iff, Option, none,
  some, List, [], ◌∷◌, All,
}
use kube_cure.Text.{Text}
use kube_cure.Api.Evidence
use kube_cure.Api.Diagnosis.{Diagnosis, DiagnosisStatus, Phase, is_detected}
use kube_cure.Cluster.{
  Answer, found, refused, ApiError, not_found, conflict, already_exists, api_failure,
}
use kube_cure.Evidence.Redact.{Redactor}
use kube_cure.Evidence.Collect.{Target, Readers}
use kube_cure.Controller.Store.{update_status, same_object}
use kube_cure.Controller.Policy.{Reads}
use kube_cure.Controller.Enrich.{enriched_status, write_evidence, with_target, enrich_read, enrich}

-- The stored object is untouched, or its status was replaced in a way that `Q` allows and its version
-- went up; nothing else of it changes.
abbrev pub Moved : (Diagnosis → DiagnosisStatus → Type 0) → Diagnosis → Diagnosis → Type 0
Moved Q x y =
    (y ≡ x)
    ⊎ ((s : DiagnosisStatus) × (y
          ≡ record x { status = s; resource_version = suc x.resource_version })
        × Q x s)

-- The stores have the same objects, each moved.
abbrev pub AllMoved :
    (Diagnosis → DiagnosisStatus → Type 0) → List Diagnosis → List Diagnosis → Type 0
AllMoved Q [] [] = Unit
AllMoved Q (x ∷ xs) (y ∷ ys) = Moved Q x y × AllMoved Q xs ys
AllMoved Q _ _ = ⊥

-- What was read at the stored version has the stored status.
abbrev pub Fresh : List Diagnosis → Diagnosis → Type 0
Fresh store d =
    All
      (λ e.
        same_object d.namespace d.name e ≡ true
        → e.resource_version ≡ d.resource_version
        → e.status ≡ d.status)
      store

pub AllMoved-refl :
    (Q : Diagnosis → DiagnosisStatus → Type 0) (store : List Diagnosis) → AllMoved Q store store
AllMoved-refl Q [] = tt
AllMoved-refl Q (x ∷ xs) = (inl refl, AllMoved-refl Q xs)

pub update-AllMoved :
    (Q : Diagnosis → DiagnosisStatus → Type 0) (fault : Option ApiError) (d : Diagnosis)
    (s : DiagnosisStatus) (store : List Diagnosis)
    → Fresh store d
    → ((e : Diagnosis) → e.status ≡ d.status → Q e s)
    → AllMoved Q store (update_status fault (record d { status = s }) store).1
unfolding update_status
update-AllMoved Q (some e) d s store fresh allow = AllMoved-refl Q store
update-AllMoved Q none d s [] fresh allow = tt
update-AllMoved Q none d s (x ∷ store) (fresh, rest) allow =
    elim (Bool-cases (same_object d.namespace d.name x)) [
      | inr other ↦ rw other (inl refl, update-AllMoved Q none d s store rest allow)
      | inl same ↦ elim (Bool-cases (x.resource_version == d.resource_version)) [
        | inr stale ↦ rw (same, stale) (AllMoved-refl Q (x ∷ store))
        | inl current ↦
            rw (same, current)
              (
                inr (
                  s,
                  refl,
                  allow x (fresh same ((==_iff x.resource_version d.resource_version).0 current)),
                ),
                AllMoved-refl Q store,
              )
      ]
    ]

-- From detected to enriched, with evidence.
abbrev pub Enriches : Diagnosis → DiagnosisStatus → Type 0
Enriches e s =
    (e.status.phase ≡ Phase.detected)
    × (s.phase ≡ Phase.enriched)
    × ((ev : Evidence.Evidence) × (s.evidence ≡ some ev))

module _ (redactors : List Redactor) (readers : Readers) (reads : Reads) (fault : Option ApiError)
    (now : ℕ) where
  write-AllMoved :
      (d : Diagnosis) (ev : Evidence.Evidence) (store : List Diagnosis)
      → Fresh store d
      → d.status.phase ≡ Phase.detected
      → AllMoved Enriches store (write_evidence redactors readers reads fault now d ev store).1
  unfolding write_evidence enriched_status
  write-AllMoved d ev store fresh phase =
      update-AllMoved Enriches fault d (enriched_status now ev d.status) store fresh
        (λ e same. (ap (λ (z : DiagnosisStatus). z.phase) same ∙ phase, refl, (ev, refl)))

  target-AllMoved :
      (d : Diagnosis) (store : List Diagnosis) (a : Answer Target)
      → Fresh store d
      → d.status.phase ≡ Phase.detected
      → AllMoved Enriches store (with_target redactors readers reads fault now d store a).1
  unfolding with_target
  target-AllMoved d store (found target) fresh phase = write-AllMoved d _ store fresh phase
  target-AllMoved d store (refused not_found) fresh phase = write-AllMoved d _ store fresh phase
  target-AllMoved d store (refused conflict) fresh phase = AllMoved-refl Enriches store
  target-AllMoved d store (refused already_exists) fresh phase = AllMoved-refl Enriches store
  target-AllMoved d store (refused (api_failure why)) fresh phase = AllMoved-refl Enriches store

  is_detected-eq : (p : Phase) → is_detected p ≡ true → p ≡ Phase.detected
  is_detected-eq p h = ground arith

  enrich_read-AllMoved :
      (store : List Diagnosis) (a : Answer Diagnosis)
      → ((d : Diagnosis) → a ≡ found d → Fresh store d)
      → AllMoved Enriches store (enrich_read redactors readers reads fault now store a).1
  unfolding enrich_read
  enrich_read-AllMoved store (refused e) fresh = AllMoved-refl Enriches store
  enrich_read-AllMoved store (found d) fresh = elim (Bool-cases (is_detected d.status.phase)) [
    | inr other ↦ rw other (AllMoved-refl Enriches store)
    | inl detected ↦
        rw detected
          (target-AllMoved d store _ (fresh d refl) (is_detected-eq d.status.phase detected))
  ]

  -- The evidence controller adds and removes nothing. It moves at most diagnoses in the phase
  -- detected, each to the phase enriched with evidence recorded, and it changes nothing of them but
  -- the status and the version, provided that a diagnosis read at the stored version has the
  -- stored status.
  pub enrich_moves :
      (namespace name : Text) (store : List Diagnosis)
      → ((d : Diagnosis) → reads.get_diagnosis namespace name ≡ found d → Fresh store d)
      → AllMoved Enriches store (enrich redactors readers reads fault now namespace name store).1
  unfolding enrich
  enrich_moves namespace name store fresh =
      enrich_read-AllMoved store (reads.get_diagnosis namespace name) fresh

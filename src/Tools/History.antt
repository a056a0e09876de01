-- ===== src/Tools/History.antt =====
-- internal/tools/catalog.go: the loop of `runSimilar` over the history.
use kube_cure.Prelude.{
  ℕ, zero, suc, ◌≡◌, ◌≢◌, ◌↔◌, ◌⊎◌, inl, inr, refl, true, none, some, List, [], ◌∷◌, arith,
  Bool-cases, List-cases,
}
use kube_cure.Text.{Text, text_eq_iff}
use kube_cure.Api.Failure.{failure_text}
use kube_cure.Api.Diagnosis.{Diagnosis, Hypothesis}
use kube_cure.Tools.Scope.{Scope}
use kube_cure.Tools.Catalog.{SimilarEntry, is_similar, similar_entry, similar_entries}

-- An entry of the table is about the diagnosis: it has its name, its creation time and its phase, and
-- the root cause of its first hypothesis, if it has one.
pub record IsAbout (d : Diagnosis) (e : SimilarEntry) : Type 0 where
  pub named : e.diagnosis ≡ d.name
  pub dated : e.created ≡ d.creation_timestamp
  pub staged : e.phase ≡ d.status.phase
  pub explained :
      ((d.status.hypotheses ≡ []) × (e.root_cause ≡ none))
      ⊎ ((h : Hypothesis) × (hs : List Hypothesis) × (d.status.hypotheses ≡ h ∷ hs)
          × (e.root_cause ≡ some h.root_cause))

-- Another diagnosis than that of the scope, of the wanted failure type.
abbrev pub Similar : Scope → Text → Diagnosis → Type 0
Similar scope wanted d =
    (d.name ≢ scope.diagnosis_name) × (failure_text d.spec.failure_type ≡ wanted)

-- The entries are about the first similar diagnoses, in order, as many as there is room for.
pub data Searched (scope : Scope) (wanted : Text)
    : ℕ → List Diagnosis → List SimilarEntry → Type 0 where
  full : (ds : List Diagnosis) → Searched scope wanted zero ds []
  over : (room : ℕ) → Searched scope wanted room [] []
  skipped :
      (room : ℕ) (d : Diagnosis) (ds : List Diagnosis) (es : List SimilarEntry)
      → (Similar scope wanted d → ⊥)
      → Searched scope wanted room ds es
      → Searched scope wanted room (d ∷ ds) es
  taken :
      (room : ℕ) (d : Diagnosis) (ds : List Diagnosis) (e : SimilarEntry) (es : List SimilarEntry)
      → Similar scope wanted d
      → IsAbout d e
      → Searched scope wanted room ds es
      → Searched scope wanted (suc room) (d ∷ ds) (e ∷ es)

similar_entry-IsAbout : (d : Diagnosis) → IsAbout d (similar_entry d)
unfolding similar_entry
similar_entry-IsAbout d = record {
  named = refl;
  dated = refl;
  staged = refl;
  explained = elim (List-cases d.status.hypotheses) [
    | inl e ↦ inl (e, rw e refl)
    | inr (h, hs, e) ↦ inr (h, hs, e, rw e refl)
  ];
}

is_similar-Similar :
    (scope : Scope) (wanted : Text) (d : Diagnosis)
    → (is_similar scope wanted d ≡ true) ↔ Similar scope wanted d
unfolding is_similar
is_similar-Similar scope wanted d =
    let name = text_eq_iff d.name scope.diagnosis_name in
    let type = text_eq_iff (failure_text d.spec.failure_type) wanted in
    (λ h. (λ e. ground (arith, name), ground (arith, type)), λ h. ground (arith, name, type))

-- The search of the history, which stops when its table is full, gives one entry for each of the first
-- diagnoses of the wanted failure type that are not the one under investigation, in the order of
-- the history and as many as there is room for, with the name, the time, the phase and the first root
-- cause of that diagnosis.
pub similar_entries_lem :
    (scope : Scope) (wanted : Text) (room : ℕ) (ds : List Diagnosis)
    → Searched scope wanted room ds (similar_entries scope wanted room ds)
unfolding similar_entries
similar_entries_lem scope wanted zero ds = full ds
similar_entries_lem scope wanted (suc room) [] = over (suc room)
similar_entries_lem scope wanted (suc room) (d ∷ ds) =
    elim (Bool-cases (is_similar scope wanted d)) [
      | inl e ↦
          rw (e, similar_entries)
            (taken room d ds (similar_entry d) (similar_entries scope wanted room ds)
              ((is_similar-Similar scope wanted d).0 e) (similar_entry-IsAbout d)
              (similar_entries_lem scope wanted room ds))
      | inr e ↦
          rw (e, similar_entries)
            (skipped (suc room) d ds (similar_entries scope wanted (suc room) ds)
              (λ s. ground (arith, (is_similar-Similar scope wanted d).1 s))
              (similar_entries_lem scope wanted (suc room) ds))
    ]

-- ===== src/Agent/Spec.antt =====
-- What internal/agent/findings.go demands of a submission, said without its list of problems.
use kube_cure.Prelude.{
  ◌≤◌, ℤ, pos, ◌≤ℤ◌, true, ◌≡◌, ◌≢◌, ◌⊎◌, inl, inr, List, [], ◌∷◌, length, All, arith, Bool-cases,
}
use kube_cure.Text.{Text, text_eq, text_eq_iff, trim_space}
use kube_cure.Api.Failure.{Action}
use kube_cure.Agent.Types.{Hypothesis}
use kube_cure.Agent.Findings.{RawHypothesis, ledger_get, in_ledger, is_allowed}

-- The identifier stands in the ledger.
abbrev pub Cited : List (Text × Text) → Text → Type 0
Cited [] id = ⊥
Cited ((key, kind) ∷ rest) id = (key ≡ id) ⊎ Cited rest id

abbrev pub OneOf : List Text → Text → Type 0
OneOf [] a = ⊥
OneOf (x ∷ xs) a = (x ≡ a) ⊎ OneOf xs a

abbrev pub ActionOk : List Text → Action → Type 0
ActionOk allowed a = OneOf allowed a.type × (length a.value ≤ 253)

pub record Sound (ledger : List (Text × Text)) (allowed : List Text) (cause : Text) (confidence : ℤ)
    (citations : List Text) (actions : List Action) : Type 0 where
  pub explained : cause ≢ []
  pub brief : length cause ≤ 2048
  pub nonnegative : pos 0 ≤ℤ confidence
  pub percent : confidence ≤ℤ pos 100
  pub supported : citations ≢ []
  pub cited : All (Cited ledger) citations
  pub permitted : All (ActionOk allowed) actions

-- A hypothesis as submitted.
abbrev pub RawOk : List (Text × Text) → List Text → RawHypothesis → Type 0
RawOk ledger allowed h =
    Sound ledger allowed (trim_space h.root_cause) h.confidence_percent h.evidence_citations
      h.proposed_actions

-- A hypothesis as reported.
abbrev pub HypothesisOk : List (Text × Text) → List Text → Hypothesis → Type 0
HypothesisOk ledger allowed h =
    Sound ledger allowed h.root_cause h.confidence_percent h.evidence_citations h.proposed_actions

abbrev pub SubmissionOk : List (Text × Text) → List Text → List RawHypothesis → Type 0
SubmissionOk ledger allowed hs = (1 ≤ length hs) × (length hs ≤ 5) × All (RawOk ledger allowed) hs

pub in_ledger-Cited :
    (ledger : List (Text × Text)) (id : Text) → in_ledger ledger id ≡ true → Cited ledger id
unfolding in_ledger ledger_get
in_ledger-Cited [] id h = ground arith
in_ledger-Cited ((key, kind) ∷ rest) id h = elim (Bool-cases (text_eq key id)) [
  | inl e ↦ inl ((text_eq_iff key id).0 e)
  | inr e ↦ inr (in_ledger-Cited rest id (ground arith))
]

pub Cited-in_ledger :
    (ledger : List (Text × Text)) (id : Text) → Cited ledger id → in_ledger ledger id ≡ true
unfolding in_ledger ledger_get
Cited-in_ledger [] id h = absurd h
Cited-in_ledger ((key, kind) ∷ rest) id (inl e) = ground (arith, text_eq_iff key id)
Cited-in_ledger ((key, kind) ∷ rest) id (inr h) = ground (arith, Cited-in_ledger rest id h)

pub is_allowed-OneOf :
    (allowed : List Text) (a : Text) → is_allowed allowed a ≡ true → OneOf allowed a
unfolding is_allowed
is_allowed-OneOf [] a h = ground arith
is_allowed-OneOf (x ∷ xs) a h = elim (Bool-cases (text_eq x a)) [
  | inl e ↦ inl ((text_eq_iff x a).0 e)
  | inr e ↦ inr (is_allowed-OneOf xs a (ground arith))
]

pub OneOf-is_allowed :
    (allowed : List Text) (a : Text) → OneOf allowed a → is_allowed allowed a ≡ true
unfolding is_allowed
OneOf-is_allowed [] a h = absurd h
OneOf-is_allowed (x ∷ xs) a (inl e) = ground (arith, text_eq_iff x a)
OneOf-is_allowed (x ∷ xs) a (inr h) = ground (arith, OneOf-is_allowed xs a h)

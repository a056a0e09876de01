-- ===== src/Agent/Gate.antt =====
-- internal/agent: what an accepted submission guarantees (`accept` of investigator.go over
-- `validateSubmission` of findings.go).
use kube_cure.Prelude.{
  suc, ◌≤◌, pos, true, false, Bool-cases, List-cases, ◌≡◌, ◌≢◌, inl, inr, List, [], ◌∷◌, ◌++◌,
  length, All, arith, refl, map, ap, ◌⊎◌,
}
use kube_cure.Text.{Text}
use kube_cure.Json.{RawMessage, JsonError, Decoded, decoded, invalid}
use kube_cure.Agent.Types.{Hypothesis}
use kube_cure.Agent.Findings.{
  RawHypothesis, Validated, valid, problems, decode_submission, submission_problems,
  validate_submission, rank, cap_confidence, to_hypothesis, degraded_confidence_cap,
}
use kube_cure.Agent.Spec.{HypothesisOk, SubmissionOk}
use kube_cure.Agent.Valid.{submission_problems_iff}
use kube_cure.Agent.Ranking.{
  Ranked, NumberedFrom, LeastOf, rank-Ranked, rank-NumberedFrom, rank-All, length-rank,
}
use kube_cure.Agent.Ceiling.{
  cap-LeastOf_self, cap-Ranked, cap-NumberedFrom, length-cap, cap-HypothesisOk,
  to_hypothesis-HypothesisOk,
}
use kube_cure.Agent.State.{
  LoopState, accept, accept_valid, missing_obtainable, missing_unobtainable, tool_budget_left,
  is_nil,
}

-- What is known of reported hypotheses, by the ledger and the permitted actions.
pub record Report (ledger : List (Text × Text)) (allowed : List Text) (hs : List Hypothesis)
    : Type 0 where
  pub some_given : 1 ≤ length hs
  pub few : length hs ≤ 5
  pub sound : All (HypothesisOk ledger allowed) hs
  pub ranked : Ranked hs
  pub numbered : NumberedFrom 0 hs

length-map : {A B : Type 0} (f : A → B) (xs : List A) → length (map f xs) ≡ length xs
length-map f [] = refl
length-map f (x ∷ xs) = ap suc (length-map f xs)

rank-HypothesisOk :
    (ledger : List (Text × Text)) (allowed : List Text) (hs : List Hypothesis)
    → All (HypothesisOk ledger allowed) hs
    → All (HypothesisOk ledger allowed) (rank hs)
rank-HypothesisOk ledger allowed = rank-All (HypothesisOk ledger allowed) (λ h id r k. k)

rank-Report :
    (ledger : List (Text × Text)) (allowed : List Text) (raw : List RawHypothesis)
    → SubmissionOk ledger allowed raw
    → Report ledger allowed (rank (map to_hypothesis raw))
rank-Report ledger allowed raw k =
    let n = length-rank (map to_hypothesis raw) in
    let m = length-map to_hypothesis raw in
    record {
      some_given = omega (arith, n, m);
      few = omega (arith, n, m);
      sound =
          rank-HypothesisOk ledger allowed _ (to_hypothesis-HypothesisOk ledger allowed raw k.2);
      ranked = rank-Ranked _;
      numbered = rank-NumberedFrom _;
    }

pub Decoded-cases :
    {A : Type 0} (d : Decoded A) → ((a : A) × (d ≡ decoded a)) ⊎ ((e : JsonError) × (d ≡ invalid e))
Decoded-cases (decoded a) = inl (a, refl)
Decoded-cases (invalid e) = inr (e, refl)

validate-Report :
    (arguments : RawMessage) (ledger : List (Text × Text)) (allowed : List Text)
    (hs : List Hypothesis)
    → validate_submission arguments ledger allowed ≡ valid hs
    → Report ledger allowed hs
unfolding validate_submission
validate-Report arguments ledger allowed hs h = elim (Decoded-cases (decode_submission arguments)) [
  | inr (e, d) ↦ absurd (ground arith)
  | inl (raw, d) ↦ elim (List-cases (submission_problems ledger allowed raw)) [
    | inr (p, ps, e) ↦ absurd (ground arith)
    | inl e ↦
        let same : rank (map to_hypothesis raw) ≡ hs = ground arith in
        rw same at
          (rank-Report ledger allowed raw ((submission_problems_iff ledger allowed raw).0 e))
  ]
]

cap-Report :
    (ledger : List (Text × Text)) (allowed : List Text) (hs : List Hypothesis)
    → Report ledger allowed hs
    → Report ledger allowed (cap_confidence degraded_confidence_cap hs)
cap-Report ledger allowed hs r =
    let n = length-cap degraded_confidence_cap hs in
    record {
      some_given = omega (arith, n, r.some_given);
      few = omega (arith, n, r.few);
      sound = cap-HypothesisOk degraded_confidence_cap ledger allowed hs (omega arith) r.sound;
      ranked = cap-Ranked degraded_confidence_cap hs r.ranked;
      numbered = cap-NumberedFrom degraded_confidence_cap 0 hs r.numbered;
    }

abbrev pub missing : LoopState → List Text
missing st = missing_unobtainable st.input.requirements ++ missing_obtainable st.input.requirements

-- What accepting `hs` in state `st` and going on in `st'` guarantees.
pub record Accepted (st : LoopState) (hs : List Hypothesis) (st' : LoopState) : Type 0 where
  pub report : Report st.ledger st.input.allowed_actions hs
  pub gathered : (tool_budget_left st ≡ false) ⊎ (missing_obtainable st.input.requirements ≡ [])
  pub outcome :
      ((missing st ≡ []) × (st' ≡ st))
      ⊎ ((missing st ≢ [])
          × LeastOf (pos 70) hs
          × (st' ≡ record st {
            findings = record st.findings { degraded = true; missing_required = missing st };
          }))

is_nil-eq : {A : Type 0} (xs : List A) → is_nil xs ≡ true → xs ≡ []
is_nil-eq [] h = refl
is_nil-eq (x ∷ xs) h = absurd (ground arith)

module _ (hs : List Hypothesis) (st : LoopState) (out : List Hypothesis) (st' : LoopState) where
  passes :
      accept_valid hs st ≡ (valid out, st')
      → tool_budget_left st ≡ true
      → missing_obtainable st.input.requirements ≡ []
  unfolding accept_valid
  passes h b = is_nil-eq _ (ground arith)

  gate :
      accept_valid hs st ≡ (valid out, st')
      → (tool_budget_left st ≡ false) ⊎ (missing_obtainable st.input.requirements ≡ [])
  gate h = elim (Bool-cases (tool_budget_left st)) [
    | inl left ↦ inr (passes h left)
    | inr spent ↦ inl spent
  ]

  unchanged : accept_valid hs st ≡ (valid out, st') → missing st ≡ [] → (hs ≡ out) × (st' ≡ st)
  unfolding accept_valid
  unchanged h m = (ground arith, ground arith)

  lowered :
      (x : Text) (xs : List Text)
      → accept_valid hs st ≡ (valid out, st')
      → missing st ≡ x ∷ xs
      → (cap_confidence degraded_confidence_cap hs ≡ out)
        × (st' ≡ record st {
          findings = record st.findings { degraded = true; missing_required = missing st };
        })
  unfolding accept_valid
  lowered x xs h m = (ground arith, ground arith)

  accept_valid-Accepted :
      Report st.ledger st.input.allowed_actions hs
      → accept_valid hs st ≡ (valid out, st')
      → Accepted st out st'
  accept_valid-Accepted r h = elim (List-cases (missing st)) [
    | inl m ↦
        let u = unchanged h m in
        record { report = rw u.0 at r; gathered = gate h; outcome = inl (m, u.1) }
    | inr (x, xs, m) ↦
        let l = lowered x xs h m in
        record {
          report = rw l.0 at (cap-Report st.ledger st.input.allowed_actions hs r);
          gathered = gate h;
          outcome =
              inr (λ n. ground arith, rw l.0 at (cap-LeastOf_self degraded_confidence_cap hs), l.1);
        }
  ]

Validated-cases :
    (v : Validated)
    → ((hs : List Hypothesis) × (v ≡ valid hs)) ⊎ ((ps : List Text) × (v ≡ problems ps))
Validated-cases (valid hs) = inl (hs, refl)
Validated-cases (problems ps) = inr (ps, refl)

-- An accepted submission has between one and five hypotheses. Each has a root cause, a confidence
-- from 0 to 100, citations that all stand in the ledger and permitted actions only; they are ranked
-- by falling confidence and numbered from 1. While tool calls are left, no required evidence that
-- can be obtained is missing. If required evidence is missing after all, the findings are marked as
-- degraded and name it, and no confidence is above 70; otherwise the state is as before.
pub accept_gate :
    (arguments : RawMessage) (st : LoopState) (hs : List Hypothesis) (st' : LoopState)
    → accept arguments st ≡ (valid hs, st')
    → Accepted st hs st'
unfolding accept
accept_gate arguments st hs st' h =
    elim (Validated-cases (validate_submission arguments st.ledger st.input.allowed_actions)) [
      | inl (found, e) ↦
          accept_valid-Accepted found st hs st'
            (validate-Report arguments st.ledger st.input.allowed_actions found e) (ground arith)
      | inr (ps, e) ↦ absurd (ground arith)
    ]

-- A rejected submission leaves the state as it was.
pub accept_rejects :
    (arguments : RawMessage) (st : LoopState) (ps : List Text) (st' : LoopState)
    → accept arguments st ≡ (problems ps, st')
    → st' ≡ st
unfolding accept accept_valid
accept_rejects arguments st ps st' h = ground arith

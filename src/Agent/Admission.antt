-- ===== src/Agent/Admission.antt =====
-- internal/agent/investigator.go: exactly which submissions `accept` takes.
use kube_cure.Prelude.{
  ◌≤◌, true, false, Bool-cases, List-cases, ◌≡◌, ◌↔◌, ◌⊎◌, inl, inr, refl, ◌∙◌, List, [], ◌∷◌, ◌++◌,
  map, not, ◌&&◌, All, arith,
}
use kube_cure.Text.{Text, codes, join}
use kube_cure.Json.{RawMessage, JsonError, decoded, invalid, json_error_text}
use kube_cure.Agent.Types.{Hypothesis, Requirement}
use kube_cure.Agent.Findings.{
  RawHypothesis, valid, problems, decode_submission, submission_problems, validate_submission, rank,
  to_hypothesis, cap_confidence, degraded_confidence_cap,
}
use kube_cure.Agent.Spec.{SubmissionOk}
use kube_cure.Agent.Valid.{submission_problems_iff}
use kube_cure.Agent.Gate.{Decoded-cases}
use kube_cure.Agent.State.{
  LoopState, accept, accept_valid, missing_obtainable, missing_unobtainable, tool_budget_left,
  is_nil,
}

-- Required evidence that was gathered, or cannot be.
abbrev pub Settled : Requirement → Type 0
Settled r = (r.collected ≡ true) ⊎ (r.obtainable ≡ false)

Settled-iff : (rs : List Requirement) → (missing_obtainable rs ≡ []) ↔ All Settled rs
unfolding missing_obtainable
Settled-iff [] = (λ h. tt, λ h. refl)
Settled-iff (r ∷ rs) = elim (Bool-cases r.collected) [
  | inl c ↦
      (λ h. (inl c, (Settled-iff rs).0 (ground arith)), λ h. ground (arith, (Settled-iff rs).1 h.1))
  | inr c ↦ elim (Bool-cases r.obtainable) [
    | inl o ↦ (λ h. absurd (ground arith), λ h. absurd (ground arith))
    | inr o ↦ (
      λ h. (inr o, (Settled-iff rs).0 (ground arith)),
      λ h. ground (arith, (Settled-iff rs).1 h.1),
    )
  ]
]

module _ (arguments : RawMessage) (st : LoopState) where
  -- The calls of the budget have been made, or no required evidence is left to be gathered.
  abbrev pub MayConclude : Type 0
  MayConclude =
      (st.input.budget.max_tool_calls ≤ st.findings.tool_calls) ⊎ All Settled st.input.requirements

  abbrev pub Admissible : Type 0
  Admissible =
      (raw : List RawHypothesis) × (decode_submission arguments ≡ decoded raw)
      × SubmissionOk st.ledger st.input.allowed_actions raw
      × MayConclude

  abbrev pub Accepts : Type 0
  Accepts = (hs : List Hypothesis) × (st' : LoopState) × (accept arguments st ≡ (valid hs, st'))

  -- With at least one problem, and the state as it was.
  abbrev pub Rejects : Type 0
  Rejects = (p : Text) × (ps : List Text) × (accept arguments st ≡ (problems (p ∷ ps), st))

  abbrev GateAccepts : List Hypothesis → Type 0
  GateAccepts hs =
      (out : List Hypothesis) × (st' : LoopState) × (accept_valid hs st ≡ (valid out, st'))

  open_gate :
      (hs : List Hypothesis)
      → (not (is_nil (missing_obtainable st.input.requirements)) && tool_budget_left st) ≡ false
      → GateAccepts hs
  unfolding accept_valid
  open_gate hs h =
      let missing =
        missing_unobtainable st.input.requirements ++ missing_obtainable st.input.requirements in
      elim (Bool-cases (is_nil missing)) [
        | inl e ↦ (hs, st, ground arith)
        | inr e ↦ (
          cap_confidence degraded_confidence_cap hs,
          record st {
            findings = record st.findings { degraded = true; missing_required = missing };
          },
          ground arith,
        )
      ]

  shut_gate :
      (hs : List Hypothesis) (x : Text) (xs : List Text)
      → missing_obtainable st.input.requirements ≡ x ∷ xs
      → tool_budget_left st ≡ true
      → (p : Text) × (accept_valid hs st ≡ (problems (p ∷ []), st))
  unfolding accept_valid
  shut_gate hs x xs m left = (
    codes "required evidence has not been gathered yet: "
        ++ join (codes ", ") (missing_obtainable st.input.requirements),
    ground arith,
  )

  budget_spent :
      tool_budget_left st ≡ false → st.input.budget.max_tool_calls ≤ st.findings.tool_calls
  unfolding tool_budget_left
  budget_spent h = ground arith

  still_missing :
      (x : Text) (xs : List Text)
      → tool_budget_left st ≡ true
      → missing_obtainable st.input.requirements ≡ x ∷ xs
      → MayConclude
      → ⊥
  unfolding tool_budget_left
  still_missing x xs left m (inl h) = ground arith
  still_missing x xs left m (inr h) = ground (arith, (Settled-iff st.input.requirements).1 h)

  gate_decides :
      (hs : List Hypothesis)
      → (MayConclude × GateAccepts hs)
        ⊎ ((MayConclude → ⊥) × ((p : Text) × (accept_valid hs st ≡ (problems (p ∷ []), st))))
  gate_decides hs = elim (Bool-cases (tool_budget_left st)) [
    | inr spent ↦ inl (inl (budget_spent spent), open_gate hs (ground arith))
    | inl left ↦ elim (List-cases (missing_obtainable st.input.requirements)) [
      | inl m ↦ inl (inr ((Settled-iff st.input.requirements).0 m), open_gate hs (rw m refl))
      | inr (x, xs, m) ↦ inr (still_missing x xs left m, shut_gate hs x xs m left)
    ]
  ]

  unproblematic :
      (raw : List RawHypothesis)
      → decode_submission arguments ≡ decoded raw
      → submission_problems st.ledger st.input.allowed_actions raw ≡ []
      → (hs : List Hypothesis) × (accept arguments st ≡ accept_valid hs st)
  unfolding accept validate_submission
  unproblematic raw d e = (rank (map to_hypothesis raw), ground arith)

  ill_formed : (e : JsonError) → decode_submission arguments ≡ invalid e → Rejects
  unfolding accept validate_submission
  ill_formed e d = (
    codes "the submission is not valid against the schema: " ++ json_error_text e,
    [],
    ground arith,
  )

  problematic :
      (raw : List RawHypothesis) (p : Text) (ps : List Text)
      → decode_submission arguments ≡ decoded raw
      → submission_problems st.ledger st.input.allowed_actions raw ≡ p ∷ ps
      → Rejects
  unfolding accept validate_submission
  problematic raw p ps d e = (p, ps, ground arith)

  decoded-decides :
      (raw : List RawHypothesis)
      → decode_submission arguments ≡ decoded raw
      → (Accepts × Admissible) ⊎ (Rejects × (Admissible → ⊥))
  decoded-decides raw d =
      let ok_iff = submission_problems_iff st.ledger st.input.allowed_actions raw in
      elim (List-cases (submission_problems st.ledger st.input.allowed_actions raw)) [
        | inr (p, ps, e) ↦ inr (
          problematic raw p ps d e,
          λ (raw', d', good, may).
              let same : raw' ≡ raw = cc in absurd (ground (arith, ok_iff.1 (rw same at good))),
        )
        | inl e ↦
            let (hs, passed) = unproblematic raw d e in
            elim (gate_decides hs) [
              | inl (may, (out, st', got)) ↦
                  inl ((out, st', passed ∙ got), (raw, d, ok_iff.0 e, may))
              | inr (shut, (p, got)) ↦
                  inr ((p, [], passed ∙ got), λ (raw', d', good, may). shut may)
            ]
      ]

  decides : (Accepts × Admissible) ⊎ (Rejects × (Admissible → ⊥))
  decides = elim (Decoded-cases (decode_submission arguments)) [
    | inr (e, d) ↦ inr (ill_formed e d, λ (raw, d', good, may). absurd (ground arith))
    | inl (raw, d) ↦ decoded-decides raw d
  ]

  clash :
      Rejects → (hs : List Hypothesis) (st' : LoopState) → accept arguments st ≡ (valid hs, st') → ⊥
  clash (p, ps, rejected) hs st' accepted = ground arith

  -- A submission is accepted exactly if it decodes to hypotheses that meet every demand and either the
  -- budget of calls is spent or each requirement was gathered or cannot be. Any other submission is
  -- rejected with at least one problem and leaves the state as it was.
  pub accept_exact : (Accepts ↔ Admissible) × (Rejects ↔ (Admissible → ⊥))
  accept_exact = elim decides [
    | inl ((hs, st', accepted), good) ↦ (
      (λ h. good, λ h. (hs, st', accepted)),
      (λ r. absurd (clash r hs st' accepted), λ h. absurd (h good)),
    )
    | inr (rejection, bad) ↦ (
      (λ (hs, st', accepted). absurd (clash rejection hs st' accepted), λ h. absurd (bad h)),
      (λ h. bad, λ h. rejection),
    )
  ]

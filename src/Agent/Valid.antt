-- ===== src/Agent/Valid.antt =====
-- internal/agent/findings.go: a submission has no problem exactly when it meets the demands.
use kube_cure.Prelude.{
  ℕ, suc, ◌+◌, ◌≤◌, pos, ◌≤ℤ◌, Bool, true, false, not, ◌||◌, ◌≡◌, ◌≢◌, ◌↔◌, List, [], ◌∷◌, ◌++◌,
  length, All, arith, ltb, ltb_ℤ, ◌==◌, refl,
}
use kube_cure.Text.{Text, codes, trim_space, show_nat}
use kube_cure.Api.Failure.{Action}
use kube_cure.Agent.Findings.{
  RawHypothesis, in_ledger, is_allowed, complain, no_citation, cause_problems, citation_problems,
  action_problems, hypothesis_problems, problems_from, submission_problems,
}
use kube_cure.Agent.Spec.{
  Cited, ActionOk, RawOk, SubmissionOk, in_ledger-Cited, Cited-in_ledger, is_allowed-OneOf,
  OneOf-is_allowed,
}

complain-nil :
    (b : Bool) (t : Text) (rest : List Text)
    → (complain b t ++ rest ≡ []) ↔ ((b ≡ false) × (rest ≡ []))
complain-nil true t rest = (λ h. absurd (ground arith), λ h. absurd (ground arith))
complain-nil false t rest = (λ h. (refl, h), λ h. h.1)

append-nil_iff : {A : Type 0} (xs ys : List A) → (xs ++ ys ≡ []) ↔ ((xs ≡ []) × (ys ≡ []))
append-nil_iff [] ys = (λ h. (refl, h), λ h. h.1)
append-nil_iff (x ∷ xs) ys = (λ h. absurd (ground arith), λ h. absurd (ground arith))

module _ (label : Text) where
  cause_iff :
      (cause : Text) → (cause_problems label cause ≡ []) ↔ ((cause ≢ []) × (length cause ≤ 2048))
  unfolding cause_problems
  cause_iff [] = (λ h. absurd (ground arith), λ h. absurd (h.0 refl))
  cause_iff (c ∷ s) = (λ h. (λ e. cc, ground arith), λ h. ground arith)

  citation_iff :
      (ledger : List (Text × Text)) (cs : List Text)
      → (citation_problems label ledger cs ≡ []) ↔ All (Cited ledger) cs
  unfolding citation_problems
  citation_iff ledger [] = (λ h. tt, λ h. refl)
  citation_iff ledger (c ∷ cs) = (
    λ h.
        let p = (complain-nil (not (in_ledger ledger c)) _ _).0 h in
        (in_ledger-Cited ledger c (ground arith), (citation_iff ledger cs).0 p.1),
    λ h.
        (complain-nil (not (in_ledger ledger c)) _ _).1
          (ground (arith, Cited-in_ledger ledger c h.0), (citation_iff ledger cs).1 h.1),
  )

  action_iff :
      (allowed : List Text) (as' : List Action)
      → (action_problems label allowed as' ≡ []) ↔ All (ActionOk allowed) as'
  unfolding action_problems
  action_iff allowed [] = (λ h. tt, λ h. refl)
  action_iff allowed (a ∷ rest) = (
    λ h.
        let p = (complain-nil (not (is_allowed allowed a.type)) _ _).0 h in
        let q = (complain-nil (ltb 253 (length a.value)) _ _).0 p.1 in
        (
          (is_allowed-OneOf allowed a.type (ground arith), ground arith),
          (action_iff allowed rest).0 q.1,
        ),
    λ h. (complain-nil (not (is_allowed allowed a.type)) _ _).1 (
      ground (arith, OneOf-is_allowed allowed a.type h.0.0),
      (complain-nil (ltb 253 (length a.value)) _ _).1
          (ground arith, (action_iff allowed rest).1 h.1),
    ),
  )

  no_citation_iff : (cs : List Text) → (no_citation cs ≡ false) ↔ (cs ≢ [])
  no_citation_iff [] = (λ h. absurd (ground arith), λ h. absurd (h refl))
  no_citation_iff (c ∷ cs) = (λ h e. cc, λ h. refl)

  hypothesis_iff :
      (ledger : List (Text × Text)) (allowed : List Text) (h : RawHypothesis)
      → (hypothesis_problems label ledger allowed h ≡ []) ↔ RawOk ledger allowed h
  unfolding hypothesis_problems
  hypothesis_iff ledger allowed h = (forth, back)
    where
      outside : Bool
      outside = ltb_ℤ h.confidence_percent (pos 0) || ltb_ℤ (pos 100) h.confidence_percent

      inside :
          (outside ≡ false) ↔ ((pos 0 ≤ℤ h.confidence_percent) × (h.confidence_percent ≤ℤ pos 100))
      inside = (λ e. (ground arith, ground arith), λ e. ground arith)

      forth : hypothesis_problems label ledger allowed h ≡ [] → RawOk ledger allowed h
      forth e =
          let p = (append-nil_iff (cause_problems label (trim_space h.root_cause)) _).0 e in
          let c = (cause_iff (trim_space h.root_cause)).0 p.0 in
          let q = (complain-nil outside _ _).0 p.1 in
          let r = (complain-nil (no_citation h.evidence_citations) _ _).0 q.1 in
          let s = (append-nil_iff (citation_problems label ledger h.evidence_citations) _).0 r.1 in
          record {
            explained = c.0;
            brief = c.1;
            nonnegative = (inside.0 q.0).0;
            percent = (inside.0 q.0).1;
            supported = (no_citation_iff h.evidence_citations).0 r.0;
            cited = (citation_iff ledger h.evidence_citations).0 s.0;
            permitted = (action_iff allowed h.proposed_actions).0 s.1;
          }

      back : RawOk ledger allowed h → hypothesis_problems label ledger allowed h ≡ []
      back k = (append-nil_iff (cause_problems label (trim_space h.root_cause)) _).1 (
        (cause_iff (trim_space h.root_cause)).1 (k.explained, k.brief),
        (complain-nil outside _ _).1 (
          inside.1 (k.nonnegative, k.percent),
          (complain-nil (no_citation h.evidence_citations) _ _).1 (
            (no_citation_iff h.evidence_citations).1 k.supported,
            (append-nil_iff (citation_problems label ledger h.evidence_citations) _).1 (
              (citation_iff ledger h.evidence_citations).1 k.cited,
              (action_iff allowed h.proposed_actions).1 k.permitted,
            ),
          ),
        ),
      )

problems_from_iff :
    (i : ℕ) (ledger : List (Text × Text)) (allowed : List Text) (hs : List RawHypothesis)
    → (problems_from i ledger allowed hs ≡ []) ↔ All (RawOk ledger allowed) hs
unfolding problems_from
problems_from_iff i ledger allowed [] = (λ h. tt, λ h. refl)
problems_from_iff i ledger allowed (h ∷ hs) =
    let one = hypothesis_iff (codes "hypothesis " ++ show_nat (i + 1)) ledger allowed h in
    let rest = problems_from_iff (suc i) ledger allowed hs in
    (
      λ e.
          let p =
            (append-nil_iff
                (hypothesis_problems (codes "hypothesis " ++ show_nat (i + 1)) ledger allowed h)
                _).0
              e in
          (one.0 p.0, rest.0 p.1),
      λ k.
          (append-nil_iff
              (hypothesis_problems (codes "hypothesis " ++ show_nat (i + 1)) ledger allowed h) _).1
            (one.1 k.0, rest.1 k.1),
    )

-- A decoded submission has no problem exactly when it has between one and five hypotheses, and each
-- of them has a root cause of at most 2048 bytes, a confidence from 0 to 100, at least one citation,
-- no citation that is missing in the ledger, and only permitted actions with values of at most 253
-- bytes.
pub submission_problems_iff :
    (ledger : List (Text × Text)) (allowed : List Text) (hs : List RawHypothesis)
    → (submission_problems ledger allowed hs ≡ []) ↔ SubmissionOk ledger allowed hs
unfolding submission_problems
submission_problems_iff ledger allowed hs = (
  λ e.
      let p = (complain-nil (length hs == 0) _ _).0 e in
      let q = (complain-nil (ltb 5 (length hs)) _ _).0 p.1 in
      (ground arith, ground arith, (problems_from_iff 0 ledger allowed hs).0 q.1),
  λ k. (complain-nil (length hs == 0) _ _).1 (
    ground arith,
    (complain-nil (ltb 5 (length hs)) _ _).1
        (ground arith, (problems_from_iff 0 ledger allowed hs).1 k.2),
  ),
)

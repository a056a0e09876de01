-- ===== src/Agent/Ceiling.antt =====
-- internal/agent/findings.go: what `capConfidence` and `dedupe` keep.
use kube_cure.Prelude.{
  ℕ, suc, ℤ, pos, ◌≤ℤ◌, ltb_ℤ, ◌≡◌, ◌≢◌, inl, inr, List, [], ◌∷◌, length, All, arith, Bool-cases,
  refl, map, ap, if◌then◌else◌,
}
use kube_cure.Text.{Text}
use kube_cure.Agent.Types.{Hypothesis}
use kube_cure.Agent.Findings.{
  RawHypothesis, is_allowed, cap_confidence, dedupe_from, dedupe, to_hypothesis,
}
use kube_cure.Agent.Spec.{Cited, RawOk, HypothesisOk}
use kube_cure.Agent.Ranking.{Ranked, NumberedFrom, LeastOf}

module _ (ceiling : ℤ) where
  pub cap-LeastOf_self : (hs : List Hypothesis) → LeastOf ceiling (cap_confidence ceiling hs)
  unfolding cap_confidence
  cap-LeastOf_self [] = tt
  cap-LeastOf_self (h ∷ hs) = (ground arith, cap-LeastOf_self hs)

  cap-LeastOf :
      (x : Hypothesis) (hs : List Hypothesis)
      → LeastOf x.confidence_percent hs
      → All
          (λ y.
            y.confidence_percent
            ≤ℤ (if ltb_ℤ ceiling x.confidence_percent
                then record x { confidence_percent = ceiling }
                else x).confidence_percent)
          (cap_confidence ceiling hs)
  unfolding cap_confidence
  cap-LeastOf x [] a = tt
  cap-LeastOf x (h ∷ hs) a = (ground arith, cap-LeastOf x hs a.1)

  -- The order survives the ceiling.
  pub cap-Ranked : (hs : List Hypothesis) → Ranked hs → Ranked (cap_confidence ceiling hs)
  unfolding cap_confidence
  cap-Ranked [] r = tt
  cap-Ranked (h ∷ hs) r = (cap-LeastOf h hs r.0, cap-Ranked hs r.1)

  pub cap-NumberedFrom :
      (i : ℕ) (hs : List Hypothesis)
      → NumberedFrom i hs
      → NumberedFrom i (cap_confidence ceiling hs)
  unfolding cap_confidence
  cap-NumberedFrom i [] n = tt
  cap-NumberedFrom i (h ∷ hs) n = (ground arith, cap-NumberedFrom (suc i) hs n.1)

  pub length-cap : (hs : List Hypothesis) → length (cap_confidence ceiling hs) ≡ length hs
  unfolding cap_confidence
  length-cap [] = refl
  length-cap (h ∷ hs) = ap suc (length-cap hs)

  cap-one :
      (ledger : List (Text × Text)) (allowed : List Text) (h : Hypothesis)
      → pos 0 ≤ℤ ceiling
      → HypothesisOk ledger allowed h
      → HypothesisOk ledger allowed (
          if ltb_ℤ ceiling h.confidence_percent
          then record h { confidence_percent = ceiling }
          else h)
  cap-one ledger allowed h c k = elim (Bool-cases (ltb_ℤ ceiling h.confidence_percent)) [
    | inl e ↦ rw e (record {
      explained = k.explained;
      brief = k.brief;
      nonnegative = c;
      percent = ground (arith, k.percent);
      supported = k.supported;
      cited = k.cited;
      permitted = k.permitted;
    })
    | inr e ↦ rw e k
  ]

  pub cap-HypothesisOk :
      (ledger : List (Text × Text)) (allowed : List Text) (hs : List Hypothesis)
      → pos 0 ≤ℤ ceiling
      → All (HypothesisOk ledger allowed) hs
      → All (HypothesisOk ledger allowed) (cap_confidence ceiling hs)
  unfolding cap_confidence
  cap-HypothesisOk ledger allowed [] c a = tt
  cap-HypothesisOk ledger allowed (h ∷ hs) c a =
      (cap-one ledger allowed h c a.0, cap-HypothesisOk ledger allowed hs c a.1)

dedupe_from-All {κ} :
    (P : Text → Type κ) (seen items : List Text) → All P items → All P (dedupe_from seen items)
unfolding dedupe_from
dedupe_from-All P seen [] a = tt
dedupe_from-All P seen (s ∷ rest) a = elim (Bool-cases (is_allowed seen s)) [
  | inl e ↦ rw e (dedupe_from-All P seen rest a.1)
  | inr e ↦ rw e (a.0, dedupe_from-All P (s ∷ seen) rest a.1)
]

dedupe-All {κ} : (P : Text → Type κ) (items : List Text) → All P items → All P (dedupe items)
unfolding dedupe
dedupe-All P items a = dedupe_from-All P [] items a

dedupe-ne : (items : List Text) → items ≢ [] → dedupe items ≢ []
unfolding dedupe dedupe_from is_allowed
dedupe-ne [] h = h
dedupe-ne (s ∷ rest) h = λ e. cc

pub to_hypothesis-HypothesisOk :
    (ledger : List (Text × Text)) (allowed : List Text) (hs : List RawHypothesis)
    → All (RawOk ledger allowed) hs
    → All (HypothesisOk ledger allowed) (map to_hypothesis hs)
unfolding to_hypothesis
to_hypothesis-HypothesisOk ledger allowed [] a = tt
to_hypothesis-HypothesisOk ledger allowed (h ∷ hs) (k, a) = (
  record {
    explained = k.explained;
    brief = k.brief;
    nonnegative = k.nonnegative;
    percent = k.percent;
    supported = dedupe-ne h.evidence_citations k.supported;
    cited = dedupe-All (Cited ledger) h.evidence_citations k.cited;
    permitted = k.permitted;
  },
  to_hypothesis-HypothesisOk ledger allowed hs a,
)

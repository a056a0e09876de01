-- ===== src/Agent/Findings.antt =====
-- internal/agent/findings.go: a submission is decoded, checked against the evidence gathered, and
-- ranked. `sort.SliceStable` is the stable insertion sort.
use kube_cure.Prelude.{
  ℕ, suc, ◌+◌, ℤ, pos, ltb_ℤ, Bool, true, false, not, ◌||◌, Option, none, some, List, [], ◌∷◌, ◌++◌,
  length, ltb, ◌==◌, map, if◌then◌else◌,
}
use kube_cure.Text.{Text, codes, text_eq, is_empty, trim_space, show_nat, quote}
use kube_cure.Json.{
  Json, RawMessage, unknown_field, Decoded, decoded, invalid, ◌>>=◌, same_key, decode_string,
  decode_int, decode_struct, decode_slice, decode_first, json_error_text,
}
use kube_cure.Api.Failure.{Action}
use kube_cure.Agent.Types.{Hypothesis}

abbrev pub max_hypotheses : ℕ
max_hypotheses = 5

abbrev pub root_cause_limit : ℕ
root_cause_limit = 2048

abbrev pub action_value_limit : ℕ
action_value_limit = 253

abbrev pub degraded_confidence_cap : ℤ
degraded_confidence_cap = pos 70

-- An element of `submission.Hypotheses`.
pub record RawHypothesis : Type 0 where
  pub root_cause : Text
  pub confidence_percent : ℤ
  pub evidence_citations : List Text
  pub proposed_actions : List Action

unfoldable pub decode_text : Json → Decoded Text
decode_text j = decode_string j []

unfoldable pub action_field : Text → Json → Action → Decoded Action
action_field key v a =
    if same_key key (codes "type")
    then (do t ← decode_string v a.type; decoded (record a { type = t }))
    else if same_key key (codes "container")
    then (do t ← decode_string v a.container; decoded (record a { container = t }))
    else if same_key key (codes "value")
    then (do t ← decode_string v a.value; decoded (record a { value = t }))
    else invalid (unknown_field key)

unfoldable pub decode_action : Json → Decoded Action
unfolding action_field
decode_action j = decode_struct action_field j (record { type = []; container = []; value = [] })

unfoldable pub hypothesis_field : Text → Json → RawHypothesis → Decoded RawHypothesis
unfolding decode_text decode_action
hypothesis_field key v h =
    if same_key key (codes "rootCause")
    then (do t ← decode_string v h.root_cause; decoded (record h { root_cause = t }))
    else if same_key key (codes "confidencePercent")
    then (do n ← decode_int v h.confidence_percent; decoded (record h { confidence_percent = n }))
    else if same_key key (codes "evidenceCitations")
    then (do ts ← decode_slice decode_text v; decoded (record h { evidence_citations = ts }))
    else if same_key key (codes "proposedActions")
    then (do ts ← decode_slice decode_action v; decoded (record h { proposed_actions = ts }))
    else invalid (unknown_field key)

unfoldable pub decode_hypothesis : Json → Decoded RawHypothesis
unfolding hypothesis_field
decode_hypothesis j = decode_struct hypothesis_field j (record {
  root_cause = [];
  confidence_percent = pos 0;
  evidence_citations = [];
  proposed_actions = [];
})

unfoldable pub submission_field : Text → Json → List RawHypothesis → Decoded (List RawHypothesis)
unfolding decode_hypothesis
submission_field key v hs =
    if same_key key (codes "hypotheses")
    then decode_slice decode_hypothesis v
    else invalid (unknown_field key)

unfoldable pub decode_submission : RawMessage → Decoded (List RawHypothesis)
unfolding submission_field
decode_submission arguments = decode_first (decode_struct submission_field) arguments []

-- A map from identifiers to kinds, the latest entry first.
unfoldable pub ledger_get : Text → List (Text × Text) → Option Text
ledger_get id [] = none
ledger_get id ((key, kind) ∷ rest) = if text_eq key id then some kind else ledger_get id rest

unfoldable pub in_ledger : List (Text × Text) → Text → Bool
in_ledger ledger id = elim (ledger_get id ledger) [ some kind ↦ true | none ↦ false ]

-- `map[string]bool` with an entry for each permitted action.
unfoldable pub is_allowed : List Text → Text → Bool
is_allowed [] a = false
is_allowed (x ∷ xs) a = text_eq x a || is_allowed xs a

-- `if b { problems = append(problems, text) }`
abbrev pub complain : Bool → Text → List Text
complain true text = text ∷ []
complain false text = []

abbrev pub no_citation : List Text → Bool
no_citation [] = true
no_citation (c ∷ cs) = false

module _ (label : Text) where
  unfoldable pub cause_problems : Text → List Text
  cause_problems cause =
      if is_empty cause
      then (label ++ codes " has no root cause") ∷ []
      else complain (ltb root_cause_limit (length cause)) (
          label ++ codes " root cause exceeds " ++ show_nat root_cause_limit ++ codes " characters")

  unfoldable pub citation_problems : List (Text × Text) → List Text → List Text
  citation_problems ledger [] = []
  citation_problems ledger (c ∷ cs) =
      complain (not (in_ledger ledger c)) (
        label
        ++ codes " cites "
        ++ quote c
        ++ codes ", which does not exist; cite only identifiers from the evidence")
      ++ citation_problems ledger cs

  unfoldable pub action_problems : List Text → List Action → List Text
  action_problems allowed [] = []
  action_problems allowed (a ∷ rest) =
      complain (not (is_allowed allowed a.type))
        (label ++ codes " proposes unknown action type " ++ quote a.type)
      ++ (complain (ltb action_value_limit (length a.value)) (
            label
            ++ codes " action value exceeds "
            ++ show_nat action_value_limit
            ++ codes " characters")
          ++ action_problems allowed rest)

  unfoldable pub hypothesis_problems : List (Text × Text) → List Text → RawHypothesis → List Text
  unfolding cause_problems citation_problems action_problems
  hypothesis_problems ledger allowed h =
      cause_problems (trim_space h.root_cause)
      ++ (complain (ltb_ℤ h.confidence_percent (pos 0) || ltb_ℤ (pos 100) h.confidence_percent)
            (label ++ codes " confidence must be between 0 and 100")
          ++ (complain (no_citation h.evidence_citations)
                (label ++ codes " cites no evidence; every hypothesis must cite what supports it")
              ++ (citation_problems ledger h.evidence_citations
                  ++ action_problems allowed h.proposed_actions)))

unfoldable pub dedupe_from : List Text → List Text → List Text
dedupe_from seen [] = []
dedupe_from seen (s ∷ rest) =
    let fresh = not (is_allowed seen s) in
    let later = dedupe_from (if fresh then s ∷ seen else seen) rest in
    if fresh then s ∷ later else later

unfoldable pub dedupe : List Text → List Text
unfolding dedupe_from
dedupe items = dedupe_from [] items

-- The problems of all the hypotheses, numbered from `i + 1`.
unfoldable pub problems_from : ℕ → List (Text × Text) → List Text → List RawHypothesis → List Text
problems_from i ledger allowed [] = []
problems_from i ledger allowed (h ∷ hs) =
    hypothesis_problems (codes "hypothesis " ++ show_nat (i + 1)) ledger allowed h
    ++ problems_from (suc i) ledger allowed hs

unfoldable pub to_hypothesis : RawHypothesis → Hypothesis
to_hypothesis h = record {
  id = [];
  rank = 0;
  root_cause = trim_space h.root_cause;
  confidence_percent = h.confidence_percent;
  evidence_citations = dedupe h.evidence_citations;
  proposed_actions = h.proposed_actions;
}

unfoldable pub insert_ranked : Hypothesis → List Hypothesis → List Hypothesis
insert_ranked h [] = h ∷ []
insert_ranked h (x ∷ xs) =
    if ltb_ℤ h.confidence_percent x.confidence_percent then x ∷ insert_ranked h xs else h ∷ x ∷ xs

unfoldable pub sort_hypotheses : List Hypothesis → List Hypothesis
unfolding insert_ranked
sort_hypotheses [] = []
sort_hypotheses (h ∷ hs) = insert_ranked h (sort_hypotheses hs)

-- Identifiers and ranks, from `i + 1`.
unfoldable pub number_from : ℕ → List Hypothesis → List Hypothesis
number_from i [] = []
number_from i (h ∷ hs) =
    record h { id = 72 ∷ show_nat (i + 1); rank = i + 1 } ∷ number_from (suc i) hs

unfoldable pub rank : List Hypothesis → List Hypothesis
rank hypotheses = number_from 0 (sort_hypotheses hypotheses)

unfoldable pub cap_confidence : ℤ → List Hypothesis → List Hypothesis
cap_confidence ceiling [] = []
cap_confidence ceiling (h ∷ hs) =
    (if ltb_ℤ ceiling h.confidence_percent then record h { confidence_percent = ceiling } else h)
    ∷ cap_confidence ceiling hs

pub data Validated : Type 0 where
  valid : List Hypothesis → Validated
  problems : List Text → Validated

unfoldable pub submission_problems : List (Text × Text) → List Text → List RawHypothesis → List Text
unfolding problems_from
submission_problems ledger allowed hs =
    complain (length hs == 0) (codes "submit at least one hypothesis")
    ++ (complain (ltb max_hypotheses (length hs))
          (codes "submit at most " ++ show_nat max_hypotheses ++ codes " hypotheses")
        ++ problems_from 0 ledger allowed hs)

unfoldable pub validate_submission : RawMessage → List (Text × Text) → List Text → Validated
validate_submission arguments ledger allowed = elim (decode_submission arguments) [
  | invalid e ↦
      problems
        ((codes "the submission is not valid against the schema: " ++ json_error_text e) ∷ [])
  | decoded hs ↦ elim (submission_problems ledger allowed hs) [
    | [] ↦ valid (rank (map to_hypothesis hs))
    | p ∷ ps ↦ problems (p ∷ ps)
  ]
]

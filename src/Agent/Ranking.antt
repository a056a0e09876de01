-- ===== src/Agent/Ranking.antt =====
-- internal/agent/findings.go: the order of the hypotheses, and what a ceiling on their confidence
-- leaves of it.
use kube_cure.Prelude.{
  ℕ, suc, ◌+◌, ℤ, ◌≤ℤ◌, ltb_ℤ, ◌||◌, ◌∙◌, ◌≡◌, inl, inr, List, [], ◌∷◌, length, All, All-mono,
  arith, Bool-cases, refl, ap, if◌then◌else◌,
}
use kube_cure.Text.{Text}
use kube_cure.Agent.Types.{Hypothesis}
use kube_cure.Agent.Findings.{insert_ranked, sort_hypotheses, number_from, rank}

-- The most confident first.
abbrev pub Ranked : List Hypothesis → Type 0
Ranked [] = Unit
Ranked (h ∷ hs) = All (λ x. x.confidence_percent ≤ℤ h.confidence_percent) hs × Ranked hs

-- Ranks count up from `i + 1`.
abbrev pub NumberedFrom : ℕ → List Hypothesis → Type 0
NumberedFrom i [] = Unit
NumberedFrom i (h ∷ hs) = (h.rank ≡ i + 1) × NumberedFrom (suc i) hs

abbrev pub LeastOf : ℤ → List Hypothesis → Type 0
LeastOf c hs = All (λ x. x.confidence_percent ≤ℤ c) hs

insert-All {κ} :
    (P : Hypothesis → Type κ) (h : Hypothesis) (hs : List Hypothesis)
    → P h
    → All P hs
    → All P (insert_ranked h hs)
unfolding insert_ranked
insert-All P h [] ph a = (ph, tt)
insert-All P h (x ∷ xs) ph a = elim (Bool-cases (ltb_ℤ h.confidence_percent x.confidence_percent)) [
  | inl e ↦ rw e (a.0, insert-All P h xs ph a.1)
  | inr e ↦ rw e (ph, a)
]

LeastOf-mono : (c d : ℤ) (hs : List Hypothesis) → c ≤ℤ d → LeastOf c hs → LeastOf d hs
LeastOf-mono c d hs h a = All-mono _ _ hs (λ x k. omega arith) a

insert-Ranked : (h : Hypothesis) (hs : List Hypothesis) → Ranked hs → Ranked (insert_ranked h hs)
unfolding insert_ranked
insert-Ranked h [] r = (tt, tt)
insert-Ranked h (x ∷ xs) r = elim (Bool-cases (ltb_ℤ h.confidence_percent x.confidence_percent)) [
  | inl e ↦ rw e (insert-All _ h xs (ground arith) r.0, insert-Ranked h xs r.1)
  | inr e ↦ rw e (
    (ground arith, LeastOf-mono x.confidence_percent h.confidence_percent xs (ground arith) r.0),
    r,
  )
]

sort-Ranked : (hs : List Hypothesis) → Ranked (sort_hypotheses hs)
unfolding sort_hypotheses
sort-Ranked [] = tt
sort-Ranked (h ∷ hs) = insert-Ranked h (sort_hypotheses hs) (sort-Ranked hs)

sort-All {κ} :
    (P : Hypothesis → Type κ) (hs : List Hypothesis) → All P hs → All P (sort_hypotheses hs)
unfolding sort_hypotheses
sort-All P [] a = tt
sort-All P (h ∷ hs) a = insert-All P h (sort_hypotheses hs) a.0 (sort-All P hs a.1)

-- A property that does not read the identifier or the rank outlives the numbering.
number-All {κ} :
    (P : Hypothesis → Type κ)
    → ((h : Hypothesis) (id : Text) (r : ℕ) → P h → P (record h { id = id; rank = r }))
    → (i : ℕ) (hs : List Hypothesis) → All P hs
    → All P (number_from i hs)
unfolding number_from
number-All P keep i [] a = tt
number-All P keep i (h ∷ hs) a = (keep h _ _ a.0, number-All P keep (suc i) hs a.1)

number-Ranked : (i : ℕ) (hs : List Hypothesis) → Ranked hs → Ranked (number_from i hs)
unfolding number_from
number-Ranked i [] r = tt
number-Ranked i (h ∷ hs) r =
    (number-All _ (λ x id k p. p) (suc i) hs r.0, number-Ranked (suc i) hs r.1)

number-NumberedFrom : (i : ℕ) (hs : List Hypothesis) → NumberedFrom i (number_from i hs)
unfolding number_from
number-NumberedFrom i [] = tt
number-NumberedFrom i (h ∷ hs) = (refl, number-NumberedFrom (suc i) hs)

length-number : (i : ℕ) (hs : List Hypothesis) → length (number_from i hs) ≡ length hs
unfolding number_from
length-number i [] = refl
length-number i (h ∷ hs) = ap suc (length-number (suc i) hs)

length-insert :
    (h : Hypothesis) (hs : List Hypothesis) → length (insert_ranked h hs) ≡ suc (length hs)
unfolding insert_ranked
length-insert h [] = refl
length-insert h (x ∷ xs) = ground (arith, length-insert h xs)

length-sort : (hs : List Hypothesis) → length (sort_hypotheses hs) ≡ length hs
unfolding sort_hypotheses
length-sort [] = refl
length-sort (h ∷ hs) = omega (arith, length-insert h (sort_hypotheses hs), length-sort hs)

pub rank-Ranked : (hs : List Hypothesis) → Ranked (rank hs)
unfolding rank
rank-Ranked hs = number-Ranked 0 _ (sort-Ranked hs)

pub rank-NumberedFrom : (hs : List Hypothesis) → NumberedFrom 0 (rank hs)
unfolding rank
rank-NumberedFrom hs = number-NumberedFrom 0 _

pub length-rank : (hs : List Hypothesis) → length (rank hs) ≡ length hs
unfolding rank
length-rank hs = omega (arith, length-number 0 (sort_hypotheses hs), length-sort hs)

pub rank-All {κ} :
    (P : Hypothesis → Type κ)
    → ((h : Hypothesis) (id : Text) (r : ℕ) → P h → P (record h { id = id; rank = r }))
    → (hs : List Hypothesis) → All P hs
    → All P (rank hs)
unfolding rank
rank-All P keep hs a = number-All P keep 0 _ (sort-All P hs a)

-- The hypotheses with confidence `c`, with identifier and rank blanked.
abbrev pub with_confidence : ℤ → List Hypothesis → List Hypothesis
with_confidence c [] = []
with_confidence c (h ∷ hs) =
    if ltb_ℤ h.confidence_percent c || ltb_ℤ c h.confidence_percent
    then with_confidence c hs
    else record h { id = []; rank = 0 } ∷ with_confidence c hs

insert-with_confidence :
    (c : ℤ) (h : Hypothesis) (hs : List Hypothesis)
    → with_confidence c (insert_ranked h hs) ≡ with_confidence c (h ∷ hs)
unfolding insert_ranked
insert-with_confidence c h [] = refl
insert-with_confidence c h (x ∷ xs) = ground (arith, insert-with_confidence c h xs)

sort-with_confidence :
    (c : ℤ) (hs : List Hypothesis) → with_confidence c (sort_hypotheses hs) ≡ with_confidence c hs
unfolding sort_hypotheses
sort-with_confidence c [] = refl
sort-with_confidence c (h ∷ hs) =
    ground (arith, insert-with_confidence c h (sort_hypotheses hs), sort-with_confidence c hs)

number-with_confidence :
    (c : ℤ) (i : ℕ) (hs : List Hypothesis)
    → with_confidence c (number_from i hs) ≡ with_confidence c hs
unfolding number_from
number-with_confidence c i [] = refl
number-with_confidence c i (h ∷ hs) = ground (arith, number-with_confidence c (suc i) hs)

-- Ranking orders by falling confidence and numbers from 1, and it keeps the hypotheses of each
-- confidence, all of them and in the order in which they were submitted.
pub rank_stable :
    (hs : List Hypothesis) (c : ℤ)
    → Ranked (rank hs)
      × NumberedFrom 0 (rank hs)
      × (with_confidence c (rank hs) ≡ with_confidence c hs)
unfolding rank
rank_stable hs c = (
  rank-Ranked hs,
  rank-NumberedFrom hs,
  number-with_confidence c 0 (sort_hypotheses hs) ∙ sort-with_confidence c hs,
)

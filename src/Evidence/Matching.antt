-- ===== src/Evidence/Matching.antt =====
-- The matcher behind internal/evidence/redact.go: matches that reach the end of the text.
use kube_cure.Prelude.{
  ℕ, zero, suc, ◌≤◌, ◌≡◌, ◌≢◌, refl, ap, ◌∙◌, true, false, Option, none, some, List, [], ◌∷◌,
  length, take, All, arith,
}
use kube_cure.Text.{Text}
use kube_cure.Evidence.Redact.{Redactor, redact, redact_from}
use kube_cure.Evidence.Regex.{
  Class, Regex, Pattern, redactor_of, Next, Groups, step_many, step_one, step_at_least, found_at,
  pieces_from, hit, hits, replaced, or_else,
}

-- A repetition that reaches the end of the text takes all of it, if what follows matches there.
pub many-All :
    (p : Class) (before : Option ℕ) (s : Text) (groups : Groups) (k : Next)
    → All (λ c. p c ≡ true) s
    → ((b : Option ℕ)
        → k (record { before = b; rest = []; groups = groups })
          ≡ some (record { before = b; rest = []; groups = groups }))
    → (b : Option ℕ) × (step_many p before s groups k
        ≡ some (record { before = b; rest = []; groups = groups }))
unfolding step_many
many-All p before [] groups k h last = (before, last before)
many-All p before (c ∷ s) groups k (here, h) last =
    let (b, e) = many-All p (some c) s groups k h last in (b, rw (step_many, here, e, or_else) refl)

pub pieces-skipped :
    (r : Regex) (skip : ℕ) (before : Option ℕ) (s : Text)
    → length s ≤ skip
    → pieces_from r skip before s ≡ []
unfolding pieces_from
pieces-skipped r skip before [] h = refl
pieces-skipped r zero before (c ∷ s) h = absurd (omega arith)
pieces-skipped r (suc skip) before (c ∷ s) h = pieces-skipped r skip (some c) s (omega arith)

module _ (p : Class) (before : Option ℕ) (c : ℕ) (s : Text) (groups : Groups) (k : Next) where
  pub many-none :
      p c ≡ false
      → step_many p before (c ∷ s) groups k
        ≡ k (record { before = before; rest = c ∷ s; groups = groups })
  unfolding step_many
  many-none h = rw (step_many, h) refl

  pub one-none : p c ≡ false → step_one p before (c ∷ s) groups k ≡ none
  unfolding step_one
  one-none h = rw (step_one, h) refl

  pub one-some :
      p c ≡ true
      → step_one p before (c ∷ s) groups k
        ≡ k (record { before = some c; rest = s; groups = groups })
  unfolding step_one
  one-some h = rw (step_one, h) refl

-- So does a repetition with a lower bound that the text meets.
pub at_least-All :
    (n : ℕ) (p : Class) (before : Option ℕ) (s : Text) (groups : Groups) (k : Next)
    → n ≤ length s
    → All (λ c. p c ≡ true) s
    → ((b : Option ℕ)
        → k (record { before = b; rest = []; groups = groups })
          ≡ some (record { before = b; rest = []; groups = groups }))
    → (b : Option ℕ) × (step_at_least n p (record { before = before; rest = s; groups = groups }) k
        ≡ some (record { before = b; rest = []; groups = groups }))
unfolding step_at_least
at_least-All zero p before s groups k enough h last = many-All p before s groups k h last
at_least-All (suc n) p before [] groups k enough h last = absurd (omega arith)
at_least-All (suc n) p before (c ∷ s) groups k enough (here, h) last =
    let (b, e) = at_least-All n p (some c) s groups k (omega arith) h last in
    (b, one-some p before c s groups (λ next. step_at_least n p next k) here ∙ e)

pub pieces-hit :
    (r : Regex) (n : ℕ) (groups : Groups) (before : Option ℕ) (c : ℕ) (s : Text)
    → found_at r before (c ∷ s) ≡ some (suc n, groups)
    → pieces_from r 0 before (c ∷ s)
      ≡ hit (take (suc n) (c ∷ s)) groups ∷ pieces_from r n (some c) s
unfolding pieces_from
pieces-hit r n groups before c s h = rw (pieces_from, h) refl

-- A match that takes the whole text is its only piece.
pieces-whole :
    (r : Regex) (groups : Groups) (c : ℕ) (s : Text)
    → found_at r none (c ∷ s) ≡ some (length (c ∷ s), groups)
    → pieces_from r 0 none (c ∷ s) ≡ hit (take (length (c ∷ s)) (c ∷ s)) groups ∷ []
pieces-whole r groups c s h =
    pieces-hit r (length s) groups none c s h
    ∙ ap (λ rest. hit (take (length (c ∷ s)) (c ∷ s)) groups ∷ rest)
        (pieces-skipped r (length s) (some c) s (omega arith))

pub pieces-all :
    (r : Regex) (groups : Groups) (s : Text)
    → s ≢ []
    → found_at r none s ≡ some (length s, groups)
    → pieces_from r 0 none s ≡ hit (take (length s) s) groups ∷ []
pieces-all r groups [] given h = absurd (given refl)
pieces-all r groups (c ∷ s) given h = pieces-whole r groups c s h

pub matches-pieces :
    (p : Pattern) (s : Text) → (redactor_of p).matches s ≡ hits (pieces_from p.regex 0 none s)
unfolding redactor_of
matches-pieces p s = refl

pub replace_all-pieces :
    (p : Pattern) (s : Text)
    → (redactor_of p).replace_all s ≡ replaced p.replace (pieces_from p.regex 0 none s)
unfolding redactor_of
replace_all-pieces p s = refl

-- The first redactor, where it matches once.
pub redact-once :
    (r : Redactor) (rest : List Redactor) (s t : Text)
    → r.matches s ≡ 1
    → r.replace_all s ≡ t
    → redact (r ∷ rest) s ≡ redact_from rest t 1
unfolding redact redact_from
redact-once r rest s t h e = ground arith

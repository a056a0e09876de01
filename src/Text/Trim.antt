-- ===== src/Text/Trim.antt =====
-- What `strings.Trim` and `strings.TrimSpace` leave.
use mathlib.Core.List.{reverse-append, reverse-reverse, reverse-cons}
use kube_cure.Prelude.{
  ℕ, ◌≤◌, ◌≡◌, refl, sym, ap, subst, ◌∙◌, ◌≢◌, zero, suc, take, Bool, false, List, [], ◌∷◌, ◌++◌,
  reverse, arith, drop_while, All, All-append, length, length-append, Bool-cases, inl, inr,
}
use kube_cure.Text.{Text, trim}

module _ {ℓ} {A : Type ℓ} where
  pub All-reverse {κ} : (P : A → Type κ) (xs : List A) → All P xs → All P (reverse xs)
  All-reverse P [] h = tt
  All-reverse P (x ∷ xs) (px, h) =
      rw (reverse-cons x xs) (All-append P (reverse xs) (x ∷ []) (All-reverse P xs h) (px, tt))

  All-drop_while {κ} :
      (P : A → Type κ) (p : A → Bool) (xs : List A) → All P xs → All P (drop_while p xs)
  All-drop_while P p [] h = tt
  All-drop_while P p (x ∷ xs) (px, h) = elim (Bool-cases (p x)) [
    | inl e ↦ rw (e, drop_while) (All-drop_while P p xs h)
    | inr e ↦ rw (e, drop_while) (px, h)
  ]

  pub length-reverse : (xs : List A) → length (reverse xs) ≡ length xs
  length-reverse [] = refl
  length-reverse (x ∷ xs) =
      omega (
        arith,
        ap length (reverse-cons x xs),
        length-append (reverse xs) (x ∷ []),
        length-reverse xs,
      )

  length-drop_while : (p : A → Bool) (xs : List A) → length (drop_while p xs) ≤ length xs
  length-drop_while p [] = omega arith
  length-drop_while p (x ∷ xs) = ground (arith, length-drop_while p xs)

  -- What is dropped stands before what is kept.
  dropped : (p : A → Bool) (xs : List A) → (pre : List A) × (xs ≡ pre ++ drop_while p xs)
  dropped p [] = ([], refl)
  dropped p (x ∷ xs) = elim (Bool-cases (p x)) [
    | inl e ↦ let (pre, h) = dropped p xs in (x ∷ pre, rw (e, drop_while) (ap (◌∷◌ x) h))
    | inr e ↦ ([], rw (e, drop_while))
  ]

-- The first byte, if there is one, is not among those that `p` accepts.
abbrev pub StartsOff : (ℕ → Bool) → Text → Type 0
StartsOff p [] = Unit
StartsOff p (c ∷ s) = p c ≡ false

StartsOff-append : (p : ℕ → Bool) (s t : Text) → StartsOff p (s ++ t) → StartsOff p s
StartsOff-append p [] t h = tt
StartsOff-append p (c ∷ s) t h = h

drop_while-StartsOff : (p : ℕ → Bool) (s : Text) → StartsOff p (drop_while p s)
drop_while-StartsOff p [] = tt
drop_while-StartsOff p (c ∷ s) = elim (Bool-cases (p c)) [
  | inl e ↦ rw (e, drop_while) (drop_while-StartsOff p s)
  | inr e ↦ rw (e, drop_while) e
]

drop_while_id : (p : ℕ → Bool) (s : Text) → StartsOff p s → drop_while p s ≡ s
drop_while_id p [] h = refl
drop_while_id p (c ∷ s) h = rw (h, drop_while)

module _ (p : ℕ → Bool) where
  pub trim-All {κ} : (P : ℕ → Type κ) (s : Text) → All P s → All P (trim p s)
  unfolding trim
  trim-All P s h = All-reverse P _ (All-drop_while P p _ (All-reverse P _ (All-drop_while P p s h)))

  pub length-trim : (s : Text) → length (trim p s) ≤ length s
  unfolding trim
  length-trim s = omega (
    arith,
    length-reverse (drop_while p (reverse (drop_while p s))),
    length-drop_while p (reverse (drop_while p s)),
    length-reverse (drop_while p s),
    length-drop_while p s,
  )

  pub reverse-trim-StartsOff : (s : Text) → StartsOff p (reverse (trim p s))
  unfolding trim
  reverse-trim-StartsOff s =
      rw (reverse-reverse (drop_while p (reverse (drop_while p s))))
        (drop_while-StartsOff p (reverse (drop_while p s)))

  pub trim-StartsOff : (s : Text) → StartsOff p (trim p s)
  unfolding trim
  trim-StartsOff s =
      let t : Text = drop_while p s in
      let kept : Text = drop_while p (reverse t) in
      let (pre, e) = dropped p (reverse t) in
      StartsOff-append p (reverse kept) (reverse pre)
        (subst (StartsOff p) (whole t pre kept e) (drop_while-StartsOff p s))
    where
      whole : (t pre kept : Text) → reverse t ≡ pre ++ kept → t ≡ reverse kept ++ reverse pre
      whole t pre kept e = sym (reverse-reverse t) ∙ ap reverse e ∙ reverse-append pre kept

  -- A text that has nothing to trim at either end stays as it is.
  pub trim_id : (s : Text) → StartsOff p s → StartsOff p (reverse s) → trim p s ≡ s
  unfolding trim
  trim_id s h k = rw (drop_while_id p s h, drop_while_id p (reverse s) k, reverse-reverse s)

drop_while-append-ne :
    (p : ℕ → Bool) (s : Text) (c : ℕ) → p c ≡ false → drop_while p (s ++ c ∷ []) ≢ []
drop_while-append-ne p [] c h = rw (h, drop_while) (λ e. cc)
drop_while-append-ne p (b ∷ s) c h = elim (Bool-cases (p b)) [
  | inl e ↦ rw (e, drop_while) (drop_while-append-ne p s c h)
  | inr e ↦ rw (e, drop_while) (λ e. cc)
]

pub reverse-ne : (s : Text) → s ≢ [] → reverse s ≢ []
reverse-ne s h e = h (sym (reverse-reverse s) ∙ ap reverse e)

-- A text that starts with a byte to keep is not trimmed away.
pub trim-ne : (p : ℕ → Bool) (s : Text) → s ≢ [] → StartsOff p s → trim p s ≢ []
unfolding trim
trim-ne p [] h k = absurd (h refl)
trim-ne p (c ∷ s) h k =
    rw (drop_while_id p (c ∷ s) k, reverse-cons c s)
      (reverse-ne _ (drop_while-append-ne p (reverse s) c k))

pub StartsOff-append_All :
    (p : ℕ → Bool) (s t : Text) → s ≢ [] → All (λ c. p c ≡ false) s → StartsOff p (s ++ t)
StartsOff-append_All p [] t h a = absurd (h refl)
StartsOff-append_All p (c ∷ s) t h a = a.0

pub StartsOff-append_ne :
    (p : ℕ → Bool) (s t : Text) → s ≢ [] → StartsOff p s → StartsOff p (s ++ t)
StartsOff-append_ne p [] t h a = absurd (h refl)
StartsOff-append_ne p (c ∷ s) t h a = a

pub StartsOff-take : (p : ℕ → Bool) (n : ℕ) (s : Text) → StartsOff p s → StartsOff p (take n s)
StartsOff-take p zero s h = tt
StartsOff-take p (suc n) [] h = tt
StartsOff-take p (suc n) (c ∷ s) h = h

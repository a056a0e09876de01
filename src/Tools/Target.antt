-- ===== src/Tools/Target.antt =====
-- cmd/kubecure-mcp/main.go: the flag that names the diagnosis.
use kube_cure.Prelude.{
  ℕ, ◌≡◌, ◌≢◌, ◌↔◌, ◌||◌, refl, ap, false, Option, none, some, [], ◌∷◌, ◌++◌, All, arith,
  Bool-cases, Option-cases, inl, inr, ◌==◌,
}
use kube_cure.Text.{Text, is_empty}
use kube_cure.Tools.Mcp.{cut, both_given, parse_target}

-- The text is the two parts with the byte between them, which is not in the first part.
abbrev CutAt : ℕ → Text → Text → Text → Type 0
CutAt c s before after = (s ≡ before ++ c ∷ after) × All (λ x. x ≢ c) before

cut_sound :
    (c : ℕ) (s before after : Text) → cut c s ≡ some (before, after) → CutAt c s before after
unfolding cut
cut_sound c [] before after h = absurd (ground arith)
cut_sound c (x ∷ s) before after h = elim (Bool-cases (x == c)) [
  | inl e ↦
      let none_before : before ≡ [] = ground arith in
      let rest : after ≡ s = ground arith in rw (none_before, rest) (ground arith, tt)
  | inr e ↦ elim (Option-cases (cut c s)) [
    | inl missing ↦ absurd (ground arith)
    | inr ((b, a), later) ↦
        let (whole, clean) = cut_sound c s b a later in
        let head : before ≡ x ∷ b = ground arith in
        let rest : after ≡ a = ground arith in
        rw (head, rest) (ap (λ t. x ∷ t) whole, (ground arith, clean))
  ]
]

cut_complete :
    (c : ℕ) (before after : Text)
    → All (λ x. x ≢ c) before
    → cut c (before ++ c ∷ after) ≡ some (before, after)
unfolding cut
cut_complete c [] after h = ground arith
cut_complete c (x ∷ before) after (first, h) = ground (arith, cut_complete c before after h)

both_given-some :
    (o : Option (Text × Text)) (namespace name : Text)
    → both_given o ≡ some (namespace, name)
    → (o ≡ some (namespace, name)) × (is_empty namespace ≡ false) × (is_empty name ≡ false)
unfolding both_given
both_given-some none namespace name h = absurd (ground arith)
both_given-some (some (n, m)) namespace name h = elim (Bool-cases (is_empty n || is_empty m)) [
  | inl e ↦ absurd (ground arith)
  | inr e ↦ (ground arith, ground arith, ground arith)
]

-- The flag is accepted, as a namespace and a name, exactly if it is the namespace, a slash and the
-- name, neither of them empty, and no slash in the namespace. What follows the first slash is the
-- name, further slashes included.
pub parse_target_iff :
    (s namespace name : Text)
    → (parse_target s ≡ some (namespace, name)) ↔ (
        (s ≡ namespace ++ 47 ∷ name)
        × All (λ x. x ≢ 47) namespace
        × (is_empty namespace ≡ false)
        × (is_empty name ≡ false))
unfolding parse_target both_given
parse_target_iff s namespace name = (
  λ h.
      let (found, given, named) = both_given-some (cut 47 s) namespace name h in
      let (whole, clean) = cut_sound 47 s namespace name found in (whole, clean, given, named),
  λ (whole, clean, given, named).
      rw (whole, cut_complete 47 namespace name clean, given, named) refl,
)

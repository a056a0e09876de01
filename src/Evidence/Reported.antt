-- ===== src/Evidence/Reported.antt =====
-- internal/evidence/collector.go: how references are counted and told apart.
use kube_cure.Prelude.{
  ℕ, ◌+◌, Bool, true, false, ◌&&◌, ◌||◌, ◌≡◌, refl, List, [], ◌∷◌, ◌++◌, any, arith, if◌then◌else◌,
}
use kube_cure.Text.{Text, text_eq}
use kube_cure.Evidence.Reads.References.{
  RefKind, config_map, secret, kind_name, Reference, Named, reference_id,
}

unfoldable pub same_kind : RefKind → RefKind → Bool
same_kind config_map config_map = true
same_kind config_map secret = false
same_kind secret config_map = false
same_kind secret secret = true

-- How often a kind and a name occur among the references, and whether they occur among what the pod
-- names.
unfoldable pub is_reference : RefKind → Text → Reference → Bool
unfolding same_kind
is_reference kind name ref = same_kind ref.kind kind && text_eq ref.name name

unfoldable pub times_reported : RefKind → Text → List Reference → ℕ
unfolding is_reference
times_reported kind name [] = 0
times_reported kind name (ref ∷ rest) =
    (if is_reference kind name ref then 1 else 0) + times_reported kind name rest

unfoldable pub is_named : RefKind → Text → Named → Bool
unfolding same_kind
is_named kind name [] = false
is_named kind name ((k, n) ∷ rest) = (same_kind k kind && text_eq n name) || is_named kind name rest

-- What is recorded of one kind and name, when nothing else is.
unfoldable pub once : Bool → ℕ
once true = 1
once false = 0

-- The texts "kind/name" tell kinds and names apart.
pub reference_id-injective :
    (k l : RefKind) (m n : Text)
    → text_eq (reference_id k m) (reference_id l n) ≡ (same_kind k l && text_eq m n)
unfolding reference_id kind_name same_kind text_eq
reference_id-injective config_map config_map m n = refl
reference_id-injective config_map secret m n = refl
reference_id-injective secret config_map m n = refl
reference_id-injective secret secret m n = refl

-- Whether the loop has seen a kind and a name.
unfoldable pub is_seen : RefKind → Text → List Text → Bool
is_seen kind name seen = any (λ s. text_eq s (reference_id kind name)) seen

pub times-append :
    (kind : RefKind) (name : Text) (refs : List Reference) (ref : Reference)
    → times_reported kind name (refs ++ ref ∷ [])
      ≡ times_reported kind name refs + once (is_reference kind name ref)
unfolding times_reported once
times-append kind name [] ref = ground arith
times-append kind name (r ∷ refs) ref = omega (arith, times-append kind name refs ref)

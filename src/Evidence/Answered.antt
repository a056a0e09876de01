-- ===== src/Evidence/Answered.antt =====
-- internal/evidence/collector.go: what `configReferences` says of an object that it has read.
use mathlib.Core.List.Perm
use mathlib.Core.List.{Perm}
use kube_cure.Prelude.{true, false, ◌≡◌, inl, inr, refl, ap, subst, List, [], ◌∷◌, map, Bool-cases}
use kube_cure.Text.{Text}
use kube_cure.Json.Print.{text_lt}
use kube_cure.Cluster.{StringMap}
use kube_cure.Evidence.Source.{Fetched, got, refused}
use kube_cure.Evidence.Reads.References.{
  RefKind, Reference, insert_text, sort_texts, keys_of, reference_of,
}

insert_text-perm : (s : Text) (ts : List Text) → Perm (insert_text s ts) (s ∷ ts)
unfolding insert_text
insert_text-perm s [] = Perm.refl (s ∷ [])
insert_text-perm s (t ∷ ts) = elim (Bool-cases (text_lt t s)) [
  | inl e ↦ rw e (Perm.trans (Perm.cons t (insert_text-perm s ts)) (Perm.swap s t ts))
  | inr e ↦ rw e (Perm.refl (s ∷ t ∷ ts))
]

sort_texts-perm : (ts : List Text) → Perm (sort_texts ts) ts
unfolding sort_texts
sort_texts-perm [] = Perm.refl []
sort_texts-perm (t ∷ ts) =
    Perm.trans (insert_text-perm t (sort_texts ts)) (Perm.cons t (sort_texts-perm ts))

keys_of-map : (m : StringMap) → keys_of m ≡ map (λ entry. entry.0) m
unfolding keys_of
keys_of-map [] = refl
keys_of-map ((key, value) ∷ m) = ap (λ ks. key ∷ ks) (keys_of-map m)

-- A reference says of an answer whether there was an object and, in some order, the object's keys.
abbrev pub Tells : Reference → Fetched StringMap → Type 0
Tells ref (got m) = (ref.exists ≡ true) × Perm ref.keys (map (λ entry. entry.0) m)
Tells ref (refused e) = (ref.exists ≡ false) × (ref.keys ≡ [])

pub reference_of-Tells :
    (kind : RefKind) (name : Text) (answer : Fetched StringMap)
    → Tells (reference_of kind name answer) answer
unfolding reference_of
reference_of-Tells kind name (got m) = (
  refl,
  subst (λ ks. Perm (sort_texts (keys_of m)) ks) (keys_of-map m) (sort_texts-perm (keys_of m)),
)
reference_of-Tells kind name (refused e) = (refl, refl)

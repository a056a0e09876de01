-- ===== src/Evidence/Revisions.antt =====
-- internal/evidence/collector.go: which revisions `rolloutHistory` reports.
use mathlib.Core.List.{Perm}
use kube_cure.Prelude.{
  ℕ, ◌≤◌, ℤ, Bool, true, false, ◌↔◌, ◌≤ℤ◌, AnyOf, any_iff, Kept, keep_if-Kept, All-mono, zero, suc,
  ◌⊎◌, inl, inr, ◌≡◌, refl, ap, List, [], ◌∷◌, ◌++◌, take, drop, length, All, keep_if, arith,
  length-take-le,
}
use kube_cure.Text.{text_eq, text_eq_iff}
use kube_cure.Text.Numbers.{show_int}
use kube_cure.Text.Decimal.{FitsInt64, atoi-show_int}
use kube_cure.Cluster.{ReplicaSet}
use kube_cure.Evidence.Source.{Source, Deployment, map_value}
use kube_cure.Evidence.Reads.Rollout.{
  revision_annotation, revision_of, owned_by, later_revision, reported,
}

-- The revision of a ReplicaSet whose annotation is the decimal text of an int64 is that number, also
-- if it is negative.
pub revision_of-show_int :
    (rs : ReplicaSet) (z : ℤ)
    → FitsInt64 z
    → map_value rs.annotations revision_annotation ≡ show_int z
    → revision_of rs ≡ z
unfolding revision_of
revision_of-show_int rs z h e = rw (e, atoi-show_int z h) refl

-- In the order of a sort: no later entry is less than an earlier one.
abbrev pub InOrder {ℓ} : {A : Type ℓ} → (A → A → Bool) → List A → Type 0
InOrder less [] = Unit
InOrder less (x ∷ xs) = All (λ y. less y x ≡ false) xs × InOrder less xs

-- What sort.Slice promises of a test that compares by a number.
abbrev pub Sorts {ℓ} : {A : Type ℓ} → ((A → A → Bool) → List A → List A) → (A → A → Bool) → Type ℓ
Sorts {A} sort less = (xs : List A) → Perm (sort less xs) xs × InOrder less (sort less xs)

take-append-drop {ℓ} : {A : Type ℓ} (n : ℕ) (xs : List A) → take n xs ++ drop n xs ≡ xs
take-append-drop zero xs = refl
take-append-drop (suc n) [] = refl
take-append-drop (suc n) (x ∷ xs) = ap (λ ys. x ∷ ys) (take-append-drop n xs)

-- What is cut off is nothing, or the limit has been met.
drop-cases {ℓ} : {A : Type ℓ} (n : ℕ) (xs : List A) → (drop n xs ≡ []) ⊎ (length (take n xs) ≡ n)
drop-cases zero xs = inr refl
drop-cases (suc n) [] = inl refl
drop-cases (suc n) (x ∷ xs) = elim (drop-cases n xs) [
  | inl e ↦ inl e
  | inr e ↦ inr (omega (arith, e))
]

-- One of the owner references bears the Deployment's uid.
abbrev pub OwnedBy : Deployment → ReplicaSet → Type 0
OwnedBy d rs = AnyOf (λ ref. ref.uid ≡ d.uid) rs.owner_references

owned_by-OwnedBy : (d : Deployment) (rs : ReplicaSet) → (owned_by d rs ≡ true) ↔ OwnedBy d rs
unfolding owned_by
owned_by-OwnedBy d rs =
    any_iff (λ ref. ref.uid ≡ d.uid) (λ ref. text_eq ref.uid d.uid)
      (λ ref. text_eq_iff ref.uid d.uid) rs.owner_references

-- The numbers of the revisions never rise.
abbrev pub Falling : List ReplicaSet → Type 0
Falling [] = Unit
Falling (rs ∷ rest) = All (λ other. revision_of other ≤ℤ revision_of rs) rest × Falling rest

not_later : (a b : ReplicaSet) → later_revision a b ≡ false → revision_of a ≤ℤ revision_of b
unfolding later_revision
not_later a b h = ground arith

InOrder-Falling : (xs : List ReplicaSet) → InOrder later_revision xs → Falling xs
InOrder-Falling [] h = tt
InOrder-Falling (x ∷ xs) (first, h) = (
  All-mono (λ y. later_revision y x ≡ false) (λ y. revision_of y ≤ℤ revision_of x) xs
      (λ y. not_later y x) first,
  InOrder-Falling xs h,
)

-- With a sort that keeps its promise, the revisions reported are the latest of the Deployment. Of the
-- ReplicaSets listed, those with an owner reference to its uid are, in another order, the reported
-- ones and some rest; in that order the revision numbers never rise, so that nothing in the rest has
-- a higher number than one that is reported; at most three are reported; and there is a rest only if
-- three are.
pub reported_latest :
    (source : Source) (d : Deployment) (items : List ReplicaSet)
    → Sorts source.sort_revisions later_revision
    → let shown = reported source d items in
      (owned : List ReplicaSet) × (rest : List ReplicaSet) × Kept (OwnedBy d) items owned
      × Perm (shown ++ rest) owned
      × Falling (shown ++ rest)
      × (length shown ≤ 3)
      × ((rest ≡ []) ⊎ (length shown ≡ 3))
unfolding reported
reported_latest source d items sorts =
    let owned = keep_if (owned_by d) items in
    let sorted = source.sort_revisions later_revision owned in
    let (perm, order) = sorts owned in
    let whole = take-append-drop 3 sorted in
    (
      owned,
      drop 3 sorted,
      keep_if-Kept (OwnedBy d) (owned_by d) (owned_by-OwnedBy d) items,
      rw whole perm,
      rw whole (InOrder-Falling sorted order),
      length-take-le 3 sorted,
      drop-cases 3 sorted,
    )

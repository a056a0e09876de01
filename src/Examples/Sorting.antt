-- ===== src/Examples/Sorting.antt =====
-- An insertion sort, which keeps the promise of sort.Slice.
use mathlib.Core.List.Perm
use mathlib.Core.List.{Perm}
use kube_cure.Prelude.{
  Bool, true, false, ◌≡◌, List, [], ◌∷◌, All, All-mono, arith, Bool-cases, inl, inr, if◌then◌else◌,
}
use kube_cure.Evidence.Reads.Rollout.{later_revision}
use kube_cure.Evidence.Revisions.{InOrder, Sorts}

module _ {A : Type 0} (less : A → A → Bool) where
  abbrev insert : A → List A → List A
  insert x [] = x ∷ []
  insert x (y ∷ ys) = if less y x then y ∷ insert x ys else x ∷ y ∷ ys

  abbrev pub insertion_sort : List A → List A
  insertion_sort [] = []
  insertion_sort (x ∷ xs) = insert x (insertion_sort xs)

  insert-perm : (x : A) (ys : List A) → Perm (insert x ys) (x ∷ ys)
  insert-perm x [] = Perm.refl (x ∷ [])
  insert-perm x (y ∷ ys) = elim (Bool-cases (less y x)) [
    | inl e ↦ rw e (Perm.trans (Perm.cons y (insert-perm x ys)) (Perm.swap x y ys))
    | inr e ↦ rw e (Perm.refl (x ∷ y ∷ ys))
  ]

  sort-perm : (xs : List A) → Perm (insertion_sort xs) xs
  sort-perm [] = Perm.refl []
  sort-perm (x ∷ xs) = Perm.trans (insert-perm x (insertion_sort xs)) (Perm.cons x (sort-perm xs))

  -- A test by a number: asymmetric, and "not less" is transitive.
  module _ (asym : (a b : A) → less a b ≡ true → less b a ≡ false)
      (chain : (a b c : A) → less a b ≡ false → less b c ≡ false → less a c ≡ false) where
    insert-All : (P : A → Type 0) (x : A) (ys : List A) → P x → All P ys → All P (insert x ys)
    insert-All P x [] px h = (px, tt)
    insert-All P x (y ∷ ys) px (py, h) = elim (Bool-cases (less y x)) [
      | inl e ↦ rw e (py, insert-All P x ys px h)
      | inr e ↦ rw e (px, (py, h))
    ]

    insert-InOrder : (x : A) (ys : List A) → InOrder less ys → InOrder less (insert x ys)
    insert-InOrder x [] h = (tt, tt)
    insert-InOrder x (y ∷ ys) (first, h) = elim (Bool-cases (less y x)) [
      | inl e ↦
          rw e (insert-All (λ z. less z y ≡ false) x ys (asym y x e) first, insert-InOrder x ys h)
      | inr e ↦ rw e (
        (
          e,
          All-mono (λ z. less z y ≡ false) (λ z. less z x ≡ false) ys
              (λ z later. chain z y x later e) first,
        ),
        (first, h),
      )
    ]

    sort-InOrder : (xs : List A) → InOrder less (insertion_sort xs)
    sort-InOrder [] = tt
    sort-InOrder (x ∷ xs) = insert-InOrder x (insertion_sort xs) (sort-InOrder xs)

pub insertion_sort-Sorts : Sorts (λ less. insertion_sort less) later_revision
unfolding later_revision
insertion_sort-Sorts xs = (
  sort-perm later_revision xs,
  sort-InOrder later_revision (λ a b h. ground arith) (λ a b c h k. ground arith) xs,
)

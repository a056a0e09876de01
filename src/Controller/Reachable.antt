-- ===== src/Controller/Reachable.antt =====
-- internal/controller: what holds of the store after any number of reconciles.
use kube_cure.Prelude.{
  suc, false, ◌≡◌, ◌⊎◌, inl, inr, refl, ◌∙◌, subst, arith, some, List, [], ◌∷◌, ◌++◌, All,
  All-append,
}
use kube_cure.Text.{Text, text_eq_iff}
use kube_cure.Api.Evidence
use kube_cure.Api.Diagnosis.{Diagnosis, DiagnosisStatus, Investigation, Phase}
use kube_cure.Controller.Store.{same_object, exists}
use kube_cure.Controller.Moves.{AllMoved, Enriches}
use kube_cure.Controller.Concludes.{Concludes}
use kube_cure.Controller.Pipeline.{Steps, stay, go, Transition, Step-Transition}

-- No two objects share a namespace and a name.
abbrev pub Distinct : List Diagnosis → Type 0
Distinct [] = Unit
Distinct (d ∷ ds) = (exists d.namespace d.name ds ≡ false) × Distinct ds

-- The phases that the controllers reach, with what each must have recorded.
abbrev pub Consistent : Diagnosis → Type 0
Consistent d =
    (d.status.phase ≡ Phase.unset)
    ⊎ (d.status.phase ≡ Phase.detected)
    ⊎ ((d.status.phase ≡ Phase.enriched)
        × ((ev : Evidence.Evidence) × (d.status.evidence ≡ some ev)))
    ⊎ ((d.status.phase ≡ Phase.hypothesized)
        × ((ev : Evidence.Evidence) × (d.status.evidence ≡ some ev))
        × ((inv : Investigation) × (d.status.investigation ≡ some inv)))

abbrev pub Stored : Diagnosis → List Diagnosis → Type 0
Stored d [] = ⊥
Stored d (x ∷ xs) = (x ≡ d) ⊎ Stored d xs

module _ (Q : Diagnosis → DiagnosisStatus → Type 0) where
  exists-AllMoved :
      (ns n : Text) (xs ys : List Diagnosis) → AllMoved Q xs ys → exists ns n ys ≡ exists ns n xs
  unfolding exists same_object
  exists-AllMoved ns n [] [] h = refl
  exists-AllMoved ns n [] (y ∷ ys) h = absurd h
  exists-AllMoved ns n (x ∷ xs) [] h = absurd h
  exists-AllMoved ns n (x ∷ xs) (y ∷ ys) (inl e, h) = rw (e, exists-AllMoved ns n xs ys h) refl
  exists-AllMoved ns n (x ∷ xs) (y ∷ ys) (inr (s, e, q), h) =
      rw (e, exists-AllMoved ns n xs ys h) refl

  Distinct-AllMoved : (xs ys : List Diagnosis) → AllMoved Q xs ys → Distinct xs → Distinct ys
  Distinct-AllMoved [] [] h d = tt
  Distinct-AllMoved [] (y ∷ ys) h d = absurd h
  Distinct-AllMoved (x ∷ xs) [] h d = absurd h
  Distinct-AllMoved (x ∷ xs) (y ∷ ys) (inl e, h) (free, d) =
      (rw e (exists-AllMoved x.namespace x.name xs ys h ∙ free), Distinct-AllMoved xs ys h d)
  Distinct-AllMoved (x ∷ xs) (y ∷ ys) (inr (s, e, q), h) (free, d) =
      (rw e (exists-AllMoved x.namespace x.name xs ys h ∙ free), Distinct-AllMoved xs ys h d)

  All-AllMoved :
      (P : Diagnosis → Type 0) (xs ys : List Diagnosis)
      → ((x : Diagnosis) (s : DiagnosisStatus)
          → Q x s
          → P x
          → P (record x { status = s; resource_version = suc x.resource_version }))
      → AllMoved Q xs ys
      → All P xs
      → All P ys
  All-AllMoved P [] [] keep h a = tt
  All-AllMoved P [] (y ∷ ys) keep h a = absurd h
  All-AllMoved P (x ∷ xs) [] keep h a = absurd h
  All-AllMoved P (x ∷ xs) (y ∷ ys) keep (inl e, h) (p, a) = (rw e p, All-AllMoved P xs ys keep h a)
  All-AllMoved P (x ∷ xs) (y ∷ ys) keep (inr (s, e, q), h) (p, a) =
      (rw e (keep x s q p), All-AllMoved P xs ys keep h a)

  Stored-AllMoved :
      (d : Diagnosis) (xs ys : List Diagnosis)
      → ((s : DiagnosisStatus) → Q d s → ⊥)
      → AllMoved Q xs ys
      → Stored d xs
      → Stored d ys
  Stored-AllMoved d [] [] stuck h m = m
  Stored-AllMoved d [] (y ∷ ys) stuck h m = absurd h
  Stored-AllMoved d (x ∷ xs) [] stuck h m = absurd h
  Stored-AllMoved d (x ∷ xs) (y ∷ ys) stuck (h, rest) (inr m) =
      inr (Stored-AllMoved d xs ys stuck rest m)
  Stored-AllMoved d (x ∷ xs) (y ∷ ys) stuck (inl e, rest) (inl m) = inl (e ∙ m)
  Stored-AllMoved d (x ∷ xs) (y ∷ ys) stuck (inr (s, e, q), rest) (inl m) =
      absurd (stuck s (subst (λ z. Q z s) m q))

Stored-append : (d : Diagnosis) (xs ys : List Diagnosis) → Stored d xs → Stored d (xs ++ ys)
Stored-append d [] ys m = absurd m
Stored-append d (x ∷ xs) ys (inl e) = inl e
Stored-append d (x ∷ xs) ys (inr m) = inr (Stored-append d xs ys m)

exists-append :
    (ns n : Text) (xs : List Diagnosis) (d : Diagnosis)
    → exists ns n xs ≡ false
    → same_object ns n d ≡ false
    → exists ns n (xs ++ d ∷ []) ≡ false
unfolding exists
exists-append ns n [] d h k = ground arith
exists-append ns n (x ∷ xs) d h k = ground (arith, exists-append ns n xs d)

same_object-sym :
    (a b : Diagnosis) → same_object a.namespace a.name b ≡ same_object b.namespace b.name a
unfolding same_object
same_object-sym a b = ground (
  arith,
  text_eq_iff a.namespace b.namespace,
  text_eq_iff b.namespace a.namespace,
  text_eq_iff a.name b.name,
  text_eq_iff b.name a.name,
)

Distinct-append :
    (xs : List Diagnosis) (d : Diagnosis)
    → exists d.namespace d.name xs ≡ false
    → Distinct xs
    → Distinct (xs ++ d ∷ [])
unfolding exists
Distinct-append [] d free h = (refl, tt)
Distinct-append (x ∷ xs) d free (f, h) = (
  exists-append x.namespace x.name xs d f (ground (arith, same_object-sym x d)),
  Distinct-append xs d (ground arith) h,
)

-- The two invariants of a store.
abbrev pub Valid : List Diagnosis → Type 0
Valid s = Distinct s × All Consistent s

Transition-keeps : (s t : List Diagnosis) → Transition s t → Valid s → Valid t
Transition-keeps s t (inl e) v = rw e v
Transition-keeps s t (inr (inl (d, free, phase, e))) (distinct, all) =
    rw e (Distinct-append s d free distinct, All-append Consistent s (d ∷ []) all (new phase, tt))
  where
    new : (d.status.phase ≡ Phase.unset) ⊎ (d.status.phase ≡ Phase.detected) → Consistent d
    new (inl u) = inl u
    new (inr p) = inr (inl p)
Transition-keeps s t (inr (inr (inl m))) (distinct, all) = (
  Distinct-AllMoved Enriches s t m distinct,
  All-AllMoved Enriches Consistent s t (λ x st q c. inr (inr (inl (q.1, q.2)))) m all,
)
Transition-keeps s t (inr (inr (inr m))) (distinct, all) = (
  Distinct-AllMoved Concludes s t m distinct,
  All-AllMoved Concludes Consistent s t concluded m all,
)
  where
    concluded :
        (x : Diagnosis) (st : DiagnosisStatus)
        → Concludes x st
        → Consistent x
        → Consistent (record x { status = st; resource_version = suc x.resource_version })
    concluded x st q (inl u) = absurd (ground (arith, q.0))
    concluded x st q (inr (inl u)) = absurd (ground (arith, q.0))
    concluded x st q (inr (inr (inl (u, (ev, e))))) = inr (inr (inr (q.1, (ev, q.3 ∙ e), q.2)))
    concluded x st q (inr (inr (inr (u, ev, inv)))) = absurd (ground (arith, q.0, u))

-- From a store that meets them, the controllers never leave these two invariants, in whatever order
-- they run, whatever they read and whichever of their writes fail: no two diagnoses share a namespace
-- and a name; and each diagnosis is in no phase, detected, enriched with evidence, or hypothesized
-- with evidence and an investigation.
pub Steps-Valid :
    {sum256 : Text → Text} (s t : List Diagnosis) → Steps sum256 s t → Valid s → Valid t
Steps-Valid s t (stay s') v = v
Steps-Valid s t (go {t = u} step rest) v =
    Steps-Valid u t rest (Transition-keeps s u (Step-Transition step) v)

Transition-stuck :
    (d : Diagnosis) (s t : List Diagnosis)
    → d.status.phase ≡ Phase.unset
    → Transition s t
    → Stored d s
    → Stored d t
Transition-stuck d s t unset (inl e) m = rw e m
Transition-stuck d s t unset (inr (inl (x, free, phase, e))) m = rw e (Stored-append d s (x ∷ []) m)
Transition-stuck d s t unset (inr (inr (inl moved))) m =
    Stored-AllMoved Enriches d s t (λ st q. ground (arith, q.0)) moved m
Transition-stuck d s t unset (inr (inr (inr moved))) m =
    Stored-AllMoved Concludes d s t (λ st q. ground (arith, q.0)) moved m

-- A stored diagnosis in no phase, which is what a refused first status write leaves, stays as it is
-- through any number of reconciles of the three controllers.
pub Steps-stuck :
    {sum256 : Text → Text} (s t : List Diagnosis) (d : Diagnosis)
    → Steps sum256 s t
    → d.status.phase ≡ Phase.unset
    → Stored d s
    → Stored d t
Steps-stuck s t d (stay s') unset m = m
Steps-stuck s t d (go {t = u} step rest) unset m =
    Steps-stuck u t d rest unset (Transition-stuck d s u unset (Step-Transition step) m)

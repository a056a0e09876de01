-- ===== src/Evidence/Recorded.antt =====
-- internal/evidence/collector.go: which references `configReferences` reports.
use kube_cure.Prelude.{
  Bool, true, false, not, ◌&&◌, ◌||◌, ◌≤◌, ◌≡◌, ◌≢◌, ◌↔◌, inl, inr, refl, ap, sym, ◌∙◌, [], ◌∷◌,
  ◌++◌, any, All, All-append, All-mono, subst, arith, Bool-cases,
}
use kube_cure.Text.{Text, text_eq, text_eq_iff, is_empty}
use kube_cure.Evidence.Collect.{Target}
use kube_cure.Cluster.{StringMap}
use kube_cure.Evidence.Source.{Source, Fetched, got, refused}
use kube_cure.Evidence.Reads.References.{
  RefKind, Reference, Recorded, Named, reference_of, read_object, reference_id, record_reference,
  record_all, references, none_recorded, names_in,
}
use kube_cure.Evidence.Answered.{Tells, reference_of-Tells}
use kube_cure.Evidence.Mentioned.{Mentioned, names_in-Mentioned}
use kube_cure.Evidence.Reported.{
  same_kind, is_reference, times_reported, is_named, once, is_seen, times-append,
  reference_id-injective,
}

module _ (source : Source) (ns : Text) where
  abbrev reading_of : RefKind → Text → Reference
  reading_of kind name = reference_of kind name (read_object source ns kind name)

  is_reference-reading :
      (kind k : RefKind) (name n : Text)
      → is_reference kind name (reading_of k n)
        ≡ text_eq (reference_id k n) (reference_id kind name)
  unfolding is_reference reference_of
  is_reference-reading kind k name n =
      same_parts kind name k n (read_object source ns k n)
      ∙ sym (reference_id-injective k kind n name)
    where
      same_parts :
          (kind : RefKind) (name : Text) (k : RefKind) (n : Text) (a : Fetched StringMap)
          → is_reference kind name (reference_of k n a) ≡ (same_kind k kind && text_eq n name)
      same_parts kind name k n (got m) = refl
      same_parts kind name k n (refused e) = refl

  -- Every kind and name is reported once if it has been seen, and otherwise not at all.
  abbrev Counted : Recorded → Type 0
  Counted state =
      (kind : RefKind) (name : Text)
      → times_reported kind name state.refs ≡ once (is_seen kind name state.seen)

  fresh-Counted :
      (state : Recorded) (k : RefKind) (n : Text)
      → Counted state
      → is_seen k n state.seen ≡ false
      → Counted (record {
        seen = reference_id k n ∷ state.seen;
        refs = state.refs ++ reading_of k n ∷ [];
      })
  unfolding is_seen once
  fresh-Counted state k n counted unseen kind name =
      times-append kind name state.refs (reading_of k n)
      ∙ rw (counted kind name, is_reference-reading kind k name n)
          (elim (Bool-cases (text_eq (reference_id k n) (reference_id kind name))) [
            | inl same ↦
                let e = (text_eq_iff (reference_id k n) (reference_id kind name)).0 same in
                rw (same, ← e, unseen) refl
            | inr other ↦ rw other (omega arith)
          ])

  record-Counted :
      (state : Recorded) (k : RefKind) (n : Text)
      → Counted state
      → Counted (record_reference source ns state k n)
  unfolding record_reference is_seen
  record-Counted state k n counted = elim (Bool-cases (is_empty n || is_seen k n state.seen)) [
    | inl skip ↦ rw skip counted
    | inr new ↦ rw new (fresh-Counted state k n counted (ground arith))
  ]

  record_all-Counted :
      (state : Recorded) (names : Named)
      → Counted state
      → Counted (record_all source ns state names)
  unfolding record_all
  record_all-Counted state [] counted = counted
  record_all-Counted state ((k, n) ∷ rest) counted =
      record_all-Counted (record_reference source ns state k n) rest
        (record-Counted state k n counted)

  -- A name that is not empty has been seen once `record` was called with it.
  record-seen :
      (state : Recorded) (k : RefKind) (n : Text) (kind : RefKind) (name : Text)
      → is_empty name ≡ false
      → is_seen kind name (record_reference source ns state k n).seen
        ≡ (is_seen kind name state.seen || (same_kind k kind && text_eq n name))
  unfolding record_reference is_seen
  record-seen state k n kind name given = elim (Bool-cases (same_kind k kind && text_eq n name)) [
    | inl same ↦
        let hit = reference_id-injective k kind n name ∙ same in
        let e = (text_eq_iff (reference_id k n) (reference_id kind name)).0 hit in
        let alike = ap (λ id. any (λ s. text_eq s id) state.seen) e in
        ground (arith, text_eq_iff n name)
    | inr other ↦ ground (arith, reference_id-injective k kind n name)
  ]

  record_all-seen :
      (state : Recorded) (names : Named) (kind : RefKind) (name : Text)
      → is_empty name ≡ false
      → is_seen kind name (record_all source ns state names).seen
        ≡ (is_seen kind name state.seen || is_named kind name names)
  unfolding record_all is_named
  record_all-seen state [] kind name given = ground arith
  record_all-seen state ((k, n) ∷ rest) kind name given = ground (
    arith,
    record_all-seen (record_reference source ns state k n) rest kind name given,
    record-seen state k n kind name given,
  )

  record-unnamed :
      (state : Recorded) (k : RefKind) (n : Text) (kind : RefKind)
      → is_seen kind [] state.seen ≡ false
      → is_seen kind [] (record_reference source ns state k n).seen ≡ false
  unfolding record_reference is_seen text_eq
  record-unnamed state k [] kind h = h
  record-unnamed state k (c ∷ s) kind h =
      ground (arith, reference_id-injective k kind (c ∷ s) [], no_name (same_kind k kind))
    where
      no_name : (b : Bool) → (b && text_eq (c ∷ s) []) ≡ false
      no_name true = refl
      no_name false = refl

  record_all-unnamed :
      (state : Recorded) (names : Named) (kind : RefKind)
      → is_seen kind [] state.seen ≡ false
      → is_seen kind [] (record_all source ns state names).seen ≡ false
  unfolding record_all
  record_all-unnamed state [] kind h = h
  record_all-unnamed state ((k, n) ∷ rest) kind h =
      record_all-unnamed (record_reference source ns state k n) rest kind
        (record-unnamed state k n kind h)

  -- A reference is what the read of its object gives.
  abbrev IsRead : Reference → Type 0
  IsRead ref = ref ≡ reading_of ref.kind ref.name

  -- A reference tells what the read of its object answers.
  abbrev pub IsTold : Reference → Type 0
  IsTold ref = Tells ref (read_object source ns ref.kind ref.name)

  IsRead-IsTold : (ref : Reference) → IsRead ref → IsTold ref
  IsRead-IsTold ref h =
      let answer = read_object source ns ref.kind ref.name in
      subst (λ r. Tells r answer) (sym h) (reference_of-Tells ref.kind ref.name answer)

  reading-IsRead :
      (kind : RefKind) (name : Text) (a : Fetched StringMap)
      → a ≡ read_object source ns kind name
      → IsRead (reference_of kind name a)
  unfolding reference_of
  reading-IsRead kind name (got m) e = ap (reference_of kind name) e
  reading-IsRead kind name (refused why) e = ap (reference_of kind name) e

  record-AllRead :
      (state : Recorded) (k : RefKind) (n : Text)
      → All IsRead state.refs
      → All IsRead (record_reference source ns state k n).refs
  unfolding record_reference
  record-AllRead state k n h =
      elim (Bool-cases (is_empty n || any (λ s. text_eq s (reference_id k n)) state.seen)) [
        | inl skip ↦ rw skip h
        | inr new ↦ rw new (
            All-append IsRead state.refs (reading_of k n ∷ []) h
              (reading-IsRead k n (read_object source ns k n) refl, tt))
      ]

  record_all-AllRead :
      (state : Recorded) (names : Named)
      → All IsRead state.refs
      → All IsRead (record_all source ns state names).refs
  unfolding record_all
  record_all-AllRead state [] h = h
  record_all-AllRead state ((k, n) ∷ rest) h =
      record_all-AllRead (record_reference source ns state k n) rest (record-AllRead state k n h)

  none-Counted : Counted none_recorded
  unfolding times_reported is_seen once
  none-Counted kind name = refl

  seen_exact :
      (names : Named) (kind : RefKind) (name : Text)
      → is_seen kind name (record_all source ns none_recorded names).seen
        ≡ (not (is_empty name) && is_named kind name names)
  unfolding is_seen
  seen_exact names kind [] = record_all-unnamed none_recorded names kind refl
  seen_exact names kind (c ∷ s) = record_all-seen none_recorded names kind (c ∷ s) refl

once-at_most : (b : Bool) → once b ≤ 1
unfolding once
once-at_most true = omega arith
once-at_most false = omega arith

once_iff : (b : Bool) → (once b ≡ 1) ↔ (b ≡ true)
unfolding once
once_iff true = (λ h. refl, λ h. refl)
once_iff false = (λ h. absurd (omega (arith, h)), λ h. absurd (ground arith))

nonempty_iff : (s : Text) (b : Bool) → ((not (is_empty s) && b) ≡ true) ↔ ((s ≢ []) × (b ≡ true))
nonempty_iff [] b = (λ h. absurd (ground arith), λ (given, h). absurd (given refl))
nonempty_iff (c ∷ s) b = (λ h. (λ e. ground arith, h), λ (given, h). h)

-- A ConfigMap or a Secret is reported at most once, and it is reported exactly if its name is not
-- empty and the pod mentions it: in the source of an ordinary container's environment, in the value
-- of one of its variables, or in a volume of that kind. Every entry says whether the read of its
-- object in the pod's namespace gave one, and has the keys of the object that was read, in some
-- order, or none.
pub references_exact :
    (source : Source) (target : Target) (kind : RefKind) (name : Text)
    → (times_reported kind name (references source target) ≤ 1)
      × ((times_reported kind name (references source target) ≡ 1)
          ↔ ((name ≢ []) × Mentioned kind name target.pod.spec))
      × All (IsTold source target.pod.namespace) (references source target)
unfolding references
references_exact source target kind name =
    let ns = target.pod.namespace in
    let names = names_in target.pod.spec in
    let met = not (is_empty name) && is_named kind name names in
    let count =
      record_all-Counted source ns none_recorded names (none-Counted source ns) kind name
      ∙ ap once (seen_exact source ns names kind name) in
    let given = nonempty_iff name (is_named kind name names) in
    let mentioned = names_in-Mentioned kind name target.pod.spec in
    (
      rw count (once-at_most met),
      (
        λ h. let (named, m) = given.0 ((once_iff met).0 (sym count ∙ h)) in (named, mentioned.0 m),
        λ (named, m). count ∙ (once_iff met).1 (given.1 (named, mentioned.1 m)),
      ),
      All-mono (IsRead source ns) (IsTold source ns) (references source target)
          (IsRead-IsTold source ns) (record_all-AllRead source ns none_recorded names tt),
    )

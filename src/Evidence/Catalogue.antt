-- ===== src/Evidence/Catalogue.antt =====
-- internal/evidence/collector.go: every kind is reported, and what the evidence says of itself is
-- true.
use kube_cure.Prelude.{
  ◌≤◌, Bool, true, false, not, ◌&&◌, ◌≡◌, ◌≢◌, ◌↔◌, refl, ap, subst, inl, inr, List, [], ◌∷◌, ◌++◌,
  length, map, All, All-append, arith, Bool-cases, if◌then◌else◌, append_assoc, append-nil,
}
use kube_cure.Cluster.{ContainerStatus}
use kube_cure.Text.{Text, text_eq, is_empty, trim_space}
use kube_cure.Api.Evidence
use kube_cure.Api.Evidence.{
  EvidenceKind, EvidenceItem, CollectionStatus, collected, not_applicable, unavailable,
  is_collected,
}
use kube_cure.Evidence.Matrix.{Requirement, requirement_for, is_required, all_kinds}
use kube_cure.Evidence.Redact.{Redactor, redact, truncate, truncate_bounds}
use kube_cure.Evidence.Collect.{
  Target, Readers, Gathered, content, unreadable, gather, gathered_item, item_for, add_item,
  collect_kinds, collect, populate_container_facts, no_evidence, container_facts, none_missing,
}

-- Kinds of the items that are required and not collected.
abbrev pub missing_of : List EvidenceItem → List EvidenceKind
missing_of [] = []
missing_of (it ∷ rest) =
    if it.required && not (is_collected it.status)
    then it.kind ∷ missing_of rest
    else missing_of rest

abbrev pub kinds_of : List EvidenceItem → List EvidenceKind
kinds_of = map (λ it. it.kind)

missing_of-snoc :
    (items : List EvidenceItem) (it : EvidenceItem)
    → missing_of (items ++ it ∷ []) ≡ (
        if it.required && not (is_collected it.status)
        then missing_of items ++ it.kind ∷ []
        else missing_of items)
missing_of-snoc [] it = ground arith
missing_of-snoc (x ∷ items) it = ground (arith, missing_of-snoc items it)

kinds_of-snoc :
    (items : List EvidenceItem) (it : EvidenceItem)
    → kinds_of (items ++ it ∷ []) ≡ kinds_of items ++ it.kind ∷ []
kinds_of-snoc [] it = refl
kinds_of-snoc (x ∷ items) it = ap (◌∷◌ x.kind) (kinds_of-snoc items it)

facts_only :
    (cs : ContainerStatus)
    → ((container_facts cs no_evidence).items ≡ [])
      × ((container_facts cs no_evidence).missing_required ≡ [])
unfolding container_facts
facts_only cs = (ground arith, ground arith)

none_missing_iff : (kinds : List EvidenceKind) → (none_missing kinds ≡ true) ↔ (kinds ≡ [])
unfolding none_missing
none_missing_iff [] = (λ h. refl, λ h. refl)
none_missing_iff (k ∷ ks) = (λ h. absurd (ground arith), λ h. absurd (ground arith))

module _ (redactors : List Redactor) (readers : Readers) (target : Target) where
  -- Where the content of an item comes from, by its status.
  abbrev pub Scrubbed : CollectionStatus → EvidenceKind → Text → Type 0
  Scrubbed collected kind got =
      (text : Text) × (gather readers target kind ≡ content text)
      × (trim_space text ≢ [])
      × (got ≡ truncate (redact redactors text).0 8192)
  Scrubbed unavailable kind got = got ≡ []
  Scrubbed not_applicable kind got = got ≡ []

  -- What an item says about the read that it reports.
  pub record ItemOk (it : EvidenceItem) : Type 0 where
    pub needed : it.required ≡ is_required (requirement_for target.failure_type it.kind)
    pub inapplicable :
        (it.status ≡ not_applicable)
        ↔ (requirement_for target.failure_type it.kind ≡ Requirement.not_applicable)
    pub bounded : length it.content ≤ 8192
    pub scrubbed : Scrubbed it.status it.kind it.content

  kind-item_for : (kind : EvidenceKind) → (item_for redactors readers target kind).0.kind ≡ kind
  unfolding item_for
  kind-item_for kind = ground arith

  gathered-ItemOk :
      (kind : EvidenceKind) (needed : Bool) (g : Gathered)
      → requirement_for target.failure_type kind ≢ Requirement.not_applicable
      → needed ≡ is_required (requirement_for target.failure_type kind)
      → gather readers target kind ≡ g
      → ItemOk (gathered_item redactors readers target kind needed g).0
  unfolding gathered_item
  gathered-ItemOk kind needed (unreadable why) a n e = record {
    needed = n;
    inapplicable = (λ h. absurd (ground arith), λ h. absurd (a h));
    bounded = omega arith;
    scrubbed = refl;
  }
  gathered-ItemOk kind needed (content text) a n e =
      elim (Bool-cases (is_empty (trim_space text))) [
        | inl b ↦ rw b (record {
          needed = n;
          inapplicable = (λ h. absurd (ground arith), λ h. absurd (a h));
          bounded = omega arith;
          scrubbed = refl;
        })
        | inr b ↦ rw b (record {
          needed = n;
          inapplicable = (λ h. absurd (ground arith), λ h. absurd (a h));
          bounded = truncate_bounds _ 8192;
          scrubbed = (text, e, (λ z. ground arith), refl);
        })
      ]

  item_for-ItemOk : (kind : EvidenceKind) → ItemOk (item_for redactors readers target kind).0
  unfolding item_for
  item_for-ItemOk kind = by_requirement (requirement_for target.failure_type kind) refl
    where
      by_requirement :
          (r : Requirement)
          → requirement_for target.failure_type kind ≡ r
          → ItemOk (item_for redactors readers target kind).0
      by_requirement Requirement.not_applicable e =
          rw (e, item_for)
            (record {
              needed = rw e;
              inapplicable = (λ h. e, λ h. refl);
              bounded = omega arith;
              scrubbed = refl;
            })
      by_requirement Requirement.opportunistic e =
          rw (e, item_for) (gathered-ItemOk kind false _ (λ h. ground arith) (rw e) refl)
      by_requirement Requirement.required e =
          rw (e, item_for) (gathered-ItemOk kind true _ (λ h. ground arith) (rw e) refl)

  -- Evidence that lists its items faithfully.
  record Faithful (done : List EvidenceKind) (ev : Evidence.Evidence) : Type 0 where
    kinds : kinds_of ev.items ≡ done
    missing : ev.missing_required ≡ missing_of ev.items
    items_ok : All ItemOk ev.items

  add_item-Faithful :
      (done : List EvidenceKind) (kind : EvidenceKind) (ev : Evidence.Evidence)
      → Faithful done ev
      → Faithful
          (done ++ kind ∷ [])
          (add_item redactors readers target (item_for redactors readers target kind) ev)
  unfolding add_item
  add_item-Faithful done kind ev f =
      let it = (item_for redactors readers target kind).0 in
      record {
        kinds = ground (arith, kinds_of-snoc ev.items it, kind-item_for kind, f.kinds);
        missing = ground (arith, missing_of-snoc ev.items it, f.missing);
        items_ok = All-append ItemOk ev.items _ f.items_ok (item_for-ItemOk kind, tt);
      }

  collect_kinds-Faithful :
      (kinds done : List EvidenceKind) (ev : Evidence.Evidence)
      → Faithful done ev
      → Faithful (done ++ kinds) (collect_kinds redactors readers target kinds ev)
  unfolding collect_kinds
  collect_kinds-Faithful [] done ev f = rw append-nil f
  collect_kinds-Faithful (kind ∷ kinds) done ev f =
      let ev' = add_item redactors readers target (item_for redactors readers target kind) ev in
      subst (λ d. Faithful d (collect_kinds redactors readers target kinds ev'))
        (append_assoc done (kind ∷ []) kinds)
        (collect_kinds-Faithful kinds (done ++ kind ∷ []) ev' (add_item-Faithful done kind ev f))

  facts-Faithful :
      (container : Text) (css : List ContainerStatus)
      → Faithful [] (populate_container_facts container css no_evidence)
  unfolding populate_container_facts container_facts
  facts-Faithful container [] = record { kinds = refl; missing = refl; items_ok = tt }
  facts-Faithful container (cs ∷ css) =
      elim (Bool-cases (not (is_empty container) && not (text_eq cs.name container))) [
        | inl e ↦ rw (e, populate_container_facts) (facts-Faithful container css)
        | inr e ↦
            let k = facts_only cs in
            rw (e, populate_container_facts)
              (record {
                kinds = ground (arith, k.0);
                missing = ground (arith, k.0, k.1);
                items_ok = rw k.0 tt;
              })
      ]

  -- The evidence lists every kind of the catalogue, in order and once. An item is marked as required
  -- exactly when the matrix requires it, and as not applicable exactly when the matrix has it so;
  -- its content has at most 8192 bytes, and content that was collected is a non-blank read of that
  -- kind, redacted and truncated, and otherwise there is no content. The missing kinds are those of
  -- the items that are required and not collected, and the evidence is complete exactly when there
  -- are none.
  pub collect_catalogue :
      let ev = collect redactors readers target in
      (kinds_of ev.items ≡ all_kinds)
      × All ItemOk ev.items
      × (ev.missing_required ≡ missing_of ev.items)
      × ((ev.complete ≡ true) ↔ (missing_of ev.items ≡ []))
  unfolding collect
  collect_catalogue =
      let f =
        collect_kinds-Faithful all_kinds [] _
          (facts-Faithful target.container target.pod.status.container_statuses) in
      (f.kinds, f.items_ok, f.missing, rw (← f.missing) (none_missing_iff _))

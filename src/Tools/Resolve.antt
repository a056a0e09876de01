-- ===== src/Tools/Resolve.antt =====
-- internal/tools/scope.go: `defaultPod` and `resolvePod`, exactly.
use kube_cure.Prelude.{
  Bool, true, false, ◌≡◌, ◌≢◌, ◌⊎◌, ◌↔◌, inl, inr, refl, List, [], ◌∷◌, ◌++◌, arith, All, subst, ap,
}
use kube_cure.Text.{Text, is_empty}
use kube_cure.Cluster.{
  Answer-cases, Pod, Answer, found, refused, not_found, conflict, already_exists, api_failure,
}
use kube_cure.Agent.Model.{Result, ok, err, CallError}
use kube_cure.Tools.Scope.{
  Client, Scope, in_workload, first_member, replacement, target_or_replacement, default_pod, admit,
  resolve_pod,
}
use kube_cure.Tools.Workload.{Member, in_workload_iff}

Result-cases :
    (r : Result CallError Bool) → (r ≡ ok true) ⊎ ((r ≡ ok false) ⊎ ((e : CallError) × (r ≡ err e)))
Result-cases (ok true) = inl refl
Result-cases (ok false) = inr (inl refl)
Result-cases (err e) = inr (inr (e, refl))

module _ (client : Client) (scope : Scope) where
  -- The first member of the list.
  abbrev pub First : List Pod → Pod → Type 0
  First pods pod =
      (before : List Pod) × (after : List Pod) × (pods ≡ before ++ pod ∷ after)
      × All (λ p. in_workload client scope p ≡ ok false) before
      × Member client scope pod

  first_member_sound :
      (pods : List Pod) (pod : Pod) → first_member client scope pods ≡ ok pod → First pods pod
  unfolding first_member
  first_member_sound [] pod h = absurd (ground arith)
  first_member_sound (p ∷ rest) pod h = elim (Result-cases (in_workload client scope p)) [
    | inl e ↦
        let same : p ≡ pod = ground arith in
        (
          [],
          rest,
          rw same refl,
          tt,
          subst (Member client scope) same ((in_workload_iff client scope p).0 e),
        )
    | inr (inl e) ↦
        let (before, after, eq, outside, member) = first_member_sound rest pod (ground arith) in
        (p ∷ before, after, ap (p ∷◌) eq, (e, outside), member)
    | inr (inr (x, e)) ↦ absurd (ground arith)
  ]

  first_member_complete :
      (before after : List Pod) (pod : Pod)
      → All (λ p. in_workload client scope p ≡ ok false) before
      → Member client scope pod
      → first_member client scope (before ++ pod ∷ after) ≡ ok pod
  unfolding first_member
  first_member_complete [] after pod h member =
      let inside = (in_workload_iff client scope pod).1 member in ground arith
  first_member_complete (p ∷ before) after pod (e, h) member =
      let rest = first_member_complete before after pod h member in ground arith

  first_member_iff :
      (pods : List Pod) (pod : Pod) → (first_member client scope pods ≡ ok pod) ↔ First pods pod
  first_member_iff pods pod = (
    first_member_sound pods pod,
    λ (before, after, eq, outside, member).
        rw eq (first_member_complete before after pod outside member),
  )

  -- The three ways in which a name, or none, is resolved to a pod.
  abbrev pub Resolves : Text → Pod → Type 0
  Resolves name pod =
      ((name ≢ []) × (client.get_pod scope.namespace name ≡ found pod) × Member client scope pod)
      ⊎ (((name ≡ []) × (client.get_pod scope.namespace scope.target_pod ≡ found pod))
          ⊎ ((name ≡ [])
              × (client.get_pod scope.namespace scope.target_pod ≡ refused not_found)
              × ((pods : List Pod) × (client.list_pods scope.namespace ≡ found pods)
                  × First pods pod)))

  named_iff :
      (name : Text) (a : Answer Pod) (pod : Pod)
      → (admit client scope name a ≡ ok pod) ↔ ((a ≡ found pod) × Member client scope pod)
  unfolding admit
  named_iff name (found p) pod = (
    λ h. elim (Result-cases (in_workload client scope p)) [
      | inl e ↦
          let same : p ≡ pod = ground arith in
          (ap found same, subst (Member client scope) same ((in_workload_iff client scope p).0 e))
      | inr (inl e) ↦ absurd (ground arith)
      | inr (inr (x, e)) ↦ absurd (ground arith)
    ],
    λ (e, member). let inside = (in_workload_iff client scope pod).1 member in ground arith,
  )
  named_iff name (refused not_found) pod =
      (λ h. absurd (ground arith), λ (e, m). absurd (ground arith))
  named_iff name (refused conflict) pod =
      (λ h. absurd (ground arith), λ (e, m). absurd (ground arith))
  named_iff name (refused already_exists) pod =
      (λ h. absurd (ground arith), λ (e, m). absurd (ground arith))
  named_iff name (refused (api_failure why)) pod =
      (λ h. absurd (ground arith), λ (e, m). absurd (ground arith))

  target_iff :
      (a : Answer Pod) (pod : Pod)
      → (target_or_replacement client scope a ≡ ok pod) ↔ (
          (a ≡ found pod)
          ⊎ ((a ≡ refused not_found)
              × ((pods : List Pod) × (client.list_pods scope.namespace ≡ found pods)
                  × First pods pod)))
  unfolding target_or_replacement replacement
  target_iff (found p) pod = (
    λ h. inl (ground arith),
    λ h. elim h [ inl e ↦ ground arith | inr x ↦ absurd (ground (arith, x.0)) ],
  )
  target_iff (refused not_found) pod = (
    λ h. elim (Answer-cases (client.list_pods scope.namespace)) [
      | inl (pods, e) ↦ inr (refl, (pods, e, (first_member_iff pods pod).0 (ground arith)))
      | inr (x, e) ↦ absurd (ground arith)
    ],
    λ h. elim h [
      | inl e ↦ absurd (ground arith)
      | inr (r, (pods, e, first)) ↦ let goal = (first_member_iff pods pod).1 first in ground arith
    ],
  )
  target_iff (refused conflict) pod = (
    λ h. absurd (ground arith),
    λ h. elim h [ inl e ↦ absurd (ground arith) | inr x ↦ absurd (ground (arith, x.0)) ],
  )
  target_iff (refused already_exists) pod = (
    λ h. absurd (ground arith),
    λ h. elim h [ inl e ↦ absurd (ground arith) | inr x ↦ absurd (ground (arith, x.0)) ],
  )
  target_iff (refused (api_failure why)) pod = (
    λ h. absurd (ground arith),
    λ h. elim h [ inl e ↦ absurd (ground arith) | inr x ↦ absurd (ground (arith, x.0)) ],
  )

  -- A name resolves to a pod exactly in these cases: the name is given, the scope's namespace has a
  -- pod of it and the pod is a member of the workload (in the namespace, and the diagnosed pod
  -- itself or controlled by the owner, at most through a ReplicaSet of the Deployment); no name is
  -- given and the diagnosed pod is found, whether or not it is still a member; or no name is given,
  -- the diagnosed pod is gone, and the pod is the first member in the namespace's list.
  pub resolve_pod_iff :
      (name : Text) (pod : Pod) → (resolve_pod client scope name ≡ ok pod) ↔ Resolves name pod
  unfolding resolve_pod default_pod is_empty
  resolve_pod_iff [] pod = (
    λ h. elim ((target_iff (client.get_pod scope.namespace scope.target_pod) pod).0 h) [
      | inl e ↦ inr (inl (refl, e))
      | inr x ↦ inr (inr (refl, x.0, x.1))
    ],
    λ h. elim h [
      | inl (n, x, m) ↦ absurd (n refl)
      | inr (inl (n, e)) ↦ (target_iff _ pod).1 (inl e)
      | inr (inr (n, x, y)) ↦ (target_iff _ pod).1 (inr (x, y))
    ],
  )
  resolve_pod_iff (c ∷ name) pod = (
    λ h.
        let r = (named_iff (c ∷ name) (client.get_pod scope.namespace (c ∷ name)) pod).0 h in
        inl (λ e. absurd (ground arith), r.0, r.1),
    λ h. elim h [
      | inl (n, x, m) ↦ (named_iff _ _ pod).1 (x, m)
      | inr (inl (n, e)) ↦ absurd (ground arith)
      | inr (inr (n, x, y)) ↦ absurd (ground arith)
    ],
  )

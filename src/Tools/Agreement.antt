-- ===== src/Tools/Agreement.antt =====
-- internal/tools/scope.go: what resolving a pod can depend on.
use kube_cure.Prelude.{
  ◌≡◌, inl, inr, refl, ap, ◌∙◌, Option, none, some, List, [], ◌∷◌, arith, Bool-cases,
}
use kube_cure.Text.{Text, text_eq, text_eq_iff}
use kube_cure.Api.Evidence.{EvidenceKind}
use kube_cure.Api.Diagnosis.{Diagnosis}
use kube_cure.Cluster.{
  Pod, Answer, found, refused, controller_of, ReplicaSet, OwnerReference, not_found, conflict,
  already_exists, api_failure,
}
use kube_cure.Agent.Model.{Result, ok, err, CallError}
use kube_cure.Evidence.Collect.{Target, gather}
use kube_cure.Tools.Scope.{
  Client, Scope, in_workload, controlled, through_replica_set, first_member, replacement,
  target_or_replacement, default_pod, admit, resolve_pod, ◌>>=◌,
}
use kube_cure.Tools.Catalog.{Registry}

-- Two registries whose reads agree in one namespace: of the API client, and of what gathers evidence
-- for a pod in the namespace.
pub record Agree (one two : Registry) (ns : Text) : Type 0 where
  pub pods : (name : Text) → one.client.get_pod ns name ≡ two.client.get_pod ns name
  pub replica_sets :
      (name : Text) → one.client.get_replica_set ns name ≡ two.client.get_replica_set ns name
  pub pod_lists : one.client.list_pods ns ≡ two.client.list_pods ns
  pub histories : one.client.list_diagnoses ns ≡ two.client.list_diagnoses ns
  pub evidence :
      (t : Target) (kind : EvidenceKind)
      → t.pod.namespace ≡ ns
      → gather one.readers t kind ≡ gather two.readers t kind
  pub sorting : (ds : List Diagnosis) → one.sort_recent ds ≡ two.sort_recent ds
  pub same_render : one.render ≡ two.render

-- A pod that the API finds in a namespace bears the namespace.
abbrev pub Honest : Client → Text → Type 0
Honest client ns =
    (name : Text) (pod : Pod) → client.get_pod ns name ≡ found pod → pod.namespace ≡ ns

pub bind-agree :
    {A B : Type 0} (x y : Result CallError A) (f g : A → Result CallError B)
    → x ≡ y
    → ((a : A) → x ≡ ok a → f a ≡ g a)
    → (x >>= f) ≡ (y >>= g)
bind-agree x y f g e h = same x f g h ∙ ap (λ z. z >>= g) e
  where
    same :
        {A B : Type 0} (x : Result CallError A) (f g : A → Result CallError B)
        → ((a : A) → x ≡ ok a → f a ≡ g a)
        → (x >>= f) ≡ (x >>= g)
    same (ok a) f g h = h a refl
    same (err e) f g h = refl

module _ (one two : Registry) (scope : Scope) (agree : Agree one two scope.namespace) where
  through-agree :
      (pod : Pod) (name : Text)
      → pod.namespace ≡ scope.namespace
      → one.client.get_replica_set pod.namespace name
        ≡ two.client.get_replica_set pod.namespace name
  through-agree pod name same = rw same (agree.replica_sets name)

  rs-agree :
      (a : Answer ReplicaSet)
      → through_replica_set one.client scope a ≡ through_replica_set two.client scope a
  unfolding through_replica_set
  rs-agree (found rs) = refl
  rs-agree (refused not_found) = refl
  rs-agree (refused conflict) = refl
  rs-agree (refused already_exists) = refl
  rs-agree (refused (api_failure why)) = refl

  controlled-agree :
      (pod : Pod) (o : Option OwnerReference)
      → pod.namespace ≡ scope.namespace
      → controlled one.client scope pod o ≡ controlled two.client scope pod o
  unfolding controlled
  controlled-agree pod none same = refl
  controlled-agree pod (some ref) same = rw (through-agree pod ref.name same, rs-agree) refl

  in_workload-agree :
      (pod : Pod) → in_workload one.client scope pod ≡ in_workload two.client scope pod
  unfolding in_workload
  in_workload-agree pod = elim (Bool-cases (text_eq pod.namespace scope.namespace)) [
    | inl e ↦
        let same = (text_eq_iff pod.namespace scope.namespace).0 e in
        rw (controlled-agree pod (controller_of pod.owner_references) same) refl
    | inr e ↦ rw e refl
  ]

  first_member-agree :
      (pods : List Pod) → first_member one.client scope pods ≡ first_member two.client scope pods
  unfolding first_member
  first_member-agree [] = refl
  first_member-agree (p ∷ rest) = ground (arith, in_workload-agree p, first_member-agree rest)

  admit-agree :
      (name : Text) (a : Answer Pod) → admit one.client scope name a ≡ admit two.client scope name a
  unfolding admit
  admit-agree name (found pod) = rw (in_workload-agree pod) refl
  admit-agree name (refused not_found) = refl
  admit-agree name (refused conflict) = refl
  admit-agree name (refused already_exists) = refl
  admit-agree name (refused (api_failure why)) = refl

  replacement-agree :
      (a : Answer (List Pod)) → replacement one.client scope a ≡ replacement two.client scope a
  unfolding replacement
  replacement-agree (found pods) = first_member-agree pods
  replacement-agree (refused e) = refl

  target-agree :
      (a : Answer Pod)
      → target_or_replacement one.client scope a ≡ target_or_replacement two.client scope a
  unfolding target_or_replacement
  target-agree (found pod) = refl
  target-agree (refused not_found) =
      rw agree.pod_lists (replacement-agree (two.client.list_pods scope.namespace))
  target-agree (refused conflict) = refl
  target-agree (refused already_exists) = refl
  target-agree (refused (api_failure why)) = refl

  pub resolve_pod-agree :
      (name : Text) → resolve_pod one.client scope name ≡ resolve_pod two.client scope name
  unfolding resolve_pod default_pod
  resolve_pod-agree name =
      rw
        (
          agree.pods name,
          agree.pods scope.target_pod,
          admit-agree name (two.client.get_pod scope.namespace name),
          target-agree (two.client.get_pod scope.namespace scope.target_pod),
        )
        refl

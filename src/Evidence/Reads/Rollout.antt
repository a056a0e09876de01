-- ===== src/Evidence/Reads/Rollout.antt =====
-- `rolloutHistory` and `revisionOf` of internal/evidence/collector.go.
use kube_cure.Prelude.{
  ℕ, ℤ, pos, ltb_ℤ, Bool, Option, none, some, List, [], ◌∷◌, ◌++◌, any, keep_if, take, map, not,
  if◌then◌else◌,
}
use kube_cure.Text.{Text, codes, text_eq}
use kube_cure.Text.Numbers.{atoi}
use kube_cure.Text.Clock.{format_utc}
use kube_cure.Json.{Json, string, integer}
use kube_cure.Json.Print.{map_of, slice_of}
use kube_cure.Cluster.{ReplicaSet}
use kube_cure.Evidence.Collect.{Target, Gathered, unreadable}
use kube_cure.Evidence.Source.{Source, Deployment, map_value}
use kube_cure.Evidence.Reads.Summarise.{reading, to_json}
use kube_cure.Evidence.Reads.Template.{summarise_containers}

abbrev pub revisions_reported : ℕ
revisions_reported = 3

unfoldable pub revision_annotation : Text
revision_annotation = codes "deployment.kubernetes.io/revision"

or_zero : Option ℤ → ℤ
or_zero none = pos 0
or_zero (some n) = n

unfoldable pub revision_of : ReplicaSet → ℤ
unfolding or_zero
revision_of rs = or_zero (atoi (map_value rs.annotations revision_annotation))

unfoldable pub owned_by : Deployment → ReplicaSet → Bool
owned_by d rs = any (λ ref. text_eq ref.uid d.uid) rs.owner_references

-- The test that the sort goes by.
unfoldable pub later_revision : ReplicaSet → ReplicaSet → Bool
unfolding revision_of
later_revision a b = ltb_ℤ (revision_of b) (revision_of a)

unfoldable pub reported : Source → Deployment → List ReplicaSet → List ReplicaSet
reported source d items =
    take revisions_reported (source.sort_revisions later_revision (keep_if (owned_by d) items))

unfoldable pub revision_entry : ReplicaSet → Json
revision_entry rs = map_of (
    (codes "revision", integer (revision_of rs))
    ∷ (codes "created", string (format_utc rs.creation_timestamp))
    ∷ (codes "replicas", integer rs.replicas)
    ∷ (codes "containers", summarise_containers rs.template.containers)
    ∷ [])

unfoldable pub rollout_summary : Source → Deployment → List ReplicaSet → Json
unfolding reported revision_entry
rollout_summary source d items = map_of (
    (codes "currentRevision", string (map_value d.annotations revision_annotation))
    ∷ (codes "revisions", slice_of (map revision_entry (reported source d items)))
    ∷ [])

-- What follows the conversion of the selector, which may fail.
unfoldable pub listed : Source → Text → Deployment → Option Text → Gathered
unfolding rollout_summary
listed source ns d (some why) = unreadable why
listed source ns d none =
    reading (source.list_replica_sets ns d.selector)
      λ items. to_json (rollout_summary source d items)

unfoldable pub deployment_history : Source → Text → Deployment → Gathered
unfolding listed
deployment_history source ns d = listed source ns d (source.selector_error d.selector)

unfoldable pub rollout_history : Source → Target → Gathered
unfolding deployment_history
rollout_history source target =
    let ns = target.pod.namespace in
    if not (text_eq target.owner_kind (codes "Deployment"))
    then unreadable
        (codes "rollout history is only available for Deployments, owner is " ++ target.owner_kind)
    else reading (source.get_deployment ns target.owner_name) (deployment_history source ns)

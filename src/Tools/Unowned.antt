-- ===== src/Tools/Unowned.antt =====
-- internal/tools/scope.go with internal/evidence/collector.go: the specification that is read for an
-- owner that has no pod template.
use kube_cure.Prelude.{◌≡◌, ◌≢◌, refl, [], ◌∷◌, ◌++◌}
use kube_cure.Text.{codes, text_eq_ne}
use kube_cure.Json.{string, null}
use kube_cure.Json.Print.{map_of, slice_of, marshal_indent, string_map}
use kube_cure.Evidence.Collect.{content, gather}
use kube_cure.Api.Evidence.{EvidenceKind}
use kube_cure.Evidence.Source.{Source}
use kube_cure.Evidence.Reads.{readers_of}
use kube_cure.Evidence.Reads.Summarise.{to_json}
use kube_cure.Evidence.Reads.Template.{
  workload_spec, pod_template, template_summary, summarise_containers, nonempty_slice,
}
use kube_cure.Tools.Scope.{Scope, workload_target}

-- If the owner is no Deployment, StatefulSet or DaemonSet, the workload's specification is gathered
-- without an error and holds no container, no restart policy and no node selector, whatever the API
-- server answers and whatever the diagnosed pod runs.
pub unowned_spec_is_empty :
    (source : Source) (scope : Scope)
    → scope.owner_kind ≢ codes "Deployment"
    → scope.owner_kind ≢ codes "StatefulSet"
    → scope.owner_kind ≢ codes "DaemonSet"
    → gather (readers_of source) (workload_target scope) EvidenceKind.workload_spec
      ≡ content (
          marshal_indent (
            map_of (
              (codes "owner", string (scope.owner_kind ++ (codes "/" ++ scope.owner_name)))
              ∷ (codes "restartPolicy", string [])
              ∷ (codes "nodeSelector", null)
              ∷ (codes "containers", slice_of [])
              ∷ [])))
unfolding gather readers_of workload_spec pod_template template_summary summarise_containers
    nonempty_slice to_json workload_target string_map
unowned_spec_is_empty source scope not_deployment not_stateful not_daemon =
    rw
      (
        text_eq_ne scope.owner_kind (codes "Deployment") not_deployment,
        text_eq_ne scope.owner_kind (codes "StatefulSet") not_stateful,
        text_eq_ne scope.owner_kind (codes "DaemonSet") not_daemon,
      )
      refl

-- ===== src/Evidence/Reads/Template.antt =====
-- `workloadSpec`, `podTemplate` and `summariseContainers` of internal/evidence/collector.go.
use kube_cure.Prelude.{Option, none, some, List, [], ◌∷◌, ◌++◌, map, if◌then◌else◌}
use kube_cure.Text.{Text, codes, text_eq}
use kube_cure.Json.{Json, string}
use kube_cure.Json.Print.{map_of, slice_of, strings, string_map}
use kube_cure.Cluster.{Container, PodSpec, Probe}
use kube_cure.Evidence.Collect.{Target, Gathered}
use kube_cure.Evidence.Source.{Source, Deployment, Fetched, got, refused}
use kube_cure.Evidence.Reads.Summarise.{reading, to_json}

unfoldable pub nonempty_strings : Text → List Text → List (Text × Json)
nonempty_strings key [] = []
nonempty_strings key (s ∷ rest) = (key, strings (s ∷ rest)) ∷ []

unfoldable pub nonempty_slice : Text → List Json → List (Text × Json)
nonempty_slice key [] = []
nonempty_slice key (j ∷ rest) = (key, slice_of (j ∷ rest)) ∷ []

unfoldable pub given_probe : Text → Option Probe → List (Text × Json)
given_probe key none = []
given_probe key (some probe) = (key, probe.marshalled) ∷ []

unfoldable pub summarise_container : Container → Json
unfolding nonempty_strings nonempty_slice given_probe
summarise_container c = map_of (
    (codes "name", string c.name)
    ∷ (codes "image", string c.image)
    ∷ (codes "resources", c.resources)
    ∷ (nonempty_strings (codes "command") c.command
        ++ (nonempty_strings (codes "args") c.args
            ++ (given_probe (codes "readinessProbe") c.readiness_probe
                ++ (given_probe (codes "livenessProbe") c.liveness_probe
                    ++ nonempty_slice (codes "ports") c.ports)))))

unfoldable pub summarise_containers : List Container → Json
unfolding summarise_container
summarise_containers containers = slice_of (map summarise_container containers)

abbrev template_of : Fetched Deployment → Fetched PodSpec
template_of (got d) = got d.template
template_of (refused e) = refused e

-- The spec of the owner's pod template; of an owner of another kind, the target pod's own spec.
unfoldable pub pod_template : Source → Target → Fetched PodSpec
pod_template source target =
    let ns = target.pod.namespace in
    if text_eq target.owner_kind (codes "Deployment")
    then template_of (source.get_deployment ns target.owner_name)
    else if text_eq target.owner_kind (codes "StatefulSet")
    then source.get_stateful_set ns target.owner_name
    else if text_eq target.owner_kind (codes "DaemonSet")
    then source.get_daemon_set ns target.owner_name
    else got target.pod.spec

unfoldable pub template_summary : Target → PodSpec → Json
unfolding summarise_containers nonempty_slice
template_summary target spec = map_of (
    (codes "owner", string (target.owner_kind ++ (codes "/" ++ target.owner_name)))
    ∷ (codes "restartPolicy", string spec.restart_policy)
    ∷ (codes "nodeSelector", string_map spec.node_selector)
    ∷ (codes "containers", summarise_containers spec.containers)
    ∷ nonempty_slice (codes "tolerations") spec.tolerations)

unfoldable pub workload_spec : Source → Target → Gathered
unfolding pod_template template_summary
workload_spec source target =
    reading (pod_template source target) λ spec. to_json (template_summary target spec)

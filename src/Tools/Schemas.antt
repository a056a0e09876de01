-- ===== src/Tools/Schemas.antt =====
-- internal/tools/catalog.go: the names, descriptions and argument schemas that the catalogue declares.
use kube_cure.Prelude.{List, [], ◌∷◌}
use kube_cure.Text.{Text, codes, concat}
use kube_cure.Agent.Model.{ToolSpec}

unfoldable pub schema_none : Text
schema_none = codes "{\"type\":\"object\",\"properties\":{},\"additionalProperties\":false}"

unfoldable pub schema_pod : Text
schema_pod = concat (
    codes "{\"type\":\"object\",\"properties\":{\n"
    ∷ codes "\t\t\"pod\":{\"type\":\"string\",\"description\":\"Pod name. Omit to use "
    ∷ codes "the diagnosed pod, or a live pod of the same workload if it "
    ∷ codes "has been replaced.\"}\n"
    ∷ codes "\t},\"additionalProperties\":false}"
    ∷ [])

unfoldable pub schema_logs : Text
schema_logs = concat (
    codes "{\"type\":\"object\",\"properties\":{\n"
    ∷ codes "\t\t\"pod\":{\"type\":\"string\",\"description\":\"Pod name. Omit to use "
    ∷ codes "the diagnosed pod.\"},\n"
    ∷ codes "\t\t\"container\":{\"type\":\"string\",\"description\":\"Container name. "
    ∷ codes "Omit to use the failing container.\"},\n"
    ∷ codes "\t\t\"previous\":{\"type\":\"boolean\",\"description\":\"Read the "
    ∷ codes "instance that terminated rather than the running one. A "
    ∷ codes "restarting container records its fatal error only in the "
    ∷ codes "previous instance.\"}\n"
    ∷ codes "\t},\"additionalProperties\":false}"
    ∷ [])

unfoldable pub schema_similar : Text
schema_similar = concat (
    codes "{\"type\":\"object\",\"properties\":{\n"
    ∷ codes "\t\t\"failureType\":{\"type\":\"string\",\"description\":\"Failure type "
    ∷ codes "to match. Omit to use the type under investigation.\"}\n"
    ∷ codes "\t},\"additionalProperties\":false}"
    ∷ [])

unfoldable pub spec : Text → Text → Text → ToolSpec
spec name description schema = record {
  name = name;
  description = description;
  input_schema = schema;
}

unfoldable pub about_get_pod_logs : Text
about_get_pod_logs = concat (
    codes "Read container output. Use previous=true for a container that "
    ∷ codes "has restarted, since its fatal error is recorded only by the "
    ∷ codes "instance that died."
    ∷ [])

unfoldable pub about_get_pod_events : Text
about_get_pod_events = concat (
    codes "Read a pod's events, most recent first. Scheduler verdicts, "
    ∷ codes "image pull errors, and missing ConfigMap names appear here."
    ∷ [])

unfoldable pub about_get_workload_spec : Text
about_get_workload_spec = concat (
    codes "Read the owning workload's pod template: images, commands, "
    ∷ codes "resource requests and limits, probes, and ports."
    ∷ [])

unfoldable pub about_get_recent_changes : Text
about_get_recent_changes = concat (
    codes "Read the workload's recent revisions with their creation "
    ∷ codes "times and container specs. Use this to establish whether a "
    ∷ codes "change shortly preceded the failure."
    ∷ [])

unfoldable pub about_get_related_pods : Text
about_get_related_pods = concat (
    codes "Read the state of every pod in the same workload, to "
    ∷ codes "distinguish one unhealthy pod from a workload wide fault."
    ∷ [])

unfoldable pub about_get_service_endpoints : Text
about_get_service_endpoints = concat (
    codes "Read the Services selecting a pod and whether that pod is "
    ∷ codes "currently serving traffic through them."
    ∷ [])

unfoldable pub about_get_node_status : Text
about_get_node_status = concat (
    codes "Read the host node's conditions, taints, and allocatable "
    ∷ codes "capacity. For an unscheduled pod, reads every node."
    ∷ [])

unfoldable pub about_get_config_references : Text
about_get_config_references = concat (
    codes "Report whether every ConfigMap and Secret a pod references "
    ∷ codes "exists, with their key names. Values are never read."
    ∷ [])

unfoldable pub about_get_resource_usage : Text
about_get_resource_usage = concat (
    codes "Read a pod's observed CPU and memory consumption. Reports "
    ∷ codes "when no metrics server is installed."
    ∷ [])

unfoldable pub about_search_similar_diagnoses : Text
about_search_similar_diagnoses = concat (
    codes "Find earlier diagnoses in this namespace with the same "
    ∷ codes "failure type, with their conclusions and outcomes."
    ∷ [])

-- `Specs` of the registry, in the order of the catalogue.
unfoldable pub specs : List ToolSpec
unfolding spec schema_none schema_pod schema_logs schema_similar about_get_pod_logs
    about_get_pod_events about_get_workload_spec about_get_recent_changes about_get_related_pods
    about_get_service_endpoints about_get_node_status about_get_config_references
    about_get_resource_usage about_search_similar_diagnoses
specs =
    spec (codes "get_pod_logs") about_get_pod_logs schema_logs
    ∷ spec (codes "get_pod_events") about_get_pod_events schema_pod
    ∷ spec (codes "get_workload_spec") about_get_workload_spec schema_none
    ∷ spec (codes "get_recent_changes") about_get_recent_changes schema_none
    ∷ spec (codes "get_related_pods") about_get_related_pods schema_none
    ∷ spec (codes "get_service_endpoints") about_get_service_endpoints schema_pod
    ∷ spec (codes "get_node_status") about_get_node_status schema_pod
    ∷ spec (codes "get_config_references") about_get_config_references schema_pod
    ∷ spec (codes "get_resource_usage") about_get_resource_usage schema_pod
    ∷ spec (codes "search_similar_diagnoses") about_search_similar_diagnoses schema_similar
    ∷ []

-- ===== src/Evidence/Reads/Nodes.antt =====
-- `nodeStatus` and `notableConditions` of internal/evidence/collector.go.
use kube_cure.Prelude.{Bool, ◌&&◌, ◌||◌, not, List, [], ◌∷◌, keep_if, map, if◌then◌else◌}
use kube_cure.Text.{Text, codes, text_eq, is_empty}
use kube_cure.Json.{Json, string}
use kube_cure.Json.Print.{map_of, slice_of, slice_or_null}
use kube_cure.Evidence.Collect.{Target, Gathered}
use kube_cure.Evidence.Source.{Source, Node, NodeCondition}
use kube_cure.Evidence.Reads.Summarise.{reading, to_json}

unfoldable pub node_ready : Text
node_ready = codes "Ready"

unfoldable pub condition_true : Text
condition_true = codes "True"

unfoldable pub interesting : NodeCondition → Bool
interesting cond =
    text_eq cond.type node_ready
    || (text_eq cond.status condition_true && not (text_eq cond.type node_ready))

unfoldable pub condition_entry : NodeCondition → Json
condition_entry cond = map_of (
    (codes "type", string cond.type)
    ∷ (codes "status", string cond.status)
    ∷ (codes "reason", string cond.reason)
    ∷ (codes "message", string cond.message)
    ∷ [])

unfoldable pub notable_conditions : Node → List NodeCondition
unfolding interesting
notable_conditions node = keep_if interesting node.conditions

unfoldable pub node_entry : Node → Json
unfolding notable_conditions condition_entry
node_entry node = map_of (
    (codes "node", string node.name)
    ∷ (codes "allocatable", node.allocatable)
    ∷ (codes "taints", slice_or_null node.taints)
    ∷ (codes "conditions", slice_of (map condition_entry (notable_conditions node)))
    ∷ [])

unfoldable pub all_nodes : List Node → Json
unfolding node_entry
all_nodes nodes = map_of (
    (
      codes "note",
      string (
          codes
            "the pod is unscheduled; reporting all nodes so capacity can be compared against its requests"),
    )
    ∷ (codes "nodes", slice_of (map node_entry nodes))
    ∷ [])

-- The nodes of a pod that is not scheduled are all of them.
unfoldable pub node_status : Source → Target → Gathered
unfolding all_nodes node_entry
node_status source target =
    let name = target.pod.spec.node_name in
    if is_empty name
    then reading source.list_nodes (λ nodes. to_json (all_nodes nodes))
    else reading (source.get_node name) (λ node. to_json (node_entry node))

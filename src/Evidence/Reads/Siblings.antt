-- ===== src/Evidence/Reads/Siblings.antt =====
-- `siblingPods` of internal/evidence/collector.go.
use kube_cure.Prelude.{pos, Option, none, some, List, [], ◌∷◌, leb, length, map, if◌then◌else◌}
use kube_cure.Text.{Text, codes, text_eq}
use kube_cure.Json.{Json, string, boolean, integer}
use kube_cure.Json.Print.{map_of, slice_of}
use kube_cure.Cluster.{Pod, ContainerStatus, Waiting}
use kube_cure.Evidence.Collect.{Target, Gathered, unreadable}
use kube_cure.Evidence.Source.{Source}
use kube_cure.Evidence.Reads.Summarise.{reading, to_json}

waiting_entries : Option Waiting → List (Text × Json)
waiting_entries none = []
waiting_entries (some wait) = (codes "waiting", string wait.reason) ∷ []

-- The first container stands for the pod.
unfoldable pub status_entries : List ContainerStatus → List (Text × Json)
unfolding waiting_entries
status_entries [] = []
status_entries (cs ∷ rest) =
    (codes "ready", boolean cs.ready)
    ∷ (codes "restarts", integer (pos cs.restart_count))
    ∷ waiting_entries cs.state.waiting

unfoldable pub sibling_entry : Text → Pod → Json
unfolding status_entries
sibling_entry name pod = map_of (
    (codes "pod", string pod.name)
    ∷ (codes "phase", string pod.status.phase)
    ∷ (codes "self", boolean (text_eq pod.name name))
    ∷ status_entries pod.status.container_statuses)

unfoldable pub siblings_text : List Json → Gathered
siblings_text entries =
    if leb (length entries) 1
    then unreadable (codes "the workload has no other pods to compare against")
    else to_json (slice_of entries)

unfoldable pub sibling_pods : Source → Target → Gathered
unfolding siblings_text sibling_entry
sibling_pods source target =
    reading (source.list_pods target.pod.namespace target.pod.labels)
      λ pods. siblings_text (map (sibling_entry target.pod.name) pods)

-- ===== src/Evidence/Reads/Endpoints.antt =====
-- `serviceEndpoints` of internal/evidence/collector.go.
use kube_cure.Prelude.{
  ℕ, ◌+◌, pos, Bool, true, false, ◌&&◌, none, some, List, [], ◌∷◌, keep_if, map, if◌then◌else◌,
}
use kube_cure.Text.{Text, codes, text_eq}
use kube_cure.Json.{Json, string, boolean, integer}
use kube_cure.Json.Print.{map_of, slice_of, slice_or_null}
use kube_cure.Cluster.{StringMap}
use kube_cure.Evidence.Collect.{Target, Gathered, unreadable}
use kube_cure.Evidence.Source.{Source, Service, Endpoint, EndpointSlice, Fetched, got, refused}
use kube_cure.Evidence.Reads.Summarise.{reading, to_json}

pub record Counts : Type 0 where
  pub ready : ℕ
  pub not_ready : ℕ
  pub serving : Bool

abbrev pub no_endpoints : Counts
no_endpoints = record { ready = 0; not_ready = 0; serving = false }

-- `ep.Conditions.Ready != nil && *ep.Conditions.Ready`
unfoldable pub is_ready : Endpoint → Bool
is_ready ep = elim ep.ready [ none ↦ false | some b ↦ b ]

unfoldable pub targets : Text → Endpoint → Bool
targets name ep = elim ep.target [ none ↦ false | some t ↦ text_eq t name ]

unfoldable pub count_endpoint : Text → Endpoint → Counts → Counts
unfolding is_ready targets
count_endpoint name ep counts =
    let counted =
      if is_ready ep
      then record counts { ready = counts.ready + 1 }
      else record counts { not_ready = counts.not_ready + 1 } in
    if is_ready ep && targets name ep then record counted { serving = true } else counted

unfoldable pub count_endpoints : Text → List Endpoint → Counts → Counts
unfolding count_endpoint
count_endpoints name [] counts = counts
count_endpoints name (ep ∷ rest) counts = count_endpoints name rest (count_endpoint name ep counts)

unfoldable pub count_slices : Text → List EndpointSlice → Counts → Counts
unfolding count_endpoints
count_slices name [] counts = counts
count_slices name (s ∷ rest) counts =
    count_slices name rest (count_endpoints name s.endpoints counts)

-- A service without a selector selects nothing.
unfoldable pub selects_pod : Source → StringMap → Service → Bool
selects_pod source pod_labels svc = elim svc.selector [
  | [] ↦ false
  | _ ∷ _ ↦ source.selects svc.selector pod_labels
]

unfoldable pub count_entries : Text → Fetched (List EndpointSlice) → List (Text × Json)
unfolding count_slices
count_entries name (refused e) = []
count_entries name (got slices) =
    let counts = count_slices name slices no_endpoints in
    (codes "readyEndpoints", integer (pos counts.ready))
    ∷ (codes "notReadyEndpoints", integer (pos counts.not_ready))
    ∷ (codes "thisPodIsServing", boolean counts.serving)
    ∷ []

unfoldable pub service_entry : Source → Text → Service → Json
unfolding count_entries
service_entry source pod_name svc = map_of (
    (codes "service", string svc.name)
    ∷ (codes "ports", slice_or_null svc.ports)
    ∷ count_entries pod_name (source.list_endpoint_slices svc.namespace svc.name))

unfoldable pub matched : Source → Target → List Service → List Service
unfolding selects_pod
matched source target services = keep_if (selects_pod source target.pod.labels) services

unfoldable pub entries_text : List Json → Gathered
entries_text [] = unreadable (codes "no Service selects this pod")
entries_text (j ∷ rest) = to_json (slice_of (j ∷ rest))

unfoldable pub service_endpoints : Source → Target → Gathered
unfolding matched service_entry entries_text
service_endpoints source target = reading (source.list_services target.pod.namespace) λ services.
    entries_text (map (service_entry source target.pod.name) (matched source target services))

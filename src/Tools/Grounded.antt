-- ===== src/Tools/Grounded.antt =====
-- internal/tools over internal/evidence: the tools of an investigation with the collector that asks
-- the API server.
use kube_cure.Prelude.{◌≡◌, List}
use kube_cure.Text.{Text}
use kube_cure.Api.Diagnosis.{Diagnosis}
use kube_cure.Evidence.Source.{Source}
use kube_cure.Evidence.Reads.{readers_of}
use kube_cure.Tools.Scope.{Client}
use kube_cure.Tools.Catalog.{Registry, SimilarEntry}
use kube_cure.Tools.Broker.{Broker}

-- The registry whose evidence is read from an API server.
unfoldable pub registry_of :
    (List Diagnosis → List Diagnosis) → (List SimilarEntry → Text) → Client → Source → Registry
registry_of sort_recent render client source = record {
  client = client;
  readers = readers_of source;
  sort_recent = sort_recent;
  render = render;
}

-- Two clients whose reads agree in one namespace.
pub record SameReads (one two : Client) (ns : Text) : Type 0 where
  pub pods : (name : Text) → one.get_pod ns name ≡ two.get_pod ns name
  pub replica_sets : (name : Text) → one.get_replica_set ns name ≡ two.get_replica_set ns name
  pub pod_lists : one.list_pods ns ≡ two.list_pods ns
  pub histories : one.list_diagnoses ns ≡ two.list_diagnoses ns

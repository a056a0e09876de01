-- ===== src/Evidence/Reads.antt =====
-- internal/evidence/collector.go: the reads behind `gather`, one for each kind of evidence, over the
-- answers of the API server.
pub mod Summarise
pub mod Logs
pub mod Events
pub mod Template
pub mod Rollout
pub mod References
pub mod Endpoints
pub mod Nodes
pub mod Siblings
use kube_cure.Evidence.Collect.{Readers}
use kube_cure.Evidence.Source.{Source}
use Logs.{logs, resource_usage}
use Events.{events}
use Template.{workload_spec}
use Rollout.{rollout_history}
use References.{config_references}
use Endpoints.{service_endpoints}
use Nodes.{node_status}
use Siblings.{sibling_pods}

-- The collector that asks this API server.
unfoldable pub readers_of : Source → Readers
unfolding logs events workload_spec rollout_history config_references service_endpoints node_status
    sibling_pods resource_usage
readers_of source = record {
  logs = logs source;
  events = events source;
  workload_spec = workload_spec source;
  rollout_history = rollout_history source;
  config_references = config_references source;
  service_endpoints = service_endpoints source;
  node_status = node_status source;
  sibling_pods = sibling_pods source;
  resource_usage = resource_usage source;
}

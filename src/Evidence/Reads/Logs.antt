-- ===== src/Evidence/Reads/Logs.antt =====
-- `logs` and `resourceUsage` of internal/evidence/collector.go.
use kube_cure.Prelude.{ℕ, Bool, ◌++◌}
use kube_cure.Text.{Text, codes}
use kube_cure.Evidence.Collect.{Target, Gathered, content, unreadable}
use kube_cure.Evidence.Source.{
  Source, LogRequest, LogStream, unopened, complete, broken, Fetched, got, refused, absent,
  forbidden, failure,
}
use kube_cure.Evidence.Reads.Summarise.{summarise}

abbrev pub log_tail_lines : ℕ
log_tail_lines = 100

unfoldable pub log_request : Target → Bool → LogRequest
log_request target previous = record {
  namespace = target.pod.namespace;
  pod = target.pod.name;
  container = target.container;
  previous = previous;
  tail_lines = log_tail_lines;
}

unfoldable pub log_text : LogStream → Gathered
log_text (unopened e) = unreadable (codes "reading logs: " ++ summarise e)
log_text (broken why) = unreadable (codes "reading logs: " ++ why)
log_text (complete text) = content text

unfoldable pub logs : Source → Target → Bool → Gathered
unfolding log_request log_text
logs source target previous = log_text (source.pod_logs (log_request target previous))

unfoldable pub metrics_path : Target → Text
metrics_path target =
    codes "/apis/metrics.k8s.io/v1beta1/namespaces/"
    ++ (target.pod.namespace ++ (codes "/pods/" ++ target.pod.name))

unfoldable pub usage_text : Fetched Text → Gathered
usage_text (got raw) = content raw
usage_text (refused absent) = unreadable (codes "no metrics server is installed in this cluster")
usage_text (refused forbidden) = unreadable (codes "reading pod metrics: " ++ summarise forbidden)
usage_text (refused (failure why)) =
    unreadable (codes "reading pod metrics: " ++ summarise (failure why))

unfoldable pub resource_usage : Source → Target → Gathered
unfolding metrics_path usage_text
resource_usage source target = usage_text (source.get_raw (metrics_path target))

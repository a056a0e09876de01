-- ===== src/Examples/Evidence.antt =====
-- internal/evidence on the failing pod, with one redactor and reads that give a log line.
use kube_cure.Prelude.{true, ◌++◌, refl, arith, ◌≡◌, ◌↔◌, [], All}
use kube_cure.Text.{codes}
use kube_cure.Api.Failure.{oom_killed}
use kube_cure.Api.Evidence.{EvidenceKind}
use kube_cure.Evidence.Matrix.{plan, requirement_for, all_kinds}
use kube_cure.Evidence.Redact.{redact}
use kube_cure.Evidence.Scrubbed.{Keyword, Sign, word_of, byte_of, value_removed}
use kube_cure.Evidence.Collect.{Target, collect}
use kube_cure.Evidence.Planning.{plan_exact, occurrences, times_planned, required_first}
use kube_cure.Evidence.Catalogue.{collect_catalogue, kinds_of, missing_of, ItemOk}
use kube_cure.Examples.Data.{failing_pod, readers, redactors}

value_removed_example :
    redact kube_cure.Evidence.Patterns.redactors (word_of Keyword.api_key ++ codes ":hunter22")
    ≡ (word_of Keyword.api_key ++ codes "=[REDACTED]", 1)
unfolding byte_of
value_removed_example =
    value_removed Keyword.api_key Sign.colon 104 (codes "unter22") (omega arith)
      (refl, (refl, (refl, (refl, (refl, (refl, (refl, (refl, tt))))))))

plan_exact_example :
    (occurrences EvidenceKind.previous_logs (plan oom_killed)
      ≡ times_planned (requirement_for oom_killed EvidenceKind.previous_logs))
    × (required_first oom_killed (plan oom_killed) ≡ true)
plan_exact_example = plan_exact oom_killed EvidenceKind.previous_logs

abbrev target : Target
target = record {
  pod = failing_pod;
  container = codes "app";
  failure_type = oom_killed;
  owner_kind = codes "Deployment";
  owner_name = codes "api";
}

collect_catalogue_example :
    let ev = collect redactors readers target in
    (kinds_of ev.items ≡ all_kinds)
    × All (ItemOk redactors readers target) ev.items
    × (ev.missing_required ≡ missing_of ev.items)
    × ((ev.complete ≡ true) ↔ (missing_of ev.items ≡ []))
collect_catalogue_example = collect_catalogue redactors readers target

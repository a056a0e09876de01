-- ===== src/Examples/Controller.antt =====
-- internal/controller on the failing pod and its diagnosis.
use kube_cure.Prelude.{
  length, ◌+◌, ◌≤◌, ℕ, zero, suc, pos, true, false, ◌≡◌, ◌⊎◌, inl, refl, none, some, List, [], ◌∷◌,
  arith,
}
use kube_cure.Text.{Text, codes}
use kube_cure.Api.Failure.{RemediationMode, BlastRadius}
use kube_cure.Api.Diagnosis.{Diagnosis, Phase}
use kube_cure.Api.Policy.{HealingPolicy}
use kube_cure.Cluster.{Answer, found, refused, not_found, conflict}
use kube_cure.Agent.Texts.{submit_spec}
use kube_cure.Agent.Model.{Model, err, ModelError}
use kube_cure.Controller.Pod.{Faults, reconcile}
use kube_cure.Controller.Policy.{Reads}
use kube_cure.Controller.Opened.{reconcile_opens, Opening}
use kube_cure.Controller.Enrich.{enrich}
use kube_cure.Controller.Investigate.{Environment, Attempt, investigate, investigation}
use kube_cure.Controller.Backstop.{investigation_recorded}
use kube_cure.Controller.Moves.{AllMoved, Fresh, Enriches, enrich_moves}
use kube_cure.Controller.Concludes.{Concludes, investigate_moves}
use kube_cure.Controller.Pipeline.{by_pod, by_evidence, Steps, stay, go}
use kube_cure.Controller.Reachable.{Valid, Stored, Steps-Valid, Steps-stuck}
use kube_cure.Examples.Data.{failing_pod, replica_set, readers, redactors, diagnosis}

abbrev policy : HealingPolicy
policy = record {
  name = codes "default";
  namespace = codes "shop";
  spec = record {
    failure_types = [];
    analyzer = record { provider = []; escalate_to_provider = []; min_rule_confidence = pos 0 };
    agent = record {
      enabled = true;
      max_tool_calls = 5;
      max_tokens = 1000;
      max_cost_micro_usd = 1000;
      timeout_seconds = 60;
      judge_enabled = false;
    };
    remediation = record {
      mode = RemediationMode.dry_run;
      min_confidence = pos 80;
      allowed_actions = [];
      max_blast_radius = BlastRadius.pod;
      require_reversible = true;
      verification_window = 0;
    };
    max_diagnoses_per_hour = pos 3;
    resolved_retention = 0;
  };
  status = record { active_diagnoses = 0; diagnoses_this_hour = 0 };
}

abbrev digest : Text → Text
digest s = codes "0123456789abcdef0123456789abcdef"

-- `stored` is what reading a diagnosis answers.
abbrev reads : Answer Diagnosis → Reads
reads stored = record {
  get_pod = λ ns name. found failing_pod;
  get_replica_set = λ ns name. found replica_set;
  list_policies = λ ns. found (policy ∷ []);
  get_diagnosis = λ ns name. stored;
  list_diagnoses = λ ns. found [];
}

abbrev no_faults : Faults
no_faults = record { on_create = none; on_update = none }

abbrev opened : List Diagnosis
opened =
    (reconcile digest (reads (refused not_found)) no_faults 1000 (codes "shop") (codes "api-7d9-x")
      []).1

reconcile_opens_example :
    let out =
      reconcile digest
        (reads (refused not_found))
        no_faults
        1000
        (codes "shop")
        (codes "api-7d9-x")
        [] in
    (out.1 ≡ [])
    ⊎ Opening digest
        (reads (refused not_found))
        no_faults
        1000
        (codes "shop")
        (codes "api-7d9-x")
        []
        out
reconcile_opens_example =
    reconcile_opens digest (reads (refused not_found)) no_faults 1000 (codes "shop")
      (codes "api-7d9-x") []

abbrev stored : Phase → Diagnosis
stored phase = diagnosis (codes "api-oomkilled-1") phase

fresh :
    (phase : Phase) (d : Diagnosis) → found (stored phase) ≡ found d → Fresh (stored phase ∷ []) d
fresh phase d e = ((λ same v. ground (arith)), tt)

enrich_moves_example :
    AllMoved Enriches
      (stored Phase.detected ∷ [])
      (enrich redactors readers
        (reads (found (stored Phase.detected)))
        none
        1000
        (codes "shop")
        (codes "api-oomkilled-1")
        (stored Phase.detected ∷ [])).1
enrich_moves_example =
    enrich_moves redactors readers (reads (found (stored Phase.detected))) none 1000 (codes "shop")
      (codes "api-oomkilled-1") (stored Phase.detected ∷ []) (fresh Phase.detected)

-- The model is not reachable; the world counts the requests to it.
abbrev environment : Environment ℕ
environment = record {
  registry = λ w. record {
    client = record {
      get_pod = λ ns name. found failing_pod;
      get_replica_set = λ ns name. found replica_set;
      list_pods = λ ns. found (failing_pod ∷ []);
      list_diagnoses = λ ns. found [];
    };
    readers = readers;
    sort_recent = λ ds. ds;
    render = λ es. [];
  };
  clock = record { now = λ w. w; expired = λ w. (false, w) };
  model = some (record {
    name = codes "scripted";
    generate = λ request w. (err ModelError.deadline_exceeded, suc w);
  });
  specs = [];
  after_tool = λ w. suc w;
}

-- The first write conflicts.
abbrev attempts : ℕ → Attempt
attempts zero = record { latest = found (stored Phase.enriched); fault = some conflict; now = 9 }
attempts (suc n) = record { latest = found (stored Phase.enriched); fault = none; now = 10 }

Fresh-attempts :
    (j : ℕ) (d : Diagnosis) → (attempts j).latest ≡ found d → Fresh (stored Phase.enriched ∷ []) d
Fresh-attempts zero d e = fresh Phase.enriched d e
Fresh-attempts (suc j) d e = fresh Phase.enriched d e

investigate_moves_example :
    AllMoved Concludes
      (stored Phase.enriched ∷ [])
      (investigate environment redactors [] submit_spec
        (record { input_micro_usd_per_million = 0; output_micro_usd_per_million = 0 })
        (λ ns name. found (stored Phase.enriched))
        (λ ns name. found policy)
        attempts
        0
        (codes "shop")
        (codes "api-oomkilled-1")
        (stored Phase.enriched ∷ [])).1
investigate_moves_example =
    investigate_moves environment redactors [] submit_spec
      (record { input_micro_usd_per_million = 0; output_micro_usd_per_million = 0 })
      (λ ns name. found (stored Phase.enriched)) (λ ns name. found policy) attempts 0 (codes "shop")
      (codes "api-oomkilled-1") (stored Phase.enriched ∷ []) Fresh-attempts

opening-Steps : Steps digest [] opened
opening-Steps =
    go (by_pod (reads (refused not_found)) no_faults 1000 (codes "shop") (codes "api-7d9-x") [])
      (stay opened)

Steps-Valid_example : Valid opened
Steps-Valid_example = Steps-Valid [] opened opening-Steps (tt, tt)

abbrev enriched : List Diagnosis
enriched =
    (enrich redactors readers (reads (found (stored Phase.unset))) none 1000 (codes "shop")
      (codes "api-oomkilled-1") (stored Phase.unset ∷ [])).1

stuck-Steps : Steps digest (stored Phase.unset ∷ []) enriched
stuck-Steps =
    go
      (by_evidence redactors readers (reads (found (stored Phase.unset))) none 1000 (codes "shop")
        (codes "api-oomkilled-1") (stored Phase.unset ∷ []) (fresh Phase.unset))
      (stay enriched)

Steps-stuck_example : Stored (stored Phase.unset) enriched
Steps-stuck_example =
    Steps-stuck (stored Phase.unset ∷ []) enriched (stored Phase.unset) stuck-Steps refl (inl refl)

abbrev idle_model : Model ℕ
idle_model = record {
  name = codes "scripted";
  generate = λ request w. (err ModelError.deadline_exceeded, suc w);
}

investigation_recorded_example :
    let out =
      investigation environment redactors [] submit_spec
        (record { input_micro_usd_per_million = 0; output_micro_usd_per_million = 0 })
        idle_model
        (stored Phase.enriched)
        policy.spec.agent
        0 in
    (length out.world.1.calls ≡ out.returned.tool_calls)
    × (length out.world.1.calls ≤ policy.spec.agent.max_tool_calls)
    × (length out.world.1.calls + 2 ≤ out.world.1.scope.max_calls)
investigation_recorded_example =
    investigation_recorded environment redactors idle_model [] submit_spec
      (record { input_micro_usd_per_million = 0; output_micro_usd_per_million = 0 })
      (stored Phase.enriched) policy.spec.agent 0

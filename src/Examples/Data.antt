-- ===== src/Examples/Data.antt =====
-- A pod whose container was killed for memory, and what surrounds it.
use kube_cure.Prelude.{pos, true, false, none, some, List, [], ◌∷◌}
use kube_cure.Text.{Text, codes}
use kube_cure.Api.Failure.{oom_killed}
use kube_cure.Api.Diagnosis.{Diagnosis, Phase, Timings}
use kube_cure.Evidence.Redact.{Redactor}
use kube_cure.Evidence.Collect.{Readers, content, unreadable}
use kube_cure.Json.{null}
use kube_cure.Cluster.{Pod, Container, ContainerStatus, ReplicaSet}

abbrev pub container_status : ContainerStatus
container_status = record {
  name = codes "app";
  state = record {
    waiting = some (record { reason = codes "CrashLoopBackOff"; message = [] });
    running = none;
    terminated = none;
  };
  last_termination_state = record {
    waiting = none;
    running = none;
    terminated = some (record { reason = codes "OOMKilled"; message = []; exit_code = pos 137 });
  };
  ready = false;
  restart_count = 4;
}

abbrev pub container : Container
container = record {
  name = codes "app";
  image = codes "shop/api:1";
  command = [];
  args = codes "--serve" ∷ [];
  env_from = record { config_map_ref = some (codes "api-env"); secret_ref = none } ∷ [];
  env =
      record {
        name = codes "TOKEN";
        value_from =
            some (record { config_map_key_ref = none; secret_key_ref = some (codes "api-tls") });
      }
      ∷ [];
  resources = null;
  ports = [];
  readiness_probe = none;
  liveness_probe = none;
}

abbrev pub replica_set : ReplicaSet
replica_set = record {
  name = codes "api-7d9";
  namespace = codes "shop";
  uid = codes "r1";
  annotations = (codes "deployment.kubernetes.io/revision", codes "12") ∷ [];
  creation_timestamp = 63839620800000000000;
  owner_references =
      record {
        kind = codes "Deployment";
        name = codes "api";
        uid = codes "d1";
        controller = some true;
      }
      ∷ [];
  replicas = pos 2;
  template = record {
    containers = container ∷ [];
    volumes = [];
    restart_policy = codes "Always";
    node_name = [];
    node_selector = [];
    tolerations = [];
  };
}

abbrev pub pod_of : List ContainerStatus → Pod
pod_of statuses = record {
  name = codes "api-7d9-x";
  namespace = codes "shop";
  uid = codes "p1";
  labels = (codes "app", codes "api") ∷ [];
  deletion_timestamp = none;
  owner_references =
      record {
        kind = codes "ReplicaSet";
        name = codes "api-7d9";
        uid = codes "r1";
        controller = some true;
      }
      ∷ [];
  spec = record {
    containers = container ∷ [];
    volumes = record { config_map = none; secret = some (codes "api-tls") } ∷ [];
    restart_policy = codes "Always";
    node_name = codes "n1";
    node_selector = [];
    tolerations = [];
  };
  status = record {
    phase = codes "Running";
    reason = [];
    message = [];
    conditions = [];
    container_statuses = statuses;
  };
}

abbrev pub failing_pod : Pod
failing_pod = pod_of (container_status ∷ [])

abbrev pub idle_pod : Pod
idle_pod = pod_of []

abbrev pub redactors : List Redactor
redactors =
    record { name = codes "token"; matches = λ s. 1; replace_all = λ s. codes "[REDACTED:token]" }
    ∷ []

abbrev pub readers : Readers
readers = record {
  logs = λ t previous. content (codes "out of memory");
  events = λ t. content [];
  workload_spec = λ t. unreadable (codes "forbidden");
  rollout_history = λ t. content (codes "1");
  config_references = λ t. content (codes "1");
  service_endpoints = λ t. content (codes "1");
  node_status = λ t. content (codes "1");
  sibling_pods = λ t. content (codes "1");
  resource_usage = λ t. unreadable (codes "metrics unavailable");
}

abbrev no_timings : Timings
no_timings = record {
  detected_at = none;
  enriched_at = none;
  hypothesized_at = none;
  judged_at = none;
  planned_at = none;
  remediated_at = none;
  healed_at = none;
}

-- A new diagnosis of the failing pod.
abbrev pub diagnosis : Text → Phase → Diagnosis
diagnosis name phase = record {
  name = name;
  namespace = codes "shop";
  creation_timestamp = 7;
  resource_version = 1;
  labels = [];
  spec = record {
    target = record {
      name = codes "api-7d9-x";
      uid = codes "p1";
      owner = some (record { kind = codes "Deployment"; name = codes "api" });
    };
    failure_type = oom_killed;
    container = codes "app";
    signature = codes "00000000";
    observed_at = 5;
    policy_ref = codes "default";
  };
  status = record {
    phase = phase;
    timings = no_timings;
    time_to_diagnosis = [];
    time_to_recovery = [];
    evidence = none;
    investigation = none;
    hypotheses = [];
    judgement = none;
    plan = none;
    remediation = none;
    observed_generation = 0;
  };
}

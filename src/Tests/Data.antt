-- ===== src/Tests/Data.antt =====
-- A pod kill and a network partition on one Flink deployment, and what they meet.
use flink_chaos_operator.Prelude.{pos, true, false, none, some, [], ◌∷◌}
use flink_chaos_operator.Api.Types.{
  TargetType, ScenarioType, SelectionMode, ActionType, RunPhase, RunVerdict, NetworkTarget,
  NetworkDirection, NetworkChaosSpec, ScenarioSpec, ChaosRunStatus, DryRunPreview, ChaosRun,
}
use flink_chaos_operator.Interfaces.{ResolvedTarget}
use flink_chaos_operator.Scenarios.Policy.{Spec}

abbrev pub target_three : ResolvedTarget
target_three = record {
  platform = "flink";
  namespace = "jobs";
  logical_name = "orders";
  tm_pod_names = "tm-1" ∷ "tm-2" ∷ "tm-3" ∷ [];
  jm_pod_names = "jm-1" ∷ [];
  shared_cluster = false;
}

abbrev pub fresh_status : ChaosRunStatus
fresh_status = record {
  phase = RunPhase.unset;
  verdict = RunVerdict.unset;
  message = "";
  started_at = none;
  observing_started_at = none;
  ended_at = none;
  selected_pods = [];
  injected_pods = [];
  replacement_observed = false;
  target_summary = none;
  observation = none;
  network_policies = [];
  ephemeral_container_injections = [];
  resource_exhaustion_injections = [];
  dry_run_preview = DryRunPreview.empty;
  conditions = [];
}

abbrev pub status_in : RunPhase → ChaosRunStatus
status_in phase = record fresh_status { phase = phase; started_at = some (pos 0) }

abbrev pub kill_scenario : ScenarioSpec
kill_scenario = record {
  scenario_type = ScenarioType.task_manager_pod_kill;
  selection = record { mode = SelectionMode.random; count = pos 2; pod_names = [] };
  action = record { action_type = ActionType.delete_pod; grace_period_seconds = some (pos 0) };
  network = none;
  resource_exhaustion = none;
}

abbrev pub partition_network : NetworkChaosSpec
partition_network = record {
  target = NetworkTarget.tm_to_jm;
  direction = NetworkDirection.both;
  external_endpoint = none;
  latency = none;
  jitter = none;
  loss = none;
  bandwidth = "";
  duration = some (pos 60000000000);
}

abbrev pub partition_scenario : ScenarioSpec
partition_scenario = record kill_scenario {
  scenario_type = ScenarioType.network_partition;
  network = some partition_network;
}

abbrev pub run_of : ScenarioSpec → ChaosRunStatus → ChaosRun
run_of scenario status = record {
  name = "chaos-1";
  namespace = "jobs";
  deletion_timestamp = none;
  finalizers = [];
  spec = record {
    target = record {
      target_type = TargetType.flink_deployment;
      name = "orders";
      deployment_id = "";
      deployment_name = "";
      vvp_namespace = "";
      selector = none;
    };
    scenario = scenario;
    observe = record {
      enabled = true;
      timeout = pos 300000000000;
      poll_interval = pos 5000000000;
      flink_rest = record {
        enabled = true;
        endpoint = "http://orders";
        require_stable_checkpoint_before_inject = true;
        checkpoint_stable_window_seconds = pos 60;
        checkpoint_wait_timeout = some (pos 600000000000);
      };
    };
    safety = record {
      dry_run = false;
      max_concurrent_runs_per_target = pos 1;
      min_task_managers_remaining = some (pos 1);
      allow_shared_cluster_impact = false;
      max_network_chaos_duration = some (pos 300000000000);
      allow_checkpoint_storage_chaos = false;
      max_resource_exhaustion_duration = none;
    };
    control = record { abort = false };
  };
  status = status;
}

abbrev pub kill_run : RunPhase → ChaosRun
kill_run phase = run_of kill_scenario (status_in phase)

abbrev pub partition_run : RunPhase → ChaosRun
partition_run phase = run_of partition_scenario (status_in phase)

-- A partition from the checkpoint storage, on the port of its service.
abbrev pub storage_spec : Spec
storage_spec = record {
  name = "chaos-1-netpol-egress";
  namespace = "jobs";
  chaos_run_name = "chaos-1";
  source_labels = ("component", "taskmanager") ∷ [];
  dest_labels = none;
  dest_cidr = "10.0.0.0/8";
  direction = "Egress";
  port = pos 443;
}

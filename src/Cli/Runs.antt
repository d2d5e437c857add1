-- ===== src/Cli/Runs.antt =====
-- The runs that the `run` commands make (runTMKillWithTarget, runNetworkPartition, runNetworkChaos
-- and runResourceExhaustion of cmd/kubectl-fchaos/main.go), from their flags.
use flink_chaos_operator.Prelude.{
  ℤ, pos, String, Bool, true, false, ◌&&◌, ◌||◌, Option, none, some, [], ◌&◌, if◌then◌else◌, str_eq,
  decimal, ltb_ℤ, quoted,
}
use flink_chaos_operator.Api.Types.{
  ScenarioType, SelectionMode, ActionType, ResourceExhaustionMode, Duration, TargetSpec,
  ExternalTarget, NetworkChaosSpec, ResourceExhaustionSpec, ScenarioSpec, ChaosRunStatus, ChaosRun,
  RunPhase, RunVerdict, DryRunPreview,
}
use flink_chaos_operator.Api.Texts.{to_network_target, to_network_direction, to_exhaustion_mode}
use flink_chaos_operator.Interfaces.{Error, Result, ok, err}
use flink_chaos_operator.Cli.Flags.{
  validate_network_target, validate_network_direction, normalise_network_target,
  normalise_network_direction, validate_resource_exhaustion_mode,
}

-- `if err := check; err != nil { return err }`, and then the rest.
abbrev pub unless {ℓ} : {A : Type ℓ} → Option Error → Result A → Result A
unless none rest = rest
unless (some e) rest = err e

abbrev pub or_named : String → String → ℤ → String
or_named name prefix now = if str_eq name "" then prefix & decimal now else name

-- The status of an object that is not yet created.
abbrev pub empty_status : ChaosRunStatus
empty_status = record {
  phase = RunPhase.unset;
  verdict = RunVerdict.unset;
  message = "";
  started_at = none;
  observing_started_at = none;
  ended_at = none;
  selected_pods = [];
  injected_pods = [];
  replacement_observed = false;
  target_summary = none;
  observation = none;
  network_policies = [];
  ephemeral_container_injections = [];
  resource_exhaustion_injections = [];
  dry_run_preview = DryRunPreview.empty;
  conditions = [];
}

-- A scenario of which only the type is given.
abbrev pub empty_scenario : ScenarioType → ScenarioSpec
empty_scenario t = record {
  scenario_type = t;
  selection = record { mode = SelectionMode.unset; count = pos 0; pod_names = [] };
  action = record { action_type = ActionType.unset; grace_period_seconds = none };
  network = none;
  resource_exhaustion = none;
}

-- The flags that the four commands share, with the namespace and the name's prefix; and the time in
-- seconds, from which a name is made where none is given.
pub record CommonFlags : Type 0 where
  pub namespace : String
  pub name : String
  pub observe_timeout : Duration
  pub dry_run : Bool
  pub now_unix : ℤ

abbrev pub run_with : String → CommonFlags → TargetSpec → ScenarioSpec → ChaosRun
run_with prefix f target scenario = record {
  name = or_named f.name prefix f.now_unix;
  namespace = f.namespace;
  deletion_timestamp = none;
  finalizers = [];
  spec = record {
    target = target;
    scenario = scenario;
    observe = record {
      enabled = true;
      timeout = f.observe_timeout;
      poll_interval = pos 0;
      flink_rest = record {
        enabled = false;
        endpoint = "";
        require_stable_checkpoint_before_inject = false;
        checkpoint_stable_window_seconds = pos 0;
        checkpoint_wait_timeout = none;
      };
    };
    safety = record {
      dry_run = f.dry_run;
      max_concurrent_runs_per_target = pos 0;
      min_task_managers_remaining = none;
      allow_shared_cluster_impact = false;
      max_network_chaos_duration = none;
      allow_checkpoint_storage_chaos = false;
      max_resource_exhaustion_duration = none;
    };
    control = record { abort = false };
  };
  status = empty_status;
}

abbrev pub with_target : (TargetSpec → Result ChaosRun) → Result TargetSpec → Result ChaosRun
with_target rest (ok target) = rest target
with_target rest (err e) = err e

-- The target as the flags give it (`tf.build()`) comes first in each command.
unfoldable pub tm_kill_run : ℤ → CommonFlags → Result TargetSpec → Result ChaosRun
tm_kill_run count f target =
    with_target
      (λ t. ok (
        run_with "tm-kill-" f t (record (empty_scenario ScenarioType.task_manager_pod_kill) {
          selection = record { mode = SelectionMode.random; count = count; pod_names = [] };
          action = record { action_type = ActionType.delete_pod; grace_period_seconds = none };
        })))
      target

pub record NetworkFlags : Type 0 where
  pub network_target : String
  pub direction : String
  pub external_cidr : String
  pub external_port : ℤ  -- int32

abbrev pub endpoint_of : NetworkFlags → Option ExternalTarget
endpoint_of nf =
    if str_eq nf.external_cidr ""
    then none
    else some (record { cidr = nf.external_cidr; hostname = ""; port = nf.external_port })

-- A block is required for a target outside the cluster.
abbrev pub require_cidr : String → String → Option Error
require_cidr target cidr =
    if (str_eq target "TMtoExternal" || str_eq target "TMtoCheckpoint") && str_eq cidr ""
    then some ("--external-cidr is required for network-target " & quoted target)
    else none

abbrev pub partition_spec : NetworkFlags → NetworkChaosSpec
partition_spec nf = record {
  target = to_network_target (normalise_network_target nf.network_target);
  direction = to_network_direction (normalise_network_direction nf.direction);
  external_endpoint = endpoint_of nf;
  latency = none;
  jitter = none;
  loss = none;
  bandwidth = "";
  duration = none;
}

unfoldable pub network_partition_run :
    NetworkFlags → CommonFlags → Result TargetSpec → Result ChaosRun
unfolding validate_network_target validate_network_direction normalise_network_target
    normalise_network_direction to_network_target to_network_direction
network_partition_run nf f target =
    with_target
      (λ t. unless (validate_network_target nf.network_target) (
        unless (validate_network_direction nf.direction) (
          unless (require_cidr (normalise_network_target nf.network_target) nf.external_cidr) (
            ok (
              run_with "np-" f t (record (empty_scenario ScenarioType.network_partition) {
                network = some (partition_spec nf);
              }))))))
      target

pub record ImpairmentFlags : Type 0 where
  pub latency : Duration
  pub jitter : Duration
  pub loss : ℤ  -- int32
  pub bandwidth : String
  pub duration : Duration

-- `if x > 0 { p = &x }`
abbrev pub if_positive : ℤ → Option ℤ
if_positive x = if ltb_ℤ (pos 0) x then some x else none

abbrev pub chaos_spec : ImpairmentFlags → NetworkFlags → NetworkChaosSpec
chaos_spec i nf = record (partition_spec nf) {
  latency = if_positive i.latency;
  jitter = if_positive i.jitter;
  loss = if_positive i.loss;
  bandwidth = i.bandwidth;
  duration = if_positive i.duration;
}

unfoldable pub network_chaos_run :
    ImpairmentFlags → NetworkFlags → CommonFlags → Result TargetSpec → Result ChaosRun
unfolding validate_network_target validate_network_direction normalise_network_target
    normalise_network_direction to_network_target to_network_direction
network_chaos_run i nf f target =
    with_target
      (λ t. unless (validate_network_target nf.network_target) (
        unless (validate_network_direction nf.direction) (
          ok (
            run_with "nc-" f t (record (empty_scenario ScenarioType.network_chaos) {
              network = some (chaos_spec i nf);
            })))))
      target

pub record StressFlags : Type 0 where
  pub mode : String
  pub workers : ℤ  -- int32
  pub memory_percent : ℤ  -- int32
  pub duration : Duration

abbrev pub memory_percent_for : ResourceExhaustionMode → ℤ → ℤ
memory_percent_for ResourceExhaustionMode.memory percent = percent
memory_percent_for _ percent = pos 0

abbrev pub exhaustion_spec : StressFlags → ResourceExhaustionSpec
exhaustion_spec s = record {
  mode = to_exhaustion_mode s.mode;
  workers = s.workers;
  memory_percent = memory_percent_for (to_exhaustion_mode s.mode) s.memory_percent;
  duration = some s.duration;
}

unfoldable pub resource_exhaustion_run :
    StressFlags → CommonFlags → Result TargetSpec → Result ChaosRun
unfolding validate_resource_exhaustion_mode to_exhaustion_mode
resource_exhaustion_run s f target =
    with_target
      (λ t. unless (validate_resource_exhaustion_mode s.mode) (
        ok (
          run_with "re-" f t (record (empty_scenario ScenarioType.resource_exhaustion) {
            resource_exhaustion = some (exhaustion_spec s);
          }))))
      target

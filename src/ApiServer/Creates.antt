-- ===== src/ApiServer/Creates.antt =====
-- POST /api/chaosruns: the run that a request asks for, and its creation
-- (internal/apiserver/handlers_chaos_write.go).
use flink_chaos_operator.Prelude.{
  ℤ, pos, String, Bool, true, false, ◌&&◌, Option, none, some, List, [], ◌∷◌, ◌&◌, if◌then◌else◌,
  str_eq, ltb_ℤ, eq_ℤ, times_int64,
}
use flink_chaos_operator.Api.Types.{
  Duration, TargetType, ScenarioType, SelectionMode, ActionType, NetworkTarget, NetworkDirection,
  ResourceExhaustionMode, TargetSpec, ExternalTarget, NetworkChaosSpec, ResourceExhaustionSpec,
  ScenarioSpec, ObserveSpec, ChaosRun,
}
use flink_chaos_operator.Api.Texts.{
  to_scenario_type, to_selection_mode, to_network_target, to_network_direction, to_exhaustion_mode,
}
use flink_chaos_operator.Interfaces.{Result, ok, err}
use flink_chaos_operator.Cli.Runs.{empty_scenario, empty_status}
use flink_chaos_operator.Cli.Target.{empty_target}
use flink_chaos_operator.ApiServer.Http.{HttpResponse, Write, Kube, Handled}

-- CreateChaosRunRequest
pub record CreateRequest : Type 0 where
  pub target_name : String
  pub target_type : String
  pub deployment_id : String
  pub vvp_namespace : String
  pub scenario_type : String
  pub selection_mode : String
  pub selection_count : ℤ  -- int32
  pub selection_pods : List String
  pub grace_period_seconds : Option ℤ  -- *int64
  pub network_target : String
  pub network_direction : String
  pub external_hostname : String
  pub external_cidr : String
  pub external_port : ℤ  -- int32
  pub latency_ms : ℤ  -- int64
  pub jitter_ms : ℤ  -- int64
  pub loss_percent : Option ℤ  -- *int32
  pub bandwidth : String
  pub duration_seconds : ℤ  -- int64
  pub resource_mode : String
  pub workers : ℤ  -- int32
  pub memory_percent : ℤ  -- int32
  pub min_task_managers : ℤ  -- int32
  pub dry_run : Bool

-- `if x > 0 { p = &metav1.Duration{Duration: time.Duration(x) * unit} }`
abbrev pub positive_times : ℤ → ℤ → Option Duration
positive_times x (pos unit) = if ltb_ℤ (pos 0) x then some (times_int64 x unit) else none
positive_times x unit = none

unfoldable pub build_target_spec : CreateRequest → TargetSpec
build_target_spec req =
    if str_eq req.target_type "VervericaDeployment"
    then record (empty_target TargetType.ververica_deployment) {
      deployment_name = req.target_name;
      deployment_id = req.deployment_id;
      vvp_namespace = req.vvp_namespace;
    }
    else record (empty_target TargetType.flink_deployment) { name = req.target_name }

abbrev pub target_or_default : NetworkTarget → NetworkTarget
target_or_default NetworkTarget.unset = NetworkTarget.tm_to_jm
target_or_default t = t

abbrev pub direction_or_default : NetworkDirection → NetworkDirection
direction_or_default NetworkDirection.unset = NetworkDirection.both
direction_or_default d = d

abbrev pub endpoint_of_request : CreateRequest → Option ExternalTarget
endpoint_of_request req =
    if str_eq req.external_hostname "" && str_eq req.external_cidr ""
    then none
    else some (record {
      cidr = req.external_cidr;
      hostname = req.external_hostname;
      port = if ltb_ℤ (pos 0) req.external_port then req.external_port else pos 0;
    })

unfoldable pub build_network_chaos_spec : CreateRequest → NetworkChaosSpec
unfolding to_network_target to_network_direction times_int64
build_network_chaos_spec req = record {
  target = target_or_default (to_network_target req.network_target);
  direction = direction_or_default (to_network_direction req.network_direction);
  external_endpoint = endpoint_of_request req;
  latency = positive_times req.latency_ms (pos 1000000);
  jitter = positive_times req.jitter_ms (pos 1000000);
  loss = req.loss_percent;
  bandwidth = req.bandwidth;
  duration = positive_times req.duration_seconds (pos 1000000000);
}

abbrev pub mode_or_default : String → ResourceExhaustionMode
mode_or_default s = if str_eq s "" then ResourceExhaustionMode.cpu else to_exhaustion_mode s

unfoldable pub build_resource_exhaustion_spec : CreateRequest → ResourceExhaustionSpec
unfolding to_exhaustion_mode times_int64
build_resource_exhaustion_spec req = record {
  mode = mode_or_default req.resource_mode;
  workers = if eq_ℤ req.workers (pos 0) then pos 1 else req.workers;
  memory_percent = if eq_ℤ req.memory_percent (pos 0) then pos 80 else req.memory_percent;
  duration = positive_times req.duration_seconds (pos 1000000000);
}

-- `minTaskManagersPtr`: a number that is left out is 0 here.
abbrev pub min_task_managers_ptr : ℤ → Option ℤ
min_task_managers_ptr v = some v

-- The scenario by its type: what the request gives is put in place.
unfoldable pub scenario_of : ScenarioType → CreateRequest → ScenarioSpec
unfolding build_network_chaos_spec build_resource_exhaustion_spec to_selection_mode
scenario_of t req =
    let selected = record (empty_scenario t) {
      selection = record {
        mode = to_selection_mode req.selection_mode;
        count = req.selection_count;
        pod_names = req.selection_pods;
      };
    } in
    elim t [
      | ScenarioType.task_manager_pod_kill ↦ record selected {
        action = record {
          action_type = ActionType.delete_pod;
          grace_period_seconds = req.grace_period_seconds;
        };
      }
      | ScenarioType.network_partition ↦ record selected {
        network = some (build_network_chaos_spec req);
      }
      | ScenarioType.network_chaos ↦ record selected {
        network = some (build_network_chaos_spec req);
      }
      | ScenarioType.resource_exhaustion ↦ record selected {
        resource_exhaustion = some (build_resource_exhaustion_spec req);
      }
      | _ ↦ selected
    ]

-- A duration of the request is also the timeout of the observation.
abbrev pub observe_of : ℤ → ObserveSpec
observe_of duration_seconds = record {
  enabled = ltb_ℤ (pos 0) duration_seconds;
  timeout =
      if ltb_ℤ (pos 0) duration_seconds then times_int64 duration_seconds 1000000000 else pos 0;
  poll_interval = pos 0;
  flink_rest = record {
    enabled = false;
    endpoint = "";
    require_stable_checkpoint_before_inject = false;
    checkpoint_stable_window_seconds = pos 0;
    checkpoint_wait_timeout = none;
  };
}

-- The object that is sent: its name is left to the server, which makes one from "chaos-run-".
unfoldable pub run_of_request : String → ScenarioType → CreateRequest → ChaosRun
unfolding build_target_spec scenario_of times_int64
run_of_request namespace t req = record {
  name = "";
  namespace = namespace;
  deletion_timestamp = none;
  finalizers = [];
  spec = record {
    target = build_target_spec req;
    scenario = scenario_of t req;
    observe = observe_of req.duration_seconds;
    safety = record {
      dry_run = req.dry_run;
      max_concurrent_runs_per_target = pos 0;
      min_task_managers_remaining = min_task_managers_ptr req.min_task_managers;
      allow_shared_cluster_impact = false;
      max_network_chaos_duration = none;
      allow_checkpoint_storage_chaos = false;
      max_resource_exhaustion_duration = none;
    };
    control = record { abort = false };
  };
  status = empty_status;
}

abbrev pub is_known_scenario : ScenarioType → Bool
is_known_scenario ScenarioType.unset = false
is_known_scenario (ScenarioType.other s) = false
is_known_scenario _ = true

abbrev pub is_known_mode : SelectionMode → Bool
is_known_mode (SelectionMode.other s) = false
is_known_mode _ = true

module _ (kube : Kube) (namespace : String) where
  abbrev pub after_creation : ChaosRun → Result ChaosRun → Handled (String × String)
  after_creation sent (ok run) =
      (Write.created sent ∷ [], HttpResponse.json 201 (run.name, run.namespace))
  after_creation sent (err e) =
      (Write.created sent ∷ [], HttpResponse.error 500 "failed to create ChaosRun")

  abbrev pub create_run : ChaosRun → Handled (String × String)
  create_run run = after_creation run (kube.create run)

  -- `createChaosRunHandler`, from the decoded body.
  unfoldable pub create_chaos_run : Result CreateRequest → Handled (String × String)
  unfolding run_of_request to_scenario_type to_selection_mode
  create_chaos_run (err e) = ([], HttpResponse.error 400 ("invalid request body: " & e))
  create_chaos_run (ok req) =
      if str_eq req.target_name ""
      then ([], HttpResponse.error 400 "targetName is required")
      else if str_eq req.scenario_type ""
      then ([], HttpResponse.error 400 "scenarioType is required")
      else if is_known_scenario (to_scenario_type req.scenario_type)
      then if is_known_mode (to_selection_mode req.selection_mode)
        then create_run (run_of_request namespace (to_scenario_type req.scenario_type) req)
        else ([], HttpResponse.error 400 ("unknown selectionMode: " & req.selection_mode))
      else ([], HttpResponse.error 400 ("unknown scenarioType: " & req.scenario_type))

-- ===== src/Tests/Requests.antt =====
-- Commands of the plugin and requests to the HTTP API.
use flink_chaos_operator.Prelude.{
  String, pos, ◌≡◌, refl, ◌↔◌, false, some, none, List, [], ◌∷◌, arith, decimal, lookup,
}
use flink_chaos_operator.Api.Types.{TargetType, ScenarioType, LabelSelector, ChaosRun}
use flink_chaos_operator.Api.Defaults.{set_defaults}
use flink_chaos_operator.Interfaces.{ok, err}
use flink_chaos_operator.Controller.World.{not_found}
use flink_chaos_operator.Safety.Checker.{check_min_task_managers_remaining}
use flink_chaos_operator.Cli.Flags.{equal_fold, normalise_network_target, validate_network_target}
use flink_chaos_operator.Cli.Target.{
  Operator, Requirement, Parsed, empty_target, match_labels, parse_selector_to_label_selector,
}
use flink_chaos_operator.Cli.Runs.{CommonFlags, network_partition_run}
use flink_chaos_operator.Cli.Commands.{human_age}
use flink_chaos_operator.Cli.Selects.{AsksLast, parse_selector-takes}
use flink_chaos_operator.ApiServer.Http.{HttpResponse, Write, Kube, is_valid_k8s_name}
use flink_chaos_operator.ApiServer.Creates.{CreateRequest, run_of_request, create_chaos_run}
use flink_chaos_operator.ApiServer.Runs.{abort_chaos_run}
use flink_chaos_operator.ApiServer.Created.{created_without_minimum}
use flink_chaos_operator.Tests.Data.{target_three}

-- app=orders,tier!=prod
abbrev two_requirements : List Requirement
two_requirements =
    (record { key = "app"; operator = Operator.equals; values = "orders" ∷ [] })
    ∷ (record { key = "tier"; operator = Operator.other "!="; values = "prod" ∷ [] })
    ∷ []

abbrev parse_two : String → Parsed
parse_two s = Parsed.parsed two_requirements

abbrev to_itself : String → String
to_itself s = s

parse_selector-takes_example :
    (made : LabelSelector) × (parse_selector_to_label_selector parse_two to_itself
        "app=orders,tier!=prod"
      ≡ ok made)
    × (made.match_expressions ≡ [])
    × ((key v : String) → (lookup key made.match_labels ≡ some v) ↔ AsksLast key two_requirements v)
parse_selector-takes_example =
    parse_selector-takes parse_two to_itself "app=orders,tier!=prod" two_requirements refl

-- app=orders,app=payments
abbrev same_key : List Requirement
same_key =
    (record { key = "app"; operator = Operator.equals; values = "orders" ∷ [] })
    ∷ (record { key = "app"; operator = Operator.equals; values = "payments" ∷ [] })
    ∷ []

only_last : match_labels same_key [] ≡ ("app", "payments") ∷ []
unfolding match_labels
only_last = refl

-- The requirement that excludes a value is lost.
only_app : match_labels two_requirements [] ≡ ("app", "orders") ∷ []
unfolding match_labels
only_app = refl

folded : normalise_network_target "tmtocheckpoint" ≡ "TMtoCheckpoint"
unfolding normalise_network_target equal_fold
folded = refl

no_target :
    validate_network_target ""
    ≡ some
        "invalid --network-target \"\"; valid values: TMtoTM, TMtoJM, TMtoCheckpoint, TMtoExternal"
unfolding validate_network_target equal_fold
no_target = refl

abbrev common : CommonFlags
common = record {
  namespace = "jobs";
  name = "";
  observe_timeout = pos 600000000000;
  dry_run = false;
  now_unix = pos 1700000000;
}

needs_block :
    network_partition_run
      (record {
        network_target = "TMtoExternal";
        direction = "both";
        external_cidr = "";
        external_port = pos 0;
      })
      common
      (ok (empty_target TargetType.flink_deployment))
    ≡ err "--external-cidr is required for network-target \"TMtoExternal\""
unfolding network_partition_run equal_fold
needs_block = refl

abbrev kill_request : CreateRequest
kill_request = record {
  target_name = "orders";
  target_type = "";
  deployment_id = "";
  vvp_namespace = "";
  scenario_type = "TaskManagerPodKill";
  selection_mode = "Random";
  selection_count = pos 3;
  selection_pods = [];
  grace_period_seconds = none;
  network_target = "";
  network_direction = "";
  external_hostname = "";
  external_cidr = "";
  external_port = pos 0;
  latency_ms = pos 0;
  jitter_ms = pos 0;
  loss_percent = none;
  bandwidth = "";
  duration_seconds = pos 0;
  resource_mode = "";
  workers = pos 0;
  memory_percent = pos 0;
  min_task_managers = pos 0;
  dry_run = false;
}

abbrev kube : Kube
kube = record {
  create = λ run. ok (record run { name = "chaos-run-x7" });
  get = λ namespace name. not_found;
  update = λ run. none;
  delete = λ run. none;
  list = λ namespace. ok [];
}

abbrev killed : ChaosRun
killed = run_of_request "jobs" ScenarioType.task_manager_pod_kill kill_request

created :
    create_chaos_run kube "jobs" (ok kill_request)
    ≡ (Write.created killed ∷ [], HttpResponse.json 201 ("chaos-run-x7", "jobs"))
unfolding create_chaos_run
created = refl

created_without_minimum_example :
    check_min_task_managers_remaining (set_defaults killed) target_three ≡ none
unfolding create_chaos_run set_defaults
created_without_minimum_example =
    created_without_minimum kube "jobs" kill_request killed target_three refl refl (omega arith)
      (omega arith) (omega arith)

long_ago : human_age (some (pos 7500000000000)) ≡ "2h"
unfolding human_age decimal
long_ago = refl

no_dots : is_valid_k8s_name "chaos.run" ≡ false
unfolding is_valid_k8s_name
no_dots = refl

abort_missing :
    abort_chaos_run kube "jobs" "chaos-1" ≡ ([], HttpResponse.error 404 "ChaosRun not found")
unfolding abort_chaos_run
abort_missing = refl

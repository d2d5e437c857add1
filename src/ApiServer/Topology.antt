-- ===== src/ApiServer/Topology.antt =====
-- GET /api/topology (internal/apiserver/handlers_topology.go): the pods of a deployment, the storage
-- that it uses, and the runs under way.
pub mod Storage
pub mod Conf
pub mod Prints
use flink_chaos_operator.Prelude.{
  String, Bool, true, false, ◌&◌, Option, none, some, List, [], ◌∷◌, if◌then◌else◌, str_eq,
}
use flink_chaos_operator.Api.Types.{Time, RunPhase, ChaosRun}
use flink_chaos_operator.Api.Texts.{phase_text, scenario_text}
use flink_chaos_operator.Interfaces.{Result, ok, err}
use flink_chaos_operator.ApiServer.Http.{HttpResponse}
use flink_chaos_operator.ApiServer.Runs.{rfc3339}
use flink_chaos_operator.ApiServer.Cluster.{
  ListedPod, FlinkDeployment, ClusterView, deployment_label,
}
use flink_chaos_operator.ApiServer.Topology.Conf.{ExternalConnection}
use flink_chaos_operator.ApiServer.Topology.Storage.{
  PodInfo, select_deployment, of_selected, first_running_pod, label_or_empty, first_job_id,
  config_map_connections, pod_connections, of_fetched, deduplicate_connections,
}

-- ActiveChaosRunSummary
pub record ActiveChaosRunSummary : Type 0 where
  pub name : String
  pub phase : String
  pub scenario : String
  pub target_pods : List String
  pub started_at : String

-- TopologyResponse
pub record TopologyResponse : Type 0 where
  pub deployment_name : String
  pub target_type : String
  pub deployment_id : String
  pub vvp_namespace : String
  pub job_managers : List PodInfo
  pub task_managers : List PodInfo
  pub external_connections : List ExternalConnection
  pub active_chaos_runs : List ActiveChaosRunSummary

abbrev pub pod_info : ListedPod → PodInfo
pod_info pod = record {
  name = pod.name;
  phase = pod.phase;
  labels = pod.labels;
  pod_ip = pod.pod_ip;
}

unfoldable pub filter_pods : String → List ListedPod → List PodInfo
unfolding deployment_label
filter_pods name [] = []
filter_pods name (pod ∷ pods) =
    let rest = filter_pods name pods in
    if str_eq name ""
    then pod_info pod ∷ rest
    else if str_eq (deployment_label pod.labels) name
    then pod_info pod ∷ rest
    else rest

abbrev pub is_terminal_phase : RunPhase → Bool
is_terminal_phase RunPhase.completed = true
is_terminal_phase RunPhase.aborted = true
is_terminal_phase RunPhase.failed = true
is_terminal_phase _ = false

abbrev pub target_pods_of : List String → List String → List String
target_pods_of [] selected = selected
target_pods_of (p ∷ ps) selected = p ∷ ps

module _ (cluster : ClusterView) where
  abbrev pub list_pods_by_deployment : String → String → Result (List PodInfo)
  list_pods_by_deployment role name = elim (cluster.list_pods role) [
    | ok pods ↦ ok (filter_pods name pods)
    | err e ↦ err e
  ]

  unfoldable pub resolve_flink_deployment : String → String × List ExternalConnection
  unfolding select_deployment
  resolve_flink_deployment name = elim cluster.list_flink_deployments [
    | ok fds ↦ of_selected (select_deployment name fds)
    | err e ↦ ("", [])
  ]

  abbrev pub job_connections : String → List ExternalConnection
  job_connections job =
      if str_eq job ""
      then []
      else config_map_connections (cluster.get_config_map ("job-" & job & "-config"))

  abbrev pub by_environment : Option PodInfo → List ExternalConnection
  by_environment none = []
  by_environment (some pod) = of_fetched (cluster.get_pod pod.name)

  -- The environment of the first running pod, if nothing was found.
  abbrev pub or_else_environment : List PodInfo → List ExternalConnection → List ExternalConnection
  or_else_environment jms [] = by_environment (first_running_pod jms)
  or_else_environment jms (c ∷ cs) = c ∷ cs

  -- The connections of `resolveVVPDeployment`; its names are labels of the first running pod.
  unfoldable pub vvp_connections : List PodInfo → List ExternalConnection
  unfolding first_running_pod first_job_id config_map_connections pod_connections
  vvp_connections jms =
      deduplicate_connections (or_else_environment jms (job_connections (first_job_id jms)))

  -- The formatting of a time is an argument.
  module _ (format : Time → String) where
    abbrev pub active_summary : ChaosRun → ActiveChaosRunSummary
    active_summary run = record {
      name = run.name;
      phase = phase_text run.status.phase;
      scenario = scenario_text run.spec.scenario.scenario_type;
      target_pods = target_pods_of run.status.injected_pods run.status.selected_pods;
      started_at = rfc3339 format run.status.started_at;
    }

    unfoldable pub active_runs : List ChaosRun → List ActiveChaosRunSummary
    unfolding rfc3339
    active_runs [] = []
    active_runs (run ∷ runs) =
        let rest = active_runs runs in
        if is_terminal_phase run.status.phase then rest else active_summary run ∷ rest

    -- The response but for the active runs: the FlinkDeployment, or what Ververica's labels say.
    abbrev pub deployment_response :
        String × List ExternalConnection
        → List PodInfo
        → List PodInfo
        → List ActiveChaosRunSummary
        → TopologyResponse
    deployment_response (name, connections) jms tms active =
        if str_eq name ""
        then record {
          deployment_name = label_or_empty "deploymentName" (first_running_pod jms);
          target_type = "VervericaDeployment";
          deployment_id = label_or_empty "deploymentId" (first_running_pod jms);
          vvp_namespace = label_or_empty "vvpNamespace" (first_running_pod jms);
          job_managers = jms;
          task_managers = tms;
          external_connections = vvp_connections jms;
          active_chaos_runs = active;
        }
        else record {
          deployment_name = name;
          target_type = "FlinkDeployment";
          deployment_id = "";
          vvp_namespace = "";
          job_managers = jms;
          task_managers = tms;
          external_connections = connections;
          active_chaos_runs = active;
        }

    abbrev pub with_runs :
        String
        → List PodInfo
        → List PodInfo
        → Result (List ChaosRun)
        → HttpResponse TopologyResponse
    with_runs name jms tms (err e) = HttpResponse.error 500 "failed to list active ChaosRuns"
    with_runs name jms tms (ok runs) =
        HttpResponse.json 200
          (deployment_response (resolve_flink_deployment name) jms tms (active_runs runs))

    abbrev pub with_tm_pods :
        String → List PodInfo → Result (List PodInfo) → HttpResponse TopologyResponse
    with_tm_pods name jms (err e) = HttpResponse.error 500 "failed to list TaskManager pods"
    with_tm_pods name jms (ok tms) = with_runs name jms tms cluster.list_runs

    abbrev pub with_jm_pods : String → Result (List PodInfo) → HttpResponse TopologyResponse
    with_jm_pods name (err e) = HttpResponse.error 500 "failed to list JobManager pods"
    with_jm_pods name (ok jms) = with_tm_pods name jms (list_pods_by_deployment "taskmanager" name)

    -- `topologyHandler`, by the query's deployment name.
    unfoldable pub topology : String → HttpResponse TopologyResponse
    unfolding filter_pods resolve_flink_deployment vvp_connections active_runs
    topology name = with_jm_pods name (list_pods_by_deployment "jobmanager" name)

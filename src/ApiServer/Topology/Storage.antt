-- ===== src/ApiServer/Topology/Storage.antt =====
-- The storage connections of a deployment, and where they are read from (resolveFlinkDeployment,
-- resolveVVPDeployment and deduplicateConnections of internal/apiserver/handlers_topology.go).
use flink_chaos_operator.Prelude.{
  String, ◌||◌, ◌&◌, Option, none, some, List, [], ◌∷◌, ◌++◌, if◌then◌else◌, str_eq, index, member,
}
use flink_chaos_operator.Interfaces.{Result, ok, err}
use flink_chaos_operator.ApiServer.Cluster.{ListedPod, FlinkDeployment, non_empty}
use flink_chaos_operator.ApiServer.Topology.Conf.{
  ExternalConnection, stored, flat_connections, parse_flink_conf_yaml,
}

-- PodInfo
pub record PodInfo : Type 0 where
  pub name : String
  pub phase : String
  pub labels : List (String × String)
  pub pod_ip : String

-- `unstructured` deployments: the one of the name, or the first if no name is given.
unfoldable pub select_deployment : String → List FlinkDeployment → Option FlinkDeployment
select_deployment name [] = none
select_deployment name (fd ∷ fds) =
    let rest = select_deployment name fds in
    if str_eq name "" || str_eq fd.name name then some fd else rest

abbrev pub of_selected : Option FlinkDeployment → String × List ExternalConnection
of_selected none = ("", [])
of_selected (some fd) = (fd.name, flat_connections fd.flink_configuration)

-- The first of the pods that is running.
unfoldable pub first_running_pod : List PodInfo → Option PodInfo
first_running_pod [] = none
first_running_pod (pod ∷ pods) =
    let rest = first_running_pod pods in if str_eq pod.phase "Running" then some pod else rest

abbrev pub label_or_empty : String → Option PodInfo → String
label_or_empty key none = ""
label_or_empty key (some pod) = index key pod.labels

unfoldable pub first_job_id : List PodInfo → String
unfolding non_empty
first_job_id [] = ""
first_job_id (pod ∷ pods) =
    let rest = first_job_id pods in
    elim (non_empty "jobId" pod.labels) [ none ↦ rest | some id ↦ id ]

abbrev pub or_else_conf : List (String × String) → List ExternalConnection → List ExternalConnection
or_else_conf m [] = parse_flink_conf_yaml (index "flink-conf.yaml" m)
or_else_conf m (c ∷ cs) = c ∷ cs

-- The flat keys of the config map, or else its flink-conf.yaml.
unfoldable pub config_map_connections : Result (List (String × String)) → List ExternalConnection
unfolding index
config_map_connections (err e) = []
config_map_connections (ok m) = or_else_conf m (flat_connections m)

unfoldable pub env_connections : String × String → List ExternalConnection
env_connections (name, value) =
    if str_eq name "FLINK_PROPERTIES"
    then parse_flink_conf_yaml value
    else if str_eq name "CHECKPOINT_DIR"
    then stored "checkpoint" value
    else if str_eq name "SAVEPOINT_DIR"
    then stored "savepoint" value
    else []

unfoldable pub container_connections : List (String × String) → List ExternalConnection
unfolding env_connections
container_connections [] = []
container_connections (env ∷ envs) = env_connections env ++ container_connections envs

unfoldable pub pod_connections : List (List (String × String)) → List ExternalConnection
unfolding container_connections
pod_connections [] = []
pod_connections (c ∷ cs) = container_connections c ++ pod_connections cs

abbrev pub of_fetched : Result ListedPod → List ExternalConnection
of_fetched (ok pod) = pod_connections pod.containers
of_fetched (err e) = []

abbrev pub connection_key : ExternalConnection → String
connection_key c = c.endpoint & "|" & c.purpose

-- The first of each endpoint and purpose, with the keys seen so far.
unfoldable pub deduplicate_from : List String → List ExternalConnection → List ExternalConnection
unfolding member
deduplicate_from seen [] = []
deduplicate_from seen (c ∷ cs) =
    let rest = deduplicate_from seen cs in
    let kept = c ∷ deduplicate_from (connection_key c ∷ seen) cs in
    if member (connection_key c) seen then rest else kept

unfoldable pub deduplicate_connections : List ExternalConnection → List ExternalConnection
unfolding deduplicate_from
deduplicate_connections cs = deduplicate_from [] cs

-- ===== src/Tests/Clusters.antt =====
-- A small cluster: its deployments, and where their Flink REST API is found.
use Prim.Native.Char.{code}
use flink_chaos_operator.Prelude.{
  ◌≢◌, Bool, true, not, ◌&&◌, ◌==◌, pos, String, ◌≡◌, ◌↔◌, refl, List, [], ◌∷◌, ◌++◌, map, arith,
  Any, index, lookup, member, decimal,
}
use flink_chaos_operator.Interfaces.{ok, err}
use flink_chaos_operator.ApiServer.Http.{HttpResponse}
use flink_chaos_operator.ApiServer.Cluster.{ListedPod, Service, ClusterView}
use flink_chaos_operator.ApiServer.Endpoint.{resolve_flink_client}
use flink_chaos_operator.ApiServer.Endpoint.Serves.{Resolved, resolve_flink_client-Resolved}
use flink_chaos_operator.ApiServer.Topology.Storage.{deduplicate_connections, env_connections}
use flink_chaos_operator.ApiServer.Topology.Conf.{
  is_space, stored, connection, parse_flink_conf_yaml,
}
use flink_chaos_operator.ApiServer.Topology.Prints.{
  print_entries, entries_connections, IsPlain, HasNoColon, IsEntry,
  parse_flink_conf_yaml-print_entries,
}
use flink_chaos_operator.ApiServer.Deployments.{
  DeploymentInfo, collect_deployments, list_deployments,
}
use flink_chaos_operator.ApiServer.Deployments.Listed.{
  NamesApart, Has, RunsFor, list_deployments-Lists,
}

abbrev jobmanager : String → String → List (String × String) → ListedPod
jobmanager name phase labels = record {
  name = name;
  namespace = "jobs";
  phase = phase;
  labels = labels;
  pod_ip = "10.0.0.7";
  containers = [];
}

-- Two pods of one Ververica deployment, a Flink deployment, and one that has ended.
abbrev jobmanagers : List ListedPod
jobmanagers =
    jobmanager "orders-1" "Running" (("deploymentName", "orders") ∷ ("jobId", "7") ∷ [])
    ∷ jobmanager "orders-2" "Running" (("deploymentName", "orders") ∷ ("jobId", "8") ∷ [])
    ∷ jobmanager "payments-1" "Running" (("app", "payments") ∷ [])
    ∷ jobmanager "old-1" "Succeeded" (("app", "old") ∷ [])
    ∷ []

abbrev service : String → List (String × String) → List (String × String) → Service
service name labels annotations = record {
  name = name;
  namespace = "jobs";
  labels = labels;
  annotations = annotations;
  ports = ("ui", pos 80) ∷ ("rest", pos 9081) ∷ [];
}

abbrev job_service : Service
job_service = service "job-8" (("jobId", "8") ∷ []) []

abbrev marked_service : Service
marked_service = service "payments-rest" [] (("flink-chaos/flink-rest", "true") ∷ [])

abbrev small : ClusterView
small = record {
  list_pods = λ role. ok jobmanagers;
  get_pod = λ name. err "not found";
  get_config_map = λ name. err "not found";
  list_flink_deployments = err "no kind is registered";
  list_jobmanager_services = ok (job_service ∷ []);
  list_services = ok (job_service ∷ marked_service ∷ []);
  list_runs = ok [];
}

resolve_flink_client-Resolved_example :
    Resolved "orders" jobmanagers
      (job_service ∷ [])
      (job_service ∷ marked_service ∷ [])
      (resolve_flink_client small "" "orders")
resolve_flink_client-Resolved_example =
    resolve_flink_client-Resolved small "orders" jobmanagers (job_service ∷ [])
      (job_service ∷ marked_service ∷ []) refl refl refl refl

of_orders : resolve_flink_client small "" "orders" ≡ ok "http://job-8.jobs.svc.cluster.local:9081"
unfolding resolve_flink_client index lookup member decimal
of_orders = refl

-- A deployment without a job id of its own is sent to the marked service, and so is one that is not
-- there.
of_nobody :
    resolve_flink_client small "" "nobody" ≡ ok "http://payments-rest.jobs.svc.cluster.local:9081"
unfolding resolve_flink_client index lookup member decimal
of_nobody = refl

list_deployments-Lists_example :
    (ds : List DeploymentInfo) × (list_deployments small ≡ HttpResponse.json 200 ds)
    × NamesApart ds
    × ((name : String) → Has name ds ↔ Any (RunsFor name) jobmanagers)
list_deployments-Lists_example = list_deployments-Lists small jobmanagers refl

listed_names :
    map (λ (d : DeploymentInfo). d.deployment_name) (collect_deployments jobmanagers [])
    ≡ "orders" ∷ "payments" ∷ []
unfolding collect_deployments index lookup member
listed_names = refl

abbrev configuration : List (String × String)
configuration =
    ("parallelism.default", "4")
    ∷ ("state.savepoints.dir", "s3://jobs/savepoints")
    ∷ ("state.checkpoints.dir", "gs://jobs/checkpoints")
    ∷ []

-- The predicates on texts, decided.
is_plain : String → Bool
is_plain String.[] = true
is_plain (String.◌∷◌ c s) = not (is_space (code c)) && is_plain s

has_no_colon : String → Bool
has_no_colon String.[] = true
has_no_colon (String.◌∷◌ c s) = not (code c == b':') && has_no_colon s

is_plain-IsPlain : (s : String) → is_plain s ≡ true → IsPlain s
unfolding is_plain
is_plain-IsPlain String.[] h = tt
is_plain-IsPlain (String.◌∷◌ c s) h = (ground arith, is_plain-IsPlain s (ground arith))

has_no_colon-HasNoColon : (s : String) → has_no_colon s ≡ true → HasNoColon s
unfolding has_no_colon
has_no_colon-HasNoColon String.[] h = tt
has_no_colon-HasNoColon (String.◌∷◌ c s) h =
    (ground arith, has_no_colon-HasNoColon s (ground arith))

IsEntry-of_tests :
    (key value : String)
    → is_plain key ≡ true
    → has_no_colon key ≡ true
    → is_plain value ≡ true
    → value ≢ ""
    → IsEntry (key, value)
IsEntry-of_tests key value k c v some_value =
    (is_plain-IsPlain key k, has_no_colon-HasNoColon key c, is_plain-IsPlain value v, some_value)

parse_flink_conf_yaml-print_entries_example :
    parse_flink_conf_yaml (print_entries configuration) ≡ entries_connections configuration
unfolding is_space is_plain has_no_colon
parse_flink_conf_yaml-print_entries_example = parse_flink_conf_yaml-print_entries configuration (
  IsEntry-of_tests "parallelism.default" "4" refl refl refl (λ e. cc),
  (
    IsEntry-of_tests "state.savepoints.dir" "s3://jobs/savepoints" refl refl refl (λ e. cc),
    (IsEntry-of_tests "state.checkpoints.dir" "gs://jobs/checkpoints" refl refl refl (λ e. cc), tt),
  ),
)

storage_found :
    entries_connections configuration
    ≡ connection "savepoint" "s3://jobs/savepoints"
      ∷ connection "checkpoint" "gs://jobs/checkpoints"
      ∷ []
unfolding entries_connections
storage_found = refl

-- The directory in the environment is listed once.
once :
    deduplicate_connections
      (env_connections ("CHECKPOINT_DIR", "s3://a") ++ env_connections ("CHECKPOINT_DIR", "s3://a"))
    ≡ connection "checkpoint" "s3://a" ∷ []
unfolding deduplicate_connections env_connections stored
once = refl

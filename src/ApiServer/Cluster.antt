-- ===== src/ApiServer/Cluster.antt =====
-- What the handlers of internal/apiserver read of the cluster: the pods and services of Flink, the
-- objects beside them, and the deployment that a pod's labels name.
use flink_chaos_operator.Prelude.{
  ℤ, String, Bool, Option, none, some, List, if◌then◌else◌, str_eq, index,
}
use flink_chaos_operator.Api.Types.{ChaosRun}
use flink_chaos_operator.Interfaces.{Result}

-- corev1.Pod, with the phase as its text and the environment of each container.
pub record ListedPod : Type 0 where
  pub name : String
  pub namespace : String
  pub phase : String
  pub labels : List (String × String)
  pub pod_ip : String
  pub containers : List (List (String × String))

-- A FlinkDeployment with spec.flinkConfiguration.
pub record FlinkDeployment : Type 0 where
  pub name : String
  pub flink_configuration : List (String × String)

-- corev1.Service, with its ports by their names.
pub record Service : Type 0 where
  pub name : String
  pub namespace : String
  pub labels : List (String × String)
  pub annotations : List (String × String)
  pub ports : List (String × ℤ)

-- The answers of the API server, in the namespace of the configuration. Pods are listed by the value of
-- their label component.
pub record ClusterView : Type 0 where
  pub list_pods : String → Result (List ListedPod)
  pub get_pod : String → Result ListedPod
  pub get_config_map : String → Result (List (String × String))
  pub list_flink_deployments : Result (List FlinkDeployment)
  pub list_jobmanager_services : Result (List Service)
  pub list_services : Result (List Service)
  pub list_runs : Result (List ChaosRun)

-- `v, ok := m[key]; ok && v != ""`
unfoldable pub non_empty : String → List (String × String) → Option String
unfolding index
non_empty key m = if str_eq (index key m) "" then none else some (index key m)

-- The label deploymentName, or else app.
unfoldable pub deployment_label : List (String × String) → String
unfolding index
deployment_label labels =
    if str_eq (index "deploymentName" labels) ""
    then index "app" labels
    else index "deploymentName" labels

unfoldable pub is_running : ListedPod → Bool
is_running pod = str_eq pod.phase "Running"

-- ===== src/ApiServer/Deployments.antt =====
-- GET /api/deployments: the running deployments, from the labels of the JobManager pods
-- (internal/apiserver/handlers_deployments.go).
pub mod Listed
use flink_chaos_operator.Prelude.{
  String, Option, none, some, List, [], ◌∷◌, if◌then◌else◌, index, member,
}
use flink_chaos_operator.Interfaces.{Result, ok, err}
use flink_chaos_operator.ApiServer.Http.{HttpResponse}
use flink_chaos_operator.ApiServer.Cluster.{ListedPod, ClusterView, non_empty, is_running}

-- DeploymentInfo
pub record DeploymentInfo : Type 0 where
  pub deployment_name : String
  pub deployment_id : String
  pub vvp_namespace : String
  pub job_id : String
  pub k8s_namespace : String
  pub target_type : String

abbrev pub vvp_info : String → ListedPod → DeploymentInfo
vvp_info name pod = record {
  deployment_name = name;
  deployment_id = index "deploymentId" pod.labels;
  vvp_namespace = index "vvpNamespace" pod.labels;
  job_id = index "jobId" pod.labels;
  k8s_namespace = pod.namespace;
  target_type = "VervericaDeployment";
}

abbrev pub flink_info : String → ListedPod → DeploymentInfo
flink_info name pod = record {
  deployment_name = name;
  deployment_id = "";
  vvp_namespace = "";
  job_id = "";
  k8s_namespace = pod.namespace;
  target_type = "FlinkDeployment";
}

-- The deployment that a pod is of: the Ververica label comes before "app".
abbrev pub info_by_labels : Option String → Option String → ListedPod → Option DeploymentInfo
info_by_labels (some name) app pod = some (vvp_info name pod)
info_by_labels none (some name) pod = some (flink_info name pod)
info_by_labels none none pod = none

unfoldable pub deployment_info : ListedPod → Option DeploymentInfo
unfolding is_running non_empty
deployment_info pod =
    if is_running pod
    then info_by_labels (non_empty "deploymentName" pod.labels) (non_empty "app" pod.labels) pod
    else none

-- One round of the loop, with the names that were seen and what the rounds after it collect.
abbrev pub collect_next :
    Option DeploymentInfo → List String → (List String → List DeploymentInfo) → List DeploymentInfo
collect_next none seen rest = rest seen
collect_next (some info) seen rest =
    if member info.deployment_name seen
    then rest seen
    else info ∷ rest (info.deployment_name ∷ seen)

-- The loop over the pods: each name is taken once.
unfoldable pub collect_deployments : List ListedPod → List String → List DeploymentInfo
unfolding deployment_info member
collect_deployments [] seen = []
collect_deployments (pod ∷ pods) seen =
    collect_next (deployment_info pod) seen (collect_deployments pods)

module _ (cluster : ClusterView) where
  abbrev pub deployments_of : Result (List ListedPod) → HttpResponse (List DeploymentInfo)
  deployments_of (ok pods) = HttpResponse.json 200 (collect_deployments pods [])
  deployments_of (err e) = HttpResponse.error 500 "failed to list pods"

  -- `listDeploymentsHandler`
  unfoldable pub list_deployments : HttpResponse (List DeploymentInfo)
  unfolding collect_deployments
  list_deployments = deployments_of (cluster.list_pods "jobmanager")

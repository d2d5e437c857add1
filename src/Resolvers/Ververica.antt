-- ===== src/Resolvers/Ververica.antt =====
-- The resolver of VervericaDeployment targets (internal/resolver/ververica/resolver.go).
use flink_chaos_operator.Prelude.{
  ℕ, String, Bool, true, false, ◌||◌, ◌&&◌, List, [], ◌∷◌, ◌&◌, if◌then◌else◌, str_eq, index,
  quoted,
}
use flink_chaos_operator.Api.Types.{TargetType, ChaosRun}
use flink_chaos_operator.Interfaces.{Result, ok, err, ResolvedTarget, TargetResolver}
use flink_chaos_operator.Resolvers.Pods.{Pod, is_pod_eligible, component_role}
use flink_chaos_operator.Resolvers.Deployment.{add_by_role}

-- Whether one of three labels has the value.
abbrev pub any_label : String → String → String → String → List (String × String) → Bool
any_label first second third value labels =
    str_eq (index first labels) value
    || str_eq (index second labels) value
    || str_eq (index third labels) value

abbrev pub has_id : String → List (String × String) → Bool
has_id = any_label "deploymentId" "flink.apache.org/deployment-id" "vvp.io/deployment-id"

abbrev pub has_name : String → List (String × String) → Bool
has_name = any_label "deploymentName" "flink.apache.org/deployment-name" "vvp.io/deployment-name"

abbrev pub has_namespace : String → List (String × String) → Bool
has_namespace = any_label "vvpNamespace" "flink.apache.org/namespace" "vvp.io/namespace"

unfoldable pub matches_target : List (String × String) → String → String → String → Bool
unfolding index
matches_target labels id name vvp_namespace =
    if str_eq id ""
    then if has_name name labels
      then if str_eq vvp_namespace "" then true else has_namespace vvp_namespace labels
      else false
    else has_id id labels

unfoldable pub is_session_mode : List (String × String) → Bool
unfolding index
is_session_mode labels =
    str_eq (index "flink.apache.org/cluster-mode" labels) "session"
    || str_eq (index "vvp.io/cluster-mode" labels) "session"

-- A pod that matches: its class by its role, and whether the cluster is shared.
abbrev pub add_pod : Pod → (List String × List String) × Bool → (List String × List String) × Bool
add_pod pod (classes, shared) =
    (add_by_role (component_role pod.labels) pod.name classes, is_session_mode pod.labels || shared)

-- `discoverPods`, from the list of the namespace's pods.
unfoldable pub discover_pods :
    String → String → String → List Pod → (List String × List String) × Bool
unfolding matches_target is_session_mode
discover_pods id name vvp_namespace [] = (([], []), false)
discover_pods id name vvp_namespace (pod ∷ pods) =
    let rest = discover_pods id name vvp_namespace pods in
    if is_pod_eligible pod
    then if matches_target pod.labels id name vvp_namespace then add_pod pod rest else rest
    else rest

abbrev pub is_ververica : TargetType → Bool
is_ververica TargetType.ververica_deployment = true
is_ververica _ = false

abbrev pub logical_name : String → String → String
logical_name id name = if str_eq id "" then name else id

abbrev pub target_with :
    ChaosRun → String → (List String × List String) × Bool → Result ResolvedTarget
target_with run logical (([], jm_pods), shared) =
    err ("no TaskManager pods found for VervericaDeployment " & quoted logical)
target_with run logical ((p ∷ ps, jm_pods), shared) = ok (record {
  platform = "ververica";
  namespace = run.namespace;
  logical_name = logical;
  tm_pod_names = p ∷ ps;
  jm_pod_names = jm_pods;
  shared_cluster = shared;
})

abbrev pub target_among : ChaosRun → Result (List Pod) → Result ResolvedTarget
target_among run (err e) =
    err ("resolver: listing pods in namespace " & quoted run.namespace & ": " & e)
target_among run (ok pods) =
    target_with run (logical_name run.spec.target.deployment_id run.spec.target.deployment_name) (
      discover_pods run.spec.target.deployment_id run.spec.target.deployment_name
        run.spec.target.vvp_namespace pods)

module _ (list_pods : ℕ → String → Result (List Pod)) where
  -- `Resolve`
  unfoldable pub resolve : TargetResolver
  unfolding discover_pods
  resolve n run =
      if is_ververica run.spec.target.target_type
      then if str_eq run.spec.target.deployment_id "" && str_eq run.spec.target.deployment_name ""
        then err
            "resolver: VervericaDeployment target requires at least one of DeploymentID or DeploymentName"
        else target_among run (list_pods n run.namespace)
      else err "resolver: expected target type VervericaDeployment"

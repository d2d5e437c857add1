-- ===== src/Tests/Deployments.antt =====
-- The resolution of a FlinkDeployment in session mode, and of a VervericaDeployment by its name and
-- namespace.
use flink_chaos_operator.Prelude.{
  ℕ, String, ◌≡◌, refl, true, false, none, some, List, [], ◌∷◌, lookup, index,
}
use flink_chaos_operator.Api.Types.{RunPhase, TargetType, ChaosRun}
use flink_chaos_operator.Interfaces.{Result, ok, ResolvedTarget}
use flink_chaos_operator.Resolvers.Pods.{Pod, PodPhase, is_pod_eligible, component_role}
use flink_chaos_operator.Resolvers.Deployment.{Deployment, resolve}
use flink_chaos_operator.Resolvers.Discovers.{IsTargetOf, resolve-IsTargetOf}
use flink_chaos_operator.Resolvers.Ververica
use flink_chaos_operator.Resolvers.Belongs.{
  IsOfVervericaDeployment, resolve-IsOfVervericaDeployment,
}
use flink_chaos_operator.Tests.Data.{kill_run}

abbrev pod_of_orders : String → String → Pod
pod_of_orders name role = record {
  name = name;
  deletion_timestamp = none;
  phase = PodPhase.running;
  labels = ("app", "orders") ∷ ("component", role) ∷ [];
}

abbrev get_orders : ℕ → String → String → Deployment
get_orders n name namespace = Deployment.deployment (some "kubernetes-Session")

abbrev list_orders : ℕ → String → Result (List Pod)
list_orders n namespace =
    ok (pod_of_orders "jm-1" "jobmanager" ∷ pod_of_orders "tm-1" "taskmanager" ∷ [])

abbrev orders : ResolvedTarget
orders = record {
  platform = "flink-operator";
  namespace = "jobs";
  logical_name = "orders";
  tm_pod_names = "tm-1" ∷ [];
  jm_pod_names = "jm-1" ∷ [];
  shared_cluster = true;
}

orders_resolved : resolve get_orders list_orders 0 (kill_run RunPhase.injecting) ≡ ok orders
unfolding resolve is_pod_eligible component_role lookup index
orders_resolved = refl

resolve-IsTargetOf_example :
    IsTargetOf get_orders list_orders 0 (kill_run RunPhase.injecting) orders
resolve-IsTargetOf_example =
    resolve-IsTargetOf get_orders list_orders 0 (kill_run RunPhase.injecting) orders orders_resolved

abbrev payments_run : ChaosRun
payments_run = record (kill_run RunPhase.injecting) {
  spec = record ((kill_run RunPhase.injecting).spec) {
    target = record ((kill_run RunPhase.injecting).spec.target) {
      target_type = TargetType.ververica_deployment;
      deployment_name = "payments";
      vvp_namespace = "prod";
    };
  };
}

abbrev pod_of_payments : String → String → String → Pod
pod_of_payments name namespace role = record {
  name = name;
  deletion_timestamp = none;
  phase = PodPhase.running;
  labels =
      ("vvp.io/deployment-name", "payments")
      ∷ ("vvp.io/namespace", namespace)
      ∷ ("vvp.io/component", role)
      ∷ [];
}

-- The second pod is of another namespace of the platform.
abbrev list_payments : ℕ → String → Result (List Pod)
list_payments n namespace = ok (
    pod_of_payments "tm-1" "prod" "taskmanager"
    ∷ pod_of_payments "tm-2" "test" "taskmanager"
    ∷ pod_of_payments "jm-1" "prod" "jobmanager"
    ∷ [])

abbrev payments : ResolvedTarget
payments = record {
  platform = "ververica";
  namespace = "jobs";
  logical_name = "payments";
  tm_pod_names = "tm-1" ∷ [];
  jm_pod_names = "jm-1" ∷ [];
  shared_cluster = false;
}

payments_resolved : Ververica.resolve list_payments 0 payments_run ≡ ok payments
unfolding Ververica.resolve is_pod_eligible component_role lookup index
payments_resolved = refl

resolve-IsOfVervericaDeployment_example :
    IsOfVervericaDeployment list_payments 0 payments_run payments
resolve-IsOfVervericaDeployment_example =
    resolve-IsOfVervericaDeployment list_payments 0 payments_run payments payments_resolved

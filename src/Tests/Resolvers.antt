-- ===== src/Tests/Resolvers.antt =====
-- The resolution of a label selector.
use flink_chaos_operator.Prelude.{ℕ, String, ◌≡◌, refl, false, none, some, List, [], ◌∷◌, lookup}
use flink_chaos_operator.Api.Types.{TargetType, RunPhase, LabelSelector, ChaosRun}
use flink_chaos_operator.Interfaces.{Result, ok, ResolvedTarget}
use flink_chaos_operator.Resolvers.Pods.{Pod, PodPhase, is_pod_eligible, component_role}
use flink_chaos_operator.Resolvers.PodSelector.{resolve}
use flink_chaos_operator.Resolvers.Classes.{IsResolved, resolve-IsResolved}
use flink_chaos_operator.Tests.Data.{kill_run}

abbrev pod_named : String → String → Pod
pod_named name role = record {
  name = name;
  deletion_timestamp = none;
  phase = PodPhase.running;
  labels = ("component", role) ∷ [];
}

abbrev list_two : ℕ → String → LabelSelector → Result (List Pod)
list_two n namespace selector =
    ok (pod_named "jm-1" "jobmanager" ∷ pod_named "tm-1" "taskmanager" ∷ [])

abbrev selecting_run : ChaosRun
selecting_run = record (kill_run RunPhase.injecting) {
  spec = record ((kill_run RunPhase.injecting).spec) {
    target = record ((kill_run RunPhase.injecting).spec.target) {
      target_type = TargetType.pod_selector;
      selector = some (record { match_labels = ("app", "orders") ∷ []; match_expressions = [] });
    };
  };
}

abbrev two_pods : ResolvedTarget
two_pods = record {
  platform = "generic";
  namespace = "jobs";
  logical_name = "pod-selector";
  tm_pod_names = "tm-1" ∷ [];
  jm_pod_names = "jm-1" ∷ [];
  shared_cluster = false;
}

resolved : resolve list_two 0 selecting_run ≡ ok two_pods
unfolding resolve is_pod_eligible component_role lookup
resolved = refl

resolve-IsResolved_example : IsResolved list_two 0 selecting_run two_pods
resolve-IsResolved_example = resolve-IsResolved list_two 0 selecting_run two_pods resolved

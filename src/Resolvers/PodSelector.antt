-- ===== src/Resolvers/PodSelector.antt =====
-- The resolver of label selectors (internal/resolver/podselector/resolver.go).
use flink_chaos_operator.Prelude.{
  ℕ, String, Bool, true, false, ◌&&◌, Option, none, some, List, [], ◌∷◌, ◌&◌, if◌then◌else◌, str_eq,
  is_empty, quoted,
}
use flink_chaos_operator.Api.Types.{TargetType, LabelSelector, ChaosRun}
use flink_chaos_operator.Interfaces.{Result, ok, err, ResolvedTarget, TargetResolver}
use flink_chaos_operator.Resolvers.Pods.{Pod, is_pod_eligible, component_role}

abbrev is_selector : TargetType → Bool
is_selector TargetType.pod_selector = true
is_selector _ = false

-- TaskManagers and JobManagers among the pods; a pod of no known component is a TaskManager.
unfoldable pub classify_pods : List Pod → List String × List String
classify_pods [] = ([], [])
classify_pods (pod ∷ pods) =
    let (tm_pods, jm_pods) = classify_pods pods in
    if is_pod_eligible pod
    then if str_eq (component_role pod.labels) "jobmanager"
      then (tm_pods, pod.name ∷ jm_pods)
      else (pod.name ∷ tm_pods, jm_pods)
    else (tm_pods, jm_pods)

-- What the API server lists in a namespace for a selector, by the moment of the call; the
-- conversion of the selector is part of the answer.
module _ (list_pods : ℕ → String → LabelSelector → Result (List Pod)) where
  abbrev pub target_of : ChaosRun → List String × List String → Result ResolvedTarget
  target_of run (tm_pods, jm_pods) =
      if is_empty tm_pods && is_empty jm_pods
      then err ("no pods matched selector in namespace " & quoted run.namespace)
      else ok (record {
        platform = "generic";
        namespace = run.namespace;
        logical_name = "pod-selector";
        tm_pod_names = tm_pods;
        jm_pod_names = jm_pods;
        shared_cluster = false;
      })

  abbrev pub target_from : ChaosRun → Result (List Pod) → Result ResolvedTarget
  target_from run (err e) =
      err ("resolver: listing pods in namespace " & quoted run.namespace & ": " & e)
  target_from run (ok pods) = target_of run (classify_pods pods)

  abbrev pub resolve_selector : ℕ → ChaosRun → Option LabelSelector → Result ResolvedTarget
  resolve_selector n run none = err "PodSelector target requires spec.target.selector"
  resolve_selector n run (some selector) = target_from run (list_pods n run.namespace selector)

  -- `Resolve`
  unfoldable pub resolve : TargetResolver
  unfolding classify_pods
  resolve n run =
      if is_selector run.spec.target.target_type
      then resolve_selector n run run.spec.target.selector
      else err "resolver: expected target type PodSelector"

-- ===== src/Resolvers/Deployment.antt =====
-- The resolver of FlinkDeployment targets (internal/resolver/flinkdeployment/resolver.go).
use flink_chaos_operator.Prelude.{
  ℕ, ◌+◌, String, Bool, true, false, ◌||◌, ◌&&◌, Option, none, some, List, [], ◌∷◌, ◌&◌,
  if◌then◌else◌, str_eq, index, codes, leb, ◌==◌, quoted,
}
use flink_chaos_operator.Api.Types.{TargetType, ChaosRun}
use flink_chaos_operator.Interfaces.{Error, Result, ok, err, ResolvedTarget, TargetResolver}
use flink_chaos_operator.Resolvers.Pods.{Pod, is_pod_eligible, component_role}

-- `strings.ToLower` of a character, as far as it leads to ASCII: besides the capitals of ASCII these
-- are the capital I with a dot and the Kelvin sign.
abbrev pub lower : ℕ → ℕ
lower c =
    if leb 65 c && leb c 90 then c + 32 else if c == 304 then 105 else if c == 8490 then 107 else c

abbrev pub starts_with : List ℕ → List ℕ → Bool
starts_with [] cs = true
starts_with (p ∷ ps) [] = false
starts_with (p ∷ ps) (c ∷ cs) = (p == lower c) && starts_with ps cs

-- `strings.Contains(strings.ToLower(s), part)`, by the codes of the characters.
abbrev pub contains : List ℕ → List ℕ → Bool
contains part [] = starts_with part []
contains part (c ∷ cs) = starts_with part (c ∷ cs) || contains part cs

-- `isSessionMode`, of the text at spec.flinkConfiguration["execution.target"] if there is one.
unfoldable pub is_session_mode : Option String → Bool
is_session_mode none = false
is_session_mode (some exec_target) = contains (codes "session") (codes exec_target)

unfoldable pub matches_deployment : List (String × String) → String → Bool
unfolding index
matches_deployment labels name =
    str_eq (index "app" labels) name || str_eq (index "app.kubernetes.io/name" labels) name

abbrev pub add_by_role : String → String → List String × List String → List String × List String
add_by_role role name (tm_pods, jm_pods) =
    if str_eq role "taskmanager"
    then (name ∷ tm_pods, jm_pods)
    else if str_eq role "jobmanager"
    then (tm_pods, name ∷ jm_pods)
    else (tm_pods, jm_pods)

-- `discoverPods`, from the list of the namespace's pods.
unfoldable pub discover_pods : String → List Pod → List String × List String
discover_pods name [] = ([], [])
discover_pods name (pod ∷ pods) =
    let rest = discover_pods name pods in
    if is_pod_eligible pod
    then if matches_deployment pod.labels name
      then add_by_role (component_role pod.labels) pod.name rest
      else rest
    else rest

-- The answer to `Client.Get` of a FlinkDeployment: its execution target if it names one.
pub data Deployment : Type 0 where
  deployment : Option String → Deployment
  missing : Deployment
  get_failed : Error → Deployment

module _ (get : ℕ → String → String → Deployment) (list_pods : ℕ → String → Result (List Pod)) where
  abbrev pub target_with :
      ChaosRun → Option String → List String × List String → Result ResolvedTarget
  target_with run exec_target ([], jm_pods) =
      err ("no TaskManager pods found for FlinkDeployment " & quoted run.spec.target.name)
  target_with run exec_target (p ∷ ps, jm_pods) = ok (record {
    platform = "flink-operator";
    namespace = run.namespace;
    logical_name = run.spec.target.name;
    tm_pod_names = p ∷ ps;
    jm_pod_names = jm_pods;
    shared_cluster = is_session_mode exec_target;
  })

  abbrev pub target_among : ChaosRun → Option String → Result (List Pod) → Result ResolvedTarget
  target_among run exec_target (err e) =
      err ("resolver: listing pods in namespace " & quoted run.namespace & ": " & e)
  target_among run exec_target (ok pods) =
      target_with run exec_target (discover_pods run.spec.target.name pods)

  abbrev pub resolve_deployment : ℕ → ChaosRun → Deployment → Result ResolvedTarget
  resolve_deployment n run (Deployment.deployment exec_target) =
      target_among run exec_target (list_pods (n + 1) run.namespace)
  resolve_deployment n run Deployment.missing = err (
      "FlinkDeployment "
      & quoted run.spec.target.name
      & " not found in namespace "
      & quoted run.namespace)
  resolve_deployment n run (Deployment.get_failed e) = err (
      "fetching FlinkDeployment "
      & quoted run.spec.target.name
      & " in namespace "
      & quoted run.namespace
      & ": "
      & e)

  abbrev pub is_deployment : TargetType → Bool
  is_deployment TargetType.flink_deployment = true
  is_deployment _ = false

  -- `Resolve`
  unfoldable pub resolve : TargetResolver
  unfolding discover_pods is_session_mode matches_deployment
  resolve n run =
      if is_deployment run.spec.target.target_type
      then resolve_deployment n run (get n run.spec.target.name run.namespace)
      else err "resolver: expected target type FlinkDeployment"

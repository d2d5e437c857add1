-- ===== src/Safety/Checker.antt =====
-- The checks that a run and its target must pass before an injection (internal/safety/checker.go).
-- The first failure is the answer.
use flink_chaos_operator.Prelude.{
  ℕ, suc, ℤ, pos, ◌-ℤ◌, String, Bool, true, false, not, ◌&&◌, Option, none, some, List, [], ◌∷◌,
  if◌then◌else◌, str_eq, member, length, ltb_ℤ, leb_ℤ, eq_ℤ, to_int32,
}
use flink_chaos_operator.Api.Types.{
  ScenarioType, RunPhase, NetworkTarget, NetworkDirection, Duration, TargetSummary,
  NetworkChaosSpec, ResourceExhaustionSpec, ChaosRun,
}
use flink_chaos_operator.Interfaces.{Error, Result, ok, err, ResolvedTarget, SafetyChecker}

-- One constructor for each `fmt.Errorf` call, with its arguments.
pub data Refusal : Type 0 where
  namespace_denied : String → Refusal
  shared_cluster : String → Refusal
  too_few_task_managers : ℤ → ℕ → ℤ → ℤ → Refusal
  list_failed : String → Error → Refusal
  too_many_runs : ℕ → String → ℤ → Refusal
  network_duration : Duration → Duration → Refusal
  checkpoint_storage : Refusal
  full_partition : Refusal
  exhaustion_duration : Duration → Duration → Refusal

-- `if test { return err }`, and then nil.
abbrev pub refuse_if : Bool → Refusal → Option Refusal
refuse_if test e = if test then some e else none

-- `if err := first; err != nil { return err }`, and then the rest.
infixr 20 ◌orelse◌
abbrev pub ◌orelse◌ : Option Refusal → Option Refusal → Option Refusal
none orelse rest = rest
(some e) orelse rest = some e

abbrev pub denied_namespaces : List String
denied_namespaces = "kube-system" ∷ "kube-public" ∷ "kube-node-lease" ∷ []

unfoldable pub check_namespace_denylist : ChaosRun → Option Refusal
unfolding member
check_namespace_denylist run =
    refuse_if (member run.namespace denied_namespaces) (Refusal.namespace_denied run.namespace)

unfoldable pub check_shared_cluster : ChaosRun → ResolvedTarget → Option Refusal
check_shared_cluster run target =
    refuse_if (target.shared_cluster && not run.spec.safety.allow_shared_cluster_impact)
      (Refusal.shared_cluster target.logical_name)

-- The number of pods to be injected; a count of 0 is read as 1.
abbrev pub injection_count : ChaosRun → ℤ
injection_count run =
    let count = run.spec.scenario.selection.count in if eq_ℤ count (pos 0) then pos 1 else count

abbrev pub min_required : Option ℤ → ℤ
min_required none = pos 1
min_required (some m) = m

unfoldable pub check_min_task_managers_remaining : ChaosRun → ResolvedTarget → Option Refusal
check_min_task_managers_remaining run target =
    let count = injection_count run in
    let remaining = pos (length target.tm_pod_names) -ℤ count in
    let required = min_required run.spec.safety.min_task_managers_remaining in
    refuse_if (ltb_ℤ (to_int32 remaining) required)
      (Refusal.too_few_task_managers count (length target.tm_pod_names) remaining required)

unfoldable pub is_terminal : RunPhase → Bool
is_terminal RunPhase.completed = true
is_terminal RunPhase.aborted = true
is_terminal RunPhase.failed = true
is_terminal _ = false

abbrev pub summary_names : Option TargetSummary → String → Bool
summary_names none name = false
summary_names (some s) name = str_eq s.name name

-- A run of the list is counted unless the loop skips it.
unfoldable pub is_active_peer : ChaosRun → String → ChaosRun → Bool
unfolding is_terminal
is_active_peer run name peer =
    if str_eq peer.name run.name && str_eq peer.namespace run.namespace
    then false
    else if is_terminal peer.status.phase
    then false
    else summary_names peer.status.target_summary name

unfoldable pub count_active : ChaosRun → String → List ChaosRun → ℕ
unfolding is_active_peer
count_active run name [] = 0
count_active run name (peer ∷ peers) =
    let active = count_active run name peers in
    if is_active_peer run name peer then suc active else active

-- The list of the namespace's runs is the API server's answer.
unfoldable pub check_concurrency :
    Result (List ChaosRun) → ChaosRun → ResolvedTarget → Option Refusal
unfolding count_active
check_concurrency (err e) run target = some (Refusal.list_failed run.namespace e)
check_concurrency (ok peers) run target =
    let active = count_active run target.logical_name peers in
    let max = run.spec.safety.max_concurrent_runs_per_target in
    refuse_if (leb_ℤ max (pos active)) (Refusal.too_many_runs active target.logical_name max)

-- `duration > cap`, where both are given.
abbrev pub cap_exceeded :
    (Duration → Duration → Refusal) → Option Duration → Option Duration → Option Refusal
cap_exceeded e none cap = none
cap_exceeded e (some d) none = none
cap_exceeded e (some d) (some cap) = refuse_if (ltb_ℤ cap d) (e d cap)

abbrev pub network_duration_of : Option NetworkChaosSpec → Option Duration
network_duration_of none = none
network_duration_of (some n) = n.duration

abbrev pub exhaustion_duration_of : Option ResourceExhaustionSpec → Option Duration
exhaustion_duration_of none = none
exhaustion_duration_of (some re) = re.duration

unfoldable pub check_network_chaos_duration : ChaosRun → Option Refusal
check_network_chaos_duration run =
    cap_exceeded Refusal.network_duration (network_duration_of run.spec.scenario.network)
      run.spec.safety.max_network_chaos_duration

unfoldable pub is_checkpoint_target : NetworkTarget → Bool
is_checkpoint_target NetworkTarget.tm_to_checkpoint = true
is_checkpoint_target _ = false

unfoldable pub is_full_partition : NetworkTarget → NetworkDirection → Bool
is_full_partition NetworkTarget.tm_to_tm NetworkDirection.both = true
is_full_partition _ _ = false

abbrev pub storage_refusal : Option NetworkChaosSpec → Bool → Option Refusal
storage_refusal none allowed = none
storage_refusal (some n) allowed =
    refuse_if (is_checkpoint_target n.target && not allowed) Refusal.checkpoint_storage

unfoldable pub check_checkpoint_storage_chaos : ChaosRun → Option Refusal
unfolding is_checkpoint_target
check_checkpoint_storage_chaos run =
    storage_refusal run.spec.scenario.network run.spec.safety.allow_checkpoint_storage_chaos

abbrev pub mesh_refusal : Option NetworkChaosSpec → Bool → Option Refusal
mesh_refusal none allowed = none
mesh_refusal (some n) allowed =
    refuse_if (is_full_partition n.target n.direction && not allowed) Refusal.full_partition

unfoldable pub check_network_partition_blast_radius : ChaosRun → Option Refusal
unfolding is_full_partition
check_network_partition_blast_radius run =
    mesh_refusal run.spec.scenario.network run.spec.safety.allow_shared_cluster_impact

unfoldable pub check_resource_exhaustion_duration : ChaosRun → Option Refusal
check_resource_exhaustion_duration run =
    cap_exceeded Refusal.exhaustion_duration
      (exhaustion_duration_of run.spec.scenario.resource_exhaustion)
      run.spec.safety.max_resource_exhaustion_duration

-- The checks that only a pod kill makes, before the concurrency guard.
unfoldable pub check_kill : ScenarioType → ChaosRun → ResolvedTarget → Option Refusal
unfolding check_min_task_managers_remaining
check_kill ScenarioType.task_manager_pod_kill run target =
    check_min_task_managers_remaining run target
check_kill _ run target = none

-- The checks of the other scenarios, after it. Those of the network's kind are also nil, by
-- their own tests, where there is no network specification.
unfoldable pub check_scenario : ScenarioType → ChaosRun → Option Refusal
unfolding check_network_chaos_duration check_checkpoint_storage_chaos
    check_network_partition_blast_radius check_resource_exhaustion_duration
check_scenario ScenarioType.network_partition run =
    check_network_chaos_duration run
    orelse check_checkpoint_storage_chaos run
    orelse check_network_partition_blast_radius run
check_scenario ScenarioType.network_chaos run =
    check_network_chaos_duration run orelse check_checkpoint_storage_chaos run
check_scenario ScenarioType.resource_exhaustion run = check_resource_exhaustion_duration run
check_scenario _ run = none

unfoldable pub check : Result (List ChaosRun) → ChaosRun → ResolvedTarget → Option Refusal
unfolding check_namespace_denylist check_shared_cluster check_kill check_concurrency check_scenario
check peers run target =
    check_namespace_denylist run
    orelse check_shared_cluster run target
    orelse check_kill run.spec.scenario.scenario_type run target
    orelse check_concurrency peers run target
    orelse check_scenario run.spec.scenario.scenario_type run

-- The checker as the controller takes it: `peers` is what the API server lists at each moment, and
-- `describe` the text of a refusal.
unfoldable pub safety_checker :
    (Refusal → Error) → (ℕ → String → Result (List ChaosRun)) → SafetyChecker
safety_checker describe peers n run target = elim (check (peers n run.namespace) run target) [
  | none ↦ none
  | some e ↦ some (describe e)
]

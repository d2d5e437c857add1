-- ===== src/Safety/Permits.antt =====
-- What a run and its target must meet to be injected, said without the order of the checks
-- (internal/safety/checker.go).
use flink_chaos_operator.Prelude.{
  ℕ, pos, ◌-ℤ◌, ◌≤ℤ◌, ◌<ℤ◌, ◌≡◌, refl, subst, ◌↔◌, Bool, true, false, Option, none, some, List,
  length, arith, member, to_int32,
}
use flink_chaos_operator.Api.Types.{
  ScenarioType, NetworkTarget, NetworkDirection, Duration, NetworkChaosSpec, ChaosRun,
}
use flink_chaos_operator.Interfaces.{Result, ok, err, ResolvedTarget}
use flink_chaos_operator.Safety.Rivals.{AreRivals, count_active_iff}
use flink_chaos_operator.Safety.Checker.{
  Refusal, refuse_if, ◌orelse◌, denied_namespaces, check_namespace_denylist, check_shared_cluster,
  injection_count, min_required, check_min_task_managers_remaining, count_active, check_concurrency,
  cap_exceeded, storage_refusal, mesh_refusal, network_duration_of, exhaustion_duration_of,
  check_network_chaos_duration, is_checkpoint_target, is_full_partition,
  check_checkpoint_storage_chaos, check_network_partition_blast_radius,
  check_resource_exhaustion_duration, check_kill, check_scenario, check,
}

-- A duration within its cap, where both are given.
abbrev pub IsCapped : Option Duration → Option Duration → Type 0
IsCapped duration cap = (d c : Duration) → duration ≡ some d → cap ≡ some c → d ≤ℤ c

-- The network specification asks for no checkpoint storage without leave.
abbrev pub SparesStorage : Option NetworkChaosSpec → Bool → Type 0
SparesStorage network allowed =
    (n : NetworkChaosSpec)
    → network ≡ some n
    → n.target ≡ NetworkTarget.tm_to_checkpoint
    → allowed ≡ true

-- Nor for the isolation of every TaskManager.
abbrev pub SparesMesh : Option NetworkChaosSpec → Bool → Type 0
SparesMesh network allowed =
    (n : NetworkChaosSpec)
    → network ≡ some n
    → n.target ≡ NetworkTarget.tm_to_tm
    → n.direction ≡ NetworkDirection.both
    → allowed ≡ true

abbrev pub ScenarioAllows : ScenarioType → ChaosRun → Type 0
ScenarioAllows ScenarioType.network_partition run =
    IsCapped (network_duration_of run.spec.scenario.network)
      run.spec.safety.max_network_chaos_duration
    × SparesStorage run.spec.scenario.network run.spec.safety.allow_checkpoint_storage_chaos
    × SparesMesh run.spec.scenario.network run.spec.safety.allow_shared_cluster_impact
ScenarioAllows ScenarioType.network_chaos run =
    IsCapped (network_duration_of run.spec.scenario.network)
      run.spec.safety.max_network_chaos_duration
    × SparesStorage run.spec.scenario.network run.spec.safety.allow_checkpoint_storage_chaos
ScenarioAllows ScenarioType.resource_exhaustion run =
    IsCapped (exhaustion_duration_of run.spec.scenario.resource_exhaustion)
      run.spec.safety.max_resource_exhaustion_duration
ScenarioAllows _ run = Unit

-- A pod kill leaves the required number of TaskManagers.
abbrev pub LeavesEnough : ScenarioType → ChaosRun → ResolvedTarget → Type 0
LeavesEnough ScenarioType.task_manager_pod_kill run target =
    min_required run.spec.safety.min_task_managers_remaining
    ≤ℤ to_int32 (pos (length target.tm_pod_names) -ℤ injection_count run)
LeavesEnough _ run target = Unit

-- The other runs on the target that have not ended, by the list of the namespace's runs, are below
-- the limit.
abbrev pub HasRoom : Result (List ChaosRun) → ChaosRun → ResolvedTarget → Type 0
HasRoom (err e) run target = ⊥
HasRoom (ok peers) run target =
    (active : ℕ) × AreRivals run target.logical_name peers active
    × (pos active <ℤ run.spec.safety.max_concurrent_runs_per_target)

pub record IsPermitted (peers : Result (List ChaosRun)) (run : ChaosRun) (target : ResolvedTarget)
    : Type 0 where
  pub namespace_allowed : member run.namespace denied_namespaces ≡ false
  pub share_allowed :
      target.shared_cluster ≡ true → run.spec.safety.allow_shared_cluster_impact ≡ true
  pub leaves_enough : LeavesEnough run.spec.scenario.scenario_type run target
  pub has_room : HasRoom peers run target
  pub scenario_allows : ScenarioAllows run.spec.scenario.scenario_type run

-- A guard passes exactly when its test fails, and a chain when both parts pass.
refuse_if-none : (test : Bool) (e : Refusal) → (refuse_if test e ≡ none) ↔ (test ≡ false)
refuse_if-none test e = (λ p. ground arith, λ p. ground arith)

orelse-none :
    (first rest : Option Refusal) → (first orelse rest ≡ none) ↔ ((first ≡ none) × (rest ≡ none))
orelse-none first rest = (λ p. ground arith, λ (p, q). ground arith)

cap_exceeded-none :
    (e : Duration → Duration → Refusal) (duration cap : Option Duration)
    → (cap_exceeded e duration cap ≡ none) ↔ IsCapped duration cap
cap_exceeded-none e none cap = (λ p d c q r. absurd (ground arith), λ k. refl)
cap_exceeded-none e (some d) none = (λ p d c q r. absurd (ground arith), λ k. refl)
cap_exceeded-none e (some d) (some c) =
    (λ p d' c' q r. ground arith, λ k. let h = k d c refl refl in ground arith)

storage_refusal-none :
    (network : Option NetworkChaosSpec) (allowed : Bool)
    → (storage_refusal network allowed ≡ none) ↔ SparesStorage network allowed
unfolding is_checkpoint_target
storage_refusal-none none allowed = (λ p n e t. absurd (ground arith), λ k. refl)
storage_refusal-none (some n) allowed =
    (λ p n' e t. ground arith, λ k. let h = k n refl in ground (arith, h))

mesh_refusal-none :
    (network : Option NetworkChaosSpec) (allowed : Bool)
    → (mesh_refusal network allowed ≡ none) ↔ SparesMesh network allowed
unfolding is_full_partition
mesh_refusal-none none allowed = (λ p n e t d. absurd (ground arith), λ k. refl)
mesh_refusal-none (some n) allowed =
    (λ p n' e t d. ground arith, λ k. let h = k n refl in ground (arith, h))

module _ (run : ChaosRun) (target : ResolvedTarget) where
  kill-none : (t : ScenarioType) → (check_kill t run target ≡ none) ↔ LeavesEnough t run target
  unfolding check_kill check_min_task_managers_remaining
  kill-none ScenarioType.task_manager_pod_kill = (λ p. ground arith, λ k. ground arith)
  kill-none _ = (λ p. tt, λ k. refl)

  concurrency-none :
      (peers : Result (List ChaosRun))
      → (check_concurrency peers run target ≡ none) ↔ HasRoom peers run target
  unfolding check_concurrency
  concurrency-none (err e) = (λ p. ground arith, λ k. absurd k)
  concurrency-none (ok peers) = (
    λ p. (
      count_active run target.logical_name peers,
      (count_active_iff run target.logical_name peers _).1 refl,
      ground arith,
    ),
    λ (n, rivals, below).
        let counted = (count_active_iff run target.logical_name peers n).0 rivals in
        let few =
          subst (λ m. pos m <ℤ run.spec.safety.max_concurrent_runs_per_target) counted below in
        ground (arith, few),
  )

  scenario-none : (t : ScenarioType) → (check_scenario t run ≡ none) ↔ ScenarioAllows t run
  unfolding check_scenario check_network_chaos_duration check_checkpoint_storage_chaos
      check_network_partition_blast_radius check_resource_exhaustion_duration
  scenario-none ScenarioType.network_partition = (
    λ p.
        let (d, p') = (orelse-none (check_network_chaos_duration run) _).0 p in
        let (s, m) = (orelse-none (check_checkpoint_storage_chaos run) _).0 p' in
        (
          (cap_exceeded-none _ _ _).0 d,
          (storage_refusal-none _ _).0 s,
          (mesh_refusal-none _ _).0 m,
        ),
    λ (d, s, m). (orelse-none (check_network_chaos_duration run) _).1 (
      (cap_exceeded-none _ _ _).1 d,
      (orelse-none (check_checkpoint_storage_chaos run) _).1
          ((storage_refusal-none _ _).1 s, (mesh_refusal-none _ _).1 m),
    ),
  )
  scenario-none ScenarioType.network_chaos = (
    λ p.
        let (d, s) = (orelse-none (check_network_chaos_duration run) _).0 p in
        ((cap_exceeded-none _ _ _).0 d, (storage_refusal-none _ _).0 s),
    λ (d, s).
        (orelse-none (check_network_chaos_duration run) _).1
          ((cap_exceeded-none _ _ _).1 d, (storage_refusal-none _ _).1 s),
  )
  scenario-none ScenarioType.resource_exhaustion = cap_exceeded-none _ _ _
  scenario-none _ = (λ p. tt, λ k. refl)

  namespace-none :
      (check_namespace_denylist run ≡ none) ↔ (member run.namespace denied_namespaces ≡ false)
  unfolding check_namespace_denylist
  namespace-none = refuse_if-none _ _

  share-none :
      (check_shared_cluster run target ≡ none)
      ↔ (target.shared_cluster ≡ true → run.spec.safety.allow_shared_cluster_impact ≡ true)
  unfolding check_shared_cluster
  share-none = (λ p s. ground arith, λ k. ground arith)

  -- The checker passes a run exactly when it is permitted: its namespace is no system namespace; a
  -- shared cluster has leave; a pod kill, by its count, leaves the required TaskManagers; the
  -- listing succeeded and shows fewer active runs on the target than the limit; a network scenario
  -- or a resource exhaustion keeps to its cap on the duration; and checkpoint storage and the full
  -- partition have leave.
  pub check-IsPermitted :
      (peers : Result (List ChaosRun))
      → (check peers run target ≡ none) ↔ IsPermitted peers run target
  unfolding check
  check-IsPermitted peers = (
    λ p.
        let (n, p1) = (orelse-none (check_namespace_denylist run) _).0 p in
        let (s, p2) = (orelse-none (check_shared_cluster run target) _).0 p1 in
        let (k, p3) =
          (orelse-none (check_kill run.spec.scenario.scenario_type run target) _).0 p2 in
        let (c, q) = (orelse-none (check_concurrency peers run target) _).0 p3 in
        record {
          namespace_allowed = namespace-none.0 n;
          share_allowed = share-none.0 s;
          leaves_enough = (kill-none _).0 k;
          has_room = (concurrency-none peers).0 c;
          scenario_allows = (scenario-none _).0 q;
        },
    λ h. (orelse-none (check_namespace_denylist run) _).1 (
      namespace-none.1 h.namespace_allowed,
      (orelse-none (check_shared_cluster run target) _).1 (
        share-none.1 h.share_allowed,
        (orelse-none (check_kill run.spec.scenario.scenario_type run target) _).1 (
          (kill-none _).1 h.leaves_enough,
          (orelse-none (check_concurrency peers run target) _).1
              ((concurrency-none peers).1 h.has_room, (scenario-none _).1 h.scenario_allows),
        ),
      ),
    ),
  )

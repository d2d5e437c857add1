-- ===== src/Scenarios/Keeps.antt =====
-- The drivers of internal/scenario leave the phase of a run alone, as the controller relies on.
use flink_chaos_operator.Prelude.{ℕ, ◌+◌, String, ◌≡◌, refl, Option, none, some, List}
use flink_chaos_operator.Api.Types.{ScenarioType, NetworkChaosSpec, ChaosRun}
use flink_chaos_operator.Interfaces.{Error, Result, ok, err, ResolvedTarget}
use flink_chaos_operator.Scenarios.Policy.{NetworkPolicy}
use flink_chaos_operator.Scenarios.Partition.{
  Created, Deleted, Progress, Peers, base_spec, injected_with, create_policies, entries,
  inject_peers, inject_network, inject_as, inject, resolve_partition_peers, forget_policies,
  delete_listed, delete_all, cleanup,
}

injected_with-phase :
    (run : ChaosRun) (target : ResolvedTarget) (p : Progress) (stopped : Option Error)
    → (injected_with run target p stopped).run.status.phase ≡ run.status.phase
injected_with-phase run target p none = refl
injected_with-phase run target p (some e) = refl

module _ (create : ℕ → NetworkPolicy → Created) (n : ℕ) (run : ChaosRun)
    (target : ResolvedTarget) where
  peers-phase :
      (net : NetworkChaosSpec) (peers : Result Peers)
      → (inject_peers create n run target net peers).run.status.phase ≡ run.status.phase
  peers-phase net (err e) = refl
  peers-phase net (ok peers) =
      let p = create_policies create n (base_spec run net peers) (entries net.direction run.name) in
      injected_with-phase run target p p.stopped

  network-phase :
      (network : Option NetworkChaosSpec)
      → (inject_network create n run target network).run.status.phase ≡ run.status.phase
  network-phase none = refl
  network-phase (some net) = peers-phase net (resolve_partition_peers net)

  pub inject-phase : (inject create n run target).run.status.phase ≡ run.status.phase
  unfolding inject
  inject-phase = by run.spec.scenario.scenario_type
    where
      by :
          (t : ScenarioType) → (inject_as create t n run target).run.status.phase ≡ run.status.phase
      by ScenarioType.network_partition = network-phase run.spec.scenario.network
      by _ = refl

module _ (list : ℕ → String → String × String → Result (List NetworkPolicy))
    (delete : ℕ → NetworkPolicy → Deleted) (n : ℕ) (run : ChaosRun) where
  forgotten-phase :
      (stopped : Option Error)
      → (forget_policies list delete run stopped).0.status.phase ≡ run.status.phase
  forgotten-phase none = refl
  forgotten-phase (some e) = refl

  pub cleanup-phase : (cleanup list delete n run).0.status.phase ≡ run.status.phase
  unfolding cleanup
  cleanup-phase = by (list n run.namespace ("chaos.flink.io/run-name", run.name))
    where
      by :
          (answer : Result (List NetworkPolicy))
          → (delete_listed list delete n run answer).0.status.phase ≡ run.status.phase
      by (err e) = refl
      by (ok nps) = forgotten-phase (delete_all list delete (n + 1) nps)

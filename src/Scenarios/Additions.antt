-- ===== src/Scenarios/Additions.antt =====
-- What a NetworkChaos injection records (Inject of internal/scenario/networkchaos/driver.go).
use flink_chaos_operator.Prelude.{
  ℕ, ◌+◌, String, ◌≡◌, refl, sym, subst, Bool, true, false, Option, none, some, List, [], ◌∷◌,
  if◌then◌else◌,
}
use flink_chaos_operator.Api.Types.{Time, NetworkChaosSpec, EphemeralContainerRecord, ChaosRun}
use flink_chaos_operator.Interfaces.{Error, ResolvedTarget}
use flink_chaos_operator.Scenarios.Ephemeral.{
  EphemeralContainer, Cluster, PodAnswer, Additions, after_add, after_get, add_containers,
}
use flink_chaos_operator.Scenarios.NetworkChaos.{
  Injected, refuse, is_network_chaos, container, inject_unless_recorded, inject_network, inject,
}

-- The records pair by pair with the containers added to pods; none is cleaned up.
abbrev pub AllRecorded : List (String × EphemeralContainer) → List EphemeralContainerRecord → Type 0
AllRecorded [] [] = Unit
AllRecorded (a ∷ more) (rec ∷ recs) =
    ((rec.pod_name ≡ a.0) × (rec.container_name ≡ a.1.name) × (rec.cleaned_up ≡ false))
    × AllRecorded more recs
AllRecorded _ _ = ⊥

after_add-recorded :
    (cluster : Cluster) (name : String) (c : EphemeralContainer) (at : Time) (get : PodAnswer)
    (answer : Option Error) (rest : Additions)
    → AllRecorded rest.added rest.records
    → let done = after_get cluster name get (after_add cluster name c at answer rest) in
      AllRecorded done.added done.records
after_add-recorded cluster name c at (PodAnswer.pod status) (some e) rest h = tt
after_add-recorded cluster name c at (PodAnswer.pod status) none rest h = ((refl, refl, refl), h)
after_add-recorded cluster name c at PodAnswer.missing answer rest h = tt
after_add-recorded cluster name c at (PodAnswer.get_failed e) answer rest h = tt

module _ (image : String) (cluster : Cluster) where
  add_containers-recorded :
      (make : ℕ → EphemeralContainer) (n index : ℕ) (namespace : String) (names : List String)
      → let done = add_containers cluster make n index namespace names in
        AllRecorded done.added done.records
  unfolding add_containers
  add_containers-recorded make n index namespace [] = tt
  add_containers-recorded make n index namespace (name ∷ names) =
      after_add-recorded cluster name (make index) (cluster.now (n + 2))
        (cluster.get_pod n namespace name)
        (cluster.add_container (n + 1) namespace name (make index)) _
        (add_containers-recorded make (n + 3) (index + 1) namespace names)

  -- What an injection does to the records of a run that had those given.
  abbrev pub RecordsAdditions : List EphemeralContainerRecord → ChaosRun → Injected → Type 0
  RecordsAdditions [] run done =
      AllRecorded done.added done.run.status.ephemeral_container_injections
  RecordsAdditions (rec ∷ recs) run done = (done.added ≡ []) × (done.run ≡ run)

  refused-records :
      (recs : List EphemeralContainerRecord) (run : ChaosRun) (e : Error)
      → run.status.ephemeral_container_injections ≡ recs
      → RecordsAdditions recs run (refuse run e)
  refused-records [] run e same = subst (λ rs. AllRecorded [] rs) (sym same) tt
  refused-records (rec ∷ recs) run e same = (refl, refl)

  unless_recorded-records :
      (recs : List EphemeralContainerRecord) (n : ℕ) (run : ChaosRun) (target : ResolvedTarget)
      (net : NetworkChaosSpec)
      → RecordsAdditions recs run (inject_unless_recorded image cluster recs n run target net)
  unless_recorded-records [] n run target net =
      add_containers-recorded (container image cluster run net) n 0 run.namespace
        target.tm_pod_names
  unless_recorded-records (rec ∷ recs) n run target net = (refl, refl)

  network-records :
      (n : ℕ) (run : ChaosRun) (target : ResolvedTarget) (network : Option NetworkChaosSpec)
      → RecordsAdditions run.status.ephemeral_container_injections run
          (inject_network image cluster n run target network)
  network-records n run target none =
      refused-records run.status.ephemeral_container_injections run _ refl
  network-records n run target (some net) =
      unless_recorded-records run.status.ephemeral_container_injections n run target net

  -- An injection of the NetworkChaos driver into a run with none on record records just the
  -- containers that it has added to pods, in their order, even where an error has stopped it. A
  -- run with an injection on record is left as it is, and nothing is added.
  pub inject-RecordsAdditions :
      (n : ℕ) (run : ChaosRun) (target : ResolvedTarget)
      → RecordsAdditions run.status.ephemeral_container_injections run
          (inject image cluster n run target)
  unfolding inject
  inject-RecordsAdditions n run target = by (is_network_chaos run.spec.scenario.scenario_type)
    where
      by :
          (right : Bool)
          → RecordsAdditions run.status.ephemeral_container_injections run (
              if right
              then inject_network image cluster n run target run.spec.scenario.network
              else refuse run "driver supports \"NetworkChaos\" scenario only")
      by true = network-records n run target run.spec.scenario.network
      by false = refused-records run.status.ephemeral_container_injections run _ refl

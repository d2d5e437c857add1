-- ===== src/Scenarios/Partitions.antt =====
-- What the NetworkPartition driver creates, records and deletes
-- (internal/scenario/networkpartition/driver.go).
use flink_chaos_operator.Prelude.{
  ℕ, ◌+◌, String, ◌≡◌, refl, ap, sym, subst, ◌∙◌, ◌⊎◌, inl, inr, Option, none, some, List, [], ◌∷◌,
  ◌++◌, map, arith, All, lookup,
}
use flink_chaos_operator.Api.Types.{ScenarioType, NetworkChaosSpec, ChaosRun}
use flink_chaos_operator.Interfaces.{
  Error, Result, ok, err, ResolvedTarget, Injection, injected, refused, partly,
}
use flink_chaos_operator.Scenarios.Policy.{Spec, NetworkPolicy, build}
use flink_chaos_operator.Scenarios.Partition.{
  Entry, Created, Progress, Peers, after_create, policy_of, base_spec, Injected, injected_with,
  create_policies, inject_peers, inject_network, inject_as, resolve_partition_peers, entries,
  inject, Deleted, after_delete, delete_all, forget_policies, delete_listed, cleanup,
}

-- A policy in the run's namespace, with the label by which the cleanup asks for it.
abbrev pub IsOwned : ChaosRun → NetworkPolicy → Type 0
IsOwned run np =
    (np.namespace ≡ run.namespace) × (lookup "chaos.flink.io/run-name" np.labels ≡ some run.name)

build-IsOwned :
    (s : Spec)
    → ((build s).namespace ≡ s.namespace)
      × (lookup "chaos.flink.io/run-name" (build s).labels ≡ some s.chaos_run_name)
unfolding build lookup
build-IsOwned s = (ground arith, ground arith)

after_create-IsOwned :
    (run : ChaosRun) (e : Entry) (np : NetworkPolicy) (answer : Created) (rest : Progress)
    → IsOwned run np
    → All (IsOwned run) rest.calls
    → All (IsOwned run) (after_create e np answer rest).calls
after_create-IsOwned run e np (Created.create_failed x) rest owned h = (owned, tt)
after_create-IsOwned run e np _ rest owned h = (owned, h)

module _ (create : ℕ → NetworkPolicy → Created) where
  create-IsOwned :
      (n : ℕ) (run : ChaosRun) (base : Spec) (es : List Entry)
      → base.namespace ≡ run.namespace
      → base.chaos_run_name ≡ run.name
      → All (IsOwned run) (create_policies create n base es).calls
  unfolding create_policies
  create-IsOwned n run base [] ns name = tt
  create-IsOwned n run base (e ∷ es) ns name =
      let (built_ns, built_label) =
        build-IsOwned (record base { name = e.name; direction = e.direction }) in
      after_create-IsOwned run e (policy_of base e) (create n (policy_of base e)) _
        (built_ns ∙ ns, built_label ∙ ap some name) (create-IsOwned (n + 1) run base es ns name)

  injected_with-calls :
      (run : ChaosRun) (target : ResolvedTarget) (p : Progress) (stopped : Option Error)
      → (injected_with run target p stopped).calls ≡ p.calls
  injected_with-calls run target p none = refl
  injected_with-calls run target p (some e) = refl

  peers-IsOwned :
      (n : ℕ) (run : ChaosRun) (target : ResolvedTarget) (net : NetworkChaosSpec)
      (peers : Result Peers)
      → All (IsOwned run) (inject_peers create n run target net peers).calls
  unfolding base_spec
  peers-IsOwned n run target net (err e) = tt
  peers-IsOwned n run target net (ok peers) =
      let p = create_policies create n (base_spec run net peers) (entries net.direction run.name) in
      subst (λ calls. All (IsOwned run) calls) (sym (injected_with-calls run target p p.stopped))
        (create-IsOwned n run (base_spec run net peers) (entries net.direction run.name) refl refl)

  network-IsOwned :
      (n : ℕ) (run : ChaosRun) (target : ResolvedTarget) (network : Option NetworkChaosSpec)
      → All (IsOwned run) (inject_network create n run target network).calls
  network-IsOwned n run target none = tt
  network-IsOwned n run target (some net) =
      peers-IsOwned n run target net (resolve_partition_peers net)

  -- Every policy that the driver asks the API server to create, whatever the answers, is in the
  -- run's namespace and carries the run's name in the label by which the cleanup lists policies.
  pub inject-IsOwned :
      (n : ℕ) (run : ChaosRun) (target : ResolvedTarget)
      → All (IsOwned run) (inject create n run target).calls
  unfolding inject
  inject-IsOwned n run target = by run.spec.scenario.scenario_type
    where
      by : (t : ScenarioType) → All (IsOwned run) (inject_as create t n run target).calls
      by ScenarioType.network_partition = network-IsOwned n run target run.spec.scenario.network
      by _ = tt

  -- By the answer of an injection: all policies are recorded, or the run is as it was.
  abbrev pub IsRecordedAs : Injection → ChaosRun → ChaosRun → List NetworkPolicy → Type 0
  IsRecordedAs (injected r) run run' calls =
      run'.status.network_policies ≡ run.status.network_policies ++ map (λ np. np.name) calls
  IsRecordedAs (refused e) run run' calls = run' ≡ run
  IsRecordedAs (partly r e) run run' calls = ⊥

  abbrev pub IsRecorded : ChaosRun → Injected → Type 0
  IsRecorded run done = IsRecordedAs done.injection run done.run done.calls

  build-name : (s : Spec) → (build s).name ≡ s.name
  unfolding build
  build-name s = ground arith

  create-names :
      (n : ℕ) (base : Spec) (es : List Entry)
      → (create_policies create n base es).stopped ≡ none
      → (create_policies create n base es).names_created
        ≡ map (λ np. np.name) (create_policies create n base es).calls
  unfolding create_policies
  create-names n base [] e = refl
  create-names n base (x ∷ es) e = by (create n (policy_of base x)) e (create-names (n + 1) base es)
    where
      by :
          (answer : Created)
          → (after_create x
              (policy_of base x)
              answer
              (create_policies create (n + 1) base es)).stopped
            ≡ none
          → ((create_policies create (n + 1) base es).stopped ≡ none
              → (create_policies create (n + 1) base es).names_created
                ≡ map (λ np. np.name) (create_policies create (n + 1) base es).calls)
          → let p =
              after_create x (policy_of base x) answer (create_policies create (n + 1) base es) in
            p.names_created ≡ map (λ np. np.name) p.calls
      by (Created.create_failed y) e k = absurd (ground arith)
      by _ e k =
          let named = build-name (record base { name = x.name; direction = x.direction }) in
          cc (named, k e)

  with-IsRecorded :
      (run : ChaosRun) (target : ResolvedTarget) (p : Progress) (stopped : Option Error)
      → (stopped ≡ none → p.names_created ≡ map (λ np. np.name) p.calls)
      → IsRecorded run (injected_with run target p stopped)
  with-IsRecorded run target p none h = ap (λ names. run.status.network_policies ++ names) (h refl)
  with-IsRecorded run target p (some x) h = refl

  peers-IsRecorded :
      (n : ℕ) (run : ChaosRun) (target : ResolvedTarget) (net : NetworkChaosSpec)
      (peers : Result Peers)
      → IsRecorded run (inject_peers create n run target net peers)
  peers-IsRecorded n run target net (err e) = refl
  peers-IsRecorded n run target net (ok peers) =
      let p = create_policies create n (base_spec run net peers) (entries net.direction run.name) in
      with-IsRecorded run target p p.stopped
        (create-names n (base_spec run net peers) (entries net.direction run.name))

  network-IsRecorded :
      (n : ℕ) (run : ChaosRun) (target : ResolvedTarget) (network : Option NetworkChaosSpec)
      → IsRecorded run (inject_network create n run target network)
  network-IsRecorded n run target none = refl
  network-IsRecorded n run target (some net) =
      peers-IsRecorded n run target net (resolve_partition_peers net)

  -- An injection that succeeds appends to the run's record the names of exactly the policies that
  -- it has asked for. One that fails leaves the run as it was, even where a policy has been
  -- created before the failure.
  pub inject-IsRecorded :
      (n : ℕ) (run : ChaosRun) (target : ResolvedTarget)
      → IsRecorded run (inject create n run target)
  unfolding inject
  inject-IsRecorded n run target = by run.spec.scenario.scenario_type
    where
      by : (t : ScenarioType) → IsRecorded run (inject_as create t n run target)
      by ScenarioType.network_partition = network-IsRecorded n run target run.spec.scenario.network
      by _ = refl

module _ (list : ℕ → String → String × String → Result (List NetworkPolicy))
    (delete : ℕ → NetworkPolicy → Deleted) where
  -- The API server has deleted the policy, or does not know it.
  abbrev pub IsGone : NetworkPolicy → Type 0
  IsGone np = (n : ℕ) × ((delete n np ≡ Deleted.deleted) ⊎ (delete n np ≡ Deleted.not_found))

  delete_all-IsGone :
      (n : ℕ) (nps : List NetworkPolicy) → delete_all list delete n nps ≡ none → All IsGone nps
  unfolding delete_all
  delete_all-IsGone n [] e = tt
  delete_all-IsGone n (np ∷ nps) e = by (delete n np) refl e (delete_all-IsGone (n + 1) nps)
    where
      by :
          (answer : Deleted)
          → delete n np ≡ answer
          → after_delete list delete np answer (delete_all list delete (n + 1) nps) ≡ none
          → (delete_all list delete (n + 1) nps ≡ none → All IsGone nps)
          → All IsGone (np ∷ nps)
      by Deleted.deleted g e k = ((n, inl g), k e)
      by Deleted.not_found g e k = ((n, inr g), k e)
      by (Deleted.delete_failed x) g e k = absurd (ground arith)

  -- A cleanup without an error: the policies listed are gone, and none is left on record.
  abbrev pub IsCleaned : ℕ → ChaosRun → ChaosRun → Type 0
  IsCleaned n run run' =
      (run'.status.network_policies ≡ [])
      × (nps : List NetworkPolicy) × (list n run.namespace ("chaos.flink.io/run-name", run.name)
          ≡ ok nps)
      × All IsGone nps

  -- By the answer of a cleanup: all is cleaned, or the run is as it was.
  abbrev pub CleansOrKeeps : ℕ → ChaosRun → ChaosRun × Option Error → Type 0
  CleansOrKeeps n run (run', none) = IsCleaned n run run'
  CleansOrKeeps n run (run', some x) = run' ≡ run

  forgotten :
      (n : ℕ) (run : ChaosRun) (nps : List NetworkPolicy) (stopped : Option Error)
      → list n run.namespace ("chaos.flink.io/run-name", run.name) ≡ ok nps
      → (stopped ≡ none → All IsGone nps)
      → CleansOrKeeps n run (forget_policies list delete run stopped)
  forgotten n run nps none g h = (refl, nps, g, h refl)
  forgotten n run nps (some y) g h = refl

  -- A cleanup without an error has seen every policy that the API server lists for the run deleted
  -- or gone, and leaves no policy on the run's record. A cleanup with an error leaves the run as
  -- it is, so that it is tried again.
  pub cleanup-CleansOrKeeps :
      (n : ℕ) (run : ChaosRun) → CleansOrKeeps n run (cleanup list delete n run)
  unfolding cleanup
  cleanup-CleansOrKeeps n run = by (list n run.namespace ("chaos.flink.io/run-name", run.name)) refl
    where
      by :
          (answer : Result (List NetworkPolicy))
          → list n run.namespace ("chaos.flink.io/run-name", run.name) ≡ answer
          → CleansOrKeeps n run (delete_listed list delete n run answer)
      by (err y) g = refl
      by (ok nps) g =
          forgotten n run nps (delete_all list delete (n + 1) nps) g (delete_all-IsGone (n + 1) nps)

-- ===== src/Scenarios/NetworkChaos.antt =====
-- The NetworkChaos driver (internal/scenario/networkchaos/driver.go).
use flink_chaos_operator.Prelude.{
  ℕ, ℤ, pos, String, Bool, true, false, Option, none, some, List, [], ◌∷◌, map, if◌then◌else◌,
  ltb_ℤ,
}
use flink_chaos_operator.Api.Types.{
  ScenarioType, Duration, ExternalTarget, NetworkChaosSpec, EphemeralContainerRecord, ChaosRun,
}
use flink_chaos_operator.Interfaces.{
  Error, ResolvedTarget, Injection, injected, refused, partly, ScenarioDriver,
}
use flink_chaos_operator.Scenarios.Ephemeral.{
  container_name, TcRule, Command, EphemeralContainer, Cluster, add_containers, clean_records,
}

abbrev pub or_zero : Option ℤ → ℤ
or_zero none = pos 0
or_zero (some x) = x

abbrev pub cidr_of : Option ExternalTarget → String
cidr_of none = ""
cidr_of (some e) = e.cidr

-- `buildRule`
unfoldable pub build_rule : NetworkChaosSpec → TcRule
build_rule n = record {
  interface = "eth0";
  latency = or_zero n.latency;
  jitter = or_zero n.jitter;
  loss_pct = or_zero n.loss;
  bandwidth = n.bandwidth;
  peer_cidr = cidr_of n.external_endpoint;
}

abbrev pub positive_or_default : Option Duration → Duration
positive_or_default none = pos 60000000000
positive_or_default (some d) = if ltb_ℤ (pos 0) d then d else pos 60000000000

-- `resolveDuration`: a minute where no positive duration is given.
unfoldable pub resolve_duration : Option NetworkChaosSpec → Duration
resolve_duration none = pos 60000000000
resolve_duration (some n) = positive_or_default n.duration

abbrev pub is_network_chaos : ScenarioType → Bool
is_network_chaos ScenarioType.network_chaos = true
is_network_chaos _ = false

-- What an injection leaves: the run, the answer, and the containers added to pods.
pub record Injected : Type 0 where
  pub run : ChaosRun
  pub injection : Injection
  pub added : List (String × EphemeralContainer)

abbrev pub refuse : ChaosRun → Error → Injected
refuse run e = record { run = run; injection = refused e; added = [] }

abbrev pub pods_of : List EphemeralContainerRecord → List String
pods_of = map (λ rec. rec.pod_name)

abbrev pub set_records : ChaosRun → List EphemeralContainerRecord → ChaosRun
set_records run recs = record run {
  status = record (run.status) { ephemeral_container_injections = recs };
}

abbrev pub answer_of : List String → List EphemeralContainerRecord → Option Error → Injection
answer_of selected recs none =
    injected (record { selected_pods = selected; injected_pods = pods_of recs })
answer_of selected recs (some e) =
    partly (record { selected_pods = selected; injected_pods = pods_of recs }) e

module _ (image : String) (cluster : Cluster) where
  abbrev pub container : ChaosRun → NetworkChaosSpec → ℕ → EphemeralContainer
  container run n index = record {
    name = container_name "fchaos-tc-" run.name index;
    image = image;
    command = Command.tc_script (build_rule n) (resolve_duration (some n));
  }

  -- An injection on record is not made again.
  abbrev pub inject_unless_recorded :
      List EphemeralContainerRecord → ℕ → ChaosRun → ResolvedTarget → NetworkChaosSpec → Injected
  inject_unless_recorded [] n run target net =
      let done = add_containers cluster (container run net) n 0 run.namespace target.tm_pod_names in
      record {
        run = set_records run done.records;
        injection = answer_of target.tm_pod_names done.records done.stopped;
        added = done.added;
      }
  inject_unless_recorded (rec ∷ recs) n run target net = record {
    run = run;
    injection =
        injected
          (record { selected_pods = target.tm_pod_names; injected_pods = pods_of (rec ∷ recs) });
    added = [];
  }

  abbrev pub inject_network : ℕ → ChaosRun → ResolvedTarget → Option NetworkChaosSpec → Injected
  inject_network n run target none =
      refuse run "network spec is required for \"NetworkChaos\" scenario"
  inject_network n run target (some net) =
      inject_unless_recorded run.status.ephemeral_container_injections n run target net

  -- `Inject`
  unfoldable pub inject : ℕ → ChaosRun → ResolvedTarget → Injected
  unfolding add_containers
  inject n run target =
      if is_network_chaos run.spec.scenario.scenario_type
      then inject_network n run target run.spec.scenario.network
      else refuse run "driver supports \"NetworkChaos\" scenario only"

  -- `Cleanup`
  unfoldable pub cleanup : ℕ → ChaosRun → ChaosRun × Option Error
  unfolding clean_records resolve_duration
  cleanup n run =
      let (recs, e) =
        clean_records cluster (resolve_duration run.spec.scenario.network) n run.namespace
          run.status.ephemeral_container_injections in
      (set_records run recs, e)

  -- The driver as the controller takes it.
  unfoldable pub network_chaos_driver : ScenarioDriver
  network_chaos_driver = record {
    inject = λ n run target. let done = inject n run target in (done.run, done.injection);
    cleanup = some cleanup;
  }

-- ===== src/Scenarios/ResourceExhaustion.antt =====
-- The ResourceExhaustion driver (internal/scenario/resourceexhaustion/driver.go).
use flink_chaos_operator.Prelude.{
  ℕ, pos, String, Bool, true, false, Option, none, some, List, [], ◌∷◌, if◌then◌else◌,
}
use flink_chaos_operator.Api.Types.{
  ScenarioType, Duration, ResourceExhaustionSpec, EphemeralContainerRecord, ChaosRun,
}
use flink_chaos_operator.Interfaces.{Error, ResolvedTarget, injected, ScenarioDriver}
use flink_chaos_operator.Scenarios.Ephemeral.{
  container_name, Command, EphemeralContainer, Cluster, add_containers, clean_records,
}
use flink_chaos_operator.Scenarios.NetworkChaos.{
  Injected, refuse, pods_of, answer_of, positive_or_default,
}

-- `resolveDuration` of this driver, which is that of the other over another specification.
unfoldable pub resolve_stress_duration : Option ResourceExhaustionSpec → Duration
resolve_stress_duration none = pos 60000000000
resolve_stress_duration (some re) = positive_or_default re.duration

abbrev pub is_exhaustion : ScenarioType → Bool
is_exhaustion ScenarioType.resource_exhaustion = true
is_exhaustion _ = false

abbrev pub set_stress_records : ChaosRun → List EphemeralContainerRecord → ChaosRun
set_stress_records run recs = record run {
  status = record (run.status) { resource_exhaustion_injections = recs };
}

-- The selected pods, or all of the target's.
abbrev pub stressed_pods : List String → ResolvedTarget → List String
stressed_pods [] target = target.tm_pod_names
stressed_pods (p ∷ ps) target = p ∷ ps

module _ (image : String) (cluster : Cluster) where
  abbrev pub stress_container : ChaosRun → ResourceExhaustionSpec → ℕ → EphemeralContainer
  stress_container run re index = record {
    name = container_name "fchaos-stress-" run.name index;
    image = image;
    command = Command.stress_args re;
  }

  abbrev pub stress_unless_recorded :
      List EphemeralContainerRecord
      → ℕ
      → ChaosRun
      → ResolvedTarget
      → ResourceExhaustionSpec
      → Injected
  stress_unless_recorded [] n run target re =
      let pods = stressed_pods run.status.selected_pods target in
      let done = add_containers cluster (stress_container run re) n 0 run.namespace pods in
      record {
        run = set_stress_records run done.records;
        injection = answer_of pods done.records done.stopped;
        added = done.added;
      }
  stress_unless_recorded (rec ∷ recs) n run target re = record {
    run = run;
    injection =
        injected (record {
          selected_pods = run.status.selected_pods;
          injected_pods = pods_of (rec ∷ recs);
        });
    added = [];
  }

  abbrev pub inject_exhaustion :
      ℕ → ChaosRun → ResolvedTarget → Option ResourceExhaustionSpec → Injected
  inject_exhaustion n run target none =
      refuse run "resourceExhaustion spec is required for \"ResourceExhaustion\" scenario"
  inject_exhaustion n run target (some re) =
      stress_unless_recorded run.status.resource_exhaustion_injections n run target re

  -- `Inject`
  unfoldable pub inject : ℕ → ChaosRun → ResolvedTarget → Injected
  unfolding add_containers
  inject n run target =
      if is_exhaustion run.spec.scenario.scenario_type
      then inject_exhaustion n run target run.spec.scenario.resource_exhaustion
      else refuse run "driver supports \"ResourceExhaustion\" scenario only"

  -- `Cleanup`
  unfoldable pub cleanup : ℕ → ChaosRun → ChaosRun × Option Error
  unfolding clean_records resolve_stress_duration
  cleanup n run =
      let (recs, e) =
        clean_records cluster (resolve_stress_duration run.spec.scenario.resource_exhaustion) n
          run.namespace run.status.resource_exhaustion_injections in
      (set_stress_records run recs, e)

  -- The driver as the controller takes it.
  unfoldable pub resource_exhaustion_driver : ScenarioDriver
  resource_exhaustion_driver = record {
    inject = λ n run target. let done = inject n run target in (done.run, done.injection);
    cleanup = some cleanup;
  }

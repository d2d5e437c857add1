-- ===== src/Tests/Injections.antt =====
-- The drivers that add ephemeral containers, at concrete runs.
use flink_chaos_operator.Prelude.{
  ℕ, ◌*◌, ◌-◌, ◌+◌, ◌≤◌, pos, ◌≡◌, refl, true, false, none, some, List, [], ◌∷◌, ◌&◌, All, ◌-ℤ◌,
  -ℤ_parts, ◌≤ℤ◌, decimal, arith,
}
use flink_chaos_operator.Api.Types.{
  Duration, RunPhase, ScenarioType, EphemeralContainerRecord, ScenarioSpec, ChaosRun,
}
use flink_chaos_operator.Scenarios.Ephemeral.{
  Cluster, PodAnswer, clean_records, text_length, cut, container_name,
}
use flink_chaos_operator.Scenarios.NetworkChaos.{resolve_duration, inject, cleanup}
use flink_chaos_operator.Scenarios.ResourceExhaustion.{cleanup as cleanup_stress}
use flink_chaos_operator.Scenarios.Lasting.{ChaosLasts, StressLasts, resolve_duration_iff}
use flink_chaos_operator.Scenarios.Injections.{
  AllCleanedFrom, cleanup-AllCleanedFrom, cleanup_marks,
}
use flink_chaos_operator.Scenarios.Additions.{RecordsAdditions, inject-RecordsAdditions}
use flink_chaos_operator.Scenarios.Names.{suffix_of, container_name_lem}
use flink_chaos_operator.Scenarios.Stresses.{cleanup_stress-AllCleanedFrom, cleanup_stress_marks}
use flink_chaos_operator.Tests.Data.{
  target_three, partition_network, partition_scenario, run_of, status_in,
}

-- The pods answer with one container that runs.
abbrev cluster : Cluster
cluster = record {
  get_pod = λ n namespace name. PodAnswer.pod (("fchaos-tc-chaos-1-0", false) ∷ []);
  add_container = λ n namespace name container. none;
  now = λ n. pos (n * 1000000000);
}

abbrev chaos_scenario : ScenarioSpec
chaos_scenario = record partition_scenario {
  scenario_type = ScenarioType.network_chaos;
  network = some (record partition_network { latency = some (pos 100000000) });
}

abbrev chaos_run : ChaosRun
chaos_run = run_of chaos_scenario (status_in RunPhase.injecting)

abbrev first_record : EphemeralContainerRecord
first_record = record {
  pod_name = "tm-1";
  container_name = "fchaos-tc-chaos-1-0";
  injected_at = some (pos 0);
  cleaned_up = false;
}

abbrev injected_run : ChaosRun
injected_run = record chaos_run {
  status = record (chaos_run.status) {
    ephemeral_container_injections = first_record ∷ [];
    resource_exhaustion_injections = first_record ∷ [];
  };
}

-- A cluster without the pod.
abbrev empty_cluster : Cluster
empty_cluster = record cluster {
  get_pod = λ n namespace name. PodAnswer.missing;
  now = λ n. pos (n * 1000000000 + 60000000000);
}

late_for : (n : ℕ) → pos 60000000000 ≤ℤ empty_cluster.now n -ℤ pos 0
late_for n = let parts = -ℤ_parts (empty_cluster.now n) (pos 0) in omega (arith, parts)

cleanup-AllCleanedFrom_example :
    (duration : Duration) × ChaosLasts injected_run.spec.scenario.network duration
    × (recs : List EphemeralContainerRecord) × ((cleanup "tc" cluster 60 injected_run).0
        ≡ record injected_run {
          status = record (injected_run.status) { ephemeral_container_injections = recs };
        })
    × AllCleanedFrom cluster duration "jobs" (first_record ∷ []) recs
cleanup-AllCleanedFrom_example = cleanup-AllCleanedFrom cluster "tc" 60 injected_run

a_minute_of_chaos : ChaosLasts injected_run.spec.scenario.network (pos 60000000000)
unfolding resolve_duration
a_minute_of_chaos =
    (resolve_duration_iff injected_run.spec.scenario.network (pos 60000000000)).0 refl

cleanup_marks_example :
    All
      (λ r. r.cleaned_up ≡ true)
      (cleanup "tc" empty_cluster 0 injected_run).0.status.ephemeral_container_injections
unfolding cleanup clean_records
cleanup_marks_example =
    cleanup_marks empty_cluster "tc" 0 injected_run (pos 60000000000) a_minute_of_chaos
      ((pos 0, refl, late_for), tt) refl

cleanup_stress-AllCleanedFrom_example :
    (duration : Duration) × StressLasts injected_run.spec.scenario.resource_exhaustion duration
    × (recs : List EphemeralContainerRecord) × ((cleanup_stress "stress" cluster 60 injected_run).0
        ≡ record injected_run {
          status = record (injected_run.status) { resource_exhaustion_injections = recs };
        })
    × AllCleanedFrom cluster duration "jobs" (first_record ∷ []) recs
cleanup_stress-AllCleanedFrom_example =
    cleanup_stress-AllCleanedFrom "stress" cluster 60 injected_run

cleanup_stress_marks_example :
    All
      (λ r. r.cleaned_up ≡ true)
      (cleanup_stress "stress" empty_cluster 0 injected_run).0.status.resource_exhaustion_injections
unfolding cleanup_stress clean_records
cleanup_stress_marks_example =
    cleanup_stress_marks "stress" empty_cluster 0 injected_run (pos 60000000000) refl
      ((pos 0, refl, late_for), tt) refl

inject-RecordsAdditions_example :
    RecordsAdditions "tc" cluster [] chaos_run (inject "tc" cluster 0 chaos_run target_three)
inject-RecordsAdditions_example = inject-RecordsAdditions "tc" cluster 0 chaos_run target_three

room_left : text_length "fchaos-tc-" + text_length (suffix_of 12) ≤ 63
unfolding text_length decimal
room_left = omega arith

container_name_lem_example :
    (text_length (container_name "fchaos-tc-" "chaos-1" 12) ≤ 63)
    × (container_name "fchaos-tc-" "chaos-1" 12
        ≡ "fchaos-tc-"
          & cut (63 - text_length "fchaos-tc-" - text_length (suffix_of 12)) (cut 20 "chaos-1")
          & suffix_of 12)
container_name_lem_example = container_name_lem "fchaos-tc-" "chaos-1" 12 room_left

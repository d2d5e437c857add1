-- ===== src/Scenarios/Stresses.antt =====
-- What the ResourceExhaustion driver cleans up
-- (internal/scenario/resourceexhaustion/driver.go).
use flink_chaos_operator.Prelude.{ℕ, String, ◌≡◌, refl, sym, subst, true, none, List, All}
use flink_chaos_operator.Api.Types.{Duration, EphemeralContainerRecord, ChaosRun}
use flink_chaos_operator.Scenarios.Ephemeral.{Cluster}
use flink_chaos_operator.Scenarios.Lasting.{StressLasts, resolve_stress_duration_iff}
use flink_chaos_operator.Scenarios.ResourceExhaustion.{resolve_stress_duration, cleanup}
use flink_chaos_operator.Scenarios.Injections.{
  AllCleanedFrom, AllLate, clean_records-cleaned, clean_records-marked,
}

-- A cleanup of the ResourceExhaustion driver changes nothing of the run but its records of stress
-- containers, and no record but to mark it as cleaned up; it marks one only if its pod is gone, its
-- container has terminated, or the duration of the stress has passed since the injection.
pub cleanup_stress-AllCleanedFrom :
    (image : String) (cluster : Cluster) (n : ℕ) (run : ChaosRun)
    → (duration : Duration) × StressLasts run.spec.scenario.resource_exhaustion duration
      × (recs : List EphemeralContainerRecord) × ((cleanup image cluster n run).0
          ≡ record run { status = record (run.status) { resource_exhaustion_injections = recs } })
      × AllCleanedFrom cluster duration run.namespace run.status.resource_exhaustion_injections recs
unfolding cleanup
cleanup_stress-AllCleanedFrom image cluster n run = (
  _,
  (resolve_stress_duration_iff run.spec.scenario.resource_exhaustion _).0 refl,
  _,
  refl,
  clean_records-cleaned cluster (resolve_stress_duration run.spec.scenario.resource_exhaustion) n
      run.namespace run.status.resource_exhaustion_injections,
)

-- If the duration of the stress has passed for every record at each reading of the clock, a
-- cleanup of the ResourceExhaustion driver that ends without an error leaves every record marked.
pub cleanup_stress_marks :
    (image : String) (cluster : Cluster) (n : ℕ) (run : ChaosRun) (duration : Duration)
    → StressLasts run.spec.scenario.resource_exhaustion duration
    → AllLate cluster duration run.status.resource_exhaustion_injections
    → (cleanup image cluster n run).1 ≡ none
    → All
        (λ r. r.cleaned_up ≡ true)
        (cleanup image cluster n run).0.status.resource_exhaustion_injections
unfolding cleanup
cleanup_stress_marks image cluster n run duration lasts late e =
    clean_records-marked cluster (resolve_stress_duration run.spec.scenario.resource_exhaustion) n
      run.namespace run.status.resource_exhaustion_injections
      (subst (λ d. AllLate cluster d run.status.resource_exhaustion_injections)
        (sym ((resolve_stress_duration_iff run.spec.scenario.resource_exhaustion duration).1 lasts))
        late)
      e

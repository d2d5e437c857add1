-- ===== src/Tests/Drivers.antt =====
-- The safety checks, the drivers and the observers at concrete runs.
use flink_chaos_operator.Prelude.{
  ℕ, pos, ◌+ℤ◌, ◌-ℤ◌, to_int32, ◌≤ℤ◌, String, ◌≡◌, refl, ◌↔◌, ◌⊎◌, Bool, true, false, none, some,
  [], ◌∷◌, map, arith, All, member, eq_ℤ,
}
use flink_chaos_operator.Api.Types.{RunPhase, ChaosRun}
use flink_chaos_operator.Interfaces.{ok, InjectionResult, injected, ObservationResult}
use flink_chaos_operator.Safety.Checker.{check}
use flink_chaos_operator.Safety.Permits.{IsPermitted, check-IsPermitted}
use flink_chaos_operator.Scenarios.PodKill.{
  deletion_of, select_pods, select_as, delete_pods, random_select, inject as inject_kill,
}
use flink_chaos_operator.Scenarios.Spares.{
  inject-IsTargeted, inject-injected, random_kill_leaves_enough,
}
use flink_chaos_operator.Scenarios.Targeted.{IsShuffle, members_of_self, IsTargeted}
use flink_chaos_operator.Scenarios.Policy.{build}
use flink_chaos_operator.Scenarios.Denies.{allows_egress, build_cidr-denies}
use flink_chaos_operator.Scenarios.Partition.{inject, cleanup}
use flink_chaos_operator.Scenarios.Partitions.{
  IsOwned, inject-IsOwned, IsRecorded, inject-IsRecorded, CleansOrKeeps, cleanup-CleansOrKeeps,
}
use flink_chaos_operator.Observers.Kubernetes.{replacements_seen, observe as observe_pods}
use flink_chaos_operator.Observers.FlinkRest.{observe as observe_rest}
use flink_chaos_operator.Observers.Composite.{observe as observe_all}
use flink_chaos_operator.Observers.Recovery.{SaysReady, observe_all-ready}
use flink_chaos_operator.Observers.Replaced.{
  HasRecovered, replacements_seen_iff, observe_pods-ready,
}
use flink_chaos_operator.Tests.Data.{target_three, kill_run, partition_run, storage_spec}
use flink_chaos_operator.Tests.Answers.{
  keep_order, delete_pod, create_policy, list_policies, delete_policy, get_pod, flink_client,
  observers,
}

abbrev kill : ChaosRun
kill = kill_run RunPhase.injecting

abbrev partition : ChaosRun
partition = partition_run RunPhase.injecting

abbrev two_killed : InjectionResult
two_killed = record { selected_pods = "tm-1" ∷ "tm-2" ∷ []; injected_pods = "tm-1" ∷ "tm-2" ∷ [] }

kill_passes : check (ok []) kill target_three ≡ none
unfolding check to_int32 ◌-ℤ◌
kill_passes = refl

kill_succeeds :
    (inject_kill keep_order delete_pod 0 kill (some target_three)).0 ≡ injected two_killed
unfolding inject_kill select_as delete_pods random_select
kill_succeeds = refl

keep_order-IsShuffle : (n : ℕ) → IsShuffle (keep_order n)
keep_order-IsShuffle n = record { same_length = λ pods. refl; no_new = members_of_self }

check-IsPermitted_example :
    (check (ok []) kill target_three ≡ none) ↔ IsPermitted (ok []) kill target_three
check-IsPermitted_example = check-IsPermitted kill target_three (ok [])

random_kill_leaves_enough_example : pos 1 +ℤ pos 2 ≤ℤ pos 3
random_kill_leaves_enough_example =
    random_kill_leaves_enough keep_order delete_pod keep_order-IsShuffle (ok []) 0 kill target_three
      2 two_killed refl refl refl (omega arith) (omega arith) (omega arith) kill_passes
      kill_succeeds

inject-IsTargeted_example :
    All
      (IsTargeted kill target_three)
      (inject_kill keep_order delete_pod 0 kill (some target_three)).1
inject-IsTargeted_example =
    inject-IsTargeted keep_order delete_pod keep_order-IsShuffle 0 kill target_three

inject-injected_example :
    (select_pods (keep_order 0) kill target_three ≡ ok two_killed.selected_pods)
    × (two_killed.injected_pods ≡ two_killed.selected_pods)
    × ((inject_kill keep_order delete_pod 0 kill (some target_three)).1
        ≡ map (deletion_of kill) two_killed.selected_pods)
inject-injected_example =
    inject-injected keep_order delete_pod keep_order-IsShuffle 0 kill target_three two_killed
      kill_succeeds

-- A block that holds every address.
abbrev everywhere : String → String → Bool
everywhere block addr = true

build_cidr-denies_example :
    (allows_egress everywhere (build storage_spec) "10.0.0.1" (pos 6123) ≡ true) ↔ (
      (everywhere storage_spec.dest_cidr "10.0.0.1" ≡ false)
      × ((eq_ℤ storage_spec.port (pos 0) ≡ true) ⊎ (eq_ℤ storage_spec.port (pos 6123) ≡ true)))
build_cidr-denies_example =
    build_cidr-denies everywhere storage_spec "10.0.0.1" (pos 6123) refl refl refl

inject-IsOwned_example :
    All (IsOwned partition) (inject create_policy 0 partition target_three).calls
inject-IsOwned_example = inject-IsOwned create_policy 0 partition target_three

inject-IsRecorded_example :
    IsRecorded create_policy partition (inject create_policy 0 partition target_three)
inject-IsRecorded_example = inject-IsRecorded create_policy 0 partition target_three

cleanup-CleansOrKeeps_example :
    CleansOrKeeps list_policies delete_policy 0 partition
      (cleanup list_policies delete_policy 0 partition)
cleanup-CleansOrKeeps_example = cleanup-CleansOrKeeps list_policies delete_policy 0 partition

replacements_seen_iff_example :
    (replacements_seen ("tm-1" ∷ []) ("tm-2" ∷ []) ≡ true)
    ↔ All (λ p. member p ("tm-2" ∷ []) ≡ false) ("tm-1" ∷ [])
replacements_seen_iff_example = replacements_seen_iff ("tm-1" ∷ []) ("tm-2" ∷ [])

abbrev all_up : ObservationResult
all_up = record {
  replacement_observed = true;
  all_replacements_ready = true;
  tm_count_before = 3;
  tm_count_after = 3;
  flink_job_state = "";
  checkpoint_status = "";
}

pods_up : observe_pods get_pod 0 kill (some target_three) ≡ ok all_up
unfolding observe_pods
pods_up = refl

observe_pods-ready_example : HasRecovered get_pod kill target_three.tm_pod_names
observe_pods-ready_example = observe_pods-ready get_pod 0 kill target_three all_up pods_up refl

abbrev running_up : ObservationResult
running_up = record all_up { tm_count_before = 0; flink_job_state = "RUNNING" }

flink_up : observe_rest flink_client 0 kill (some target_three) ≡ ok running_up
unfolding observe_rest
flink_up = refl

abbrev merged_up : ObservationResult
merged_up = record all_up { flink_job_state = "RUNNING" }

both_up : observe_all observers 0 kill (some target_three) ≡ ok merged_up
unfolding observe_all observe_pods observe_rest
both_up = refl

observe_all-ready_example : All (SaysReady kill (some target_three)) observers
observe_all-ready_example =
    observe_all-ready kill (some target_three) observers 0 merged_up both_up refl

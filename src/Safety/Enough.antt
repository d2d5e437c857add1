-- ===== src/Safety/Enough.antt =====
-- A pod kill that is passed leaves enough TaskManagers (checkMinTaskManagersRemaining of
-- internal/safety/checker.go).
use flink_chaos_operator.Prelude.{
  ℕ, ◌≤◌, ◌<◌, ℤ, pos, ◌-ℤ◌, ◌+ℤ◌, +ℤ_parts, subst, -ℤ_parts, ◌≤ℤ◌, ◌≡◌, none, List, length, arith,
  eq_ℤ, to_int32, to_int32_of_range, if◌then◌else◌,
}
use flink_chaos_operator.Api.Types.{ScenarioType, ChaosRun}
use flink_chaos_operator.Interfaces.{Result, ResolvedTarget}
use flink_chaos_operator.Safety.Checker.{min_required, check}
use flink_chaos_operator.Safety.Permits.{LeavesEnough, check-IsPermitted}

-- What the conversion to int32 keeps of the number of pods left.
remaining_in_range :
    (m : ℤ) (pods count : ℕ)
    → count < 2147483648
    → pods < 2147483648
    → m ≤ℤ to_int32 (pos pods -ℤ pos count)
    → m +ℤ pos count ≤ℤ pos pods
remaining_in_range m pods count small few h =
    let parts = -ℤ_parts (pos pods) (pos count) in
    let kept =
      to_int32_of_range (pos pods -ℤ pos count) (omega (arith, parts)) (omega (arith, parts)) in
    let h' : m ≤ℤ pos pods -ℤ pos count = subst (λ r. m ≤ℤ r) kept h in
    omega (arith, h', parts, +ℤ_parts m (pos count))

count_of_positive :
    (c : ℤ) (count : ℕ)
    → c ≡ pos count
    → 1 ≤ count
    → (if eq_ℤ c (pos 0) then pos 1 else c) ≡ pos count
count_of_positive c count e positive = ground arith

-- A pod kill that the checker passes leaves the required number of TaskManagers where it kills as
-- many as its count says: count and required number together are at most the number of the
-- target's TaskManagers. It holds for a count of at least 1, with count and TaskManagers below
-- 2 ^ 31.
pub check-leaves_enough :
    (peers : Result (List ChaosRun)) (run : ChaosRun) (target : ResolvedTarget) (count : ℕ)
    → run.spec.scenario.scenario_type ≡ ScenarioType.task_manager_pod_kill
    → run.spec.scenario.selection.count ≡ pos count
    → 1 ≤ count
    → count < 2147483648
    → length target.tm_pod_names < 2147483648
    → check peers run target ≡ none
    → min_required run.spec.safety.min_task_managers_remaining +ℤ pos count
      ≤ℤ pos (length target.tm_pod_names)
check-leaves_enough peers run target count kill counted positive small few passed =
    let enough = ((check-IsPermitted run target peers).0 passed).leaves_enough in
    let required = min_required run.spec.safety.min_task_managers_remaining in
    let of_kill = subst (λ t. LeavesEnough t run target) kill enough in
    remaining_in_range _ _ count small few (
      subst (λ c. required ≤ℤ to_int32 (pos (length target.tm_pod_names) -ℤ c))
        (count_of_positive _ count counted positive) of_kill)

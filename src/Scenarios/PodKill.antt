-- ===== src/Scenarios/PodKill.antt =====
-- The TaskManagerPodKill driver: the selection of pods and their deletion
-- (internal/scenario/tmpodkill/driver.go). The deletions are kept with their answer.
use flink_chaos_operator.Prelude.{
  ℕ, ◌+◌, ℤ, pos, pos_part, String, Bool, true, false, Option, none, some, List, [], ◌∷◌, ◌&◌,
  if◌then◌else◌, member, length, take, ltb_ℤ, leb_ℤ, quoted,
}
use flink_chaos_operator.Api.Types.{ScenarioType, SelectionMode, SelectionSpec, ChaosRun}
use flink_chaos_operator.Interfaces.{
  Error, Result, ok, err, ResolvedTarget, Injection, injected, refused, partly, ScenarioDriver,
}

-- A call of `Client.Delete`: namespace, pod and grace period.
pub record Deletion : Type 0 where
  pub namespace : String
  pub pod : String
  pub grace_period_seconds : Option ℤ

pub data Answer : Type 0 where
  deleted not_found : Answer
  failed : Error → Answer

-- `explicitSelect`: the names that the target does not have.
unfoldable pub unknown_pods : List String → List String → List String
unknown_pods [] available = []
unknown_pods (p ∷ ps) available =
    let unknown = unknown_pods ps available in if member p available then unknown else p ∷ unknown

-- `strings.Join(unknown, ", ")`
abbrev join : List String → String
join [] = ""
join (x ∷ []) = x
join (x ∷ y ∷ xs) = x & ", " & join (y ∷ xs)

abbrev pub unless_unknown : List String → List String → Result (List String)
unless_unknown [] requested = ok requested
unless_unknown (p ∷ ps) requested = err ("pod names not found in target: " & join (p ∷ ps))

unfoldable pub explicit_select : List String → List String → Result (List String)
explicit_select requested available = unless_unknown (unknown_pods requested available) requested

-- `randomSelect`; the shuffle is what `rand.Shuffle` makes of the list at some moment.
unfoldable pub random_select : (List String → List String) → List String → ℤ → List String
random_select shuffle pods count =
    if leb_ℤ (pos (length pods)) count then pods else take (pos_part count) (shuffle pods)

-- `if count < 1 { count = 1 }`
abbrev pub at_least_one : ℤ → ℤ
at_least_one count = if ltb_ℤ count (pos 1) then pos 1 else count

-- `selectPods`; an unknown or empty mode selects at random.
unfoldable pub select_as :
    (List String → List String) → SelectionMode → SelectionSpec → List String → Result (List String)
select_as shuffle SelectionMode.explicit sel available = explicit_select sel.pod_names available
select_as shuffle _ sel available = ok (random_select shuffle available (at_least_one sel.count))

unfoldable pub select_pods :
    (List String → List String) → ChaosRun → ResolvedTarget → Result (List String)
select_pods shuffle run target =
    select_as shuffle run.spec.scenario.selection.mode run.spec.scenario.selection
      target.tm_pod_names

abbrev pub deletion_of : ChaosRun → String → Deletion
deletion_of run pod = record {
  namespace = run.namespace;
  pod = pod;
  grace_period_seconds = run.spec.scenario.action.grace_period_seconds;
}

-- What the loop has done: the pods injected, the error that stopped it, and its calls in order.
pub record Progress : Type 0 where
  pub injected_pods : List String
  pub stopped : Option Error
  pub calls : List Deletion

-- One round's answer, with what the rest of the loop would do. A pod that is gone is injected.
abbrev pub after_delete : String → Deletion → Answer → Progress → Progress
after_delete pod call (Answer.failed e) rest = record {
  injected_pods = [];
  stopped = some ("deleting pod " & quoted pod & ": " & e);
  calls = call ∷ [];
}
after_delete pod call _ rest = record {
  injected_pods = pod ∷ rest.injected_pods;
  stopped = rest.stopped;
  calls = call ∷ rest.calls;
}

abbrev pub injection_with : List String → List String → Option Error → Injection
injection_with selected done none =
    injected (record { selected_pods = selected; injected_pods = done })
injection_with selected done (some e) =
    partly (record { selected_pods = selected; injected_pods = done }) e

abbrev pub injection_of : List String → Progress → Injection
injection_of selected p = injection_with selected p.injected_pods p.stopped

abbrev pub is_kill : ScenarioType → Bool
is_kill ScenarioType.task_manager_pod_kill = true
is_kill _ = false

-- The API server's answers to the deletions.
module _ (delete : ℕ → Deletion → Answer) where
  unfoldable pub delete_pods : ℕ → ChaosRun → List String → Progress
  delete_pods n run [] = record { injected_pods = []; stopped = none; calls = [] }
  delete_pods n run (pod ∷ pods) =
      let rest = delete_pods (n + 1) run pods in
      let call = deletion_of run pod in after_delete pod call (delete n call) rest

  abbrev pub kill_selected : ℕ → ChaosRun → Result (List String) → Injection × List Deletion
  kill_selected n run (err e) = (refused e, [])
  kill_selected n run (ok selected) =
      let p = delete_pods n run selected in (injection_of selected p, p.calls)

module _ (shuffle : ℕ → List String → List String) (delete : ℕ → Deletion → Answer) where
  abbrev pub inject_kill : ℕ → ChaosRun → ResolvedTarget → Injection × List Deletion
  inject_kill n run target = kill_selected delete n run (select_pods (shuffle n) run target)

  -- `Inject`, with the deletions it makes.
  unfoldable pub inject : ℕ → ChaosRun → Option ResolvedTarget → Injection × List Deletion
  unfolding select_pods
  inject n run none = (refused "target is nil", [])
  inject n run (some target) =
      if is_kill run.spec.scenario.scenario_type
      then inject_kill n run target
      else (refused "driver supports \"TaskManagerPodKill\" scenario only", [])

  -- The driver as the controller takes it. It leaves the run as it is, and has no cleanup.
  unfoldable pub kill_driver : ScenarioDriver
  unfolding inject
  kill_driver = record {
    inject = λ n run target. (run, (inject n run (some target)).0);
    cleanup = none;
  }

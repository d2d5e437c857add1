-- ===== src/Scenarios/Spares.antt =====
-- Which pods the pod kill deletes, and how many it leaves (internal/scenario/tmpodkill/driver.go
-- and internal/safety/checker.go).
use flink_chaos_operator.Prelude.{
  ℕ, ◌+◌, ◌<◌, ◌≤◌, pos, ◌+ℤ◌, ◌≤ℤ◌, +ℤ_parts, String, Bool, true, false, Option, none, some, List,
  [], ◌∷◌, ◌≡◌, refl, subst, ap, arith, All, member, length, map, if◌then◌else◌,
}
use flink_chaos_operator.Api.Types.{ScenarioType, SelectionMode, ChaosRun}
use flink_chaos_operator.Interfaces.{
  Error, Result, ok, err, ResolvedTarget, InjectionResult, Injection, injected, refused,
}
use flink_chaos_operator.Safety.Checker.{check, min_required}
use flink_chaos_operator.Safety.Enough.{check-leaves_enough}
use flink_chaos_operator.Scenarios.PodKill.{
  Deletion, Answer, random_select, select_as, select_pods, deletion_of, after_delete, delete_pods,
  injection_with, inject_kill, kill_selected, inject, is_kill,
}
use flink_chaos_operator.Scenarios.Targeted.{
  IsShuffle, IsTargeted, count_kept, length-random, select_as-known, after_delete-IsTargeted,
}

module _ (delete : ℕ → Deletion → Answer) where
  deleted-IsTargeted :
      (n : ℕ) (run : ChaosRun) (target : ResolvedTarget) (selected : List String)
      → All (λ p. member p target.tm_pod_names ≡ true) selected
      → All (IsTargeted run target) (delete_pods delete n run selected).calls
  unfolding delete_pods
  deleted-IsTargeted n run target [] h = tt
  deleted-IsTargeted n run target (p ∷ ps) h =
      after_delete-IsTargeted run target p (delete n (deletion_of run p)) _ h.0
        (deleted-IsTargeted (n + 1) run target ps h.1)

  selected-IsTargeted :
      (n : ℕ) (run : ChaosRun) (target : ResolvedTarget) (selection : Result (List String))
      → ((selected : List String)
          → selection ≡ ok selected
          → All (λ p. member p target.tm_pod_names ≡ true) selected)
      → All (IsTargeted run target) (kill_selected delete n run selection).1
  selected-IsTargeted n run target (err e) h = tt
  selected-IsTargeted n run target (ok selected) h =
      deleted-IsTargeted n run target selected (h selected refl)

  -- Without an error every selected pod is injected.
  no_stop :
      (n : ℕ) (run : ChaosRun) (selected : List String)
      → (delete_pods delete n run selected).stopped ≡ none
      → ((delete_pods delete n run selected).injected_pods ≡ selected)
        × ((delete_pods delete n run selected).calls ≡ map (deletion_of run) selected)
  unfolding delete_pods
  no_stop n run [] e = (refl, refl)
  no_stop n run (p ∷ ps) e = by (delete n (deletion_of run p)) e (no_stop (n + 1) run ps)
    where
      by :
          (answer : Answer)
          → (after_delete p (deletion_of run p) answer (delete_pods delete (n + 1) run ps)).stopped
            ≡ none
          → ((delete_pods delete (n + 1) run ps).stopped ≡ none
              → ((delete_pods delete (n + 1) run ps).injected_pods ≡ ps)
                × ((delete_pods delete (n + 1) run ps).calls ≡ map (deletion_of run) ps))
          → let p' =
              after_delete p (deletion_of run p) answer (delete_pods delete (n + 1) run ps) in
            (p'.injected_pods ≡ p ∷ ps) × (p'.calls ≡ map (deletion_of run) (p ∷ ps))
      by (Answer.failed x) e k = absurd (ground arith)
      by _ e k = let (i, c) = k e in (ap (λ xs. p ∷ xs) i, ap (λ xs. deletion_of run p ∷ xs) c)

module _ (shuffle : ℕ → List String → List String) (delete : ℕ → Deletion → Answer)
    (shuffles : (n : ℕ) → IsShuffle (shuffle n)) where
  -- Whatever the API server answers, the driver deletes only TaskManager pods of the target, in
  -- the run's namespace and with its grace period, if the shuffle invents no pod.
  pub inject-IsTargeted :
      (n : ℕ) (run : ChaosRun) (target : ResolvedTarget)
      → All (IsTargeted run target) (inject shuffle delete n run (some target)).1
  unfolding inject select_pods
  inject-IsTargeted n run target = by (is_kill run.spec.scenario.scenario_type)
    where
      by :
          (kill : Bool)
          → All
              (IsTargeted run target)
              (if kill
                then inject_kill shuffle delete n run target
                else (refused "driver supports \"TaskManagerPodKill\" scenario only", [])).1
      by true =
          selected-IsTargeted delete n run target (select_pods (shuffle n) run target)
            (λ selected e. select_as-known (shuffle n) (shuffles n) _ _ _ selected e)
      by false = tt

  injected_all :
      (selected done : List String) (stopped : Option Error) (result : InjectionResult)
      → injection_with selected done stopped ≡ injected result
      → (stopped ≡ none) × (result.selected_pods ≡ selected) × (result.injected_pods ≡ done)
  injected_all selected done none result e = (refl, ground arith, ground arith)
  injected_all selected done (some x) result e = absurd (ground arith)

  -- An injection that succeeds has injected all the pods selected, each by one deletion, in order.
  inject_kill-injected :
      (n : ℕ) (run : ChaosRun) (selection : Result (List String)) (result : InjectionResult)
      → (kill_selected delete n run selection).0 ≡ injected result
      → (selection ≡ ok result.selected_pods)
        × (result.injected_pods ≡ result.selected_pods)
        × ((kill_selected delete n run selection).1 ≡ map (deletion_of run) result.selected_pods)
  inject_kill-injected n run (err x) result e = absurd (ground arith)
  inject_kill-injected n run (ok selected) result e =
      let (stopped, s, i) =
        injected_all selected (delete_pods delete n run selected).injected_pods
          (delete_pods delete n run selected).stopped result e in
      let (all, calls) = no_stop delete n run selected stopped in
      (cc s, cc (s, i, all), cc (s, calls))

  -- Where the driver reports success, it has selected the pods by the run's selection, reports all
  -- of them as injected, and has deleted each once, in the order of the selection.
  pub inject-injected :
      (n : ℕ) (run : ChaosRun) (target : ResolvedTarget) (result : InjectionResult)
      → (inject shuffle delete n run (some target)).0 ≡ injected result
      → (select_pods (shuffle n) run target ≡ ok result.selected_pods)
        × (result.injected_pods ≡ result.selected_pods)
        × ((inject shuffle delete n run (some target)).1
            ≡ map (deletion_of run) result.selected_pods)
  unfolding inject
  inject-injected n run target result e = by (is_kill run.spec.scenario.scenario_type) e
    where
      by :
          (kill : Bool)
          → let done : Injection × List Deletion =
              if kill
              then inject_kill shuffle delete n run target
              else (refused "driver supports \"TaskManagerPodKill\" scenario only", []) in
            done.0 ≡ injected result
            → (select_pods (shuffle n) run target ≡ ok result.selected_pods)
              × (result.injected_pods ≡ result.selected_pods)
              × (done.1 ≡ map (deletion_of run) result.selected_pods)
      by true e = inject_kill-injected n run (select_pods (shuffle n) run target) result e
      by false e = absurd (ground arith)

  -- A pod kill in Random mode that the safety checker passes and that succeeds leaves the
  -- required number of TaskManagers: the pods it has injected and the required number together are
  -- at most the target's TaskManagers. The count is at least 1, and it and the number of
  -- TaskManagers are below 2 ^ 31; the shuffle keeps to the elements it is given.
  pub random_kill_leaves_enough :
      (peers : Result (List ChaosRun)) (n : ℕ) (run : ChaosRun) (target : ResolvedTarget)
      (count : ℕ) (result : InjectionResult)
      → run.spec.scenario.scenario_type ≡ ScenarioType.task_manager_pod_kill
      → run.spec.scenario.selection.mode ≡ SelectionMode.random
      → run.spec.scenario.selection.count ≡ pos count
      → 1 ≤ count
      → count < 2147483648
      → length target.tm_pod_names < 2147483648
      → check peers run target ≡ none
      → (inject shuffle delete n run (some target)).0 ≡ injected result
      → min_required run.spec.safety.min_task_managers_remaining
          +ℤ pos (length result.injected_pods)
        ≤ℤ pos (length target.tm_pod_names)
  unfolding select_pods select_as
  random_kill_leaves_enough peers n run target count result kill mode counted positive small few
        passed e =
      let (selection, all, _) = inject-injected n run target result e in
      let at_random : select_as (shuffle n) run.spec.scenario.selection.mode
            run.spec.scenario.selection target.tm_pod_names
          ≡ ok (random_select (shuffle n) target.tm_pod_names (pos count)) =
        cc (mode, counted, count_kept count positive) in
      let same : random_select (shuffle n) target.tm_pod_names (pos count) ≡ result.injected_pods =
        cc (at_random, selection, all) in
      let few_killed : pos (length result.injected_pods) ≤ℤ pos count =
        subst (λ pods. pos (length pods) ≤ℤ pos count) same
          (length-random (shuffle n) (shuffles n) target.tm_pod_names (pos count)
            (omega (arith, positive))) in
      let enough =
        check-leaves_enough peers run target count kill counted positive small few passed in
      let m = min_required run.spec.safety.min_task_managers_remaining in
      omega (
        arith,
        few_killed,
        enough,
        +ℤ_parts m (pos count),
        +ℤ_parts m (pos (length result.injected_pods)),
      )

-- ===== src/Controller/Injecting.antt =====
-- The Injecting phase: target resolution, safety checks, dry run and injection (reconcileInjecting,
-- transitionToObserving and the delegating helpers of internal/controller/chaosrun_controller.go).
use flink_chaos_operator.Prelude.{
  ℕ, ◌+◌, String, Bool, true, false, not, ◌&&◌, Option, none, some, List, [], ◌∷◌, ◌&◌,
  if◌then◌else◌, length,
}
use flink_chaos_operator.Api.Types.{
  ScenarioType, TargetType, RunPhase, RunVerdict, ConditionType, ConditionStatus, TargetSummary,
  ObservationStatus, NetworkChaosSpec, ResourceExhaustionSpec, DryRunPreview, ChaosRun,
}
use flink_chaos_operator.Interfaces.{
  Error, Result, ok, err, ResolvedTarget, TargetResolver, SafetyChecker, ScenarioDriver,
  InjectionResult, Injection, injected, refused, partly,
}
use flink_chaos_operator.Controller.World.{
  Env, Effect, M, Reply, stop, requeue_after, ◌>>=◌, ◌>>◌, pure, note, emit, current_time,
  after_patch, after_patch_object,
}
use flink_chaos_operator.Controller.Phases.{transition_phase, set_condition, finalize_run, fail_run}

-- The scenarios that leave resources behind, which the source calls network scenarios.
abbrev pub needs_cleanup : ScenarioType → Bool
needs_cleanup ScenarioType.network_partition = true
needs_cleanup ScenarioType.network_chaos = true
needs_cleanup ScenarioType.resource_exhaustion = true
needs_cleanup _ = false

abbrev preview_partition : Option NetworkChaosSpec → DryRunPreview
preview_partition none = DryRunPreview.partition_spec_missing
preview_partition (some n) = DryRunPreview.would_create_policy n.target n.direction

abbrev preview_chaos : ℕ → Option NetworkChaosSpec → DryRunPreview
preview_chaos pods none = DryRunPreview.chaos_spec_missing
preview_chaos pods (some n) = DryRunPreview.would_inject_netem pods n

abbrev preview_exhaustion : ℕ → Option ResourceExhaustionSpec → DryRunPreview
preview_exhaustion pods none = DryRunPreview.exhaustion_spec_missing
preview_exhaustion pods (some re) =
    DryRunPreview.would_inject_stress pods re.mode re.workers re.duration

preview_as : ScenarioType → ChaosRun → ResolvedTarget → DryRunPreview
preview_as ScenarioType.task_manager_pod_kill run target =
    DryRunPreview.would_delete (length target.tm_pod_names) target.tm_pod_names
preview_as ScenarioType.network_partition run target = preview_partition run.spec.scenario.network
preview_as ScenarioType.network_chaos run target =
    preview_chaos (length target.tm_pod_names) run.spec.scenario.network
preview_as ScenarioType.resource_exhaustion run target =
    preview_exhaustion (length target.tm_pod_names) run.spec.scenario.resource_exhaustion
preview_as t run target = DryRunPreview.would_execute t (length target.tm_pod_names)

unfoldable pub build_dry_run_preview : ChaosRun → ResolvedTarget → DryRunPreview
unfolding preview_as
build_dry_run_preview run target = preview_as run.spec.scenario.scenario_type run target

-- `run.Status.Observation`, made if it is nil.
abbrev pub observation_of : Option ObservationStatus → ObservationStatus
observation_of (some o) = o
observation_of none = record {
  job_state_before = "";
  job_state_after = "";
  task_manager_count_before = 0;
  task_manager_count_after = 0;
  recovery_observed_at = none;
  recovery_time_seconds = none;
}

module _ (env : Env) where
  abbrev pub resolve_by : Option TargetResolver → ChaosRun → M (Result ResolvedTarget)
  resolve_by none run w = (err "unsupported target type", w)
  resolve_by (some resolve) run w = (resolve w.step run, record w { step = w.step + 1 })

  abbrev pub resolve_with :
      Option (TargetType → Option TargetResolver) → ChaosRun → M (Result ResolvedTarget)
  resolve_with none run w = (err "unsupported target type", w)
  resolve_with (some resolvers) run w = resolve_by (resolvers run.spec.target.target_type) run w

  -- The resolver registered for the target's type; the errors leave out the type's name.
  unfoldable pub resolve_target : ChaosRun → M (Result ResolvedTarget)
  resolve_target run = resolve_with env.resolvers run

  abbrev pub check_with : Option SafetyChecker → ChaosRun → ResolvedTarget → M (Option Error)
  check_with none run target w = (none, w)
  check_with (some check) run target w =
      let answer = check w.step run target in
      (answer, note (Effect.safety_checked run target answer) w)

  -- With no checker every check is skipped.
  unfoldable pub run_safety_checks : ChaosRun → ResolvedTarget → M (Option Error)
  run_safety_checks run target = check_with env.safety_checker run target

  abbrev pub inject_by :
      Option ScenarioDriver → ChaosRun → ResolvedTarget → M (ChaosRun × Injection)
  inject_by none run target w = ((run, refused "unsupported scenario type"), w)
  inject_by (some driver) run target w =
      let answer = driver.inject w.step run target in
      (answer, note (Effect.inject_called run target answer.1) w)

  abbrev pub inject_with :
      Option (ScenarioType → Option ScenarioDriver)
      → ChaosRun
      → ResolvedTarget
      → M (ChaosRun × Injection)
  inject_with none run target w = (
    (
      run,
      injected
          (record { selected_pods = target.tm_pod_names; injected_pods = target.tm_pod_names }),
    ),
    w,
  )
  inject_with (some drivers) run target w =
      inject_by (drivers run.spec.scenario.scenario_type) run target w

  -- The driver registered for the scenario; with no drivers all pods count as injected.
  unfoldable pub inject_chaos : ChaosRun → ResolvedTarget → M (ChaosRun × Injection)
  inject_chaos run target = inject_with env.scenario_drivers run target

  unfoldable pub transition_to_observing : ChaosRun → M Reply
  unfolding transition_phase
  transition_to_observing run = do
    let poll_interval = run.spec.observe.poll_interval
    now ← current_time env
    let stamped : ChaosRun = record run {
      status = record (run.status) { observing_started_at = some now };
    }
    after_patch env run
        (transition_phase stamped RunPhase.observing "injection complete, observing recovery")
        (λ _. pure (requeue_after poll_interval))

  -- The target could not be resolved; `base` is the run as it was read.
  unfoldable pub fail_resolution : ChaosRun → Error → M Reply
  unfolding fail_run set_condition
  fail_resolution run e = do
    failed ← fail_run env run ("target resolution failed: " & e)
    noted ←
        set_condition env failed ConditionType.target_resolved ConditionStatus.is_false
          "ResolutionFailed" e
    noted' ←
        set_condition env noted ConditionType.run_failed ConditionStatus.is_true
          "TargetResolutionFailed" e
    emit (Effect.event "TargetResolutionFailed" ("Failed to resolve target: " & e))
    after_patch env run noted' (λ _. pure stop)

  unfoldable pub fail_safety : ChaosRun → ChaosRun → Error → M Reply
  unfolding fail_run set_condition
  fail_safety base run e = do
    failed ← fail_run env run ("safety checks failed: " & e)
    noted ←
        set_condition env failed ConditionType.safety_checks_passed ConditionStatus.is_false
          "SafetyCheckFailed" e
    noted' ←
        set_condition env noted ConditionType.run_failed ConditionStatus.is_true "SafetyCheckFailed"
          e
    emit (Effect.event "SafetyRejection" ("Safety checks rejected injection: " & e))
    after_patch env base noted' (λ _. pure stop)

  unfoldable pub fail_injection : ChaosRun → ChaosRun → Error → M Reply
  unfolding fail_run set_condition
  fail_injection base run e = do
    failed ← fail_run env run ("injection failed: " & e)
    noted ←
        set_condition env failed ConditionType.injection_started ConditionStatus.is_false
          "InjectionFailed" e
    noted' ←
        set_condition env noted ConditionType.run_failed ConditionStatus.is_true "InjectionFailed" e
    emit (Effect.event "RunFailed" ("Injection failed: " & e))
    after_patch env base noted' (λ _. pure stop)

  -- The dry run: the projected selection is recorded and the run ends.
  unfoldable pub finish_dry_run : ChaosRun → ChaosRun → ResolvedTarget → M Reply
  unfolding finalize_run build_dry_run_preview
  finish_dry_run base run target = do
    let projected : ChaosRun = record run {
      status = record (run.status) {
        selected_pods = target.tm_pod_names;
        dry_run_preview = build_dry_run_preview run target;
      };
    }
    ended ← finalize_run env projected RunVerdict.inconclusive "dry-run: no pods deleted"
    after_patch env base ended (λ _. pure stop)

  -- The finalizer is added before the transition, for the scenarios that need it.
  unfoldable pub ensure_finalizer : ChaosRun → M Reply
  ensure_finalizer run =
      if needs_cleanup run.spec.scenario.scenario_type && not (env.contains_finalizer run)
      then after_patch_object env run (env.add_finalizer run) transition_to_observing
      else transition_to_observing run

  -- The injection succeeded: pods and the count before it are recorded and persisted.
  unfoldable pub record_injection : ChaosRun → ChaosRun → ResolvedTarget → InjectionResult → M Reply
  unfolding set_condition
  record_injection base run target result = do
    started ←
        set_condition env run ConditionType.injection_started ConditionStatus.is_true
          "InjectionStarted" "Chaos injection started"
    completed ←
        set_condition env started ConditionType.injection_completed ConditionStatus.is_true
          "InjectionCompleted" "Chaos injection completed"
    emit (
        Effect.event "InjectionStarted"
          ("Chaos injection started for target " & target.logical_name))
    emit Effect.injections_total
    let before : ObservationStatus = record (observation_of completed.status.observation) {
      task_manager_count_before = length target.tm_pod_names;
    }
    let recorded : ChaosRun = record completed {
      status = record (completed.status) {
        selected_pods = result.selected_pods;
        injected_pods = result.injected_pods;
        observation = some before;
      };
    }
    after_patch env base recorded ensure_finalizer

  abbrev pub after_injection : ChaosRun → ResolvedTarget → ChaosRun × Injection → M Reply
  after_injection base target (run, injected result) = record_injection base run target result
  after_injection base target (run, refused e) = fail_injection base run e
  after_injection base target (run, partly result e) = fail_injection base run e

  -- From passed safety checks on.
  unfoldable pub inject_or_preview : ChaosRun → ChaosRun → ResolvedTarget → M Reply
  unfolding set_condition
  inject_or_preview base run target = do
    passed ←
        set_condition env run ConditionType.safety_checks_passed ConditionStatus.is_true
          "SafetyChecksPassed" "All pre-injection safety checks passed"
    let summary : TargetSummary = record {
      summary_type = target.platform;
      name = target.logical_name;
    }
    let summed : ChaosRun = record passed {
      status = record (passed.status) { target_summary = some summary };
    }
    if summed.spec.safety.dry_run
        then finish_dry_run base summed target
        else (do answer ← inject_chaos summed target; after_injection base target answer)

  abbrev pub after_check : ChaosRun → ChaosRun → ResolvedTarget → Option Error → M Reply
  after_check base run target none = inject_or_preview base run target
  after_check base run target (some e) = fail_safety base run e

  -- From a resolved target on.
  unfoldable pub check_and_inject : ChaosRun → ResolvedTarget → M Reply
  unfolding set_condition
  check_and_inject run target = do
    resolved ←
        set_condition env run ConditionType.target_resolved ConditionStatus.is_true "TargetResolved"
          "Target successfully resolved"
    emit (Effect.event "TargetResolved" ("Target resolved: " & target.logical_name))
    verdict ← run_safety_checks resolved target
    after_check run resolved target verdict

  abbrev pub after_resolution : ChaosRun → Result ResolvedTarget → M Reply
  after_resolution run (ok target) = check_and_inject run target
  after_resolution run (err e) = fail_resolution run e

  unfoldable pub start_injection : ChaosRun → M Reply
  start_injection run = do target ← resolve_target run; after_resolution run target

  -- A run with injected pods on record is not injected again.
  abbrev pub inject_unless_recorded : List String → ChaosRun → M Reply
  inject_unless_recorded [] run = start_injection run
  inject_unless_recorded (_ ∷ _) run = transition_to_observing run

  unfoldable pub reconcile_injecting : ChaosRun → M Reply
  reconcile_injecting run = inject_unless_recorded run.status.injected_pods run

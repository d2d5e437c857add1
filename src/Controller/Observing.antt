-- ===== src/Controller/Observing.antt =====
-- The Observing phase: the observation window, the duration of a partition, and the poll for
-- recovery (reconcileObserving and finishRun of internal/controller/chaosrun_controller.go).
use flink_chaos_operator.Prelude.{
  ◌==◌, String, not, ◌&&◌, Option, none, some, ◌&◌, if◌then◌else◌, ltb_ℤ, leb_ℤ, ◌-ℤ◌, decimal,
}
use flink_chaos_operator.Api.Types.{
  RunPhase, RunVerdict, ConditionType, ConditionStatus, Duration, Time, ObservationStatus, ChaosRun,
}
use flink_chaos_operator.Api.Texts.{phase_text, verdict_text}
use flink_chaos_operator.Interfaces.{Result, ok, err, ResolvedTarget, ObservationResult, Observer}
use flink_chaos_operator.Controller.World.{
  Env, Effect, M, Reply, stop, requeue, requeue_after, ◌>>=◌, ◌>>◌, pure, note, emit, current_time,
  after_patch,
}
use flink_chaos_operator.Controller.Phases.{transition_phase, set_condition, finalize_run}
use flink_chaos_operator.Controller.Injecting.{needs_cleanup, observation_of, resolve_target}
use flink_chaos_operator.Controller.Outcomes.{
  whole_seconds, set_verdict, recovery_seen, kill_outcome, cleanup_outcome, observe_anchor,
  partition_window, nothing_observed, to_option,
}

module _ (env : Env) where
  abbrev pub record_duration : Option Time → ChaosRun → M (Unit {0})
  record_duration none run = pure tt
  record_duration (some started) run = do
    now ← current_time env
    emit (Effect.run_duration run.spec.scenario.scenario_type run.status.verdict (now -ℤ started))

  -- The metrics and the event of a run that has ended.
  unfoldable pub finish_run : ChaosRun → M (Unit {0})
  finish_run run = do
    emit (Effect.runs_total run.spec.scenario.scenario_type run.status.phase run.status.verdict)
    record_duration run.status.started_at run
    emit (
        Effect.event "RunFinished" (
          "ChaosRun reached terminal phase "
          & phase_text run.status.phase
          & " with verdict "
          & verdict_text run.status.verdict))

  -- FinalizeRun, finishRun and the patch.
  unfoldable pub finalize_and_stop : ChaosRun → ChaosRun → RunVerdict → String → M Reply
  unfolding finalize_run
  finalize_and_stop base run verdict message = do
    ended ← finalize_run env run verdict message
    finish_run ended
    after_patch env base ended (λ _. pure stop)

  -- The transition to CleaningUp, to be continued at once.
  unfoldable pub go_clean_up : ChaosRun → ChaosRun → String → M Reply
  unfolding transition_phase
  go_clean_up base run message =
      after_patch env base (transition_phase run RunPhase.cleaning_up message) (λ _. pure requeue)

  unfoldable pub observation_disabled : ChaosRun → M Reply
  observation_disabled run =
      if needs_cleanup run.spec.scenario.scenario_type
      then go_clean_up run run "observation disabled, cleaning up network chaos resources"
      else finalize_and_stop run run RunVerdict.passed "observation disabled"

  unfoldable pub window_elapsed : ChaosRun → M Reply
  unfolding kill_outcome cleanup_outcome
  window_elapsed run =
      let secs = decimal (whole_seconds run.spec.observe.timeout) in
      if needs_cleanup run.spec.scenario.scenario_type
      then (let (verdict, message) = cleanup_outcome run secs in
          go_clean_up run (set_verdict run verdict) (message & ", cleaning up"))
      else (let (verdict, message) = kill_outcome run secs in
          finalize_and_stop run run verdict message)

  -- The duration of a partition has elapsed.
  unfoldable pub lift_partition : ChaosRun → M Reply
  lift_partition run =
      if run.status.replacement_observed
      then go_clean_up run (set_verdict run RunVerdict.passed)
          "network partition duration elapsed, recovery confirmed, removing policies"
      else go_clean_up run (set_verdict run RunVerdict.inconclusive)
          "network partition duration elapsed, removing policies"

  -- A partition whose duration has elapsed is cleaned up, and another is left alone until then.
  unfoldable pub hold_partition : ChaosRun → Time → Duration → M Reply
  hold_partition run started duration = do
    now ← current_time env
    let elapsed = now -ℤ started
    if leb_ℤ duration elapsed
        then lift_partition run
        else after_patch env run run (λ _. pure (requeue_after (duration -ℤ elapsed)))

  abbrev pub observe_with :
      Option Observer → ChaosRun → Option ResolvedTarget → M (Result ObservationResult)
  observe_with none run target w = (ok nothing_observed, w)
  observe_with (some observe) run target w =
      let answer = observe w.step run target in (answer, note (Effect.observe_called run answer) w)

  -- With no observer nothing is observed.
  unfoldable pub observe_recovery : ChaosRun → Option ResolvedTarget → M (Result ObservationResult)
  observe_recovery run target = observe_with env.observer run target

  -- The status fields that each poll writes.
  unfoldable pub record_observation : ChaosRun → ObservationResult → ChaosRun
  record_observation run seen =
      let o = observation_of run.status.observation in
      record run {
        status = record (run.status) {
          observation = some (record o {
            task_manager_count_before =
                if o.task_manager_count_before == 0
                then seen.tm_count_before
                else o.task_manager_count_before;
            task_manager_count_after = seen.tm_count_after;
          });
          replacement_observed = seen.replacement_observed;
        };
      }

  abbrev pub set_observation : ChaosRun → ObservationStatus → ChaosRun
  set_observation run o = record run { status = record (run.status) { observation = some o } }

  -- RecoveryObservedAt, RecoveryTimeSeconds and the message.
  abbrev pub stamp_recovery : Option Time → ChaosRun → M (ChaosRun × String)
  stamp_recovery none run = do
    now ← current_time env
    let o = observation_of run.status.observation
    pure (set_observation run (record o { recovery_observed_at = some now }), "recovery confirmed")
  stamp_recovery (some anchor) run = do
    now ← current_time env
    later ← current_time env
    let o = observation_of run.status.observation
    let secs = whole_seconds (later -ℤ anchor)
    pure (
      set_observation run
          (record o { recovery_observed_at = some now; recovery_time_seconds = some secs }),
      "recovery confirmed in " & decimal secs & "s",
    )

  abbrev pub end_recovered : ChaosRun → ChaosRun × String → M Reply
  end_recovered base (run, message) = do
    noted ←
        set_condition env run ConditionType.recovery_observed ConditionStatus.is_true
          "RecoveryObserved" message
    emit (Effect.event "RecoveryObserved" message)
    emit Effect.recovery_observed_total
    if needs_cleanup base.spec.scenario.scenario_type
        then go_clean_up base noted (message & ", cleaning up")
        else finalize_and_stop base noted RunVerdict.passed message

  -- Recovery seen for the first time ends the run, or sends it to be cleaned up.
  unfoldable pub recovered : ChaosRun → ChaosRun → M Reply
  unfolding set_condition
  recovered base run = do
    stamped ← stamp_recovery (observe_anchor base) run
    end_recovered base stamped

  unfoldable pub take_observation : ChaosRun → ObservationResult → M Reply
  unfolding record_observation
  take_observation run seen =
      let updated = record_observation run seen in
      if seen.all_replacements_ready && not (recovery_seen updated.status.observation)
      then recovered run updated
      else after_patch env run updated (λ _. pure (requeue_after run.spec.observe.poll_interval))

  abbrev pub after_poll : ChaosRun → Result ObservationResult → M Reply
  after_poll run (ok seen) = take_observation run seen
  after_poll run (err _) = pure (requeue_after run.spec.observe.poll_interval)

  -- The target is resolved again; a failure leaves no target and is not fatal.
  unfoldable pub poll_recovery : ChaosRun → M Reply
  poll_recovery run = do
    resolved ← resolve_target env run
    seen ← observe_recovery run (to_option resolved)
    after_poll run seen

  abbrev pub observe_by : Option (Time × Duration) → ChaosRun → M Reply
  observe_by none run = poll_recovery run
  observe_by (some (started, duration)) run = hold_partition run started duration

  unfoldable pub observe_within_window : ChaosRun → M Reply
  unfolding partition_window
  observe_within_window run =
      observe_by
        (partition_window run.spec.scenario.scenario_type run.spec.scenario.network
          run.status.observing_started_at)
        run

  unfoldable pub check_window : Option Time → ChaosRun → M Reply
  check_window none run = observe_within_window run
  check_window (some anchor) run = do
    now ← current_time env
    if ltb_ℤ run.spec.observe.timeout (now -ℤ anchor)
        then window_elapsed run
        else observe_within_window run

  unfoldable pub reconcile_observing : ChaosRun → M Reply
  reconcile_observing run =
      if run.spec.observe.enabled
      then check_window (observe_anchor run) run
      else observation_disabled run

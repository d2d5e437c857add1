-- ===== src/Controller/Reconcile.antt =====
-- One reconcile: the terminal check, deletion, abort and the dispatch on the phase (Reconcile of
-- internal/controller/chaosrun_controller.go).
use flink_chaos_operator.Prelude.{
  pos, String, Bool, true, false, not, ◌&&◌, Option, none, some, if◌then◌else◌, is_some,
}
use flink_chaos_operator.Api.Types.{RunPhase, RunVerdict, ConditionType, ConditionStatus, ChaosRun}
use flink_chaos_operator.Api.Defaults.{set_defaults}
use flink_chaos_operator.Interfaces.{Error}
use flink_chaos_operator.Controller.World.{
  Env, Effect, M, Reply, stop, requeue, requeue_after, failure, ◌>>=◌, ◌>>◌, pure, emit, Fetch,
  found, not_found, get_failed, after_patch, after_patch_object, fetch,
}
use flink_chaos_operator.Controller.Phases.{is_terminal, transition_phase, set_condition, abort_run}
use flink_chaos_operator.Controller.Pending.{
  fail_wait, keep_waiting, check_deadline, wait_for_stable_checkpoint, start_injecting, after_wait,
  gate_checkpoint, reject_spec, start_run, reconcile_pending,
}
use flink_chaos_operator.Controller.Injecting.{
  needs_cleanup, resolve_target, run_safety_checks, inject_chaos, transition_to_observing,
  fail_resolution, fail_safety, fail_injection, finish_dry_run, ensure_finalizer, record_injection,
  inject_or_preview, check_and_inject, start_injection, reconcile_injecting,
}
use flink_chaos_operator.Controller.Observing.{
  finish_run, finalize_and_stop, go_clean_up, observation_disabled, window_elapsed, lift_partition,
  hold_partition, observe_recovery, record_observation, recovered, take_observation, poll_recovery,
  observe_within_window, check_window, reconcile_observing,
}
use flink_chaos_operator.Controller.Cleaning.{
  call_cleanup, cleanup_timed_out, drop_finalizer, end_cleaned_up, complete_cleanup, retry_cleanup,
  clean_up, check_cleanup_deadline, reconcile_cleaning_up,
}

abbrev pub is_cleaning_up : RunPhase → Bool
is_cleaning_up RunPhase.cleaning_up = true
is_cleaning_up _ = false

-- The phases before anything is injected: "" and Pending.
abbrev pub is_before_injection : RunPhase → Bool
is_before_injection RunPhase.unset = true
is_before_injection RunPhase.pending = true
is_before_injection _ = false

module _ (env : Env) where
  abbrev pub after_delete_cleanup : ChaosRun × Option Error → M Reply
  after_delete_cleanup (run, some e) = pure (requeue_after (pos 5000000000))
  after_delete_cleanup (run, none) =
      after_patch_object env run (env.remove_finalizer run) (λ _. pure stop)

  -- The run is being deleted: its resources are cleaned up, and the finalizer removed.
  unfoldable pub handle_deletion : ChaosRun → M Reply
  handle_deletion run = do answer ← call_cleanup env run; after_delete_cleanup answer

  -- The user asked to abort. What has been injected is cleaned up first.
  unfoldable pub handle_abort : ChaosRun → M Reply
  unfolding set_condition transition_phase abort_run
  handle_abort run = do
    noted ←
        set_condition env run ConditionType.abort_requested ConditionStatus.is_true "AbortRequested"
          "User set spec.control.abort=true"
    emit Effect.abort_requests_total
    emit (Effect.event "AbortRequested" "ChaosRun abort requested by user")
    if needs_cleanup run.spec.scenario.scenario_type && not (is_before_injection run.status.phase)
        then after_patch env run
            (transition_phase noted RunPhase.cleaning_up
              "abort requested, cleaning up network chaos resources")
            (λ _. pure requeue)
        else (do
          aborted ← abort_run env noted "abort requested via spec.control.abort"
          after_patch env run aborted (λ run'. do
            emit (
                Effect.runs_total run'.spec.scenario.scenario_type RunPhase.aborted
                  RunVerdict.unset)
            pure stop))

  -- The phases of the state machine; the last clause is an unknown phase.
  unfoldable pub dispatch : RunPhase → ChaosRun → M Reply
  dispatch RunPhase.unset run = reconcile_pending env run
  dispatch RunPhase.pending run = reconcile_pending env run
  dispatch RunPhase.injecting run = reconcile_injecting env run
  dispatch RunPhase.observing run = reconcile_observing env run
  dispatch RunPhase.cleaning_up run = reconcile_cleaning_up env run
  dispatch _ run = pure stop

  -- The run with its defaults applied.
  unfoldable pub reconcile_run : ChaosRun → M Reply
  reconcile_run run =
      if is_terminal run.status.phase
      then pure stop
      else if is_some run.deletion_timestamp && env.contains_finalizer run
      then handle_deletion run
      else if run.spec.control.abort && not (is_cleaning_up run.status.phase)
      then handle_abort run
      else dispatch run.status.phase run

  abbrev pub reconcile_fetched : Fetch → M Reply
  reconcile_fetched not_found = pure stop
  reconcile_fetched (get_failed e) = pure (failure e)
  reconcile_fetched (found run) = reconcile_run (set_defaults run)

  unfoldable pub reconcile : String → String → M Reply
  unfolding set_defaults fail_wait keep_waiting check_deadline wait_for_stable_checkpoint
      start_injecting after_wait gate_checkpoint reject_spec start_run reconcile_pending
      resolve_target run_safety_checks inject_chaos transition_to_observing fail_resolution
      fail_safety fail_injection finish_dry_run ensure_finalizer record_injection inject_or_preview
      check_and_inject start_injection reconcile_injecting finish_run finalize_and_stop go_clean_up
      observation_disabled window_elapsed lift_partition hold_partition observe_recovery
      record_observation recovered take_observation poll_recovery observe_within_window check_window
      reconcile_observing call_cleanup cleanup_timed_out drop_finalizer end_cleaned_up
      complete_cleanup retry_cleanup clean_up check_cleanup_deadline reconcile_cleaning_up
      handle_deletion handle_abort dispatch reconcile_run
  reconcile namespace name = do fetched ← fetch env namespace name; reconcile_fetched fetched

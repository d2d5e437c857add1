-- ===== src/Controller/Pending.antt =====
-- The Pending phase: validation, the start time and the wait for a stable checkpoint
-- (reconcilePending and waitForStableCheckpoint of internal/controller/chaosrun_controller.go).
use flink_chaos_operator.Prelude.{
  ◌+◌, Bool, true, false, Option, none, some, List, [], ◌∷◌, ◌&◌, ltb_ℤ, ◌+ℤ◌, if◌then◌else◌,
}
use flink_chaos_operator.Api.Types.{
  Time, Duration, RunPhase, ConditionType, ConditionStatus, ChaosRun,
}
use flink_chaos_operator.Api.Validation.{ValidationError, validate}
use flink_chaos_operator.Interfaces.{Error, Result, ok, err}
use flink_chaos_operator.Controller.World.{
  Env, Effect, M, Reply, stop, requeue, requeue_after, failure, ◌>>=◌, ◌>>◌, pure, emit,
  current_time, patch_status, after_patch,
}
use flink_chaos_operator.Controller.Phases.{transition_phase, set_condition, fail_run}

-- The error of waitForStableCheckpoint: nil, its sentinel errCheckpointNotStable, or another.
pub data Wait : Type 0 where
  proceed not_stable : Wait
  wait_failed : Error → Wait

unfoldable pub is_failed : RunPhase → Bool
is_failed RunPhase.failed = true
is_failed _ = false

module _ (env : Env) where
  -- The wait timed out: the run fails, and nil is returned once the status is patched.
  unfoldable pub fail_wait : ChaosRun → M (ChaosRun × Wait)
  unfolding fail_run set_condition
  fail_wait run = do
    failed ← fail_run env run "timed out waiting for a stable Flink checkpoint before injection"
    noted ←
        set_condition env failed ConditionType.run_failed ConditionStatus.is_true
          "CheckpointWaitTimeout" "No stable checkpoint was observed within the configured timeout"
    emit (Effect.event "CheckpointWaitTimeout" "Timed out waiting for a stable Flink checkpoint")
    answer ← patch_status env run noted
    elim answer [ ok run' ↦ pure (run', Wait.proceed) | err e ↦ pure (noted, Wait.wait_failed e) ]

  -- Neither stable nor timed out: the status is patched and the sentinel returned.
  unfoldable pub keep_waiting : ChaosRun → ChaosRun → M (ChaosRun × Wait)
  keep_waiting base run = do
    answer ← patch_status env base run
    elim answer [ ok run' ↦ pure (run', Wait.not_stable) | err e ↦ pure (run, Wait.wait_failed e) ]

  abbrev pub wait_until : Time → ChaosRun → ChaosRun → M (ChaosRun × Wait)
  wait_until deadline base run = do
    now ← current_time env
    if ltb_ℤ deadline now then fail_wait run else keep_waiting base run

  -- What follows an answer that the checkpoint is not stable.
  unfoldable pub check_deadline :
      Option Time → Option Duration → ChaosRun → ChaosRun → M (ChaosRun × Wait)
  check_deadline none timeout base run = pure (run, Wait.not_stable)
  check_deadline (some started) none base run =
      pure
        (run, Wait.wait_failed "checkpointWaitTimeout is nil; defaults may not have been applied")
  check_deadline (some started) (some timeout) base run = wait_until (started +ℤ timeout) base run

  abbrev ask_stable : ChaosRun → M (Result Bool)
  ask_stable run w =
      let rest = run.spec.observe.flink_rest in
      (
        env.checkpoint_stable w.step rest.endpoint rest.checkpoint_stable_window_seconds,
        record w { step = w.step + 1 },
      )

  unfoldable pub wait_for_stable_checkpoint : ChaosRun → ChaosRun → M (ChaosRun × Wait)
  wait_for_stable_checkpoint run base = do
    stable ← ask_stable run
    elim stable [
      | err e ↦ pure (run, Wait.wait_failed e)
      | ok true ↦ pure (run, Wait.proceed)
      | ok false ↦
          check_deadline run.status.started_at run.spec.observe.flink_rest.checkpoint_wait_timeout
            base run
    ]

  -- The transition to Injecting, which ends the phase.
  unfoldable pub start_injecting : ChaosRun → M Reply
  unfolding transition_phase
  start_injecting run =
      after_patch env run
        (transition_phase run RunPhase.injecting "target resolution and injection starting")
        (λ _. pure requeue)

  -- What reconcilePending makes of the wait's error.
  unfoldable pub after_wait : ChaosRun × Wait → M Reply
  unfolding is_failed
  after_wait (run, Wait.not_stable) = pure (requeue_after run.spec.observe.poll_interval)
  after_wait (run, Wait.wait_failed e) = pure (failure e)
  after_wait (run, Wait.proceed) =
      if is_failed run.status.phase then pure stop else start_injecting run

  unfoldable pub gate_checkpoint : ChaosRun → M Reply
  gate_checkpoint run =
      if run.spec.observe.flink_rest.require_stable_checkpoint_before_inject
      then (do waited ← wait_for_stable_checkpoint run run; after_wait waited)
      else start_injecting run

  -- The failure of validation is recorded and ends the run.
  unfoldable pub reject_spec : ChaosRun → Error → M Reply
  unfolding fail_run set_condition
  reject_spec run text = do
    failed ← fail_run env run ("spec validation failed: " & text)
    noted ←
        set_condition env failed ConditionType.run_failed ConditionStatus.is_true "ValidationFailed"
          text
    emit (Effect.event "ValidationFailed" ("ChaosRun spec validation failed: " & text))
    after_patch env run noted (λ _. pure stop)

  -- The start time is stamped and patched before the wait.
  unfoldable pub start_run : ChaosRun → M Reply
  start_run run = do
    now ← current_time env
    after_patch env run (record run { status = record (run.status) { started_at = some now } })
        gate_checkpoint

  abbrev pub pending_with : List ValidationError → ChaosRun → M Reply
  pending_with [] run = start_run run
  pending_with (e ∷ errs) run = reject_spec run (env.describe (e ∷ errs))

  unfoldable pub reconcile_pending : ChaosRun → M Reply
  reconcile_pending run = pending_with (validate env.parse_cidr run) run

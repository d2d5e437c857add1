-- ===== src/Controller/Cleaning.antt =====
-- The CleaningUp phase: the deadline, the driver's cleanup and the final verdict
-- (reconcileCleaningUp, isCleanupComplete and hasConditionTrue of
-- internal/controller/chaosrun_controller.go).
use flink_chaos_operator.Prelude.{
  ℕ, pos, String, Bool, true, false, ◌&&◌, Option, none, some, List, [], ◌∷◌, ◌&◌, is_empty,
  if◌then◌else◌, ltb_ℤ, ◌+ℤ◌, trim_suffix, str_eq,
}
use flink_chaos_operator.Api.Types.{
  ScenarioType, RunVerdict, ConditionType, ConditionStatus, Duration, Time, Condition,
  EphemeralContainerRecord, ChaosRun,
}
use flink_chaos_operator.Interfaces.{Error, ScenarioDriver}
use flink_chaos_operator.Controller.World.{
  Env, Effect, M, Reply, stop, requeue_after, failure, ◌>>=◌, ◌>>◌, pure, note, emit, Fetch, found,
  not_found, get_failed, current_time, after_patch, after_patch_object, fetch,
}
use flink_chaos_operator.Controller.Phases.{set_condition, finalize_run, fail_run, abort_run}
use flink_chaos_operator.Controller.Observing.{finish_run}

-- cleanupGrace, five minutes
abbrev pub cleanup_grace : Duration
cleanup_grace = pos 300000000000

unfoldable pub all_cleaned_up : List EphemeralContainerRecord → Bool
all_cleaned_up [] = true
all_cleaned_up (rec ∷ recs) = rec.cleaned_up && all_cleaned_up recs

-- No policy is left, and every record of an ephemeral container is marked.
unfoldable pub is_cleanup_complete : ChaosRun → Bool
unfolding all_cleaned_up
is_cleanup_complete run =
    is_empty run.status.network_policies
    && (all_cleaned_up run.status.ephemeral_container_injections
        && all_cleaned_up run.status.resource_exhaustion_injections)

abbrev is_abort_requested : ConditionType → Bool
is_abort_requested ConditionType.abort_requested = true
is_abort_requested _ = false

abbrev status_is_true : ConditionStatus → Bool
status_is_true ConditionStatus.is_true = true
status_is_true _ = false

-- `hasConditionTrue(run, ConditionAbortRequested)`: the first condition of that type decides.
unfoldable pub has_abort_condition : List Condition → Bool
has_abort_condition [] = false
has_abort_condition (c ∷ cs) =
    if is_abort_requested c.condition_type then status_is_true c.status else has_abort_condition cs

-- The verdict stored on the way to CleaningUp, or Passed.
abbrev pub pending_verdict : RunVerdict → RunVerdict
pending_verdict RunVerdict.unset = RunVerdict.passed
pending_verdict v = v

unfoldable pub final_message : String → String
final_message message =
    if str_eq message ""
    then "chaos experiment completed and cleaned up"
    else trim_suffix message ", cleaning up" & ", cleaned up"

-- The cleanup of the driver registered for the scenario, where it has one.
unfoldable pub cleanup_of :
    Option (ScenarioType → Option ScenarioDriver)
    → ScenarioType
    → Option (ℕ → ChaosRun → ChaosRun × Option Error)
cleanup_of none t = none
cleanup_of (some drivers) t = elim (drivers t) [ none ↦ none | some driver ↦ driver.cleanup ]

module _ (env : Env) where
  abbrev pub cleanup_with :
      Option (ℕ → ChaosRun → ChaosRun × Option Error) → ChaosRun → M (ChaosRun × Option Error)
  cleanup_with none run w = ((run, none), w)
  cleanup_with (some cleanup) run w =
      let answer = cleanup w.step run in (answer, note (Effect.cleanup_called run answer.1) w)

  -- Cleanup, which may change the run, or nothing where there is no driver for it.
  unfoldable pub call_cleanup : ChaosRun → M (ChaosRun × Option Error)
  unfolding cleanup_of
  call_cleanup run =
      cleanup_with (cleanup_of env.scenario_drivers run.spec.scenario.scenario_type) run

  -- The deadline has passed: the run fails, whatever is left.
  unfoldable pub cleanup_timed_out : ChaosRun → M Reply
  unfolding set_condition fail_run
  cleanup_timed_out run = do
    noted ←
        set_condition env run ConditionType.network_chaos_cleaned_up ConditionStatus.is_false
          "CleanupTimeout" "Cleanup did not complete within the allotted time"
    failed ←
        fail_run env noted
          "cleanup timeout: network chaos resources may not have been fully removed"
    finish_run env failed
    emit (
        Effect.event "CleanupTimeout"
          "Cleanup timed out; network chaos resources may still be present")
    after_patch env run failed (λ _. pure stop)

  abbrev pub drop_from : Fetch → M Reply
  drop_from not_found = pure (failure "not found")
  drop_from (get_failed e) = pure (failure e)
  drop_from (found fresh) =
      if env.contains_finalizer fresh
      then after_patch_object env fresh (env.remove_finalizer fresh) (λ _. pure stop)
      else pure stop

  -- The finalizer is removed from a run that is read afresh.
  unfoldable pub drop_finalizer : ChaosRun → M Reply
  drop_finalizer run =
      if env.contains_finalizer run
      then (do fresh ← fetch env run.namespace run.name; drop_from fresh)
      else pure stop

  -- An aborted run ends as Aborted, another with its pending verdict.
  unfoldable pub end_cleaned_up : ChaosRun → M ChaosRun
  unfolding abort_run finalize_run has_abort_condition final_message
  end_cleaned_up run =
      if has_abort_condition run.status.conditions
      then abort_run env run "abort requested, network chaos resources cleaned up"
      else finalize_run env run (pending_verdict run.status.verdict)
          (final_message run.status.message)

  unfoldable pub complete_cleanup : ChaosRun → ChaosRun → M Reply
  unfolding set_condition
  complete_cleanup base run = do
    noted ←
        set_condition env run ConditionType.network_chaos_cleaned_up ConditionStatus.is_true
          "CleanupComplete" "All network chaos resources removed"
    ended ← end_cleaned_up noted
    finish_run env ended
    emit (Effect.event "CleanupComplete" "Network chaos resources cleaned up, run finalized")
    after_patch env base ended drop_finalizer

  -- The status is patched and the cleanup is tried again later; the interval is read after the
  -- patch.
  unfoldable pub retry_cleanup : ChaosRun → ChaosRun → M Reply
  retry_cleanup base run =
      after_patch env base run (λ run'. pure (requeue_after run'.spec.observe.poll_interval))

  abbrev pub after_cleanup : ChaosRun → ChaosRun × Option Error → M Reply
  after_cleanup base (run, some e) = retry_cleanup base run
  after_cleanup base (run, none) =
      if is_cleanup_complete run then complete_cleanup base run else retry_cleanup base run

  unfoldable pub clean_up : ChaosRun → M Reply
  unfolding is_cleanup_complete
  clean_up run = do answer ← call_cleanup run; after_cleanup run answer

  unfoldable pub check_cleanup_deadline : Option Time → ChaosRun → M Reply
  check_cleanup_deadline none run = clean_up run
  check_cleanup_deadline (some started) run = do
    now ← current_time env
    if ltb_ℤ (started +ℤ run.spec.observe.timeout +ℤ cleanup_grace) now
        then cleanup_timed_out run
        else clean_up run

  unfoldable pub reconcile_cleaning_up : ChaosRun → M Reply
  reconcile_cleaning_up run = check_cleanup_deadline run.status.started_at run

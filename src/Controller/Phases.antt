-- ===== src/Controller/Phases.antt =====
-- The changes of a run's phase, verdict and conditions (internal/controller/phases.go). They
-- change the run in memory; the caller patches the status.
use flink_chaos_operator.Prelude.{String, Bool, true, false, some}
use flink_chaos_operator.Api.Types.{
  RunPhase, RunVerdict, ConditionType, ConditionStatus, Condition, ChaosRun,
}
use flink_chaos_operator.Controller.World.{Env, M, ◌>>=◌, pure, current_time}

abbrev pub is_terminal : RunPhase → Bool
is_terminal RunPhase.completed = true
is_terminal RunPhase.aborted = true
is_terminal RunPhase.failed = true
is_terminal _ = false

-- The status with phase and message given anew.
unfoldable pub transition_phase : ChaosRun → RunPhase → String → ChaosRun
transition_phase run phase message = record run {
  status = record (run.status) { phase = phase; message = message };
}

module _ (env : Env) where
  unfoldable pub set_condition :
      ChaosRun → ConditionType → ConditionStatus → String → String → M ChaosRun
  set_condition run type status reason message = do
    now ← current_time env
    let cond : Condition = record {
      condition_type = type;
      status = status;
      reason = reason;
      message = message;
      last_transition_time = now;
    }
    pure (record run {
      status = record (run.status) {
        conditions = env.set_status_condition cond run.status.conditions;
      };
    })

  -- What FinalizeRun, FailRun and AbortRun share: phase, verdict, endedAt and message.
  abbrev pub end_run : ChaosRun → RunPhase → RunVerdict → String → M ChaosRun
  end_run run phase verdict message = do
    now ← current_time env
    pure (record run {
      status = record (run.status) {
        phase = phase;
        verdict = verdict;
        message = message;
        ended_at = some now;
      };
    })

  unfoldable pub finalize_run : ChaosRun → RunVerdict → String → M ChaosRun
  finalize_run run verdict message = end_run run RunPhase.completed verdict message

  unfoldable pub fail_run : ChaosRun → String → M ChaosRun
  fail_run run message = end_run run RunPhase.failed RunVerdict.failed message

  unfoldable pub abort_run : ChaosRun → String → M ChaosRun
  abort_run run message = end_run run RunPhase.aborted RunVerdict.inconclusive message

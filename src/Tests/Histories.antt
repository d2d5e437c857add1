-- ===== src/Tests/Histories.antt =====
-- A pod kill through its reconciles: in Injecting, and then in Observing.
use flink_chaos_operator.Prelude.{◌+◌, ◌*◌, ◌≤◌, ◌-ℤ◌, to_int32, ◌≡◌, refl, List, [], ◌∷◌, All}
use flink_chaos_operator.Api.Types.{RunPhase}
use flink_chaos_operator.Controller.World.{found}
use flink_chaos_operator.Controller.Reconcile.{reconcile}
use flink_chaos_operator.Controller.Lifecycle.{KeepsPhases}
use flink_chaos_operator.Controller.Lifecycle.History.{
  ReconcileRequest, replay, history, phase_after, stale_patches, changes, replay-changes,
}
use flink_chaos_operator.Observers.Composite.{observe as observe_all}
use flink_chaos_operator.Observers.Kubernetes.{observe as observe_pods}
use flink_chaos_operator.Observers.FlinkRest.{observe as observe_rest}
use flink_chaos_operator.Safety.Checker.{safety_checker, check}
use flink_chaos_operator.Scenarios.PodKill.{kill_driver, select_as, delete_pods, random_select}
use flink_chaos_operator.Tests.Data.{kill_run}
use flink_chaos_operator.Tests.Answers.{server, server-KeepsPhases}

abbrev injecting : ReconcileRequest
injecting = record { env = server; namespace = "jobs"; name = "chaos-1" }

abbrev observing : ReconcileRequest
observing = record {
  env = record server { get = λ n namespace name. found (kill_run RunPhase.observing) };
  namespace = "jobs";
  name = "chaos-1";
}

abbrev two_reconciles : List ReconcileRequest
two_reconciles = injecting ∷ observing ∷ []

two_reconciles-KeepPhases : All (λ r. KeepsPhases r.env) two_reconciles
two_reconciles-KeepPhases = (server-KeepsPhases, (observing_keeps, tt))
  where
    observing_keeps : KeepsPhases observing.env
    observing_keeps = record {
      status_keeps = server-KeepsPhases.status_keeps;
      object_keeps = server-KeepsPhases.object_keeps;
      finalizer_keeps = server-KeepsPhases.finalizer_keeps;
      inject_keeps = server-KeepsPhases.inject_keeps;
      cleanup_keeps = server-KeepsPhases.cleanup_keeps;
    }

ends : phase_after RunPhase.injecting (history two_reconciles) ≡ RunPhase.completed
unfolding replay reconcile safety_checker check to_int32 ◌-ℤ◌ kill_driver select_as delete_pods
    random_select observe_all observe_pods observe_rest
ends = refl

replay-changes_example :
    changes RunPhase.injecting (history two_reconciles)
    ≤ 4 + 5 * stale_patches RunPhase.injecting (history two_reconciles)
replay-changes_example = replay-changes RunPhase.injecting two_reconciles two_reconciles-KeepPhases

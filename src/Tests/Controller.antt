-- ===== src/Tests/Controller.antt =====
-- The controller's reconciles of concrete runs.
use flink_chaos_operator.Prelude.{
  ◌-◌, ◌%◌, pos, negsuc, +ℤ_parts, ◌≡◌, refl, sym, ap, subst, Option, some, [], arith,
}
use flink_chaos_operator.Api.Types.{Time, RunPhase, ChaosRun}
use flink_chaos_operator.Interfaces.{Result, ok, err}
use flink_chaos_operator.Controller.World.{Env}
use flink_chaos_operator.Controller.Rules.{Holds}
use flink_chaos_operator.Controller.Pending.{reconcile_pending, is_failed}
use flink_chaos_operator.Controller.Injecting.{reconcile_injecting}
use flink_chaos_operator.Controller.Observing.{reconcile_observing}
use flink_chaos_operator.Controller.Reconcile.{reconcile}
use flink_chaos_operator.Controller.Lifecycle.{KeepsDiagram}
use flink_chaos_operator.Controller.Lifecycle.Reconcile.{reconcile-KeepsDiagram}
use flink_chaos_operator.Controller.Permitted.{
  InjectsPermitted, reconcile_injecting-InjectsPermitted,
}
use flink_chaos_operator.Controller.Partition.{IsHeld, SeesNothing, reconcile_observing-SeesNothing}
use flink_chaos_operator.Controller.CheckpointWait.{
  NotFailing, IsCutTo, KeepsStored, IsPrompt, reconcile_pending-NotFailing,
}
use flink_chaos_operator.Api.Validation.{
  validate, validate_target_spec, validate_scenario_spec, validate_observe_spec,
}
use flink_chaos_operator.Tests.Data.{kill_run, partition_run, partition_network}
use flink_chaos_operator.Tests.Answers.{server, start, no_peers, server-KeepsPhases}

reconcile-KeepsDiagram_example : Holds KeepsDiagram (reconcile server "jobs" "chaos-1" start).1
reconcile-KeepsDiagram_example =
    reconcile-KeepsDiagram server server-KeepsPhases "jobs" "chaos-1" start tt

reconcile_injecting-InjectsPermitted_example :
    Holds
      (InjectsPermitted no_peers)
      (reconcile_injecting server (kill_run RunPhase.injecting) start).1
reconcile_injecting-InjectsPermitted_example =
    reconcile_injecting-InjectsPermitted (λ e. "refused") no_peers server
      (kill_run RunPhase.injecting) start refl refl

abbrev held_run : ChaosRun
held_run = record (partition_run RunPhase.observing) {
  status = record ((partition_run RunPhase.observing).status) {
    observing_started_at = some (pos 0);
  };
}

held_run-IsHeld : IsHeld held_run partition_network (pos 60000000000) (pos 0)
held_run-IsHeld = record {
  partition = refl;
  network = refl;
  duration = refl;
  started = refl;
  observed = refl;
  unreplaced = refl;
  unrecovered = refl;
}

reconcile_observing-SeesNothing_example :
    Holds SeesNothing (reconcile_observing server held_run start).1
reconcile_observing-SeesNothing_example =
    reconcile_observing-SeesNothing server held_run-IsHeld start tt

-- A clock that stands still, and a server that stores the start time in whole seconds and a timeout
-- of ten minutes.
abbrev in_whole_seconds : Option Time → Option Time
in_whole_seconds (some (pos t)) = some (pos (t - t % 1000000000))
in_whole_seconds at = at

abbrev as_stored : ChaosRun → ChaosRun
as_stored run = record run {
  spec = (kill_run RunPhase.pending).spec;
  status = record (run.status) { started_at = in_whole_seconds run.status.started_at };
}

abbrev quick_server : Env
quick_server = record server {
  now = λ n. pos 1500000000;
  patch_status = λ n base run. ok (as_stored run);
}

cut_by_server : (t : Time) → IsCutTo t (in_whole_seconds (some t))
cut_by_server (pos t) =
    let parts = +ℤ_parts (pos (t - t % 1000000000)) (pos 1000000000) in omega (arith, parts)
cut_by_server (negsuc t) = let parts = +ℤ_parts (negsuc t) (pos 1000000000) in omega (arith, parts)

same_run : (run run' : ChaosRun) → ok run ≡ ok run' → run ≡ run'
same_run run run' e = ap from_ok e
  where
    from_ok : Result ChaosRun → ChaosRun
    from_ok (ok r) = r
    from_ok (err x) = run

quick_server-KeepsStored : KeepsStored quick_server (some (pos 600000000000))
quick_server-KeepsStored n base run run' t started e =
    subst
      (λ r.
        (r.status.phase ≡ run.status.phase)
        × IsCutTo t r.status.started_at
        × (r.spec.observe.flink_rest.checkpoint_wait_timeout ≡ some (pos 600000000000)))
      (same_run (as_stored run) run' e)
      (refl, subst (λ at. IsCutTo t (in_whole_seconds at)) (sym started) (cut_by_server t), refl)

pending_is_valid : validate quick_server.parse_cidr (kill_run RunPhase.pending) ≡ []
unfolding validate validate_target_spec validate_scenario_spec validate_observe_spec
pending_is_valid = refl

reconcile_pending-NotFailing_example :
    Holds NotFailing (reconcile_pending quick_server (kill_run RunPhase.pending) start).1
unfolding is_failed
reconcile_pending-NotFailing_example =
    reconcile_pending-NotFailing quick_server (some (pos 600000000000)) quick_server-KeepsStored
      (kill_run RunPhase.pending) start pending_is_valid refl in_time tt
  where
    in_time : IsPrompt quick_server start.step (some (pos 600000000000))
    in_time n =
        let a = +ℤ_parts (pos 1500000000) (pos 1000000000) in
        let b = +ℤ_parts (pos 1500000000) (pos 600000000000) in omega (arith, a, b)

-- ===== src/Tests/Cleanup.antt =====
-- The CleaningUp phase of a concrete partition.
use flink_chaos_operator.Prelude.{pos, ◌+ℤ◌, ◌<ℤ◌, refl, [], arith}
use flink_chaos_operator.Api.Types.{RunPhase}
use flink_chaos_operator.Controller.World.{World}
use flink_chaos_operator.Controller.Rules.{Holds}
use flink_chaos_operator.Controller.Cleaning.{cleanup_grace, reconcile_cleaning_up}
use flink_chaos_operator.Controller.Cleaned.{EndsClean, reconcile_cleaning_up-EndsClean}
use flink_chaos_operator.Controller.Deadline.{
  LeavesResources, TakesPatches, IsStuck, cleaning_up_past_deadline,
}
use flink_chaos_operator.Tests.Data.{partition_run}
use flink_chaos_operator.Tests.Answers.{server, start, server-KeepsPhases, server-KeepsPhase}

reconcile_cleaning_up-EndsClean_example :
    Holds EndsClean (reconcile_cleaning_up server (partition_run RunPhase.cleaning_up) start).1
reconcile_cleaning_up-EndsClean_example =
    reconcile_cleaning_up-EndsClean server server-KeepsPhases (partition_run RunPhase.cleaning_up)
      start refl tt

server-TakesPatches : TakesPatches server
server-TakesPatches n base run = (run, refl)

-- A reconcile that starts a quarter of an hour later.
abbrev late_start : World
late_start = record { step = 900; trace = [] }

deadline_passed :
    pos 0 +ℤ (partition_run RunPhase.cleaning_up).spec.observe.timeout +ℤ cleanup_grace
    <ℤ server.now late_start.step
unfolding ◌+ℤ◌
deadline_passed = omega arith

cleaning_up_past_deadline_example :
    Holds LeavesResources
      (reconcile_cleaning_up server (partition_run RunPhase.cleaning_up) late_start).1
    × IsStuck (reconcile_cleaning_up server (partition_run RunPhase.cleaning_up) late_start).1
cleaning_up_past_deadline_example =
    cleaning_up_past_deadline server server-KeepsPhase server-TakesPatches
      (partition_run RunPhase.cleaning_up) (pos 0) late_start refl deadline_passed tt

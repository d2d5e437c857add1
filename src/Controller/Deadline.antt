-- ===== src/Controller/Deadline.antt =====
-- The deadline of the CleaningUp phase (reconcileCleaningUp and Reconcile of
-- internal/controller/chaosrun_controller.go).
use flink_chaos_operator.Prelude.{
  ℕ, ◌+◌, ◌+ℤ◌, ◌<ℤ◌, ◌≡◌, refl, ◌∙◌, true, List, [], ◌∷◌, Option, none, some, arith, ltb_ℤ,
}
use flink_chaos_operator.Api.Types.{RunPhase, Time, ChaosRun}
use flink_chaos_operator.Interfaces.{ok}
use flink_chaos_operator.Controller.World.{Env, World, Effect, stop, pure, note, after_patch}
use flink_chaos_operator.Controller.Rules.{Holds, after_patch-ok, after_patch-Holds}
use flink_chaos_operator.Controller.Phases.{is_terminal}
use flink_chaos_operator.Controller.Observing.{finish_run, record_duration}
use flink_chaos_operator.Controller.Cleaning.{
  cleanup_timed_out, cleanup_grace, check_cleanup_deadline, reconcile_cleaning_up,
}
use flink_chaos_operator.Controller.Reconcile.{reconcile_run}
use flink_chaos_operator.Controller.Lifecycle.{KeepsPhase}
use flink_chaos_operator.Controller.Lifecycle.Reconcile.{terminal_left_alone}

-- No patch of the object, by which alone a finalizer is removed, and no further cleanup.
abbrev pub LeavesResources : Effect → Type 0
LeavesResources (Effect.object_patched base run answer) = ⊥
LeavesResources (Effect.cleanup_called run answer) = ⊥
LeavesResources _ = Unit

-- The server takes every status patch.
abbrev pub TakesPatches : Env → Type 0
TakesPatches env =
    (n : ℕ) (base run : ChaosRun) → (run' : ChaosRun) × (env.patch_status n base run ≡ ok run')

failed_is_terminal : (p : RunPhase) → p ≡ RunPhase.failed → is_terminal p ≡ true
failed_is_terminal p e = ground arith

-- What the server stores after a reconcile: its answer to the last status patch.
abbrev pub stored : List Effect → Option ChaosRun
stored [] = none
stored (Effect.status_patched base run (ok run') ∷ es) = some run'
stored (e ∷ es) = stored es

-- A failed run is stored, and no later reconcile does anything with it.
abbrev pub IsStuck : World → Type 0
IsStuck w =
    (run' : ChaosRun) × (stored w.trace ≡ some run')
    × (run'.status.phase ≡ RunPhase.failed)
    × ((later : Env) (w' : World) → reconcile_run later run' w' ≡ (stop, w'))

module _ (env : Env) (keeps : KeepsPhase env) (takes : TakesPatches env) where
  last_patch-IsStuck :
      (base run : ChaosRun) (w : World)
      → run.status.phase ≡ RunPhase.failed
      → IsStuck (after_patch env base run (λ _. pure stop) w).1
  last_patch-IsStuck base run w p =
      let (run', e) = takes w.step base run in
      let failed : run'.status.phase ≡ RunPhase.failed = keeps w.step base run run' e ∙ p in
      (
        run',
        stored_of run' e,
        failed,
        λ later w'. terminal_left_alone later run' w' (failed_is_terminal _ failed),
      )
    where
      stored_of :
          (run' : ChaosRun)
          → env.patch_status w.step base run ≡ ok run'
          → stored (after_patch env base run (λ _. pure stop) w).1.trace ≡ some run'
      stored_of run' e =
          rw (after_patch-ok env LeavesResources base run run' (λ _. pure stop) w e) (rw e)

  cleanup_timed_out-IsStuck : (run : ChaosRun) (w : World) → IsStuck (cleanup_timed_out env run w).1
  unfolding cleanup_timed_out
  cleanup_timed_out-IsStuck run w = last_patch-IsStuck run _ _ refl

  finish_run-LeavesResources :
      (run : ChaosRun) (w : World)
      → Holds LeavesResources w
      → Holds LeavesResources (finish_run env run w).1
  unfolding finish_run
  finish_run-LeavesResources run w h = (tt, timed run.status.started_at)
    where
      counted : World
      counted =
          note
            (Effect.runs_total run.spec.scenario.scenario_type run.status.phase run.status.verdict)
            w

      timed : (t : Option Time) → Holds LeavesResources (record_duration env t run counted).1
      timed none = (tt, h)
      timed (some t) = (tt, (tt, h))

  cleanup_timed_out-LeavesResources :
      (run : ChaosRun) (w : World)
      → Holds LeavesResources w
      → Holds LeavesResources (cleanup_timed_out env run w).1
  unfolding cleanup_timed_out
  cleanup_timed_out-LeavesResources run w h =
      after_patch-Holds env LeavesResources run _ _ _ (tt, finish_run-LeavesResources _ _ h) tt
        (λ run' w' e h'. h')

  -- Once the deadline of the cleanup, startedAt + observe.timeout + 5 minutes, has passed, the
  -- CleaningUp phase calls no cleanup and patches no finalizer away; the run that the server then
  -- stores is Failed, and every later reconcile of it, a deletion included, does nothing. So a
  -- finalizer on it stays. It holds where the server takes status patches and keeps their phase.
  pub cleaning_up_past_deadline :
      (run : ChaosRun) (t : Time) (w : World)
      → run.status.started_at ≡ some t
      → t +ℤ run.spec.observe.timeout +ℤ cleanup_grace <ℤ env.now w.step
      → Holds LeavesResources w
      → Holds LeavesResources (reconcile_cleaning_up env run w).1
        × IsStuck (reconcile_cleaning_up env run w).1
  unfolding reconcile_cleaning_up check_cleanup_deadline
  cleaning_up_past_deadline run t w s late h =
      let timed : World = record w { step = w.step + 1 } in
      let past : ltb_ℤ (t +ℤ run.spec.observe.timeout +ℤ cleanup_grace) (env.now w.step) ≡ true =
        ground arith in
      simp (s, past)
        (cleanup_timed_out-LeavesResources run timed h, cleanup_timed_out-IsStuck run timed)

-- ===== src/Controller/Lifecycle/Reconcile.antt =====
-- A whole reconcile keeps to the lifecycle, and leaves a terminal run alone.
use flink_chaos_operator.Prelude.{
  ◌+◌, String, ◌≡◌, refl, inl, inr, Bool, true, false, not, ◌&&◌, Option, none, some, arith,
  is_some,
}
use flink_chaos_operator.Api.Types.{RunPhase, ChaosRun}
use flink_chaos_operator.Api.Defaults.{set_defaults}
use flink_chaos_operator.Interfaces.{Error}
use flink_chaos_operator.Controller.World.{
  Env, World, stop, pure, Fetch, found, not_found, get_failed,
}
use flink_chaos_operator.Controller.Rules.{
  Holds, if-Holds, after_patch-Holds, after_patch_object-Holds,
}
use flink_chaos_operator.Controller.Phases.{is_terminal}
use flink_chaos_operator.Controller.Injecting.{needs_cleanup}
use flink_chaos_operator.Controller.Cleaning.{call_cleanup}
use flink_chaos_operator.Controller.Reconcile.{
  is_before_injection, is_cleaning_up, after_delete_cleanup, handle_deletion, handle_abort,
  dispatch, reconcile_run, reconcile_fetched, reconcile,
}
use flink_chaos_operator.Controller.Lifecycle.{leads_to, KeepsDiagram, KeepsPhases}
use flink_chaos_operator.Controller.Lifecycle.Pending.{pending-Holds}
use flink_chaos_operator.Controller.Lifecycle.Injecting.{injecting-Holds}
use flink_chaos_operator.Controller.Lifecycle.Observing.{observing-Holds}
use flink_chaos_operator.Controller.Lifecycle.Cleaning.{call_cleanup-Holds, cleaning_up-Holds}

-- Where an abort may go.
to_aborted : (p : RunPhase) → is_terminal p ≡ false → leads_to p RunPhase.aborted ≡ true
to_aborted p t = ground arith

to_cleaning_up :
    (p : RunPhase)
    → is_terminal p ≡ false
    → is_before_injection p ≡ false
    → leads_to p RunPhase.cleaning_up ≡ true
to_cleaning_up p t b = ground arith

and_right : (a b : Bool) → (a && not b) ≡ true → b ≡ false
and_right a b h = ground arith

module _ (env : Env) (keeps : KeepsPhases env) where
  after_delete_cleanup-Holds :
      (answer : ChaosRun × Option Error) (w : World)
      → Holds KeepsDiagram w
      → Holds KeepsDiagram (after_delete_cleanup env answer w).1
  after_delete_cleanup-Holds (run, some e) w h = h
  after_delete_cleanup-Holds (run, none) w h =
      after_patch_object-Holds env KeepsDiagram run (env.remove_finalizer run) (λ _. pure stop) w h
        tt (λ run' w' e h'. h')

  handle_deletion-Holds :
      (run : ChaosRun) (w : World)
      → Holds KeepsDiagram w
      → Holds KeepsDiagram (handle_deletion env run w).1
  unfolding handle_deletion
  handle_deletion-Holds run w h =
      after_delete_cleanup-Holds (call_cleanup env run w).0 _
        (call_cleanup-Holds env keeps run w h).1

  handle_abort-Holds :
      (run : ChaosRun) (w : World)
      → is_terminal run.status.phase ≡ false
      → Holds KeepsDiagram w
      → Holds KeepsDiagram (handle_abort env run w).1
  unfolding handle_abort
  handle_abort-Holds run w t h =
      if-Holds KeepsDiagram
        (needs_cleanup run.spec.scenario.scenario_type
          && not (is_before_injection run.status.phase))
        _ _ _
        (λ b.
          after_patch-Holds env KeepsDiagram run _ _ _ (tt, (tt, h))
            (to_cleaning_up _ t (and_right (needs_cleanup run.spec.scenario.scenario_type) _ b))
            (λ run' w' e h'. h'))
        (λ _.
          after_patch-Holds env KeepsDiagram run _ _ _ (tt, (tt, h)) (to_aborted _ t)
            (λ run' w' e h'. (tt, h')))

  dispatch-Holds :
      (p : RunPhase) (run : ChaosRun) (w : World)
      → run.status.phase ≡ p
      → Holds KeepsDiagram w
      → Holds KeepsDiagram (dispatch env p run w).1
  unfolding dispatch
  dispatch-Holds RunPhase.unset run w e h = pending-Holds env keeps run w (inl e) h
  dispatch-Holds RunPhase.pending run w e h = pending-Holds env keeps run w (inr e) h
  dispatch-Holds RunPhase.injecting run w e h = injecting-Holds env keeps run w e h
  dispatch-Holds RunPhase.observing run w e h = observing-Holds env run e w h
  dispatch-Holds RunPhase.cleaning_up run w e h = cleaning_up-Holds env keeps run w e h
  dispatch-Holds _ run w e h = h

  reconcile_run-Holds :
      (run : ChaosRun) (w : World)
      → Holds KeepsDiagram w
      → Holds KeepsDiagram (reconcile_run env run w).1
  unfolding reconcile_run
  reconcile_run-Holds run w h =
      if-Holds KeepsDiagram (is_terminal run.status.phase) _ _ w (λ _. h)
        (λ t.
          if-Holds KeepsDiagram (is_some run.deletion_timestamp && env.contains_finalizer run) _ _ w
            (λ _. handle_deletion-Holds run w h)
            (λ _.
              if-Holds KeepsDiagram
                (run.spec.control.abort && not (is_cleaning_up run.status.phase)) _ _ w
                (λ _. handle_abort-Holds run w t h)
                (λ _. dispatch-Holds run.status.phase run w refl h)))

  -- Every status patch that a reconcile sends moves the run along an edge of the lifecycle, or
  -- leaves its phase: from "" and Pending to Injecting, Failed and Aborted; from Injecting to
  -- Observing, CleaningUp, Completed, Failed and Aborted; from Observing to CleaningUp, Completed
  -- and Aborted; from CleaningUp to Completed, Failed and Aborted; from an unknown phase to
  -- CleaningUp and Aborted; and from no terminal phase. It holds where the server answers a patch
  -- with the phase that was sent, and where the scenario drivers leave the phase alone.
  pub reconcile-KeepsDiagram :
      (namespace name : String) (w : World)
      → Holds KeepsDiagram w
      → Holds KeepsDiagram (reconcile env namespace name w).1
  unfolding reconcile
  reconcile-KeepsDiagram namespace name w h = fetched (env.get w.step namespace name)
    where
      fetched :
          (f : Fetch)
          → Holds KeepsDiagram (reconcile_fetched env f (record w { step = w.step + 1 })).1
      fetched not_found = h
      fetched (get_failed e) = h
      fetched (found run) = reconcile_run-Holds (set_defaults run) _ h

-- A run in a terminal phase is left as it is, whatever its specification asks: no call is made.
-- This includes a run that is being deleted and still carries the finalizer.
pub terminal_left_alone :
    (env : Env) (run : ChaosRun) (w : World)
    → is_terminal run.status.phase ≡ true
    → reconcile_run env run w ≡ (stop, w)
unfolding reconcile_run
terminal_left_alone env run w t = ground arith

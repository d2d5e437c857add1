-- ===== src/Controller/Lifecycle/Cleaning.antt =====
-- The CleaningUp phase keeps to the lifecycle.
use flink_chaos_operator.Prelude.{ℕ, ◌+ℤ◌, ◌≡◌, refl, ◌∙◌, true, Option, none, some, arith, ltb_ℤ}
use flink_chaos_operator.Api.Types.{RunPhase, Time, ChaosRun}
use flink_chaos_operator.Interfaces.{Error}
use flink_chaos_operator.Controller.World.{
  Env, World, Fetch, found, not_found, get_failed, pure, stop,
}
use flink_chaos_operator.Controller.Rules.{
  Holds, if-Holds, after_patch-Holds, after_patch_object-Holds,
}
use flink_chaos_operator.Controller.Cleaning.{
  cleanup_of, cleanup_with, call_cleanup, cleanup_timed_out, drop_from, drop_finalizer,
  end_cleaned_up, complete_cleanup, retry_cleanup, after_cleanup, clean_up, cleanup_grace,
  is_cleanup_complete, check_cleanup_deadline, reconcile_cleaning_up,
}
use flink_chaos_operator.Controller.Lifecycle.{leads_to, KeepsDiagram, KeepsPhases}
use flink_chaos_operator.Controller.Lifecycle.Observing.{finish_run-Holds}

to_failed : (p : RunPhase) → p ≡ RunPhase.cleaning_up → leads_to p RunPhase.failed ≡ true
to_failed p e = ground arith

to_same :
    (p q : RunPhase) → p ≡ RunPhase.cleaning_up → q ≡ RunPhase.cleaning_up → leads_to p q ≡ true
to_same p q e f = ground arith

module _ (env : Env) where
  drop_from-Holds :
      (fresh : Fetch) (w : World)
      → Holds KeepsDiagram w
      → Holds KeepsDiagram (drop_from env fresh w).1
  drop_from-Holds not_found w h = h
  drop_from-Holds (get_failed e) w h = h
  drop_from-Holds (found fresh) w h =
      if-Holds KeepsDiagram (env.contains_finalizer fresh) _ _ w
        (λ _.
          after_patch_object-Holds env KeepsDiagram fresh (env.remove_finalizer fresh)
            (λ _. pure stop) w h tt (λ run' w' e h'. h'))
        (λ _. h)

  drop_finalizer-Holds :
      (run : ChaosRun) (w : World)
      → Holds KeepsDiagram w
      → Holds KeepsDiagram (drop_finalizer env run w).1
  unfolding drop_finalizer
  drop_finalizer-Holds run w h =
      if-Holds KeepsDiagram (env.contains_finalizer run) _ _ w
        (λ _. drop_from-Holds (env.get w.step run.namespace run.name) _ h) (λ _. h)

  cleanup_timed_out-Holds :
      (run : ChaosRun) (w : World)
      → run.status.phase ≡ RunPhase.cleaning_up
      → Holds KeepsDiagram w
      → Holds KeepsDiagram (cleanup_timed_out env run w).1
  unfolding cleanup_timed_out
  cleanup_timed_out-Holds run w p h =
      after_patch-Holds env KeepsDiagram run _ _ _ (tt, finish_run-Holds env _ _ h) (to_failed _ p)
        (λ run' w' e h'. h')

  -- A run that is cleaned up ends as Aborted or Completed.
  end_cleaned_up-phase :
      (base run : ChaosRun) (w : World)
      → base.status.phase ≡ RunPhase.cleaning_up
      → leads_to base.status.phase (end_cleaned_up env run w).0.status.phase ≡ true
  unfolding end_cleaned_up
  end_cleaned_up-phase base run w p = ground arith

  end_cleaned_up-Holds :
      (run : ChaosRun) (w : World)
      → Holds KeepsDiagram w
      → Holds KeepsDiagram (end_cleaned_up env run w).1
  unfolding end_cleaned_up
  end_cleaned_up-Holds run w h = ground arith

  complete_cleanup-Holds :
      (base run : ChaosRun) (w : World)
      → base.status.phase ≡ RunPhase.cleaning_up
      → Holds KeepsDiagram w
      → Holds KeepsDiagram (complete_cleanup env base run w).1
  unfolding complete_cleanup
  complete_cleanup-Holds base run w p h =
      after_patch-Holds env KeepsDiagram base _ (drop_finalizer env) _
        (tt, finish_run-Holds env _ _ (end_cleaned_up-Holds _ _ h))
        (end_cleaned_up-phase base _ _ p) (λ run' w' e h'. drop_finalizer-Holds run' w' h')

  retry_cleanup-Holds :
      (base run : ChaosRun) (w : World)
      → base.status.phase ≡ RunPhase.cleaning_up
      → run.status.phase ≡ RunPhase.cleaning_up
      → Holds KeepsDiagram w
      → Holds KeepsDiagram (retry_cleanup env base run w).1
  unfolding retry_cleanup
  retry_cleanup-Holds base run w p q h =
      after_patch-Holds env KeepsDiagram base _ _ _ h (to_same _ _ p q) (λ run' w' e h'. h')

  after_cleanup-Holds :
      (base : ChaosRun) (answer : ChaosRun × Option Error) (w : World)
      → base.status.phase ≡ RunPhase.cleaning_up
      → answer.0.status.phase ≡ RunPhase.cleaning_up
      → Holds KeepsDiagram w
      → Holds KeepsDiagram (after_cleanup env base answer w).1
  after_cleanup-Holds base (run, some e) w p q h = retry_cleanup-Holds base run w p q h
  after_cleanup-Holds base (run, none) w p q h =
      if-Holds KeepsDiagram (is_cleanup_complete run) _ _ w
        (λ _. complete_cleanup-Holds base run w p h) (λ _. retry_cleanup-Holds base run w p q h)

module _ (env : Env) (keeps : KeepsPhases env) where
  pub call_cleanup-Holds :
      (run : ChaosRun) (w : World)
      → Holds KeepsDiagram w
      → ((call_cleanup env run w).0.0.status.phase ≡ run.status.phase)
        × Holds KeepsDiagram (call_cleanup env run w).1
  unfolding call_cleanup
  call_cleanup-Holds run w h =
      by (cleanup_of env.scenario_drivers run.spec.scenario.scenario_type) refl
    where
      by :
          (c : Option (ℕ → ChaosRun → ChaosRun × Option Error))
          → cleanup_of env.scenario_drivers run.spec.scenario.scenario_type ≡ c
          → ((cleanup_with env c run w).0.0.status.phase ≡ run.status.phase)
            × Holds KeepsDiagram (cleanup_with env c run w).1
      by none e = (refl, h)
      by (some cleanup) e = (keeps.cleanup_keeps _ cleanup e w.step run, (tt, h))

  clean_up-Holds :
      (run : ChaosRun) (w : World)
      → run.status.phase ≡ RunPhase.cleaning_up
      → Holds KeepsDiagram w
      → Holds KeepsDiagram (clean_up env run w).1
  unfolding clean_up
  clean_up-Holds run w p h =
      let (same, h') = call_cleanup-Holds run w h in
      after_cleanup-Holds env run (call_cleanup env run w).0 _ p (same ∙ p) h'

  pub cleaning_up-Holds :
      (run : ChaosRun) (w : World)
      → run.status.phase ≡ RunPhase.cleaning_up
      → Holds KeepsDiagram w
      → Holds KeepsDiagram (reconcile_cleaning_up env run w).1
  unfolding reconcile_cleaning_up check_cleanup_deadline
  cleaning_up-Holds run w p h = by_deadline run.status.started_at
    where
      by_deadline : (t : Option Time) → Holds KeepsDiagram (check_cleanup_deadline env t run w).1
      by_deadline none = clean_up-Holds run w p h
      by_deadline (some t) =
          if-Holds KeepsDiagram
            (ltb_ℤ (t +ℤ run.spec.observe.timeout +ℤ cleanup_grace) (env.now w.step)) _ _ _
            (λ _. cleanup_timed_out-Holds env run _ p h) (λ _. clean_up-Holds run _ p h)

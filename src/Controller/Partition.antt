-- ===== src/Controller/Partition.antt =====
-- The observation of a network partition (reconcileObserving of
-- internal/controller/chaosrun_controller.go).
use flink_chaos_operator.Prelude.{
  ◌-ℤ◌, String, sym, subst, ap, ◌≡◌, refl, ◌⊎◌, inl, inr, true, false, some, arith, ltb_ℤ, leb_ℤ,
}
use flink_chaos_operator.Api.Types.{
  RunVerdict, ScenarioType, NetworkChaosSpec, Time, Duration, ChaosRun,
}
use flink_chaos_operator.Controller.World.{Env, World, Effect}
use flink_chaos_operator.Controller.Rules.{Holds, if-Holds, after_patch-Holds}
use flink_chaos_operator.Controller.Injecting.{needs_cleanup}
use flink_chaos_operator.Controller.Observing.{
  go_clean_up, window_elapsed, lift_partition, hold_partition, observe_by, observe_within_window,
  check_window, reconcile_observing,
}
use flink_chaos_operator.Controller.Outcomes.{
  cleanup_outcome, partition_window, observe_anchor, anchor_of, recovery_seen, set_verdict,
}

-- A partition that is being observed, with no recovery seen so far.
pub record IsHeld (run : ChaosRun) (n : NetworkChaosSpec) (d : Duration) (t : Time) : Type 0 where
  pub partition : run.spec.scenario.scenario_type ≡ ScenarioType.network_partition
  pub network : run.spec.scenario.network ≡ some n
  pub duration : n.duration ≡ some d
  pub started : run.status.observing_started_at ≡ some t
  pub observed : run.spec.observe.enabled ≡ true
  pub unreplaced : run.status.replacement_observed ≡ false
  pub unrecovered : recovery_seen run.status.observation ≡ false

-- The observer is not asked, no recovery is recorded, and no patch makes the verdict Passed.
abbrev pub SeesNothing : Effect → Type 0
SeesNothing (Effect.observe_called run answer) = ⊥
SeesNothing (Effect.status_patched base run answer) =
    (run.status.replacement_observed ≡ false)
    × (recovery_seen run.status.observation ≡ false)
    × ((run.status.verdict ≡ base.status.verdict)
        ⊎ (run.status.verdict ≡ RunVerdict.inconclusive)
        ⊎ (run.status.verdict ≡ RunVerdict.failed))
SeesNothing _ = Unit

module _ (env : Env) {run : ChaosRun} {n : NetworkChaosSpec} {d : Duration} {t : Time}
    (held : IsHeld run n d t) where
  -- A transition to CleaningUp whose verdict is not Passed.
  go_clean_up-SeesNothing :
      (v : RunVerdict) (message : String) (w : World)
      → (v ≡ RunVerdict.inconclusive) ⊎ (v ≡ RunVerdict.failed)
      → Holds SeesNothing w
      → Holds SeesNothing (go_clean_up env run (set_verdict run v) message w).1
  unfolding go_clean_up
  go_clean_up-SeesNothing v message w fair h =
      after_patch-Holds env SeesNothing run _ _ w h (held.unreplaced, held.unrecovered, inr fair)
        (λ run' w' e h'. h')

  outcome_is_failed : (secs : String) → (cleanup_outcome run secs).0 ≡ RunVerdict.failed
  unfolding cleanup_outcome
  outcome_is_failed secs = ground arith

  window_elapsed-SeesNothing :
      (w : World) → Holds SeesNothing w → Holds SeesNothing (window_elapsed env run w).1
  unfolding window_elapsed
  window_elapsed-SeesNothing w h =
      if-Holds SeesNothing (needs_cleanup run.spec.scenario.scenario_type) _ _ w
        (λ _. go_clean_up-SeesNothing _ _ w (inr (outcome_is_failed _)) h)
        (λ out. absurd (ground arith))

  lift_partition-SeesNothing :
      (w : World) → Holds SeesNothing w → Holds SeesNothing (lift_partition env run w).1
  unfolding lift_partition
  lift_partition-SeesNothing w h =
      if-Holds SeesNothing run.status.replacement_observed _ _ w (λ seen. absurd (ground arith))
        (λ _. go_clean_up-SeesNothing _ _ w (inl refl) h)

  hold_partition-SeesNothing :
      (w : World) → Holds SeesNothing w → Holds SeesNothing (hold_partition env run t d w).1
  unfolding hold_partition
  hold_partition-SeesNothing w h =
      if-Holds SeesNothing (leb_ℤ d (env.now w.step -ℤ t)) _ _ _
        (λ _. lift_partition-SeesNothing _ h)
        (λ _.
          after_patch-Holds env SeesNothing run run _ _ h
            (held.unreplaced, held.unrecovered, inl refl) (λ run' w' e h'. h'))

  -- The window of a held partition is its duration.
  window_of_held :
      partition_window run.spec.scenario.scenario_type run.spec.scenario.network
        run.status.observing_started_at
      ≡ some (t, d)
  unfolding partition_window
  window_of_held = simp (held.partition, held.network, held.started, held.duration)

  observe_within_window-SeesNothing :
      (w : World) → Holds SeesNothing w → Holds SeesNothing (observe_within_window env run w).1
  unfolding observe_within_window
  observe_within_window-SeesNothing w h =
      subst (λ window. Holds SeesNothing (observe_by env window run w).1) (sym window_of_held)
        (hold_partition-SeesNothing w h)

  check_window-SeesNothing :
      (w : World) → Holds SeesNothing w → Holds SeesNothing (check_window env (some t) run w).1
  unfolding check_window
  check_window-SeesNothing w h =
      if-Holds SeesNothing (ltb_ℤ run.spec.observe.timeout (env.now w.step -ℤ t)) _ _ _
        (λ _. window_elapsed-SeesNothing _ h) (λ _. observe_within_window-SeesNothing _ h)

  -- While a network partition with a duration is observed, with neither a replacement nor a
  -- recovery on record, a reconcile of the phase asks no observer, so both stay unseen, and sends no status
  -- patch that makes the verdict Passed.
  pub reconcile_observing-SeesNothing :
      (w : World) → Holds SeesNothing w → Holds SeesNothing (reconcile_observing env run w).1
  unfolding reconcile_observing
  reconcile_observing-SeesNothing w h =
      if-Holds SeesNothing run.spec.observe.enabled _ _ w
        (λ _.
          subst (λ anchor. Holds SeesNothing (check_window env anchor run w).1) (sym anchor_of_held)
            (check_window-SeesNothing w h))
        (λ off. absurd (ground arith))
    where
      anchor_of_held : observe_anchor run ≡ some t
      anchor_of_held = ap (λ o. anchor_of o run.status.started_at) held.started

-- ===== src/Controller/Lifecycle/Observing.antt =====
-- The Observing phase keeps to the lifecycle.
use flink_chaos_operator.Prelude.{
  ◌-ℤ◌, String, ◌≡◌, true, not, ◌&&◌, Option, none, some, arith, ltb_ℤ, leb_ℤ,
}
use flink_chaos_operator.Api.Types.{RunPhase, RunVerdict, Time, Duration, TargetType, ChaosRun}
use flink_chaos_operator.Interfaces.{
  Result, ok, err, ResolvedTarget, TargetResolver, ObservationResult, Observer,
}
use flink_chaos_operator.Controller.World.{Env, World, Effect, note}
use flink_chaos_operator.Controller.Rules.{Holds, if-Holds, after_patch-Holds}
use flink_chaos_operator.Controller.Phases.{set_condition}
use flink_chaos_operator.Controller.Injecting.{
  needs_cleanup, resolve_by, resolve_with, resolve_target,
}
use flink_chaos_operator.Controller.Observing.{
  finish_run, record_duration, finalize_and_stop, go_clean_up, observation_disabled, window_elapsed,
  lift_partition, hold_partition, observe_with, observe_recovery, record_observation,
  stamp_recovery, end_recovered, recovered, take_observation, after_poll, poll_recovery, observe_by,
  observe_within_window, check_window, reconcile_observing,
}
use flink_chaos_operator.Controller.Outcomes.{
  observe_anchor, partition_window, recovery_seen, nothing_observed,
}
use flink_chaos_operator.Controller.Lifecycle.{leads_to, KeepsDiagram}

to_completed : (p : RunPhase) → p ≡ RunPhase.observing → leads_to p RunPhase.completed ≡ true
to_completed p e = ground arith

to_cleaning_up : (p : RunPhase) → p ≡ RunPhase.observing → leads_to p RunPhase.cleaning_up ≡ true
to_cleaning_up p e = ground arith

to_same : (p : RunPhase) → p ≡ RunPhase.observing → leads_to p p ≡ true
to_same p e = ground arith

module _ (env : Env) where
  pub finish_run-Holds :
      (run : ChaosRun) (w : World)
      → Holds KeepsDiagram w
      → Holds KeepsDiagram (finish_run env run w).1
  unfolding finish_run
  finish_run-Holds run w h = (tt, timed run.status.started_at)
    where
      timed :
          (t : Option Time)
          → Holds KeepsDiagram
              (record_duration env t run (
                note
                  (Effect.runs_total run.spec.scenario.scenario_type run.status.phase
                    run.status.verdict)
                  w)).1
      timed none = (tt, h)
      timed (some t) = (tt, (tt, h))

  -- What the handlers of the phase do once they have decided; the base is the run as read.
  module _ (base : ChaosRun) (p : base.status.phase ≡ RunPhase.observing) where
    finalize_and_stop-Holds :
        (run : ChaosRun) (v : RunVerdict) (message : String) (w : World)
        → Holds KeepsDiagram w
        → Holds KeepsDiagram (finalize_and_stop env base run v message w).1
    unfolding finalize_and_stop
    finalize_and_stop-Holds run v message w h =
        after_patch-Holds env KeepsDiagram base _ _ _ (finish_run-Holds _ _ h) (to_completed _ p)
          (λ run' w' e h'. h')

    go_clean_up-Holds :
        (run : ChaosRun) (message : String) (w : World)
        → Holds KeepsDiagram w
        → Holds KeepsDiagram (go_clean_up env base run message w).1
    unfolding go_clean_up
    go_clean_up-Holds run message w h =
        after_patch-Holds env KeepsDiagram base _ _ _ h (to_cleaning_up _ p) (λ run' w' e h'. h')

    end_recovered-Holds :
        (stamped : ChaosRun × String) (w : World)
        → Holds KeepsDiagram w
        → Holds KeepsDiagram (end_recovered env base stamped w).1
    unfolding set_condition
    end_recovered-Holds (run, message) w h =
        if-Holds KeepsDiagram (needs_cleanup base.spec.scenario.scenario_type) _ _ _
          (λ _. go_clean_up-Holds _ _ _ (tt, (tt, h)))
          (λ _. finalize_and_stop-Holds _ _ _ _ (tt, (tt, h)))

    recovered-Holds :
        (run : ChaosRun) (w : World)
        → Holds KeepsDiagram w
        → Holds KeepsDiagram (recovered env base run w).1
    unfolding recovered
    recovered-Holds run w h = anchored (observe_anchor base)
      where
        anchored :
            (a : Option Time)
            → let stamped = stamp_recovery env a run w in
              Holds KeepsDiagram (end_recovered env base stamped.0 stamped.1).1
        anchored none = end_recovered-Holds _ _ h
        anchored (some t) = end_recovered-Holds _ _ h

  module _ (run : ChaosRun) (p : run.status.phase ≡ RunPhase.observing) where
    observation_disabled-Holds :
        (w : World) → Holds KeepsDiagram w → Holds KeepsDiagram (observation_disabled env run w).1
    unfolding observation_disabled
    observation_disabled-Holds w h =
        if-Holds KeepsDiagram (needs_cleanup run.spec.scenario.scenario_type) _ _ _
          (λ _. go_clean_up-Holds run p _ _ _ h) (λ _. finalize_and_stop-Holds run p _ _ _ _ h)

    window_elapsed-Holds :
        (w : World) → Holds KeepsDiagram w → Holds KeepsDiagram (window_elapsed env run w).1
    unfolding window_elapsed
    window_elapsed-Holds w h =
        if-Holds KeepsDiagram (needs_cleanup run.spec.scenario.scenario_type) _ _ _
          (λ _. go_clean_up-Holds run p _ _ _ h) (λ _. finalize_and_stop-Holds run p _ _ _ _ h)

    lift_partition-Holds :
        (w : World) → Holds KeepsDiagram w → Holds KeepsDiagram (lift_partition env run w).1
    unfolding lift_partition
    lift_partition-Holds w h =
        if-Holds KeepsDiagram run.status.replacement_observed _ _ _
          (λ _. go_clean_up-Holds run p _ _ _ h) (λ _. go_clean_up-Holds run p _ _ _ h)

    hold_partition-Holds :
        (started : Time) (d : Duration) (w : World)
        → Holds KeepsDiagram w
        → Holds KeepsDiagram (hold_partition env run started d w).1
    unfolding hold_partition
    hold_partition-Holds started d w h =
        if-Holds KeepsDiagram (leb_ℤ d (env.now w.step -ℤ started)) _ _ _
          (λ _. lift_partition-Holds _ h)
          (λ _. after_patch-Holds env KeepsDiagram run _ _ _ h (to_same _ p) (λ run' w' e h'. h'))

    take_observation-Holds :
        (seen : ObservationResult) (w : World)
        → Holds KeepsDiagram w
        → Holds KeepsDiagram (take_observation env run seen w).1
    unfolding take_observation
    take_observation-Holds seen w h =
        if-Holds KeepsDiagram
          (seen.all_replacements_ready
            && not (recovery_seen (record_observation env run seen).status.observation))
          _ _ _ (λ _. recovered-Holds run p _ _ h)
          (λ _. after_patch-Holds env KeepsDiagram run _ _ _ h (to_same _ p) (λ run' w' e h'. h'))

    after_poll-Holds :
        (seen : Result ObservationResult) (w : World)
        → Holds KeepsDiagram w
        → Holds KeepsDiagram (after_poll env run seen w).1
    after_poll-Holds (ok seen) w h = take_observation-Holds seen w h
    after_poll-Holds (err _) w h = h

    poll-Holds :
        (target : Option ResolvedTarget) (w : World)
        → Holds KeepsDiagram w
        → let seen = observe_recovery env run target w in
          Holds KeepsDiagram (after_poll env run seen.0 seen.1).1
    unfolding observe_recovery
    poll-Holds target w h = observed env.observer
      where
        observed :
            (o : Option Observer)
            → let seen = observe_with env o run target w in
              Holds KeepsDiagram (after_poll env run seen.0 seen.1).1
        observed none = after_poll-Holds (ok nothing_observed) w h
        observed (some observe) = after_poll-Holds (observe w.step run target) _ (tt, h)

    resolve_target-Holds :
        (w : World) → Holds KeepsDiagram w → Holds KeepsDiagram (resolve_target env run w).1
    unfolding resolve_target
    resolve_target-Holds w h = with_resolvers env.resolvers
      where
        by_resolver : (r : Option TargetResolver) → Holds KeepsDiagram (resolve_by env r run w).1
        by_resolver none = h
        by_resolver (some resolve) = h

        with_resolvers :
            (rs : Option (TargetType → Option TargetResolver))
            → Holds KeepsDiagram (resolve_with env rs run w).1
        with_resolvers none = h
        with_resolvers (some rs) = by_resolver (rs run.spec.target.target_type)

    poll_recovery-Holds :
        (w : World) → Holds KeepsDiagram w → Holds KeepsDiagram (poll_recovery env run w).1
    unfolding poll_recovery
    poll_recovery-Holds w h = poll-Holds _ _ (resolve_target-Holds w h)

    observe_by-Holds :
        (window : Option (Time × Duration)) (w : World)
        → Holds KeepsDiagram w
        → Holds KeepsDiagram (observe_by env window run w).1
    observe_by-Holds none w h = poll_recovery-Holds w h
    observe_by-Holds (some (started, d)) w h = hold_partition-Holds started d w h

    observe_within_window-Holds :
        (w : World) → Holds KeepsDiagram w → Holds KeepsDiagram (observe_within_window env run w).1
    unfolding observe_within_window
    observe_within_window-Holds w h =
        observe_by-Holds
          (partition_window run.spec.scenario.scenario_type run.spec.scenario.network
            run.status.observing_started_at)
          w h

    check_window-Holds :
        (anchor : Option Time) (w : World)
        → Holds KeepsDiagram w
        → Holds KeepsDiagram (check_window env anchor run w).1
    unfolding check_window
    check_window-Holds none w h = observe_within_window-Holds w h
    check_window-Holds (some t) w h =
        if-Holds KeepsDiagram (ltb_ℤ run.spec.observe.timeout (env.now w.step -ℤ t)) _ _ _
          (λ _. window_elapsed-Holds _ h) (λ _. observe_within_window-Holds _ h)

    pub observing-Holds :
        (w : World) → Holds KeepsDiagram w → Holds KeepsDiagram (reconcile_observing env run w).1
    unfolding reconcile_observing
    observing-Holds w h =
        if-Holds KeepsDiagram run.spec.observe.enabled _ _ _
          (λ _. check_window-Holds (observe_anchor run) w h) (λ _. observation_disabled-Holds w h)

-- ===== src/Controller/Lifecycle/Injecting.antt =====
-- The Injecting phase keeps to the lifecycle.
use flink_chaos_operator.Prelude.{
  ◌&◌, ◌+◌, String, ◌≡◌, refl, ◌∙◌, true, not, ◌&&◌, List, [], ◌∷◌, Option, none, some, arith,
}
use flink_chaos_operator.Api.Types.{
  RunPhase, ScenarioType, TargetType, ConditionType, ConditionStatus, ChaosRun,
}
use flink_chaos_operator.Interfaces.{
  Result, ok, err, Error, ResolvedTarget, InjectionResult, Injection, injected, refused, partly,
  ScenarioDriver, SafetyChecker, TargetResolver,
}
use flink_chaos_operator.Controller.World.{Env, World, Effect, note}
use flink_chaos_operator.Controller.Phases.{set_condition}
use flink_chaos_operator.Controller.Rules.{
  Holds, if-Holds, after_patch-Holds, after_patch_object-Holds,
}
use flink_chaos_operator.Controller.Injecting.{
  needs_cleanup, resolve_by, resolve_with, check_with, inject_by, inject_with, after_check,
  after_resolution, inject_chaos, resolve_target, run_safety_checks, transition_to_observing,
  fail_resolution, fail_safety, fail_injection, finish_dry_run, ensure_finalizer, record_injection,
  after_injection, inject_or_preview, check_and_inject, start_injection, inject_unless_recorded,
  reconcile_injecting,
}
use flink_chaos_operator.Controller.Lifecycle.{leads_to, KeepsDiagram, KeepsPhases}

-- Where a run that is being injected may go.
abbrev Leaves : RunPhase → Type 0
Leaves to = (p : RunPhase) → p ≡ RunPhase.injecting → leads_to p to ≡ true

to_failed : Leaves RunPhase.failed
to_failed p e = ground arith

to_injecting :
    (p q : RunPhase) → p ≡ RunPhase.injecting → q ≡ RunPhase.injecting → leads_to p q ≡ true
to_injecting p q e f = ground arith

module _ (env : Env) (keeps : KeepsPhases env) where
  transition_to_observing-Holds :
      (run : ChaosRun) (w : World)
      → run.status.phase ≡ RunPhase.injecting
      → Holds KeepsDiagram w
      → Holds KeepsDiagram (transition_to_observing env run w).1
  unfolding transition_to_observing
  transition_to_observing-Holds run w p h =
      after_patch-Holds env KeepsDiagram run _ _ _ h (ground arith) (λ run' w' e h'. h')

  fail_resolution-Holds :
      (run : ChaosRun) (x : Error) (w : World)
      → run.status.phase ≡ RunPhase.injecting
      → Holds KeepsDiagram w
      → Holds KeepsDiagram (fail_resolution env run x w).1
  unfolding fail_resolution
  fail_resolution-Holds run x w p h =
      after_patch-Holds env KeepsDiagram run _ _ _ (tt, h) (to_failed _ p) (λ run' w' e h'. h')

  -- The failures after the target is resolved; the run that is sent does not matter.
  module _ (base run : ChaosRun) (p : base.status.phase ≡ RunPhase.injecting) where
    fail_safety-Holds :
        (x : Error) (w : World)
        → Holds KeepsDiagram w
        → Holds KeepsDiagram (fail_safety env base run x w).1
    unfolding fail_safety
    fail_safety-Holds x w h =
        after_patch-Holds env KeepsDiagram base _ _ _ (tt, h) (to_failed _ p) (λ run' w' e h'. h')

    fail_injection-Holds :
        (x : Error) (w : World)
        → Holds KeepsDiagram w
        → Holds KeepsDiagram (fail_injection env base run x w).1
    unfolding fail_injection
    fail_injection-Holds x w h =
        after_patch-Holds env KeepsDiagram base _ _ _ (tt, h) (to_failed _ p) (λ run' w' e h'. h')

    finish_dry_run-Holds :
        (target : ResolvedTarget) (w : World)
        → Holds KeepsDiagram w
        → Holds KeepsDiagram (finish_dry_run env base run target w).1
    unfolding finish_dry_run
    finish_dry_run-Holds target w h =
        after_patch-Holds env KeepsDiagram base _ _ _ h (ground arith) (λ run' w' e h'. h')

  ensure_finalizer-Holds :
      (run : ChaosRun) (w : World)
      → run.status.phase ≡ RunPhase.injecting
      → Holds KeepsDiagram w
      → Holds KeepsDiagram (ensure_finalizer env run w).1
  unfolding ensure_finalizer
  ensure_finalizer-Holds run w p h =
      if-Holds KeepsDiagram
        (needs_cleanup run.spec.scenario.scenario_type && not (env.contains_finalizer run)) _ _ w
        (λ _.
          after_patch_object-Holds env KeepsDiagram run (env.add_finalizer run)
            (transition_to_observing env) w h tt
            (λ run' w' e h'.
              transition_to_observing-Holds run' w'
                (keeps.object_keeps _ run _ run' e ∙ keeps.finalizer_keeps run ∙ p) h'))
        (λ _. transition_to_observing-Holds run w p h)

  record_injection-Holds :
      (base run : ChaosRun) (target : ResolvedTarget) (result : InjectionResult) (w : World)
      → base.status.phase ≡ RunPhase.injecting
      → run.status.phase ≡ RunPhase.injecting
      → Holds KeepsDiagram w
      → Holds KeepsDiagram (record_injection env base run target result w).1
  unfolding record_injection
  record_injection-Holds base run target result w p q h =
      after_patch-Holds env KeepsDiagram base _ (ensure_finalizer env) _ (tt, (tt, h))
        (to_injecting _ _ p q)
        (λ run' w' e h'. ensure_finalizer-Holds run' w' (keeps.status_keeps _ base _ run' e ∙ q) h')

  after_injection-Holds :
      (base : ChaosRun) (target : ResolvedTarget) (answer : ChaosRun × Injection) (w : World)
      → base.status.phase ≡ RunPhase.injecting
      → answer.0.status.phase ≡ RunPhase.injecting
      → Holds KeepsDiagram w
      → Holds KeepsDiagram (after_injection env base target answer w).1
  after_injection-Holds base target (run, injected r) w p q h =
      record_injection-Holds base run target r w p q h
  after_injection-Holds base target (run, refused e) w p q h = fail_injection-Holds base run p e w h
  after_injection-Holds base target (run, partly r e) w p q h =
      fail_injection-Holds base run p e w h

  inject_chaos-Holds :
      (run : ChaosRun) (target : ResolvedTarget) (w : World)
      → run.status.phase ≡ RunPhase.injecting
      → Holds KeepsDiagram w
      → ((inject_chaos env run target w).0.0.status.phase ≡ RunPhase.injecting)
        × Holds KeepsDiagram (inject_chaos env run target w).1
  unfolding inject_chaos
  inject_chaos-Holds run target w p h = with_drivers env.scenario_drivers refl
    where
      by_driver :
          (ds : ScenarioType → Option ScenarioDriver)
          → env.scenario_drivers ≡ some ds
          → (d : Option ScenarioDriver) → ds run.spec.scenario.scenario_type ≡ d
          → ((inject_by env d run target w).0.0.status.phase ≡ RunPhase.injecting)
            × Holds KeepsDiagram (inject_by env d run target w).1
      by_driver ds e none f = (p, h)
      by_driver ds e (some d) f = (keeps.inject_keeps ds _ d e f w.step run target ∙ p, (tt, h))

      with_drivers :
          (ds : Option (ScenarioType → Option ScenarioDriver))
          → env.scenario_drivers ≡ ds
          → ((inject_with env ds run target w).0.0.status.phase ≡ RunPhase.injecting)
            × Holds KeepsDiagram (inject_with env ds run target w).1
      with_drivers none e = (p, h)
      with_drivers (some ds) e = by_driver ds e (ds run.spec.scenario.scenario_type) refl

  inject_or_preview-Holds :
      (base run : ChaosRun) (target : ResolvedTarget) (w : World)
      → base.status.phase ≡ RunPhase.injecting
      → run.status.phase ≡ RunPhase.injecting
      → Holds KeepsDiagram w
      → Holds KeepsDiagram (inject_or_preview env base run target w).1
  unfolding inject_or_preview
  inject_or_preview-Holds base run target w p q h =
      if-Holds KeepsDiagram run.spec.safety.dry_run _ _ _
        (λ _. finish_dry_run-Holds base _ p target _ h)
        (λ _.
          let (q', h') = inject_chaos-Holds _ target _ q h in
          after_injection-Holds base target (inject_chaos env _ target _).0 _ p q' h')

  check_and_inject-Holds :
      (run : ChaosRun) (target : ResolvedTarget) (w : World)
      → run.status.phase ≡ RunPhase.injecting
      → Holds KeepsDiagram w
      → Holds KeepsDiagram (check_and_inject env run target w).1
  unfolding check_and_inject run_safety_checks
  check_and_inject-Holds run target w p h = with_checker env.safety_checker
    where
      w' : World
      w' =
          note (Effect.event "TargetResolved" ("Target resolved: " & target.logical_name))
            (record w { step = w.step + 1 })

      resolved : ChaosRun
      resolved =
          (set_condition env run ConditionType.target_resolved ConditionStatus.is_true
            "TargetResolved" "Target successfully resolved" w).0

      after :
          (verdict : Option Error) (v : World)
          → Holds KeepsDiagram v
          → Holds KeepsDiagram (after_check env run resolved target verdict v).1
      after none v k = inject_or_preview-Holds run resolved target v p p k
      after (some x) v k = fail_safety-Holds run resolved p x v k

      with_checker :
          (c : Option SafetyChecker)
          → let checked = check_with env c resolved target w' in
            Holds KeepsDiagram (after_check env run resolved target checked.0 checked.1).1
      with_checker none = after none w' (tt, h)
      with_checker (some check) = after (check w'.step resolved target) _ (tt, (tt, h))

  start_injection-Holds :
      (run : ChaosRun) (w : World)
      → run.status.phase ≡ RunPhase.injecting
      → Holds KeepsDiagram w
      → Holds KeepsDiagram (start_injection env run w).1
  unfolding start_injection resolve_target
  start_injection-Holds run w p h = with_resolvers env.resolvers
    where
      after :
          (r : Result ResolvedTarget) (v : World)
          → Holds KeepsDiagram v
          → Holds KeepsDiagram (after_resolution env run r v).1
      after (ok t) v k = check_and_inject-Holds run t v p k
      after (err x) v k = fail_resolution-Holds run x v p k

      by_resolver :
          (r : Option TargetResolver)
          → let found = resolve_by env r run w in
            Holds KeepsDiagram (after_resolution env run found.0 found.1).1
      by_resolver none = after (err "unsupported target type") w h
      by_resolver (some resolve) = after (resolve w.step run) _ h

      with_resolvers :
          (rs : Option (TargetType → Option TargetResolver))
          → let found = resolve_with env rs run w in
            Holds KeepsDiagram (after_resolution env run found.0 found.1).1
      with_resolvers none = after (err "unsupported target type") w h
      with_resolvers (some rs) = by_resolver (rs run.spec.target.target_type)

  pub injecting-Holds :
      (run : ChaosRun) (w : World)
      → run.status.phase ≡ RunPhase.injecting
      → Holds KeepsDiagram w
      → Holds KeepsDiagram (reconcile_injecting env run w).1
  unfolding reconcile_injecting
  injecting-Holds run w p h = recorded run.status.injected_pods
    where
      recorded : (pods : List String) → Holds KeepsDiagram (inject_unless_recorded env pods run w).1
      recorded [] = start_injection-Holds run w p h
      recorded (_ ∷ _) = transition_to_observing-Holds run w p h

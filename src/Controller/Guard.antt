-- ===== src/Controller/Guard.antt =====
-- When the controller injects: reconcileInjecting and its helpers in
-- internal/controller/chaosrun_controller.go.
use flink_chaos_operator.Prelude.{
  ℕ, ◌+◌, ◌&◌, String, ◌≡◌, refl, false, not, ◌&&◌, List, [], ◌∷◌, Option, none, some, sym, subst,
}
use flink_chaos_operator.Api.Types.{
  TargetType, ScenarioType, ConditionType, ConditionStatus, ChaosRun,
}
use flink_chaos_operator.Interfaces.{
  Result, ok, err, Error, ResolvedTarget, TargetResolver, InjectionResult, Injection, injected,
  refused, partly, SafetyChecker, ScenarioDriver,
}
use flink_chaos_operator.Controller.World.{Env, World, Effect, note}
use flink_chaos_operator.Controller.Rules.{
  Holds, if-Holds, after_patch-Holds, after_patch_object-Holds,
}
use flink_chaos_operator.Controller.Phases.{set_condition}
use flink_chaos_operator.Controller.Injecting.{
  needs_cleanup, resolve_by, resolve_with, resolve_target, check_with, run_safety_checks, inject_by,
  inject_with, inject_chaos, transition_to_observing, fail_resolution, fail_safety, fail_injection,
  finish_dry_run, ensure_finalizer, record_injection, after_injection, inject_or_preview,
  after_check, check_and_inject, after_resolution, start_injection, inject_unless_recorded,
  reconcile_injecting,
}

-- An injection is guarded if its run is no dry run and has no injected pods on record, and if the
-- safety checker has passed that run and target at some moment.
abbrev pub IsGuarded : SafetyChecker → Effect → Type 0
IsGuarded check (Effect.inject_called run target answer) =
    (run.spec.safety.dry_run ≡ false)
    × (run.status.injected_pods ≡ [])
    × (n : ℕ) × (checked : ChaosRun) × (check n checked target ≡ none)
    × (checked.spec ≡ run.spec)
IsGuarded check _ = Unit

module _ (env : Env) (check : SafetyChecker) (has_checker : env.safety_checker ≡ some check) where
  -- The ends of the phase call no driver.
  module _ (base run : ChaosRun) where
    fail_resolution-IsGuarded :
        (x : Error) (w : World)
        → Holds (IsGuarded check) w
        → Holds (IsGuarded check) (fail_resolution env run x w).1
    unfolding fail_resolution
    fail_resolution-IsGuarded x w h =
        after_patch-Holds env (IsGuarded check) run _ _ _ (tt, h) tt (λ run' w' e h'. h')

    fail_safety-IsGuarded :
        (x : Error) (w : World)
        → Holds (IsGuarded check) w
        → Holds (IsGuarded check) (fail_safety env base run x w).1
    unfolding fail_safety
    fail_safety-IsGuarded x w h =
        after_patch-Holds env (IsGuarded check) base _ _ _ (tt, h) tt (λ run' w' e h'. h')

    fail_injection-IsGuarded :
        (x : Error) (w : World)
        → Holds (IsGuarded check) w
        → Holds (IsGuarded check) (fail_injection env base run x w).1
    unfolding fail_injection
    fail_injection-IsGuarded x w h =
        after_patch-Holds env (IsGuarded check) base _ _ _ (tt, h) tt (λ run' w' e h'. h')

    finish_dry_run-IsGuarded :
        (target : ResolvedTarget) (w : World)
        → Holds (IsGuarded check) w
        → Holds (IsGuarded check) (finish_dry_run env base run target w).1
    unfolding finish_dry_run
    finish_dry_run-IsGuarded target w h =
        after_patch-Holds env (IsGuarded check) base _ _ _ h tt (λ run' w' e h'. h')

  transition-IsGuarded :
      (run : ChaosRun) (w : World)
      → Holds (IsGuarded check) w
      → Holds (IsGuarded check) (transition_to_observing env run w).1
  unfolding transition_to_observing
  transition-IsGuarded run w h =
      after_patch-Holds env (IsGuarded check) run _ _ _ h tt (λ run' w' e h'. h')

  ensure_finalizer-IsGuarded :
      (run : ChaosRun) (w : World)
      → Holds (IsGuarded check) w
      → Holds (IsGuarded check) (ensure_finalizer env run w).1
  unfolding ensure_finalizer
  ensure_finalizer-IsGuarded run w h =
      if-Holds (IsGuarded check)
        (needs_cleanup run.spec.scenario.scenario_type && not (env.contains_finalizer run)) _ _ w
        (λ _.
          after_patch_object-Holds env (IsGuarded check) run (env.add_finalizer run)
            (transition_to_observing env) w h tt (λ run' w' e h'. transition-IsGuarded run' w' h'))
        (λ _. transition-IsGuarded run w h)

  record_injection-IsGuarded :
      (base run : ChaosRun) (target : ResolvedTarget) (result : InjectionResult) (w : World)
      → Holds (IsGuarded check) w
      → Holds (IsGuarded check) (record_injection env base run target result w).1
  unfolding record_injection
  record_injection-IsGuarded base run target result w h =
      after_patch-Holds env (IsGuarded check) base _ (ensure_finalizer env) _ (tt, (tt, h)) tt
        (λ run' w' e h'. ensure_finalizer-IsGuarded run' w' h')

  after_injection-IsGuarded :
      (base : ChaosRun) (target : ResolvedTarget) (answer : ChaosRun × Injection) (w : World)
      → Holds (IsGuarded check) w
      → Holds (IsGuarded check) (after_injection env base target answer w).1
  after_injection-IsGuarded base target (run, injected r) w h =
      record_injection-IsGuarded base run target r w h
  after_injection-IsGuarded base target (run, refused e) w h =
      fail_injection-IsGuarded base run e w h
  after_injection-IsGuarded base target (run, partly r e) w h =
      fail_injection-IsGuarded base run e w h

  -- The one call of a driver, under its guard.
  inject_chaos-IsGuarded :
      (run : ChaosRun) (target : ResolvedTarget) (w : World)
      → ((i : Injection) → IsGuarded check (Effect.inject_called run target i))
      → Holds (IsGuarded check) w
      → Holds (IsGuarded check) (inject_chaos env run target w).1
  unfolding inject_chaos
  inject_chaos-IsGuarded run target w g h = with_drivers env.scenario_drivers
    where
      by_driver :
          (d : Option ScenarioDriver) → Holds (IsGuarded check) (inject_by env d run target w).1
      by_driver none = h
      by_driver (some d) = (g (d.inject w.step run target).1, h)

      with_drivers :
          (ds : Option (ScenarioType → Option ScenarioDriver))
          → Holds (IsGuarded check) (inject_with env ds run target w).1
      with_drivers none = h
      with_drivers (some ds) = by_driver (ds run.spec.scenario.scenario_type)

  inject_or_preview-IsGuarded :
      (base run : ChaosRun) (target : ResolvedTarget) (n : ℕ) (w : World)
      → run.status.injected_pods ≡ []
      → check n run target ≡ none
      → Holds (IsGuarded check) w
      → Holds (IsGuarded check) (inject_or_preview env base run target w).1
  unfolding inject_or_preview
  inject_or_preview-IsGuarded base run target n w fresh passed h =
      if-Holds (IsGuarded check) run.spec.safety.dry_run _ _ _
        (λ _. finish_dry_run-IsGuarded base _ target _ h)
        (λ real.
          after_injection-IsGuarded base target (inject_chaos env _ target _).0 _
            (inject_chaos-IsGuarded _ target _ (λ i. (real, fresh, n, run, passed, refl)) h))

  check_and_inject-IsGuarded :
      (run : ChaosRun) (target : ResolvedTarget) (w : World)
      → run.status.injected_pods ≡ []
      → Holds (IsGuarded check) w
      → Holds (IsGuarded check) (check_and_inject env run target w).1
  unfolding check_and_inject run_safety_checks
  check_and_inject-IsGuarded run target w fresh h =
      subst
        (λ c.
          let checked = check_with env c resolved target w' in
          Holds (IsGuarded check) (after_check env run resolved target checked.0 checked.1).1)
        (sym has_checker) (after (check w'.step resolved target) refl)
    where
      w' : World
      w' =
          note (Effect.event "TargetResolved" ("Target resolved: " & target.logical_name))
            (record w { step = w.step + 1 })

      resolved : ChaosRun
      resolved =
          (set_condition env run ConditionType.target_resolved ConditionStatus.is_true
            "TargetResolved" "Target successfully resolved" w).0

      after :
          (verdict : Option Error)
          → check w'.step resolved target ≡ verdict
          → Holds
              (IsGuarded check)
              (after_check env run resolved target verdict
                (note (Effect.safety_checked resolved target (check w'.step resolved target)) w')).1
      after none e = inject_or_preview-IsGuarded run resolved target w'.step _ fresh e (tt, (tt, h))
      after (some x) e = fail_safety-IsGuarded run resolved x _ (tt, (tt, h))

  after_resolution-IsGuarded :
      (run : ChaosRun) (r : Result ResolvedTarget) (w : World)
      → run.status.injected_pods ≡ []
      → Holds (IsGuarded check) w
      → Holds (IsGuarded check) (after_resolution env run r w).1
  after_resolution-IsGuarded run (ok t) w fresh h = check_and_inject-IsGuarded run t w fresh h
  after_resolution-IsGuarded run (err x) w fresh h = fail_resolution-IsGuarded run run x w h

  start_injection-IsGuarded :
      (run : ChaosRun) (w : World)
      → run.status.injected_pods ≡ []
      → Holds (IsGuarded check) w
      → Holds (IsGuarded check) (start_injection env run w).1
  unfolding start_injection resolve_target
  start_injection-IsGuarded run w fresh h = with_resolvers env.resolvers
    where
      by_resolver :
          (r : Option TargetResolver)
          → let found = resolve_by env r run w in
            Holds (IsGuarded check) (after_resolution env run found.0 found.1).1
      by_resolver none = after_resolution-IsGuarded run (err "unsupported target type") w fresh h
      by_resolver (some resolve) = after_resolution-IsGuarded run (resolve w.step run) _ fresh h

      with_resolvers :
          (rs : Option (TargetType → Option TargetResolver))
          → let found = resolve_with env rs run w in
            Holds (IsGuarded check) (after_resolution env run found.0 found.1).1
      with_resolvers none = after_resolution-IsGuarded run (err "unsupported target type") w fresh h
      with_resolvers (some rs) = by_resolver (rs run.spec.target.target_type)

  -- Where a safety checker is configured, the Injecting phase calls a scenario driver only for a
  -- run that is no dry run and has no injected pods on record, and only after the checker has
  -- passed the target and a run with the same specification.
  pub reconcile_injecting-IsGuarded :
      (run : ChaosRun) (w : World)
      → Holds (IsGuarded check) w
      → Holds (IsGuarded check) (reconcile_injecting env run w).1
  unfolding reconcile_injecting
  reconcile_injecting-IsGuarded run w h = recorded run.status.injected_pods refl
    where
      recorded :
          (pods : List String)
          → run.status.injected_pods ≡ pods
          → Holds (IsGuarded check) (inject_unless_recorded env pods run w).1
      recorded [] e = start_injection-IsGuarded run w e h
      recorded (_ ∷ _) e = transition-IsGuarded run w h

-- ===== src/Controller/Permitted.antt =====
-- What the controller injects with the checker of internal/safety/checker.go in place:
-- reconcileInjecting of internal/controller/chaosrun_controller.go and Checker.Check together.
use flink_chaos_operator.Prelude.{
  ℕ, String, ◌≡◌, sym, ap, subst, false, Option, none, some, List, [], ◌∷◌, inl, inr, Option-cases,
  All,
}
use flink_chaos_operator.Api.Types.{ChaosRun}
use flink_chaos_operator.Interfaces.{Error, Result, ResolvedTarget}
use flink_chaos_operator.Safety.Checker.{Refusal, check, safety_checker}
use flink_chaos_operator.Safety.Permits.{IsPermitted, check-IsPermitted}
use flink_chaos_operator.Controller.World.{Env, World, Effect}
use flink_chaos_operator.Controller.Rules.{Holds}
use flink_chaos_operator.Controller.Injecting.{reconcile_injecting}
use flink_chaos_operator.Controller.Guard.{IsGuarded, reconcile_injecting-IsGuarded}

-- An injection is permitted if its run is no dry run and has no injected pods on record, and if at
-- some moment a run with the same specification met what is permitted for the target.
abbrev pub InjectsPermitted : (ℕ → String → Result (List ChaosRun)) → Effect → Type 0
InjectsPermitted peers (Effect.inject_called run target answer) =
    (run.spec.safety.dry_run ≡ false)
    × (run.status.injected_pods ≡ [])
    × (n : ℕ) × (checked : ChaosRun) × (checked.spec ≡ run.spec)
    × IsPermitted (peers n checked.namespace) checked target
InjectsPermitted peers _ = Unit

module _ (describe : Refusal → Error) (peers : ℕ → String → Result (List ChaosRun)) where
  safety_checker-passes :
      (n : ℕ) (run : ChaosRun) (target : ResolvedTarget)
      → safety_checker describe peers n run target ≡ none
      → check (peers n run.namespace) run target ≡ none
  unfolding safety_checker
  safety_checker-passes n run target passed =
      elim (Option-cases (check (peers n run.namespace) run target)) [
        | inl e ↦ e
        | inr (refusal, e) ↦
            let answer : Option Refusal → Option Error =
              λ c. elim c [ none ↦ none | some x ↦ some (describe x) ] in
            cc (ap answer e, passed)
      ]

  permitted : (e : Effect) → IsGuarded (safety_checker describe peers) e → InjectsPermitted peers e
  permitted (Effect.inject_called run target answer) (real, fresh, n, checked, passed, same) = (
    real,
    fresh,
    n,
    checked,
    same,
    (check-IsPermitted checked target (peers n checked.namespace)).0
        (safety_checker-passes n checked target passed),
  )
  permitted (Effect.status_patched a b c) g = tt
  permitted (Effect.object_patched a b c) g = tt
  permitted (Effect.safety_checked a b c) g = tt
  permitted (Effect.cleanup_called a b) g = tt
  permitted (Effect.observe_called a b) g = tt
  permitted (Effect.event a b) g = tt
  permitted Effect.abort_requests_total g = tt
  permitted Effect.injections_total g = tt
  permitted Effect.recovery_observed_total g = tt
  permitted (Effect.runs_total a b c) g = tt
  permitted (Effect.run_duration a b c) g = tt

  trace_permitted :
      (trace : List Effect)
      → All (IsGuarded (safety_checker describe peers)) trace
      → All (InjectsPermitted peers) trace
  trace_permitted [] h = tt
  trace_permitted (e ∷ es) h = (permitted e h.0, trace_permitted es h.1)

  -- Where the checker of internal/safety is configured, the Injecting phase of a reconcile that has
  -- called no driver before calls one only for a run that is no dry run and has no injected pods on
  -- record, and only where a run with the same specification is permitted for the target: its
  -- namespace is no system namespace; a shared cluster has leave; a pod kill, by its count, leaves the
  -- required TaskManagers; there were fewer active runs on the target than the limit when they were
  -- listed; and a network scenario or a resource exhaustion keeps to its caps.
  pub reconcile_injecting-InjectsPermitted :
      (env : Env) (run : ChaosRun) (w : World)
      → env.safety_checker ≡ some (safety_checker describe peers)
      → w.trace ≡ []
      → Holds (InjectsPermitted peers) (reconcile_injecting env run w).1
  reconcile_injecting-InjectsPermitted env run w has_checker first =
      trace_permitted (reconcile_injecting env run w).1.trace (
        reconcile_injecting-IsGuarded env (safety_checker describe peers) has_checker run w
          (subst (All (IsGuarded (safety_checker describe peers))) (sym first) tt))

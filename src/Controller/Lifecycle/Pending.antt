-- ===== src/Controller/Lifecycle/Pending.antt =====
-- The Pending phase keeps to the lifecycle.
use flink_chaos_operator.Prelude.{
  ◌+◌, String, ◌≡◌, refl, ◌⊎◌, inl, inr, true, List, [], ◌∷◌, Option, none, some, arith, sym, subst,
}
use flink_chaos_operator.Api.Types.{RunPhase, Time, Duration, ChaosRun}
use flink_chaos_operator.Api.Validation.{ValidationError, validate}
use flink_chaos_operator.Controller.World.{Env, World}
use flink_chaos_operator.Controller.Rules.{Holds, if-Holds, after_patch-Holds}
use flink_chaos_operator.Controller.Pending.{
  fail_wait, keep_waiting, check_deadline, wait_for_stable_checkpoint, start_injecting, after_wait,
  gate_checkpoint, reject_spec, start_run, pending_with, reconcile_pending, Wait,
}
use flink_chaos_operator.Controller.Lifecycle.{leads_to, KeepsDiagram, KeepsPhases}

abbrev pub IsWaiting : RunPhase → Type 0
IsWaiting p = (p ≡ RunPhase.unset) ⊎ (p ≡ RunPhase.pending)

-- Where a waiting run may go.
record CanStart (p : RunPhase) : Type 0 where
  stays : leads_to p p ≡ true
  injects : leads_to p RunPhase.injecting ≡ true
  fails : leads_to p RunPhase.failed ≡ true

IsWaiting-CanStart : (p : RunPhase) → IsWaiting p → CanStart p
IsWaiting-CanStart p h = ground arith

-- What the wait hands on: a run to be injected, or one that the wait has failed.
abbrev Fits : ChaosRun × Wait → Type 0
Fits (run, Wait.proceed) = IsWaiting run.status.phase ⊎ (run.status.phase ≡ RunPhase.failed)
Fits (run, Wait.not_stable) = Unit
Fits (run, Wait.wait_failed e) = Unit

module _ (env : Env) (keeps : KeepsPhases env) where
  start_injecting-Holds :
      (run : ChaosRun) (w : World)
      → IsWaiting run.status.phase
      → Holds KeepsDiagram w
      → Holds KeepsDiagram (start_injecting env run w).1
  unfolding start_injecting
  start_injecting-Holds run w p h =
      after_patch-Holds env KeepsDiagram run _ _ w h ((IsWaiting-CanStart _ p).injects)
        (λ run' w' e h'. h')

  reject_spec-Holds :
      (run : ChaosRun) (text : String) (w : World)
      → IsWaiting run.status.phase
      → Holds KeepsDiagram w
      → Holds KeepsDiagram (reject_spec env run text w).1
  unfolding reject_spec
  reject_spec-Holds run text w p h =
      after_patch-Holds env KeepsDiagram run _ _ _ (tt, h) ((IsWaiting-CanStart _ p).fails)
        (λ run' w' e h'. h')

  fail_wait-Holds :
      (run : ChaosRun) (w : World)
      → IsWaiting run.status.phase
      → Holds KeepsDiagram w
      → Holds KeepsDiagram (fail_wait env run w).1
  unfolding fail_wait
  fail_wait-Holds run w p h = ground (arith, IsWaiting-CanStart run.status.phase p)

  fail_wait-Fits : (run : ChaosRun) (w : World) → Fits (fail_wait env run w).0
  unfolding fail_wait
  fail_wait-Fits run w = grind (arith, keeps.status_keeps)

  keep_waiting-Holds :
      (base run : ChaosRun) (w : World)
      → base.status.phase ≡ run.status.phase
      → IsWaiting run.status.phase
      → Holds KeepsDiagram w
      → Holds KeepsDiagram (keep_waiting env base run w).1
  unfolding keep_waiting
  keep_waiting-Holds base run w same p h = ground (arith, IsWaiting-CanStart run.status.phase p)

  keep_waiting-Fits : (base run : ChaosRun) (w : World) → Fits (keep_waiting env base run w).0
  unfolding keep_waiting
  keep_waiting-Fits base run w = ground arith

  check_deadline-Holds :
      (started : Option Time) (timeout : Option Duration) (run : ChaosRun) (w : World)
      → IsWaiting run.status.phase
      → Holds KeepsDiagram w
      → Fits (check_deadline env started timeout run run w).0
        × Holds KeepsDiagram (check_deadline env started timeout run run w).1
  unfolding check_deadline
  check_deadline-Holds none timeout run w p h = (tt, h)
  check_deadline-Holds (some s) none run w p h = (tt, h)
  check_deadline-Holds (some s) (some d) run w p h =
      let w' : World = record w { step = w.step + 1 } in
      ground (
        arith,
        fail_wait-Holds run w' p h,
        fail_wait-Fits run w',
        keep_waiting-Holds run run w' refl p h,
        keep_waiting-Fits run run w',
      )

  wait-Holds :
      (run : ChaosRun) (w : World)
      → IsWaiting run.status.phase
      → Holds KeepsDiagram w
      → Fits (wait_for_stable_checkpoint env run run w).0
        × Holds KeepsDiagram (wait_for_stable_checkpoint env run run w).1
  unfolding wait_for_stable_checkpoint
  wait-Holds run w p h =
      let w' : World = record w { step = w.step + 1 } in
      ground (
        arith,
        check_deadline-Holds run.status.started_at
            run.spec.observe.flink_rest.checkpoint_wait_timeout run w' p h,
      )

  after_wait-Holds :
      (waited : ChaosRun × Wait) (w : World)
      → Fits waited
      → Holds KeepsDiagram w
      → Holds KeepsDiagram (after_wait env waited w).1
  unfolding after_wait
  after_wait-Holds (run, Wait.proceed) w (inl p) h = ground (arith, start_injecting-Holds run w p h)
  after_wait-Holds (run, Wait.proceed) w (inr f) h = ground arith
  after_wait-Holds (run, Wait.not_stable) w f h = h
  after_wait-Holds (run, Wait.wait_failed e) w f h = h

  gate-Holds :
      (run : ChaosRun) (w : World)
      → IsWaiting run.status.phase
      → Holds KeepsDiagram w
      → Holds KeepsDiagram (gate_checkpoint env run w).1
  unfolding gate_checkpoint
  gate-Holds run w p h =
      let (waited, w') = wait_for_stable_checkpoint env run run w in
      let (fits, held) = wait-Holds run w p h in
      if-Holds KeepsDiagram run.spec.observe.flink_rest.require_stable_checkpoint_before_inject _ _
        w (λ _. after_wait-Holds waited w' fits held) (λ _. start_injecting-Holds run w p h)

  start_run-Holds :
      (run : ChaosRun) (w : World)
      → IsWaiting run.status.phase
      → Holds KeepsDiagram w
      → Holds KeepsDiagram (start_run env run w).1
  unfolding start_run
  start_run-Holds run w p h =
      after_patch-Holds env KeepsDiagram run _ _ _ h ((IsWaiting-CanStart _ p).stays)
        (λ run' w' e h'.
          gate-Holds run' w' (subst IsWaiting (sym (keeps.status_keeps _ run _ run' e)) p) h')

  pub pending-Holds :
      (run : ChaosRun) (w : World)
      → IsWaiting run.status.phase
      → Holds KeepsDiagram w
      → Holds KeepsDiagram (reconcile_pending env run w).1
  unfolding reconcile_pending
  pending-Holds run w p h = go (validate env.parse_cidr run)
    where
      go : (errs : List ValidationError) → Holds KeepsDiagram (pending_with env errs run w).1
      go [] = start_run-Holds run w p h
      go (e ∷ errs) = reject_spec-Holds run (env.describe (e ∷ errs)) w p h

-- ===== src/Controller/CheckpointWait.antt =====
-- The wait for a stable checkpoint (reconcilePending and waitForStableCheckpoint of
-- internal/controller/chaosrun_controller.go).
use flink_chaos_operator.Prelude.{
  ℕ, ◌+◌, pos, ◌+ℤ◌, ◌≤ℤ◌, ◌<ℤ◌, +ℤ_parts, ◌≡◌, refl, sym, subst, ap, ◌∙◌, false, Option, none,
  some, [], arith, ltb_ℤ,
}
use flink_chaos_operator.Api.Types.{Time, Duration, ChaosRun}
use flink_chaos_operator.Api.Validation.{validate}
use flink_chaos_operator.Interfaces.{ok}
use flink_chaos_operator.Controller.World.{Env, World, Effect}
use flink_chaos_operator.Controller.Rules.{Holds, if-Holds, after_patch-Holds}
use flink_chaos_operator.Controller.Pending.{
  Wait, keep_waiting, check_deadline, wait_for_stable_checkpoint, start_injecting, after_wait,
  gate_checkpoint, start_run, reconcile_pending, is_failed,
}

-- No patch that makes the run Failed.
abbrev pub NotFailing : Effect → Type 0
NotFailing (Effect.status_patched base run answer) = is_failed run.status.phase ≡ false
NotFailing _ = Unit

-- The precision of a time in the API: a second, in nanoseconds.
abbrev second : Duration
second = pos 1000000000

-- The whole second that a time is cut down to is less than a second before it.
abbrev pub IsCutTo : Time → Option Time → Type 0
IsCutTo t none = ⊥
IsCutTo t (some t') = t <ℤ t' +ℤ second

-- The server answers a patch of the status with the phase that was sent, with the start time in
-- whole seconds, and with the timeout that is stored in the specification, which a patch of the
-- status does not change.
abbrev pub KeepsStored : Env → Option Duration → Type 0
KeepsStored env stored =
    (n : ℕ) (base run run' : ChaosRun) (t : Time)
    → run.status.started_at ≡ some t
    → env.patch_status n base run ≡ ok run'
    → (run'.status.phase ≡ run.status.phase)
      × IsCutTo t run'.status.started_at
      × (run'.spec.observe.flink_rest.checkpoint_wait_timeout ≡ stored)

-- No reading of the clock comes later than the timeout, less a second, after one of them.
abbrev pub IsPrompt : Env → ℕ → Option Duration → Type 0
IsPrompt env first none = Unit
IsPrompt env first (some timeout) = (n : ℕ) → env.now n +ℤ second ≤ℤ env.now first +ℤ timeout

module _ (env : Env) where
  start_injecting-NotFailing :
      (run : ChaosRun) (w : World)
      → Holds NotFailing w
      → Holds NotFailing (start_injecting env run w).1
  unfolding start_injecting is_failed
  start_injecting-NotFailing run w h =
      after_patch-Holds env NotFailing run _ _ w h refl (λ run' w' e h'. h')

  after_wait-NotFailing :
      (waited : ChaosRun × Wait) (w : World)
      → Holds NotFailing w
      → Holds NotFailing (after_wait env waited w).1
  unfolding after_wait
  after_wait-NotFailing (run, Wait.proceed) w h =
      if-Holds NotFailing (is_failed run.status.phase) _ _ w (λ _. h)
        (λ _. start_injecting-NotFailing run w h)
  after_wait-NotFailing (run, Wait.not_stable) w h = h
  after_wait-NotFailing (run, Wait.wait_failed e) w h = h

  keep_waiting-NotFailing :
      (run : ChaosRun) (w : World)
      → is_failed run.status.phase ≡ false
      → Holds NotFailing w
      → Holds NotFailing (keep_waiting env run run w).1
  unfolding keep_waiting
  keep_waiting-NotFailing run w p h = ground arith

  -- A reading of the clock is not past a deadline, if there is one.
  abbrev OnTime : ℕ → Option Time → Option Duration → Type 0
  OnTime n (some started) (some timeout) = env.now n ≤ℤ started +ℤ timeout
  OnTime n _ _ = Unit

  check_deadline-NotFailing :
      (started : Option Time) (timeout : Option Duration) (run : ChaosRun) (w : World)
      → OnTime w.step started timeout
      → is_failed run.status.phase ≡ false
      → Holds NotFailing w
      → Holds NotFailing (check_deadline env started timeout run run w).1
  unfolding check_deadline
  check_deadline-NotFailing none timeout run w prompt p h = h
  check_deadline-NotFailing (some started) none run w prompt p h = h
  check_deadline-NotFailing (some started) (some timeout) run w prompt p h =
      let on_time : ltb_ℤ (started +ℤ timeout) (env.now w.step) ≡ false = ground arith in
      rw on_time (keep_waiting-NotFailing run _ p h)

  wait-NotFailing :
      (run : ChaosRun) (w : World)
      → OnTime
          (w.step + 1)
          run.status.started_at
          run.spec.observe.flink_rest.checkpoint_wait_timeout
      → is_failed run.status.phase ≡ false
      → Holds NotFailing w
      → Holds NotFailing (wait_for_stable_checkpoint env run run w).1
  unfolding wait_for_stable_checkpoint
  wait-NotFailing run w prompt p h = ground (
    arith,
    check_deadline-NotFailing run.status.started_at
        run.spec.observe.flink_rest.checkpoint_wait_timeout run (record w { step = w.step + 1 })
        prompt p h,
  )

  gate-NotFailing :
      (run : ChaosRun) (w : World)
      → OnTime
          (w.step + 1)
          run.status.started_at
          run.spec.observe.flink_rest.checkpoint_wait_timeout
      → is_failed run.status.phase ≡ false
      → Holds NotFailing w
      → Holds NotFailing (gate_checkpoint env run w).1
  unfolding gate_checkpoint
  gate-NotFailing run w prompt p h =
      let (waited, w') = wait_for_stable_checkpoint env run run w in
      if-Holds NotFailing run.spec.observe.flink_rest.require_stable_checkpoint_before_inject _ _ w
        (λ _. after_wait-NotFailing waited w' (wait-NotFailing run w prompt p h))
        (λ _. start_injecting-NotFailing run w h)

  -- From the start time in whole seconds, a prompt reading is on time.
  prompt-OnTime :
      (first n : ℕ) (started : Option Time) (timeout : Option Duration)
      → IsCutTo (env.now first) started
      → IsPrompt env first timeout
      → OnTime n started timeout
  prompt-OnTime first n none timeout cut prompt = absurd cut
  prompt-OnTime first n (some started) none cut prompt = tt
  prompt-OnTime first n (some started) (some timeout) cut prompt =
      let a = +ℤ_parts started second in
      let b = +ℤ_parts (env.now n) second in
      let c = +ℤ_parts (env.now first) timeout in
      let d = +ℤ_parts started timeout in
      let soon = prompt n in omega (arith, a, b, c, d, cut, soon)

module _ (env : Env) (stored : Option Duration) (keeps : KeepsStored env stored) where
  -- A valid run in the Pending phase is not failed by the wait for a stable checkpoint, however
  -- long ago it was started: each reconcile stamps the start time anew, and measures the timeout
  -- from there. It holds where the server answers with the phase that was sent, the start time in
  -- whole seconds and the timeout that is stored, and where, if one is stored, no reading of the
  -- clock comes later than this timeout, less a second, after the reconcile's first.
  pub reconcile_pending-NotFailing :
      (run : ChaosRun) (w : World)
      → validate env.parse_cidr run ≡ []
      → is_failed run.status.phase ≡ false
      → IsPrompt env w.step stored
      → Holds NotFailing w
      → Holds NotFailing (reconcile_pending env run w).1
  unfolding reconcile_pending start_run
  reconcile_pending-NotFailing run w valid p prompt h = rw valid (
      after_patch-Holds env NotFailing run _ _ _ h p (λ run' w' e h'.
        let (phase, cut, timeout) = keeps _ run _ run' (env.now w.step) refl e in
        gate-NotFailing env run' w'
          (prompt-OnTime env w.step (w'.step + 1) run'.status.started_at
            run'.spec.observe.flink_rest.checkpoint_wait_timeout cut
            (subst (IsPrompt env w.step) (sym timeout) prompt))
          (ap is_failed phase ∙ p) h'))

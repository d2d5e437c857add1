-- ===== src/Controller/Cleaned.antt =====
-- How a run leaves the CleaningUp phase (reconcileCleaningUp of
-- internal/controller/chaosrun_controller.go).
use flink_chaos_operator.Prelude.{
  ℕ, ◌+ℤ◌, ◌≡◌, refl, List, [], ◌∷◌, All, is_empty, ◌∙◌, Bool, true, false, Option, none, some,
  arith, ltb_ℤ,
}
use flink_chaos_operator.Api.Types.{RunPhase, Time, EphemeralContainerRecord, ChaosRun}
use flink_chaos_operator.Interfaces.{Error}
use flink_chaos_operator.Controller.World.{
  note, Env, World, Effect, Fetch, found, not_found, get_failed, pure, stop,
}
use flink_chaos_operator.Controller.Rules.{
  Holds, if-Holds, after_patch-Holds, after_patch_object-Holds,
}
use flink_chaos_operator.Controller.Observing.{finish_run, record_duration}
use flink_chaos_operator.Controller.Cleaning.{
  all_cleaned_up, cleanup_of, cleanup_with, call_cleanup, cleanup_timed_out, drop_from,
  drop_finalizer, end_cleaned_up, complete_cleanup, retry_cleanup, after_cleanup, clean_up,
  cleanup_grace, is_cleanup_complete, check_cleanup_deadline, reconcile_cleaning_up,
}
use flink_chaos_operator.Controller.Lifecycle.{KeepsPhases}

abbrev pub is_ended : RunPhase → Bool
is_ended RunPhase.completed = true
is_ended RunPhase.aborted = true
is_ended _ = false

-- No policy on record, and every ephemeral container on record marked as cleaned up.
pub record IsClean (run : ChaosRun) : Type 0 where
  pub no_policies : run.status.network_policies ≡ []
  pub no_netem : All (λ rec. rec.cleaned_up ≡ true) run.status.ephemeral_container_injections
  pub no_stress : All (λ rec. rec.cleaned_up ≡ true) run.status.resource_exhaustion_injections

-- A run that is ended as Completed or Aborted has no resource left on record.
abbrev pub EndsClean : Effect → Type 0
EndsClean (Effect.status_patched base run answer) = is_ended run.status.phase ≡ true → IsClean run
EndsClean _ = Unit

is_empty-nil : {A : Type 0} (xs : List A) → is_empty xs ≡ true → xs ≡ []
is_empty-nil [] e = refl
is_empty-nil (x ∷ xs) e = absurd (ground arith)

all_cleaned_up-marked :
    (recs : List EphemeralContainerRecord)
    → all_cleaned_up recs ≡ true
    → All (λ rec. rec.cleaned_up ≡ true) recs
unfolding all_cleaned_up
all_cleaned_up-marked [] c = tt
all_cleaned_up-marked (rec ∷ recs) c = (ground arith, all_cleaned_up-marked recs (ground arith))

-- The test of the controller finds just the clean runs.
is_cleanup_complete-IsClean : (run : ChaosRun) → is_cleanup_complete run ≡ true → IsClean run
unfolding is_cleanup_complete
is_cleanup_complete-IsClean run c = record {
  no_policies = is_empty-nil run.status.network_policies (ground arith);
  no_netem = all_cleaned_up-marked run.status.ephemeral_container_injections (ground arith);
  no_stress = all_cleaned_up-marked run.status.resource_exhaustion_injections (ground arith);
}

module _ (env : Env) where
  drop_from-EndsClean :
      (fresh : Fetch) (w : World) → Holds EndsClean w → Holds EndsClean (drop_from env fresh w).1
  drop_from-EndsClean not_found w h = h
  drop_from-EndsClean (get_failed e) w h = h
  drop_from-EndsClean (found fresh) w h =
      if-Holds EndsClean (env.contains_finalizer fresh) _ _ w
        (λ _.
          after_patch_object-Holds env EndsClean fresh (env.remove_finalizer fresh) (λ _. pure stop)
            w h tt (λ run' w' e h'. h'))
        (λ _. h)

  drop_finalizer-EndsClean :
      (run : ChaosRun) (w : World)
      → Holds EndsClean w
      → Holds EndsClean (drop_finalizer env run w).1
  unfolding drop_finalizer
  drop_finalizer-EndsClean run w h =
      if-Holds EndsClean (env.contains_finalizer run) _ _ w
        (λ _. drop_from-EndsClean (env.get w.step run.namespace run.name) _ h) (λ _. h)

  finish_run-EndsClean :
      (run : ChaosRun) (w : World) → Holds EndsClean w → Holds EndsClean (finish_run env run w).1
  unfolding finish_run
  finish_run-EndsClean run w h = (tt, timed run.status.started_at)
    where
      counted : World
      counted =
          note
            (Effect.runs_total run.spec.scenario.scenario_type run.status.phase run.status.verdict)
            w

      timed : (t : Option Time) → Holds EndsClean (record_duration env t run counted).1
      timed none = (tt, h)
      timed (some t) = (tt, (tt, h))

  -- The end of a run leaves the records as they are.
  end_cleaned_up_complete :
      (run : ChaosRun) (w : World)
      → is_cleanup_complete run ≡ true
      → (is_cleanup_complete (end_cleaned_up env run w).0 ≡ true)
        × ((end_cleaned_up env run w).1.trace ≡ w.trace)
  unfolding end_cleaned_up is_cleanup_complete
  end_cleaned_up_complete run w c = ground arith

  complete_cleanup-EndsClean :
      (base run : ChaosRun) (w : World)
      → is_cleanup_complete run ≡ true
      → Holds EndsClean w
      → Holds EndsClean (complete_cleanup env base run w).1
  unfolding complete_cleanup is_cleanup_complete
  complete_cleanup-EndsClean base run w c h =
      let ended = end_cleaned_up_complete _ _ c in
      after_patch-Holds env EndsClean base _ (drop_finalizer env) _
        (tt, finish_run-EndsClean _ _ (rw ended.1 h)) (λ _. is_cleanup_complete-IsClean _ ended.0)
        (λ run' w' e h'. drop_finalizer-EndsClean run' w' h')

  retry_cleanup-EndsClean :
      (base run : ChaosRun) (w : World)
      → run.status.phase ≡ RunPhase.cleaning_up
      → Holds EndsClean w
      → Holds EndsClean (retry_cleanup env base run w).1
  unfolding retry_cleanup
  retry_cleanup-EndsClean base run w p h =
      after_patch-Holds env EndsClean base run _ w h (λ e. ground arith) (λ run' w' e h'. h')

  cleanup_timed_out-EndsClean :
      (run : ChaosRun) (w : World)
      → Holds EndsClean w
      → Holds EndsClean (cleanup_timed_out env run w).1
  unfolding cleanup_timed_out
  cleanup_timed_out-EndsClean run w h =
      after_patch-Holds env EndsClean run _ _ _ (tt, finish_run-EndsClean _ _ h) (λ e. cc)
        (λ run' w' e h'. h')

  after_cleanup-EndsClean :
      (base : ChaosRun) (answer : ChaosRun × Option Error) (w : World)
      → answer.0.status.phase ≡ RunPhase.cleaning_up
      → Holds EndsClean w
      → Holds EndsClean (after_cleanup env base answer w).1
  after_cleanup-EndsClean base (run, some e) w p h = retry_cleanup-EndsClean base run w p h
  after_cleanup-EndsClean base (run, none) w p h =
      if-Holds EndsClean (is_cleanup_complete run) _ _ w
        (λ c. complete_cleanup-EndsClean base run w c h)
        (λ _. retry_cleanup-EndsClean base run w p h)

module _ (env : Env) (keeps : KeepsPhases env) where
  clean_up-EndsClean :
      (run : ChaosRun) (w : World)
      → run.status.phase ≡ RunPhase.cleaning_up
      → Holds EndsClean w
      → Holds EndsClean (clean_up env run w).1
  unfolding clean_up call_cleanup
  clean_up-EndsClean run w p h =
      by (cleanup_of env.scenario_drivers run.spec.scenario.scenario_type) refl
    where
      by :
          (c : Option (ℕ → ChaosRun → ChaosRun × Option Error))
          → cleanup_of env.scenario_drivers run.spec.scenario.scenario_type ≡ c
          → let answer = cleanup_with env c run w in
            Holds EndsClean (after_cleanup env run answer.0 answer.1).1
      by none e = after_cleanup-EndsClean env run (run, none) w p h
      by (some cleanup) e =
          after_cleanup-EndsClean env run (cleanup w.step run) _
            (keeps.cleanup_keeps _ cleanup e w.step run ∙ p) (tt, h)

  -- The CleaningUp phase ends a run as Completed or Aborted only if no network policy is left on
  -- its record and every ephemeral container on record is marked as cleaned up; where the server
  -- and the drivers keep to the phases.
  pub reconcile_cleaning_up-EndsClean :
      (run : ChaosRun) (w : World)
      → run.status.phase ≡ RunPhase.cleaning_up
      → Holds EndsClean w
      → Holds EndsClean (reconcile_cleaning_up env run w).1
  unfolding reconcile_cleaning_up check_cleanup_deadline
  reconcile_cleaning_up-EndsClean run w p h = by_deadline run.status.started_at
    where
      by_deadline : (t : Option Time) → Holds EndsClean (check_cleanup_deadline env t run w).1
      by_deadline none = clean_up-EndsClean run w p h
      by_deadline (some t) =
          if-Holds EndsClean
            (ltb_ℤ (t +ℤ run.spec.observe.timeout +ℤ cleanup_grace) (env.now w.step)) _ _ _
            (λ _. cleanup_timed_out-EndsClean env run _ h) (λ _. clean_up-EndsClean run _ p h)

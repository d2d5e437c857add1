-- ===== src/Controller/World.antt =====
-- The surroundings of one reconcile (internal/controller/chaosrun_controller.go): the API server,
-- the clock and the collaborators answer through `Env`, and `World` counts the calls made and keeps
-- their trace, the latest first.
use flink_chaos_operator.Prelude.{ℕ, ◌+◌, ℤ, String, Bool, Option, List, ◌∷◌}
use flink_chaos_operator.Api.Types.{
  Duration, Time, ScenarioType, TargetType, RunPhase, RunVerdict, Condition, ChaosRun,
}
use flink_chaos_operator.Api.Validation.{ValidationError}
use flink_chaos_operator.Interfaces.{
  Error, Result, ok, err, ResolvedTarget, TargetResolver, Injection, ScenarioDriver, Observer,
  SafetyChecker, ObservationResult,
}

-- The answer to `r.Get`.
pub data Fetch : Type 0 where
  found : ChaosRun → Fetch
  not_found : Fetch
  get_failed : Error → Fetch

-- The fields of ChaosRunReconciler, and the library functions that the controller calls. The patch
-- functions take the base and the run that is sent, and answer with the server's object.
pub record Env : Type 0 where
  pub now : ℕ → Time
  pub get : ℕ → String → String → Fetch
  pub patch_status : ℕ → ChaosRun → ChaosRun → Result ChaosRun
  pub patch : ℕ → ChaosRun → ChaosRun → Result ChaosRun
  pub safety_checker : Option SafetyChecker
  pub resolvers : Option (TargetType → Option TargetResolver)
  pub scenario_drivers : Option (ScenarioType → Option ScenarioDriver)
  pub observer : Option Observer
  pub checkpoint_stable : ℕ → String → ℤ → Result Bool
  pub set_status_condition : Condition → List Condition → List Condition
  pub contains_finalizer : ChaosRun → Bool
  pub add_finalizer : ChaosRun → ChaosRun
  pub remove_finalizer : ChaosRun → ChaosRun
  pub parse_cidr : String → Bool
  pub describe : List ValidationError → String

pub data Effect : Type 0 where
  status_patched : ChaosRun → ChaosRun → Result ChaosRun → Effect
  object_patched : ChaosRun → ChaosRun → Result ChaosRun → Effect
  safety_checked : ChaosRun → ResolvedTarget → Option Error → Effect
  inject_called : ChaosRun → ResolvedTarget → Injection → Effect
  cleanup_called : ChaosRun → Option Error → Effect
  observe_called : ChaosRun → Result ObservationResult → Effect
  event : String → String → Effect
  abort_requests_total injections_total recovery_observed_total : Effect
  runs_total : ScenarioType → RunPhase → RunVerdict → Effect
  run_duration : ScenarioType → RunVerdict → Duration → Effect

pub record World : Type 0 where
  pub step : ℕ
  pub trace : List Effect

abbrev pub M : Type 0 → Type 0
M A = World → A × World

infixl 5 ◌>>=◌ ◌>>◌
abbrev pub ◌>>=◌ : {A B : Type 0} → M A → (A → M B) → M B
◌>>=◌ m f w = let (a, w') = m w in f a w'

abbrev pub ◌>>◌ : {B : Type 0} → M (Unit {0}) → M B → M B
m >> k = m >>= λ _. k

abbrev pub pure : {A : Type 0} → A → M A
pure a w = (a, w)

-- One call to the outside: the moment passes and the effect is noted.
abbrev pub note : Effect → World → World
note e w = record { step = w.step + 1; trace = e ∷ w.trace }

abbrev pub emit : Effect → M (Unit {0})
emit e w = (tt, note e w)

-- ctrl.Result with the error of the handler.
pub data Reply : Type 0 where
  stop requeue : Reply
  requeue_after : Duration → Reply
  failure : Error → Reply

module _ (env : Env) where
  -- `metav1.Now()`, and `time.Now()`
  abbrev pub current_time : M Time
  current_time w = (env.now w.step, record w { step = w.step + 1 })

  -- `r.Status().Patch`; on success the run becomes the server's object.
  abbrev pub patch_status : ChaosRun → ChaosRun → M (Result ChaosRun)
  patch_status base run w =
      let answer = env.patch_status w.step base run in
      (answer, note (Effect.status_patched base run answer) w)

  -- `if err := r.Status().Patch(…); err != nil { return ctrl.Result{}, err }`, and then the rest.
  abbrev pub after_patch : ChaosRun → ChaosRun → (ChaosRun → M Reply) → M Reply
  after_patch base run rest = do
    answer ← patch_status base run
    elim answer [ ok run' ↦ rest run' | err e ↦ pure (failure e) ]

  abbrev pub patch_object : ChaosRun → ChaosRun → M (Result ChaosRun)
  patch_object base run w =
      let answer = env.patch w.step base run in
      (answer, note (Effect.object_patched base run answer) w)

  abbrev pub after_patch_object : ChaosRun → ChaosRun → (ChaosRun → M Reply) → M Reply
  after_patch_object base run rest = do
    answer ← patch_object base run
    elim answer [ ok run' ↦ rest run' | err e ↦ pure (failure e) ]

  abbrev pub fetch : String → String → M Fetch
  fetch namespace name w = (env.get w.step namespace name, record w { step = w.step + 1 })

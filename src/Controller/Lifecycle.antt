-- ===== src/Controller/Lifecycle.antt =====
-- The lifecycle of a run: the phases that a status patch may lead to, and the proof that every
-- handler of internal/controller/chaosrun_controller.go keeps to them.
pub mod Pending
pub mod Injecting
pub mod Observing
pub mod Cleaning
pub mod Reconcile
pub mod History
use flink_chaos_operator.Prelude.{
  ℕ, ◌≡◌, refl, Bool, true, false, All, ◌∷◌, List, arith, ◌||◌, Option, none, some,
}
use flink_chaos_operator.Api.Types.{RunPhase, ScenarioType, ChaosRun}
use flink_chaos_operator.Interfaces.{ok, Error, ScenarioDriver, ResolvedTarget}
use flink_chaos_operator.Controller.Cleaning.{cleanup_of}
use flink_chaos_operator.Controller.World.{Env, World, Effect, M, after_patch, Reply}
use flink_chaos_operator.Controller.Phases.{is_terminal}

-- The diagram. A patch may also leave the phase as it is, but not once it is terminal.
abbrev pub leads_to : RunPhase → RunPhase → Bool
leads_to RunPhase.unset RunPhase.unset = true
leads_to RunPhase.unset RunPhase.injecting = true
leads_to RunPhase.unset RunPhase.failed = true
leads_to RunPhase.unset RunPhase.aborted = true
leads_to RunPhase.pending RunPhase.pending = true
leads_to RunPhase.pending RunPhase.injecting = true
leads_to RunPhase.pending RunPhase.failed = true
leads_to RunPhase.pending RunPhase.aborted = true
leads_to RunPhase.injecting RunPhase.injecting = true
leads_to RunPhase.injecting RunPhase.observing = true
leads_to RunPhase.injecting RunPhase.cleaning_up = true
leads_to RunPhase.injecting RunPhase.completed = true
leads_to RunPhase.injecting RunPhase.failed = true
leads_to RunPhase.injecting RunPhase.aborted = true
leads_to RunPhase.observing RunPhase.observing = true
leads_to RunPhase.observing RunPhase.cleaning_up = true
leads_to RunPhase.observing RunPhase.completed = true
leads_to RunPhase.observing RunPhase.aborted = true
leads_to RunPhase.cleaning_up RunPhase.cleaning_up = true
leads_to RunPhase.cleaning_up RunPhase.completed = true
leads_to RunPhase.cleaning_up RunPhase.failed = true
leads_to RunPhase.cleaning_up RunPhase.aborted = true
leads_to (RunPhase.other _) RunPhase.cleaning_up = true
leads_to (RunPhase.other _) RunPhase.aborted = true
leads_to _ _ = false

abbrev pub KeepsDiagram : Effect → Type 0
KeepsDiagram (Effect.status_patched base run answer) =
    leads_to base.status.phase run.status.phase ≡ true
KeepsDiagram _ = Unit

-- The server answers a status patch with the phase that was sent.
abbrev pub KeepsPhase : Env → Type 0
KeepsPhase env =
    (n : ℕ) (base run run' : ChaosRun)
    → env.patch_status n base run ≡ ok run'
    → run'.status.phase ≡ run.status.phase

-- So do the answer to a patch of the object, and the scenario drivers.
pub record KeepsPhases (env : Env) : Type 0 where
  pub status_keeps : KeepsPhase env
  pub object_keeps :
      (n : ℕ) (base run run' : ChaosRun)
      → env.patch n base run ≡ ok run'
      → run'.status.phase ≡ run.status.phase
  pub finalizer_keeps : (run : ChaosRun) → (env.add_finalizer run).status.phase ≡ run.status.phase
  pub inject_keeps :
      (drivers : ScenarioType → Option ScenarioDriver) (t : ScenarioType) (driver : ScenarioDriver)
      → env.scenario_drivers ≡ some drivers
      → drivers t ≡ some driver
      → (n : ℕ) (run : ChaosRun) (target : ResolvedTarget)
      → (driver.inject n run target).0.status.phase ≡ run.status.phase
  pub cleanup_keeps :
      (t : ScenarioType) (cleanup : ℕ → ChaosRun → ChaosRun × Option Error)
      → cleanup_of env.scenario_drivers t ≡ some cleanup
      → (n : ℕ) (run : ChaosRun) → (cleanup n run).0.status.phase ≡ run.status.phase

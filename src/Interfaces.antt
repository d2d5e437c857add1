-- ===== src/Interfaces.antt =====
-- What the controller and its collaborators exchange (internal/interfaces/interfaces.go). A
-- collaborator is a function; the number it takes first is the moment of the call, so that two
-- calls with the same arguments may be answered differently.
use flink_chaos_operator.Prelude.{ℕ, String, Bool, Option, List}
use flink_chaos_operator.Api.Types.{ChaosRun}

-- A Go error, by its text.
abbrev pub Error : Type 0
Error = String

pub data Result {ℓ} (A : Type ℓ) : Type ℓ where
  ok : A → Result A
  err : Error → Result A

pub record ResolvedTarget : Type 0 where
  pub platform : String
  pub namespace : String
  pub logical_name : String
  pub tm_pod_names : List String
  pub jm_pod_names : List String
  pub shared_cluster : Bool

-- TargetResolver
abbrev pub TargetResolver : Type 0
TargetResolver = ℕ → ChaosRun → Result ResolvedTarget

pub record InjectionResult : Type 0 where
  pub selected_pods : List String
  pub injected_pods : List String

-- The pair that `Inject` returns: a result, an error, or a partial result with an error.
pub data Injection : Type 0 where
  injected : InjectionResult → Injection
  refused : Error → Injection
  partly : InjectionResult → Error → Injection

-- ScenarioDriver, and CleanableScenarioDriver where `cleanup` is there. Both methods may change
-- the run that they are given.
pub record ScenarioDriver : Type 0 where
  pub inject : ℕ → ChaosRun → ResolvedTarget → ChaosRun × Injection
  pub cleanup : Option (ℕ → ChaosRun → ChaosRun × Option Error)

pub record ObservationResult : Type 0 where
  pub replacement_observed : Bool
  pub all_replacements_ready : Bool
  pub tm_count_before : ℕ
  pub tm_count_after : ℕ
  pub flink_job_state : String
  pub checkpoint_status : String

-- Observer; the target is nil where it could not be resolved.
abbrev pub Observer : Type 0
Observer = ℕ → ChaosRun → Option ResolvedTarget → Result ObservationResult

-- A safety checker answers with an error where the injection is not safe.
abbrev pub SafetyChecker : Type 0
SafetyChecker = ℕ → ChaosRun → ResolvedTarget → Option Error

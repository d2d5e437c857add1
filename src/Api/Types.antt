-- ===== src/Api/Types.antt =====
-- The ChaosRun resource (api/v1alpha1/chaosrun_types.go). Go's named string types are data types
-- with a constructor for each constant, `unset` for the empty text and `other` for any other text.
-- A pointer is an `Option`. Durations and instants are signed numbers of nanoseconds.
use flink_chaos_operator.Prelude.{ℕ, ℤ, String, Bool, Option, List}

abbrev pub Duration : Type 0
Duration = ℤ

abbrev pub Time : Type 0
Time = ℤ

pub data TargetType : Type 0 where
  flink_deployment ververica_deployment pod_selector : TargetType
  other : String → TargetType

pub data ScenarioType : Type 0 where
  unset task_manager_pod_kill network_partition network_chaos resource_exhaustion : ScenarioType
  other : String → ScenarioType

pub data SelectionMode : Type 0 where
  unset random explicit : SelectionMode
  other : String → SelectionMode

pub data ActionType : Type 0 where
  unset delete_pod : ActionType
  other : String → ActionType

pub data RunPhase : Type 0 where
  unset pending injecting observing cleaning_up completed aborted failed : RunPhase
  other : String → RunPhase

pub data RunVerdict : Type 0 where
  unset passed failed inconclusive : RunVerdict
  other : String → RunVerdict

pub data NetworkTarget : Type 0 where
  unset tm_to_tm tm_to_jm tm_to_checkpoint tm_to_external : NetworkTarget
  other : String → NetworkTarget

pub data NetworkDirection : Type 0 where
  unset ingress egress both : NetworkDirection
  other : String → NetworkDirection

pub data ResourceExhaustionMode : Type 0 where
  cpu memory : ResourceExhaustionMode
  other : String → ResourceExhaustionMode

-- metav1.LabelSelectorRequirement and metav1.LabelSelector
pub record LabelSelectorRequirement : Type 0 where
  pub key : String
  pub operator : String
  pub values : List String

pub record LabelSelector : Type 0 where
  pub match_labels : List (String × String)
  pub match_expressions : List LabelSelectorRequirement

pub record TargetSpec : Type 0 where
  pub target_type : TargetType
  pub name : String
  pub deployment_id : String
  pub deployment_name : String
  pub vvp_namespace : String
  pub selector : Option LabelSelector

pub record SelectionSpec : Type 0 where
  pub mode : SelectionMode
  pub count : ℤ  -- int32
  pub pod_names : List String

pub record ActionSpec : Type 0 where
  pub action_type : ActionType
  pub grace_period_seconds : Option ℤ  -- *int64

pub record ExternalTarget : Type 0 where
  pub cidr : String
  pub hostname : String
  pub port : ℤ  -- int32

pub record NetworkChaosSpec : Type 0 where
  pub target : NetworkTarget
  pub direction : NetworkDirection
  pub external_endpoint : Option ExternalTarget
  pub latency : Option Duration
  pub jitter : Option Duration
  pub loss : Option ℤ  -- *int32
  pub bandwidth : String
  pub duration : Option Duration

pub record ResourceExhaustionSpec : Type 0 where
  pub mode : ResourceExhaustionMode
  pub workers : ℤ  -- int32
  pub memory_percent : ℤ  -- int32
  pub duration : Option Duration

pub record ScenarioSpec : Type 0 where
  pub scenario_type : ScenarioType
  pub selection : SelectionSpec
  pub action : ActionSpec
  pub network : Option NetworkChaosSpec
  pub resource_exhaustion : Option ResourceExhaustionSpec

pub record FlinkRestObserve : Type 0 where
  pub enabled : Bool
  pub endpoint : String
  pub require_stable_checkpoint_before_inject : Bool
  pub checkpoint_stable_window_seconds : ℤ  -- int32
  pub checkpoint_wait_timeout : Option Duration

pub record ObserveSpec : Type 0 where
  pub enabled : Bool
  pub timeout : Duration
  pub poll_interval : Duration
  pub flink_rest : FlinkRestObserve

pub record SafetySpec : Type 0 where
  pub dry_run : Bool
  pub max_concurrent_runs_per_target : ℤ  -- int
  pub min_task_managers_remaining : Option ℤ  -- *int32
  pub allow_shared_cluster_impact : Bool
  pub max_network_chaos_duration : Option Duration
  pub allow_checkpoint_storage_chaos : Bool
  pub max_resource_exhaustion_duration : Option Duration

pub record ControlSpec : Type 0 where
  pub abort : Bool

pub record ChaosRunSpec : Type 0 where
  pub target : TargetSpec
  pub scenario : ScenarioSpec
  pub observe : ObserveSpec
  pub safety : SafetySpec
  pub control : ControlSpec

pub record TargetSummary : Type 0 where
  pub summary_type : String
  pub name : String

pub record ObservationStatus : Type 0 where
  pub job_state_before : String
  pub job_state_after : String
  pub task_manager_count_before : ℕ
  pub task_manager_count_after : ℕ
  pub recovery_observed_at : Option Time
  pub recovery_time_seconds : Option ℤ  -- *int64

pub record EphemeralContainerRecord : Type 0 where
  pub pod_name : String
  pub container_name : String
  pub injected_at : Option Time
  pub cleaned_up : Bool

-- metav1.ConditionStatus and metav1.Condition
pub data ConditionStatus : Type 0 where
  is_true is_false unknown : ConditionStatus

-- The condition types of the source; a run may carry others.
pub data ConditionType : Type 0 where
  target_resolved safety_checks_passed injection_started injection_completed : ConditionType
  recovery_observed abort_requested run_failed : ConditionType
  network_chaos_injected network_chaos_cleaned_up : ConditionType
  other : String → ConditionType

pub record Condition : Type 0 where
  pub condition_type : ConditionType
  pub status : ConditionStatus
  pub reason : String
  pub message : String
  pub last_transition_time : Time

-- The text of `status.dryRunPreview`, by what it says: the constructors are the formats of
-- buildDryRunPreview with their arguments.
pub data DryRunPreview : Type 0 where
  empty : DryRunPreview
  would_delete : ℕ → List String → DryRunPreview
  partition_spec_missing chaos_spec_missing exhaustion_spec_missing : DryRunPreview
  would_create_policy : NetworkTarget → NetworkDirection → DryRunPreview
  would_inject_netem : ℕ → NetworkChaosSpec → DryRunPreview
  would_inject_stress : ℕ → ResourceExhaustionMode → ℤ → Option Duration → DryRunPreview
  would_execute : ScenarioType → ℕ → DryRunPreview

pub record ChaosRunStatus : Type 0 where
  pub phase : RunPhase
  pub verdict : RunVerdict
  pub message : String
  pub started_at : Option Time
  pub observing_started_at : Option Time
  pub ended_at : Option Time
  pub selected_pods : List String
  pub injected_pods : List String
  pub replacement_observed : Bool
  pub target_summary : Option TargetSummary
  pub observation : Option ObservationStatus
  pub network_policies : List String
  pub ephemeral_container_injections : List EphemeralContainerRecord
  pub resource_exhaustion_injections : List EphemeralContainerRecord
  pub dry_run_preview : DryRunPreview
  pub conditions : List Condition

-- The metadata that the program reads, and the specification and status.
pub record ChaosRun : Type 0 where
  pub name : String
  pub namespace : String
  pub deletion_timestamp : Option Time
  pub finalizers : List String
  pub spec : ChaosRunSpec
  pub status : ChaosRunStatus

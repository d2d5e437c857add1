-- ===== src/Api/Texts.antt =====
-- Between texts and the named string types of api/v1alpha1/chaosrun_types.go: Go's conversions, where
-- the types are data types.
use flink_chaos_operator.Prelude.{String, if◌then◌else◌, str_eq}
use flink_chaos_operator.Api.Types.{
  TargetType, ScenarioType, SelectionMode, RunPhase, RunVerdict, NetworkTarget, NetworkDirection,
  ResourceExhaustionMode,
}

unfoldable pub to_scenario_type : String → ScenarioType
to_scenario_type s =
    if str_eq s ""
    then ScenarioType.unset
    else if str_eq s "TaskManagerPodKill"
    then ScenarioType.task_manager_pod_kill
    else if str_eq s "NetworkPartition"
    then ScenarioType.network_partition
    else if str_eq s "NetworkChaos"
    then ScenarioType.network_chaos
    else if str_eq s "ResourceExhaustion"
    then ScenarioType.resource_exhaustion
    else ScenarioType.other s

unfoldable pub to_selection_mode : String → SelectionMode
to_selection_mode s =
    if str_eq s ""
    then SelectionMode.unset
    else if str_eq s "Random"
    then SelectionMode.random
    else if str_eq s "Explicit"
    then SelectionMode.explicit
    else SelectionMode.other s

unfoldable pub to_network_target : String → NetworkTarget
to_network_target s =
    if str_eq s ""
    then NetworkTarget.unset
    else if str_eq s "TMtoTM"
    then NetworkTarget.tm_to_tm
    else if str_eq s "TMtoJM"
    then NetworkTarget.tm_to_jm
    else if str_eq s "TMtoCheckpoint"
    then NetworkTarget.tm_to_checkpoint
    else if str_eq s "TMtoExternal"
    then NetworkTarget.tm_to_external
    else NetworkTarget.other s

unfoldable pub to_network_direction : String → NetworkDirection
to_network_direction s =
    if str_eq s ""
    then NetworkDirection.unset
    else if str_eq s "Ingress"
    then NetworkDirection.ingress
    else if str_eq s "Egress"
    then NetworkDirection.egress
    else if str_eq s "Both"
    then NetworkDirection.both
    else NetworkDirection.other s

unfoldable pub to_exhaustion_mode : String → ResourceExhaustionMode
to_exhaustion_mode s =
    if str_eq s "CPU"
    then ResourceExhaustionMode.cpu
    else if str_eq s "Memory"
    then ResourceExhaustionMode.memory
    else ResourceExhaustionMode.other s

abbrev pub phase_text : RunPhase → String
phase_text RunPhase.unset = ""
phase_text RunPhase.pending = "Pending"
phase_text RunPhase.injecting = "Injecting"
phase_text RunPhase.observing = "Observing"
phase_text RunPhase.cleaning_up = "CleaningUp"
phase_text RunPhase.completed = "Completed"
phase_text RunPhase.aborted = "Aborted"
phase_text RunPhase.failed = "Failed"
phase_text (RunPhase.other s) = s

abbrev pub verdict_text : RunVerdict → String
verdict_text RunVerdict.unset = ""
verdict_text RunVerdict.passed = "Passed"
verdict_text RunVerdict.failed = "Failed"
verdict_text RunVerdict.inconclusive = "Inconclusive"
verdict_text (RunVerdict.other s) = s

abbrev pub target_text : TargetType → String
target_text TargetType.flink_deployment = "FlinkDeployment"
target_text TargetType.ververica_deployment = "VervericaDeployment"
target_text TargetType.pod_selector = "PodSelector"
target_text (TargetType.other s) = s

abbrev pub scenario_text : ScenarioType → String
scenario_text ScenarioType.unset = ""
scenario_text ScenarioType.task_manager_pod_kill = "TaskManagerPodKill"
scenario_text ScenarioType.network_partition = "NetworkPartition"
scenario_text ScenarioType.network_chaos = "NetworkChaos"
scenario_text ScenarioType.resource_exhaustion = "ResourceExhaustion"
scenario_text (ScenarioType.other s) = s

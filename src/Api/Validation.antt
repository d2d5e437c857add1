-- ===== src/Api/Validation.antt =====
-- The semantic validation of a run (api/v1alpha1/chaosrun_validation.go). An error is a list of
-- the messages that `errors.Join` collects, and the empty list is nil.
pub mod Valid
pub mod Parts
pub mod Decides
use flink_chaos_operator.Prelude.{
  String, ℤ, pos, Bool, true, false, not, ◌&&◌, ◌||◌, Option, none, some, List, [], ◌∷◌, ◌++◌,
  str_eq, if◌then◌else◌, is_none, is_some, is_empty, ltb_ℤ, eq_ℤ,
}
use flink_chaos_operator.Api.Bandwidth.{bandwidth_matches}
use flink_chaos_operator.Api.Types.{
  TargetType, ScenarioType, SelectionMode, NetworkTarget, ResourceExhaustionMode, Duration,
  LabelSelector, TargetSpec, SelectionSpec, ExternalTarget, NetworkChaosSpec,
  ResourceExhaustionSpec, ScenarioSpec, ObserveSpec, ChaosRun,
}

-- One constructor for each `fmt.Errorf` call, with its arguments.
pub data ValidationError : Type 0 where
  target_name_required deployment_required selector_required : ValidationError
  target_type_unsupported : TargetType → ValidationError
  count_too_small : ℤ → ValidationError
  pod_names_required : ValidationError
  mode_unsupported : SelectionMode → ValidationError
  network_required : ScenarioType → ValidationError
  network_target_required impairment_required latency_required : ValidationError
  bandwidth_only_external : ValidationError
  bandwidth_invalid : String → ValidationError
  external_endpoint_required partition_cidr_required : NetworkTarget → ValidationError
  cidr_invalid : String → ValidationError
  resource_exhaustion_required : ValidationError
  exhaustion_mode_unsupported : ResourceExhaustionMode → ValidationError
  memory_percent_out_of_range : ℤ → ValidationError
  scenario_type_unsupported : ScenarioType → ValidationError
  rest_not_enabled rest_endpoint_required : ValidationError
  timeout_below_poll_interval : Duration → Duration → ValidationError

-- `if test { errs = append(errs, err) }`
abbrev pub when : Bool → ValidationError → List ValidationError
when test e = if test then e ∷ [] else []

unfoldable pub selector_is_empty : Option LabelSelector → Bool
selector_is_empty none = true
selector_is_empty (some s) = is_empty s.match_labels && is_empty s.match_expressions

unfoldable pub validate_target_as : TargetType → TargetSpec → List ValidationError
unfolding selector_is_empty
validate_target_as TargetType.flink_deployment t =
    when (str_eq t.name "") ValidationError.target_name_required
validate_target_as TargetType.ververica_deployment t =
    when (str_eq t.deployment_id "" && str_eq t.deployment_name "")
      ValidationError.deployment_required
validate_target_as TargetType.pod_selector t =
    when (selector_is_empty t.selector) ValidationError.selector_required
validate_target_as (TargetType.other s) t =
    ValidationError.target_type_unsupported (TargetType.other s) ∷ []

unfoldable pub validate_target_spec : TargetSpec → List ValidationError
unfolding validate_target_as
validate_target_spec t = validate_target_as t.target_type t

unfoldable pub validate_selection_as : SelectionMode → SelectionSpec → List ValidationError
validate_selection_as SelectionMode.explicit sel =
    when (is_empty sel.pod_names) ValidationError.pod_names_required
validate_selection_as (SelectionMode.other s) sel =
    ValidationError.mode_unsupported (SelectionMode.other s) ∷ []
validate_selection_as _ sel =
    when (ltb_ℤ sel.count (pos 1)) (ValidationError.count_too_small sel.count)

-- `n.Target == ""`
unfoldable pub is_unset_target : NetworkTarget → Bool
is_unset_target NetworkTarget.unset = true
is_unset_target _ = false

unfoldable pub is_external_target : NetworkTarget → Bool
is_external_target NetworkTarget.tm_to_external = true
is_external_target _ = false

unfoldable pub needs_external_endpoint : NetworkTarget → Bool
needs_external_endpoint NetworkTarget.tm_to_checkpoint = true
needs_external_endpoint NetworkTarget.tm_to_external = true
needs_external_endpoint _ = false

-- `net.ParseCIDR` is an argument: whether it takes a text for an address block.
module _ (parse_cidr : String → Bool) where
  -- The checks that only NetworkChaos makes.
  unfoldable pub validate_impairments : NetworkChaosSpec → List ValidationError
  unfolding is_external_target
  validate_impairments n =
      when (is_none n.latency && is_none n.loss && str_eq n.bandwidth "")
        ValidationError.impairment_required
      ++ when (is_some n.jitter && is_none n.latency) ValidationError.latency_required
      ++ when (not (str_eq n.bandwidth "") && not (is_external_target n.target))
          ValidationError.bandwidth_only_external

  unfoldable pub validate_endpoint :
      Bool → NetworkTarget → Option ExternalTarget → List ValidationError
  validate_endpoint partition target none = ValidationError.external_endpoint_required target ∷ []
  validate_endpoint partition target (some e) =
      when (partition && str_eq e.cidr "") (ValidationError.partition_cidr_required target)
      ++ when (not (str_eq e.cidr "") && not (parse_cidr e.cidr))
          (ValidationError.cidr_invalid e.cidr)

  -- The network scenarios; the first argument says which of the two is validated.
  unfoldable pub validate_network : Bool → NetworkChaosSpec → List ValidationError
  unfolding is_unset_target validate_impairments validate_endpoint needs_external_endpoint
  validate_network partition n =
      when (is_unset_target n.target) ValidationError.network_target_required
      ++ (if partition then [] else validate_impairments n)
      ++ when (not (str_eq n.bandwidth "") && not (bandwidth_matches n.bandwidth))
          (ValidationError.bandwidth_invalid n.bandwidth)
      ++ (if needs_external_endpoint n.target
          then validate_endpoint partition n.target n.external_endpoint
          else [])

  unfoldable pub validate_exhaustion_as :
      ResourceExhaustionMode → ResourceExhaustionSpec → List ValidationError
  validate_exhaustion_as ResourceExhaustionMode.cpu re = []
  validate_exhaustion_as ResourceExhaustionMode.memory re =
      when
        (not (eq_ℤ re.memory_percent (pos 0))
          && (ltb_ℤ re.memory_percent (pos 1) || ltb_ℤ (pos 100) re.memory_percent))
        (ValidationError.memory_percent_out_of_range re.memory_percent)
  validate_exhaustion_as (ResourceExhaustionMode.other s) re =
      ValidationError.exhaustion_mode_unsupported (ResourceExhaustionMode.other s) ∷ []

  abbrev pub validate_network_opt :
      Bool → ScenarioType → Option NetworkChaosSpec → List ValidationError
  validate_network_opt partition t none = ValidationError.network_required t ∷ []
  validate_network_opt partition t (some n) = validate_network partition n

  abbrev pub validate_exhaustion_opt : Option ResourceExhaustionSpec → List ValidationError
  validate_exhaustion_opt none = ValidationError.resource_exhaustion_required ∷ []
  validate_exhaustion_opt (some re) = validate_exhaustion_as re.mode re

  unfoldable pub validate_scenario_as : ScenarioType → ScenarioSpec → List ValidationError
  unfolding validate_selection_as
  validate_scenario_as ScenarioType.unset s = validate_selection_as s.selection.mode s.selection
  validate_scenario_as ScenarioType.task_manager_pod_kill s =
      validate_selection_as s.selection.mode s.selection
  validate_scenario_as ScenarioType.network_partition s =
      validate_network_opt true ScenarioType.network_partition s.network
  validate_scenario_as ScenarioType.network_chaos s =
      validate_network_opt false ScenarioType.network_chaos s.network
  validate_scenario_as ScenarioType.resource_exhaustion s =
      validate_exhaustion_opt s.resource_exhaustion
  validate_scenario_as (ScenarioType.other t) s =
      ValidationError.scenario_type_unsupported (ScenarioType.other t) ∷ []

  unfoldable pub validate_scenario_spec : ScenarioSpec → List ValidationError
  unfolding validate_scenario_as
  validate_scenario_spec s = validate_scenario_as s.scenario_type s

unfoldable pub validate_observe_spec : ObserveSpec → List ValidationError
validate_observe_spec o =
    (if o.flink_rest.require_stable_checkpoint_before_inject
      then when (not o.flink_rest.enabled) ValidationError.rest_not_enabled
        ++ when (str_eq o.flink_rest.endpoint "") ValidationError.rest_endpoint_required
      else [])
    ++ when
        (ltb_ℤ (pos 0) o.timeout
          && ltb_ℤ (pos 0) o.poll_interval
          && ltb_ℤ o.timeout o.poll_interval)
        (ValidationError.timeout_below_poll_interval o.timeout o.poll_interval)

-- `Validate`: all failures of the three parts.
unfoldable pub validate : (String → Bool) → ChaosRun → List ValidationError
validate parse_cidr run =
    validate_target_spec run.spec.target
    ++ validate_scenario_spec parse_cidr run.spec.scenario
    ++ validate_observe_spec run.spec.observe

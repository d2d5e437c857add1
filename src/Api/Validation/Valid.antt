-- ===== src/Api/Validation/Valid.antt =====
-- When a specification is valid, said without the code of api/v1alpha1/chaosrun_validation.go.
use flink_chaos_operator.Prelude.{
  String, pos, ◌≤ℤ◌, ◌<ℤ◌, ◌≡◌, ◌⊎◌, Bool, true, false, Option, none, some, str_eq, is_some,
  is_empty, codes,
}
use flink_chaos_operator.Api.Bandwidth.{IsRate}
use flink_chaos_operator.Api.Types.{
  TargetType, ScenarioType, SelectionMode, NetworkTarget, ResourceExhaustionMode, LabelSelector,
  TargetSpec, SelectionSpec, ExternalTarget, NetworkChaosSpec, ResourceExhaustionSpec, ScenarioSpec,
  ObserveSpec, ChaosRun,
}
use flink_chaos_operator.Api.Validation.{is_unset_target, needs_external_endpoint}

-- Not the empty text.
abbrev pub IsGiven : String → Type 0
IsGiven s = str_eq s "" ≡ false

abbrev pub SelectorValid : Option LabelSelector → Type 0
SelectorValid none = ⊥
SelectorValid (some s) = (is_empty s.match_labels ≡ false) ⊎ (is_empty s.match_expressions ≡ false)

abbrev pub TargetValid : TargetType → TargetSpec → Type 0
TargetValid TargetType.flink_deployment t = IsGiven t.name
TargetValid TargetType.ververica_deployment t = IsGiven t.deployment_id ⊎ IsGiven t.deployment_name
TargetValid TargetType.pod_selector t = SelectorValid t.selector
TargetValid (TargetType.other s) t = ⊥

abbrev pub SelectionValid : SelectionMode → SelectionSpec → Type 0
SelectionValid SelectionMode.explicit sel = is_empty sel.pod_names ≡ false
SelectionValid (SelectionMode.other s) sel = ⊥
SelectionValid _ sel = pos 1 ≤ℤ sel.count

-- What NetworkChaos asks of its impairments.
pub record ImpairmentsValid (n : NetworkChaosSpec) : Type 0 where
  pub some_impairment : (is_some n.latency ≡ true) ⊎ (is_some n.loss ≡ true) ⊎ IsGiven n.bandwidth
  pub jitter_of_latency : is_some n.jitter ≡ true → is_some n.latency ≡ true
  pub bandwidth_external : IsGiven n.bandwidth → n.target ≡ NetworkTarget.tm_to_external

-- A block that is given is an address block; a partition needs one.
abbrev pub EndpointValid : (String → Bool) → Bool → Option ExternalTarget → Type 0
EndpointValid parse_cidr partition none = ⊥
EndpointValid parse_cidr partition (some e) =
    (partition ≡ true → IsGiven e.cidr) × (IsGiven e.cidr → parse_cidr e.cidr ≡ true)

pub record NetworkValid (parse_cidr : String → Bool) (partition : Bool) (n : NetworkChaosSpec)
    : Type 0 where
  pub target_given : is_unset_target n.target ≡ false
  pub impairments : partition ≡ false → ImpairmentsValid n
  pub rate : IsGiven n.bandwidth → IsRate (codes n.bandwidth)
  pub endpoint :
      needs_external_endpoint n.target ≡ true
      → EndpointValid parse_cidr partition n.external_endpoint

abbrev pub NetworkOptValid : (String → Bool) → Bool → Option NetworkChaosSpec → Type 0
NetworkOptValid parse_cidr partition none = ⊥
NetworkOptValid parse_cidr partition (some n) = NetworkValid parse_cidr partition n

abbrev pub ExhaustionValid : ResourceExhaustionMode → ResourceExhaustionSpec → Type 0
ExhaustionValid ResourceExhaustionMode.cpu re = Unit
ExhaustionValid ResourceExhaustionMode.memory re =
    pos 0 ≤ℤ re.memory_percent × (re.memory_percent ≤ℤ pos 100)
ExhaustionValid (ResourceExhaustionMode.other s) re = ⊥

abbrev pub ExhaustionOptValid : Option ResourceExhaustionSpec → Type 0
ExhaustionOptValid none = ⊥
ExhaustionOptValid (some re) = ExhaustionValid re.mode re

abbrev pub ScenarioValid : (String → Bool) → ScenarioType → ScenarioSpec → Type 0
ScenarioValid parse_cidr ScenarioType.network_partition s =
    NetworkOptValid parse_cidr true s.network
ScenarioValid parse_cidr ScenarioType.network_chaos s = NetworkOptValid parse_cidr false s.network
ScenarioValid parse_cidr ScenarioType.resource_exhaustion s =
    ExhaustionOptValid s.resource_exhaustion
ScenarioValid parse_cidr (ScenarioType.other t) s = ⊥
ScenarioValid parse_cidr _ s = SelectionValid s.selection.mode s.selection

pub record ObserveValid (o : ObserveSpec) : Type 0 where
  pub rest_for_checkpoint :
      o.flink_rest.require_stable_checkpoint_before_inject ≡ true
      → (o.flink_rest.enabled ≡ true) × IsGiven o.flink_rest.endpoint
  pub window_of_poll : pos 0 <ℤ o.timeout → pos 0 <ℤ o.poll_interval → o.poll_interval ≤ℤ o.timeout

pub record IsValid (parse_cidr : String → Bool) (run : ChaosRun) : Type 0 where
  pub target_valid : TargetValid run.spec.target.target_type run.spec.target
  pub scenario_valid : ScenarioValid parse_cidr run.spec.scenario.scenario_type run.spec.scenario
  pub observe_valid : ObserveValid run.spec.observe

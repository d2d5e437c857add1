-- ===== src/Tests/Api.antt =====
-- Validation, defaults and bandwidths of concrete runs.
use flink_chaos_operator.Prelude.{String, ◌≡◌, refl, ◌↔◌, Bool, true, [], codes}
use flink_chaos_operator.Api.Types.{RunPhase}
use flink_chaos_operator.Api.Bandwidth.{bandwidth_matches, IsRate, bandwidth_matches_iff}
use flink_chaos_operator.Api.Validation.{
  validate, validate_target_spec, validate_scenario_spec, validate_observe_spec, validate_network,
}
use flink_chaos_operator.Api.Validation.Valid.{IsValid}
use flink_chaos_operator.Api.Validation.Decides.{validate-IsValid}
use flink_chaos_operator.Tests.Data.{partition_run}

abbrev any_block : String → Bool
any_block s = true

partition_is_valid : validate any_block (partition_run RunPhase.pending) ≡ []
unfolding validate validate_target_spec validate_scenario_spec validate_observe_spec
    validate_network
partition_is_valid = refl

validate-IsValid_example :
    (validate any_block (partition_run RunPhase.pending) ≡ [])
    ↔ IsValid any_block (partition_run RunPhase.pending)
validate-IsValid_example = validate-IsValid any_block (partition_run RunPhase.pending)

bandwidth_matches_iff_example : (bandwidth_matches "10Mbit" ≡ true) ↔ IsRate (codes "10Mbit")
bandwidth_matches_iff_example = bandwidth_matches_iff "10Mbit"

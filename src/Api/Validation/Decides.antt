-- ===== src/Api/Validation/Decides.antt =====
-- The validation of api/v1alpha1/chaosrun_validation.go decides validity.
use flink_chaos_operator.Prelude.{
  String, ℤ, ◌≡◌, refl, ◌↔◌, ◌⊎◌, Bool, true, false, not, ◌&&◌, Option, none, some, List, [], arith,
  str_eq, if◌then◌else◌, is_none, is_some, codes,
}
use flink_chaos_operator.Api.Bandwidth.{bandwidth_matches, IsRate, bandwidth_matches_iff}
use flink_chaos_operator.Api.Types.{
  ScenarioType, NetworkTarget, Duration, ExternalTarget, NetworkChaosSpec, ResourceExhaustionSpec,
  ScenarioSpec, ChaosRun,
}
use flink_chaos_operator.Api.Validation.{
  ValidationError, when, validate_target_spec, is_unset_target, is_external_target,
  needs_external_endpoint, validate_impairments, validate_endpoint, validate_network,
  validate_network_opt, validate_exhaustion_opt, validate_scenario_as, validate_scenario_spec,
  validate,
}
use flink_chaos_operator.Api.Validation.Valid.{
  IsGiven, ImpairmentsValid, EndpointValid, NetworkValid, NetworkOptValid, ExhaustionOptValid,
  ScenarioValid, IsValid,
}
use flink_chaos_operator.Api.Validation.Parts.{
  when-nil, append-nil, both-nil, target-nil, selection-nil, exhaustion-nil, observe-nil,
}

module _ (parse_cidr : String → Bool) where
  endpoint-nil :
      (partition : Bool) (t : NetworkTarget) (e : Option ExternalTarget)
      → (validate_endpoint parse_cidr partition t e ≡ []) ↔ EndpointValid parse_cidr partition e
  unfolding validate_endpoint
  endpoint-nil partition t none = (λ p. ground arith, λ p. absurd p)
  endpoint-nil partition t (some e) = (
    λ p.
        let (given, block) = (append-nil (when (partition && str_eq e.cidr "") _) _).0 p in
        (λ q. ground arith, λ q. ground arith),
    λ (given, block).
        (append-nil (when (partition && str_eq e.cidr "") _) _).1 (ground arith, ground arith),
  )

  external-target :
      (t : NetworkTarget) → (is_external_target t ≡ true) ↔ (t ≡ NetworkTarget.tm_to_external)
  unfolding is_external_target
  external-target t = (λ p. ground arith, λ p. ground arith)

  impairment-nil :
      (latency : Option Duration) (loss : Option ℤ) (bandwidth : String) (e : ValidationError)
      → (when (is_none latency && is_none loss && str_eq bandwidth "") e ≡ [])
        ↔ ((is_some latency ≡ true) ⊎ (is_some loss ≡ true) ⊎ IsGiven bandwidth)
  impairment-nil latency loss bandwidth e = (λ p. ground arith, λ h. ground arith)

  jitter-nil :
      (jitter latency : Option Duration) (e : ValidationError)
      → (when (is_some jitter && is_none latency) e ≡ [])
        ↔ (is_some jitter ≡ true → is_some latency ≡ true)
  jitter-nil jitter latency e = (λ p j. ground arith, λ h. ground arith)

  external-nil :
      (bandwidth : String) (t : NetworkTarget) (e : ValidationError)
      → (when (not (str_eq bandwidth "") && not (is_external_target t)) e ≡ [])
        ↔ (IsGiven bandwidth → t ≡ NetworkTarget.tm_to_external)
  external-nil bandwidth t e =
      let external = external-target t in
      (
        λ p b. external.0 (ground arith),
        λ h. let outside = λ (b : IsGiven bandwidth). external.1 (h b) in ground (arith, outside),
      )

  impairments-nil :
      (n : NetworkChaosSpec) → (validate_impairments parse_cidr n ≡ []) ↔ ImpairmentsValid n
  unfolding validate_impairments
  impairments-nil n =
      let parts =
        both-nil _ _
          (both-nil _ _ (impairment-nil n.latency n.loss n.bandwidth _)
            (jitter-nil n.jitter n.latency _))
          (external-nil n.bandwidth n.target _) in
      (
        λ p.
            let ((some_one, jitter), bandwidth) = parts.0 p in
            record {
              some_impairment = some_one;
              jitter_of_latency = jitter;
              bandwidth_external = bandwidth;
            },
        λ v. parts.1 ((v.some_impairment, v.jitter_of_latency), v.bandwidth_external),
      )

  unless-nil :
      {P : Type 0} (b : Bool) (xs : List ValidationError)
      → ((xs ≡ []) ↔ P)
      → ((if b then [] else xs) ≡ []) ↔ (b ≡ false → P)
  unless-nil true xs f = (λ p q. absurd (ground arith), λ h. refl)
  unless-nil false xs f = (λ p q. f.0 p, λ h. f.1 (h refl))

  if-nil :
      {P : Type 0} (b : Bool) (xs : List ValidationError)
      → ((xs ≡ []) ↔ P)
      → ((if b then xs else []) ≡ []) ↔ (b ≡ true → P)
  if-nil true xs f = (λ p q. f.0 p, λ h. f.1 (h refl))
  if-nil false xs f = (λ p q. absurd (ground arith), λ h. refl)

  IsRate-nil :
      (bandwidth : String) (e : ValidationError)
      → (when (not (str_eq bandwidth "") && not (bandwidth_matches bandwidth)) e ≡ [])
        ↔ (IsGiven bandwidth → IsRate (codes bandwidth))
  IsRate-nil bandwidth e =
      let matches = bandwidth_matches_iff bandwidth in
      (
        λ p b. matches.0 (ground arith),
        λ h. let rate = λ (b : IsGiven bandwidth). matches.1 (h b) in ground (arith, rate),
      )

  network-nil :
      (partition : Bool) (n : NetworkChaosSpec)
      → (validate_network parse_cidr partition n ≡ []) ↔ NetworkValid parse_cidr partition n
  unfolding validate_network
  network-nil partition n =
      let parts =
        both-nil _ _
          (both-nil _ _
            (both-nil _ _ (when-nil (is_unset_target n.target) _)
              (unless-nil partition _ (impairments-nil n)))
            (IsRate-nil n.bandwidth _))
          (if-nil (needs_external_endpoint n.target) _
            (endpoint-nil partition n.target n.external_endpoint)) in
      (
        λ p.
            let (((target, impairments), rate), endpoint) = parts.0 p in
            record {
              target_given = target;
              impairments = impairments;
              rate = rate;
              endpoint = endpoint;
            },
        λ v. parts.1 (((v.target_given, v.impairments), v.rate), v.endpoint),
      )

  network_opt-nil :
      (partition : Bool) (t : ScenarioType) (n : Option NetworkChaosSpec)
      → (validate_network_opt parse_cidr partition t n ≡ [])
        ↔ NetworkOptValid parse_cidr partition n
  network_opt-nil partition t none = (λ p. ground arith, λ p. absurd p)
  network_opt-nil partition t (some n) = network-nil partition n

  exhaustion_opt-nil :
      (re : Option ResourceExhaustionSpec)
      → (validate_exhaustion_opt parse_cidr re ≡ []) ↔ ExhaustionOptValid re
  exhaustion_opt-nil none = (λ p. ground arith, λ p. absurd p)
  exhaustion_opt-nil (some re) = exhaustion-nil parse_cidr re.mode re

  scenario-nil :
      (t : ScenarioType) (s : ScenarioSpec)
      → (validate_scenario_as parse_cidr t s ≡ []) ↔ ScenarioValid parse_cidr t s
  unfolding validate_scenario_as
  scenario-nil ScenarioType.unset s = selection-nil s.selection.mode s.selection
  scenario-nil ScenarioType.task_manager_pod_kill s = selection-nil s.selection.mode s.selection
  scenario-nil ScenarioType.network_partition s =
      network_opt-nil true ScenarioType.network_partition s.network
  scenario-nil ScenarioType.network_chaos s =
      network_opt-nil false ScenarioType.network_chaos s.network
  scenario-nil ScenarioType.resource_exhaustion s = exhaustion_opt-nil s.resource_exhaustion
  scenario-nil (ScenarioType.other t) s = (λ p. ground arith, λ p. absurd p)

  -- The validation reports no error exactly when the run is valid: its target is named in the way
  -- of its type; its scenario is a pod kill with a usable selection, a network scenario with a
  -- target, an impairment, a well-formed bandwidth and the endpoint that it needs, or a resource
  -- exhaustion in range; and its observation has what a checkpoint wait needs and a window not
  -- below the poll interval.
  pub validate-IsValid : (run : ChaosRun) → (validate parse_cidr run ≡ []) ↔ IsValid parse_cidr run
  unfolding validate validate_target_spec validate_scenario_spec
  validate-IsValid run =
      let parts =
        both-nil _ _
          (both-nil _ _ (target-nil run.spec.target.target_type run.spec.target)
            (scenario-nil run.spec.scenario.scenario_type run.spec.scenario))
          (observe-nil run.spec.observe) in
      (
        λ p.
            let ((target, scenario), observe) = parts.0 p in
            record { target_valid = target; scenario_valid = scenario; observe_valid = observe },
        λ v. parts.1 ((v.target_valid, v.scenario_valid), v.observe_valid),
      )

-- ===== src/Api/Defaults/Laws.antt =====
-- What defaulting establishes, and that it is idempotent.
use mathlib.Core.Option
use flink_chaos_operator.Prelude.{◌≡◌, refl, Option, none, some, arith, if◌then◌else◌}
use flink_chaos_operator.Api.Types.{
  ScenarioType, SelectionSpec, ActionSpec, NetworkChaosSpec, ResourceExhaustionSpec, ScenarioSpec,
  ObserveSpec, SafetySpec, ChaosRun,
}
use flink_chaos_operator.Api.Defaults.{
  is_kill, set_selection_defaults, set_action_defaults, set_network_defaults, set_exhaustion_of,
  set_scenario_defaults, set_observe_defaults, set_safety_defaults, set_defaults,
}

network_idem :
    (n : Option NetworkChaosSpec)
    → Option.map set_network_defaults (Option.map set_network_defaults n)
      ≡ Option.map set_network_defaults n
unfolding set_network_defaults
network_idem none = refl
network_idem (some n) = ground arith

exhaustion_idem :
    (t : ScenarioType) (re : Option ResourceExhaustionSpec)
    → set_exhaustion_of t (set_exhaustion_of t re) ≡ set_exhaustion_of t re
unfolding set_exhaustion_of
exhaustion_idem ScenarioType.resource_exhaustion none = refl
exhaustion_idem ScenarioType.resource_exhaustion (some re) = ground arith
exhaustion_idem _ re = refl

selection_idem :
    (t : ScenarioType) (sel : SelectionSpec)
    → let set = λ (x : SelectionSpec). if is_kill t then set_selection_defaults x else x in
      set (set sel) ≡ set sel
unfolding set_selection_defaults
selection_idem t sel = ground arith

action_idem :
    (t : ScenarioType) (a : ActionSpec)
    → let set = λ (x : ActionSpec). if is_kill t then set_action_defaults x else x in
      set (set a) ≡ set a
unfolding set_action_defaults
action_idem t a = ground arith

scenario_idem :
    (s : ScenarioSpec) → set_scenario_defaults (set_scenario_defaults s) ≡ set_scenario_defaults s
unfolding set_scenario_defaults
scenario_idem s = cc (
  selection_idem s.scenario_type s.selection,
  action_idem s.scenario_type s.action,
  network_idem s.network,
  exhaustion_idem s.scenario_type s.resource_exhaustion,
)

observe_idem :
    (o : ObserveSpec) → set_observe_defaults (set_observe_defaults o) ≡ set_observe_defaults o
unfolding set_observe_defaults
observe_idem o = ground arith

safety_idem : (s : SafetySpec) → set_safety_defaults (set_safety_defaults s) ≡ set_safety_defaults s
unfolding set_safety_defaults
safety_idem s = ground arith

-- Applying the defaults a second time changes nothing, so each reconcile sees the same values.
set_defaults_idempotent : (run : ChaosRun) → set_defaults (set_defaults run) ≡ set_defaults run
unfolding set_defaults
set_defaults_idempotent run =
    cc (scenario_idem run.spec.scenario, observe_idem run.spec.observe, safety_idem run.spec.safety)

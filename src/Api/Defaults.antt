-- ===== src/Api/Defaults.antt =====
-- The defaults that every reconcile applies in memory (`SetDefaults` and its helpers in
-- api/v1alpha1/chaosrun_validation.go).
pub mod Laws
use mathlib.Core.Option
use flink_chaos_operator.Prelude.{
  ◌*◌, ℤ, pos, Bool, true, false, not, ◌&&◌, Option, none, some, if◌then◌else◌, eq_ℤ,
}
use flink_chaos_operator.Api.Types.{
  ScenarioType, SelectionMode, ActionType, NetworkDirection, ResourceExhaustionMode, Duration,
  SelectionSpec, ActionSpec, NetworkChaosSpec, ResourceExhaustionSpec, ScenarioSpec, ObserveSpec,
  FlinkRestObserve, SafetySpec, ChaosRun,
}

-- A number of seconds, in nanoseconds.
abbrev pub in_seconds : ℤ → Duration
in_seconds (pos n) = pos (n * 1000000000)
in_seconds n = n

-- `if p == nil { p = &v }`
abbrev pub or_default {ℓ} : {A : Type ℓ} → A → Option A → Option A
or_default v none = some v
or_default v (some x) = some x

abbrev pub zero_default : ℤ → ℤ → ℤ
zero_default v x = if eq_ℤ x (pos 0) then v else x

abbrev default_mode : SelectionMode → SelectionMode
default_mode SelectionMode.unset = SelectionMode.random
default_mode m = m

abbrev is_random : SelectionMode → Bool
is_random SelectionMode.random = true
is_random _ = false

abbrev default_action : ActionType → ActionType
default_action ActionType.unset = ActionType.delete_pod
default_action a = a

abbrev default_direction : NetworkDirection → NetworkDirection
default_direction NetworkDirection.unset = NetworkDirection.both
default_direction d = d

abbrev is_memory : ResourceExhaustionMode → Bool
is_memory ResourceExhaustionMode.memory = true
is_memory _ = false

set_selection_defaults : SelectionSpec → SelectionSpec
set_selection_defaults sel =
    let mode = default_mode sel.mode in
    record sel {
      mode = mode;
      count = if is_random mode then zero_default (pos 1) sel.count else sel.count;
    }

set_action_defaults : ActionSpec → ActionSpec
set_action_defaults a = record a {
  action_type = default_action a.action_type;
  grace_period_seconds = or_default (pos 0) a.grace_period_seconds;
}

set_network_defaults : NetworkChaosSpec → NetworkChaosSpec
set_network_defaults n = record n {
  direction = default_direction n.direction;
  duration = or_default (in_seconds (pos 60)) n.duration;
}

set_exhaustion_defaults : ResourceExhaustionSpec → ResourceExhaustionSpec
set_exhaustion_defaults re = record re {
  workers = zero_default (pos 1) re.workers;
  memory_percent =
      if is_memory re.mode then zero_default (pos 80) re.memory_percent else re.memory_percent;
  duration = or_default (in_seconds (pos 60)) re.duration;
}

-- The cases of the first switch of `setScenarioDefaults`: pod kills, and runs without a type.
abbrev is_kill : ScenarioType → Bool
is_kill ScenarioType.unset = true
is_kill ScenarioType.task_manager_pod_kill = true
is_kill _ = false

-- The second switch.
set_exhaustion_of : ScenarioType → Option ResourceExhaustionSpec → Option ResourceExhaustionSpec
unfolding set_exhaustion_defaults
set_exhaustion_of ScenarioType.resource_exhaustion re = Option.map set_exhaustion_defaults re
set_exhaustion_of _ re = re

unfoldable pub set_scenario_defaults : ScenarioSpec → ScenarioSpec
unfolding set_selection_defaults set_action_defaults set_network_defaults set_exhaustion_of
set_scenario_defaults s = record s {
  selection = if is_kill s.scenario_type then set_selection_defaults s.selection else s.selection;
  action = if is_kill s.scenario_type then set_action_defaults s.action else s.action;
  network = Option.map set_network_defaults s.network;
  resource_exhaustion = set_exhaustion_of s.scenario_type s.resource_exhaustion;
}

set_rest_defaults : FlinkRestObserve → FlinkRestObserve
set_rest_defaults r =
    if r.require_stable_checkpoint_before_inject
    then record r {
      checkpoint_stable_window_seconds = zero_default (pos 60) r.checkpoint_stable_window_seconds;
      checkpoint_wait_timeout = or_default (in_seconds (pos 300)) r.checkpoint_wait_timeout;
    }
    else r

-- Observation is enabled where the three plain fields are all zero.
unfoldable pub set_observe_defaults : ObserveSpec → ObserveSpec
unfolding set_rest_defaults
set_observe_defaults o = record {
  enabled =
      if not o.enabled && eq_ℤ o.timeout (pos 0) && eq_ℤ o.poll_interval (pos 0)
      then true
      else o.enabled;
  timeout = zero_default (in_seconds (pos 600)) o.timeout;
  poll_interval = zero_default (in_seconds (pos 5)) o.poll_interval;
  flink_rest = set_rest_defaults o.flink_rest;
}

unfoldable pub set_safety_defaults : SafetySpec → SafetySpec
set_safety_defaults s = record s {
  max_concurrent_runs_per_target = zero_default (pos 1) s.max_concurrent_runs_per_target;
  min_task_managers_remaining = or_default (pos 1) s.min_task_managers_remaining;
  max_network_chaos_duration = or_default (in_seconds (pos 300)) s.max_network_chaos_duration;
  max_resource_exhaustion_duration =
      or_default (in_seconds (pos 300)) s.max_resource_exhaustion_duration;
}

-- The receiver's specification is changed in memory; nothing is persisted.
unfoldable pub set_defaults : ChaosRun → ChaosRun
unfolding set_scenario_defaults set_observe_defaults set_safety_defaults
set_defaults run = record run {
  spec = record (run.spec) {
    scenario = set_scenario_defaults run.spec.scenario;
    observe = set_observe_defaults run.spec.observe;
    safety = set_safety_defaults run.spec.safety;
  };
}

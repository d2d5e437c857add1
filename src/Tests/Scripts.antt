-- ===== src/Tests/Scripts.antt =====
-- The commands of ephemeral containers, and a NetworkChaos run whose script can not be built.
use flink_chaos_operator.Prelude.{
  ◌-◌, ◌%◌, pos, ◌≡◌, ◌↔◌, refl, ap, String, Bool, true, some, none, [], ◌∷◌, decimal, str_eq,
  str_eq_sound,
}
use flink_chaos_operator.Api.Types.{ScenarioType, RunPhase, NetworkChaosSpec, ChaosRun}
use flink_chaos_operator.Api.Validation.{
  validate, validate_target_spec, validate_scenario_spec, validate_network, validate_observe_spec,
}
use flink_chaos_operator.Scenarios.Ephemeral.{TcRule}
use flink_chaos_operator.Scenarios.NetworkChaos.{build_rule}
use flink_chaos_operator.Scenarios.Tc.{is_shell_safe, format_duration, add_args, entrypoint_script}
use flink_chaos_operator.Scenarios.Durations.{read_time, read_time-format_duration}
use flink_chaos_operator.Scenarios.Scripts.{SlipsThrough, validated_script}
use flink_chaos_operator.Tests.Data.{partition_network, kill_scenario, run_of, status_in}

abbrev slow_link : TcRule
slow_link = record {
  interface = "eth0";
  latency = pos 100000000;
  jitter = pos 1500000;
  loss_pct = pos 5;
  bandwidth = "";
  peer_cidr = "";
}

slow_link_args :
    add_args slow_link
    ≡ "tc" ∷ "qdisc" ∷ "add" ∷ "dev" ∷ "eth0" ∷ "root" ∷ "netem" ∷ "delay" ∷ "100ms" ∷ "1500us"
      ∷ "loss" ∷ "5%" ∷ []
unfolding add_args decimal
slow_link_args = refl

slow_link_script :
    entrypoint_script slow_link (pos 0)
    ≡ some
        "#!/bin/sh\nset -e\n_cleanup() {\n  tc qdisc del dev eth0 root 2>/dev/null || true\n}\ntrap '_cleanup' TERM INT\ntc qdisc add dev eth0 root netem delay 100ms 1500us loss 5%\nsleep 1 &\nSLEEP_PID=$!\nwait $SLEEP_PID\n_cleanup\n"
unfolding entrypoint_script decimal
slow_link_script = refl

read_time-format_duration_example :
    read_time (format_duration (pos 1500999)) ≡ some (1500999 - 1500999 % 1000)
read_time-format_duration_example = read_time-format_duration 1500999

abbrev unsafe_network : NetworkChaosSpec
unsafe_network = record partition_network {
  latency = some (pos 100000000);
  external_endpoint = some (record { cidr = "10.0.0.0/8;reboot"; hostname = ""; port = pos 0 });
}

abbrev unsafe_run : ChaosRun
unsafe_run =
    run_of
      (record kill_scenario {
        scenario_type = ScenarioType.network_chaos;
        network = some unsafe_network;
      })
      (status_in RunPhase.pending)

-- A parser of address blocks that takes one.
abbrev takes_one : String → Bool
takes_one s = str_eq s "10.0.0.0/8"

takes_one_safe : (s : String) → takes_one s ≡ true → is_shell_safe s ≡ true
unfolding is_shell_safe
takes_one_safe s h = ap (λ t. is_shell_safe t) (str_eq_sound s "10.0.0.0/8" h)

unsafe_run_passes : validate takes_one unsafe_run ≡ []
unfolding validate validate_target_spec validate_scenario_spec validate_network
    validate_observe_spec
unsafe_run_passes = refl

validated_script_example :
    (entrypoint_script (build_rule unsafe_network) (pos 60000000000) ≡ none)
    ↔ SlipsThrough unsafe_network
validated_script_example =
    validated_script takes_one takes_one_safe unsafe_run unsafe_network (pos 60000000000)
      unsafe_run_passes refl refl

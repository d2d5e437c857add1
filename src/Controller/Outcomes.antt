-- ===== src/Controller/Outcomes.antt =====
-- The outcomes and the anchors of the Observing phase (internal/controller/chaosrun_controller.go).
use flink_chaos_operator.Prelude.{
  ◌-◌, ◌/◌, ◌==◌, suc, ℤ, pos, negsuc, String, Bool, true, false, Option, none, some, ◌&◌,
  if◌then◌else◌, decimal,
}
use flink_chaos_operator.Api.Types.{
  ScenarioType, RunVerdict, Duration, Time, ObservationStatus, NetworkChaosSpec, ChaosRun,
}
use flink_chaos_operator.Interfaces.{Result, ok, err, ResolvedTarget, ObservationResult}

-- `int64(d.Seconds())`, in exact arithmetic: towards zero.
unfoldable pub whole_seconds : Duration → ℤ
whole_seconds (pos n) = pos (n / 1000000000)
whole_seconds (negsuc n) = let s = suc n / 1000000000 in if s == 0 then pos 0 else negsuc (s - 1)

abbrev pub set_verdict : ChaosRun → RunVerdict → ChaosRun
set_verdict run v = record run { status = record (run.status) { verdict = v } }

-- `run.Status.Observation != nil && run.Status.Observation.RecoveryObservedAt != nil`
abbrev pub recovery_seen : Option ObservationStatus → Bool
recovery_seen none = false
recovery_seen (some o) = elim o.recovery_observed_at [ none ↦ false | some _ ↦ true ]

abbrev recovery_seconds : Option ObservationStatus → ℤ
recovery_seconds none = pos 0
recovery_seconds (some o) = elim o.recovery_time_seconds [ none ↦ pos 0 | some s ↦ s ]

abbrev is_exhaustion : ScenarioType → Bool
is_exhaustion ScenarioType.resource_exhaustion = true
is_exhaustion _ = false

-- The verdict and message of a window that has elapsed, for a pod kill and for the rest.
unfoldable pub kill_outcome : ChaosRun → String → RunVerdict × String
kill_outcome run secs =
    if recovery_seen run.status.observation
    then (
      RunVerdict.passed,
      "killed pod recovered in "
          & decimal (recovery_seconds run.status.observation)
          & "s (observation window: "
          & secs
          & "s)",
    )
    else (
      RunVerdict.failed,
      "killed pod was not recovered within the " & secs & "s observation window",
    )

unfoldable pub cleanup_outcome : ChaosRun → String → RunVerdict × String
cleanup_outcome run secs =
    if is_exhaustion run.spec.scenario.scenario_type
    then (RunVerdict.passed, "resource exhaustion ran for " & secs & "s")
    else if recovery_seen run.status.observation
    then (RunVerdict.passed, "recovery confirmed within the " & secs & "s observation window")
    else if run.status.replacement_observed
    then (
      RunVerdict.inconclusive,
      "replacement pod seen but full recovery not confirmed within the " & secs
          & "s observation window",
    )
    else (
      RunVerdict.failed,
      "no Flink recovery detected within the " & secs & "s observation window",
    )

-- ObservingStartedAt if it is there, or else StartedAt.
abbrev pub anchor_of : Option Time → Option Time → Option Time
anchor_of none started = started
anchor_of (some t) started = some t

abbrev pub observe_anchor : ChaosRun → Option Time
observe_anchor run = anchor_of run.status.observing_started_at run.status.started_at

-- The duration after which a partition is lifted, where the observation has a start.
unfoldable pub partition_window :
    ScenarioType → Option NetworkChaosSpec → Option Time → Option (Time × Duration)
partition_window ScenarioType.network_partition (some n) (some started) = elim n.duration [
  | none ↦ none
  | some d ↦ some (started, d)
]
partition_window _ _ _ = none

-- The zero ObservationResult.
abbrev pub nothing_observed : ObservationResult
nothing_observed = record {
  replacement_observed = false;
  all_replacements_ready = false;
  tm_count_before = 0;
  tm_count_after = 0;
  flink_job_state = "";
  checkpoint_status = "";
}

abbrev pub to_option : Result ResolvedTarget → Option ResolvedTarget
to_option (ok t) = some t
to_option (err _) = none

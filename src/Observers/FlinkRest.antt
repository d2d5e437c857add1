-- ===== src/Observers/FlinkRest.antt =====
-- The observer that asks Flink's REST API (internal/observer/flinkrest/observer.go). Its cache of
-- clients by endpoint is left out: an entry is what `NewClient` makes of its endpoint.
use flink_chaos_operator.Prelude.{
  ℕ, ◌+◌, String, Bool, true, false, not, ◌&&◌, Option, none, some, List, [], ◌∷◌, ◌&◌,
  if◌then◌else◌, ltb, leb, str_eq,
}
use flink_chaos_operator.Api.Types.{ObservationStatus, ChaosRun}
use flink_chaos_operator.Interfaces.{Result, ok, err, ObservationResult, Observer}
use flink_chaos_operator.Controller.Outcomes.{nothing_observed}

-- The two methods of a client that the observer calls: the states of the jobs, and the number of
-- TaskManagers.
pub record Client : Type 0 where
  pub jobs : ℕ → Result (List String)
  pub task_managers : ℕ → Result ℕ

-- The loop that looks for a running job.
unfoldable pub has_running : List String → Bool
has_running [] = false
has_running (state ∷ states) =
    let rest = has_running states in if str_eq state "RUNNING" then true else rest

abbrev first_state : List String → String
first_state [] = ""
first_state (state ∷ states) = state

unfoldable pub job_state : List String → String
unfolding has_running
job_state states = if has_running states then "RUNNING" else first_state states

-- The number recorded before the injection, or 0.
abbrev pub baseline : Option ObservationStatus → ℕ
baseline none = 0
baseline (some o) = o.task_manager_count_before

unfoldable pub report : ChaosRun → String → ℕ → ObservationResult
report run state tm_count = record nothing_observed {
  flink_job_state = state;
  tm_count_after = tm_count;
  replacement_observed = ltb 0 tm_count;
  all_replacements_ready = str_eq state "RUNNING" && leb (baseline run.status.observation) tm_count;
}

module _ (new_client : String → Client) where
  abbrev pub with_task_managers : ChaosRun → List String → Result ℕ → Result ObservationResult
  with_task_managers run states (err e) = err ("flink REST taskmanagers query: " & e)
  with_task_managers run states (ok tm_count) = ok (report run (job_state states) tm_count)

  abbrev pub with_jobs : Client → ℕ → ChaosRun → Result (List String) → Result ObservationResult
  with_jobs client n run (err e) = err ("flink REST jobs query: " & e)
  with_jobs client n run (ok states) = with_task_managers run states (client.task_managers (n + 1))

  -- `Observe`; what is not enabled does not stand in the way of the other observers.
  unfoldable pub observe : Observer
  unfolding job_state report
  observe n run target =
      if run.spec.observe.flink_rest.enabled && not (str_eq run.spec.observe.flink_rest.endpoint "")
      then (let client = new_client run.spec.observe.flink_rest.endpoint in
          with_jobs client n run (client.jobs n))
      else ok (record nothing_observed { all_replacements_ready = true })

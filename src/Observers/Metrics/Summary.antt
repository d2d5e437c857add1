-- ===== src/Observers/Metrics/Summary.antt =====
-- JobMetrics of internal/observer/flinkrest/client.go, from the job's metrics to the rates of its
-- vertices.
use flink_chaos_operator.Prelude.{
  ℤ, pos, String, Option, none, some, List, [], ◌∷◌, ◌&◌, if◌then◌else◌, str_eq,
}
use flink_chaos_operator.Interfaces.{Result, ok, err}
use flink_chaos_operator.Observers.Checkpoints.{
  Response, unbuilt, lost, answered, read, first_running,
}
use flink_chaos_operator.Observers.Metrics.{decoded}
use flink_chaos_operator.Observers.Metrics.Job.{
  JobDetail, MetricsServer, JobMetricsSummary, decode_vertex_throughput, fetch_checkpoint_detail,
  fetch_vertex_rates,
}

-- `fmt.Sscanf(value, …, &field)`: the field keeps its value on an error.
abbrev pub scanned {ℓ} : {A : Type ℓ} → Option A → A → A
scanned none old = old
scanned (some new) old = new

-- Zero and the sum of the floating point numbers, the reading of numbers, and the order in which the
-- goroutines of the vertices take the lock, are arguments.
module _ {F : Type 0} (zero_rate : F) (add : F → F → F) (scan_float : String → Option F)
    (scan_int : String → Option ℤ) (finish_order : List String → List String) where
  -- The counters among the items.
  unfoldable pub apply_counter : String → String → JobMetricsSummary F → JobMetricsSummary F
  apply_counter id value s =
      if str_eq id "lastCheckpointDuration"
      then record s {
        last_checkpoint_duration_ms = scanned (scan_int value) s.last_checkpoint_duration_ms;
      }
      else if str_eq id "lastCheckpointSize"
      then record s {
        last_checkpoint_size_bytes = scanned (scan_int value) s.last_checkpoint_size_bytes;
      }
      else if str_eq id "numberOfCompletedCheckpoints"
      then record s { completed_checkpoints = scanned (scan_int value) s.completed_checkpoints }
      else if str_eq id "numberOfFailedCheckpoints"
      then record s { failed_checkpoints = scanned (scan_int value) s.failed_checkpoints }
      else if str_eq id "numRestarts"
      then record s { num_restarts = scanned (scan_int value) s.num_restarts }
      else if str_eq id "numberOfInProgressCheckpoints"
      then record s { in_progress_checkpoints = scanned (scan_int value) s.in_progress_checkpoints }
      else if str_eq id "numberOfRestoredCheckpoints"
      then record s { restored_checkpoints = scanned (scan_int value) s.restored_checkpoints }
      else s

  -- The rates among the items.
  unfoldable pub apply_rate : String → String → JobMetricsSummary F → JobMetricsSummary F
  apply_rate id value s =
      if str_eq id "numRecordsInPerSecond"
      then record s { records_in_per_sec = scanned (scan_float value) s.records_in_per_sec }
      else if str_eq id "numRecordsOutPerSecond"
      then record s { records_out_per_sec = scanned (scan_float value) s.records_out_per_sec }
      else if str_eq id "numBytesInPerSecond"
      then record s { bytes_in_per_sec = scanned (scan_float value) s.bytes_in_per_sec }
      else if str_eq id "numBytesOutPerSecond"
      then record s { bytes_out_per_sec = scanned (scan_float value) s.bytes_out_per_sec }
      else s

  unfoldable pub apply_items : List (String × String) → JobMetricsSummary F → JobMetricsSummary F
  unfolding apply_counter apply_rate
  apply_items [] s = s
  apply_items ((id, value) ∷ items) s =
      apply_items items (apply_rate id value (apply_counter id value s))

  abbrev pub with_items :
      Option (List (String × String)) → JobMetricsSummary F → JobMetricsSummary F
  with_items none s = s
  with_items (some items) s = apply_items items s

  abbrev pub empty_summary : JobMetricsSummary F
  empty_summary = record {
    job_id = "";
    job_name = "";
    job_start_time = pos 0;
    job_duration_ms = pos 0;
    max_parallelism = pos 0;
    vertices = [];
    last_checkpoint_duration_ms = pos 0;
    last_checkpoint_size_bytes = pos 0;
    completed_checkpoints = pos 0;
    failed_checkpoints = pos 0;
    num_restarts = pos 0;
    in_progress_checkpoints = pos 0;
    restored_checkpoints = pos 0;
    total_checkpoints = pos 0;
    latest_checkpoint_id = pos 0;
    latest_checkpoint_completion_time = pos 0;
    latest_checkpoint_duration_ms = pos 0;
    latest_checkpoint_state_size_bytes = pos 0;
    latest_checkpoint_full_size_bytes = pos 0;
    records_in_per_sec = zero_rate;
    records_out_per_sec = zero_rate;
    bytes_in_per_sec = zero_rate;
    bytes_out_per_sec = zero_rate;
    read_records = pos 0;
    write_records = pos 0;
    read_bytes = pos 0;
    write_bytes = pos 0;
  }

  module _ (server : MetricsServer F) where
    abbrev pub with_detail : String → Option JobDetail → JobMetricsSummary F → JobMetricsSummary F
    with_detail job none s = s
    with_detail job (some d) s =
        let (decoded_summary, ids) = decode_vertex_throughput d s in
        fetch_vertex_rates add (server.vertex_metrics job) (finish_order ids) decoded_summary

    -- What follows the first response: the checkpoints, and the job's detail with its vertices.
    abbrev pub completed_summary : String → JobMetricsSummary F → JobMetricsSummary F
    completed_summary job s =
        with_detail job (decoded (server.job_detail job))
          (fetch_checkpoint_detail (decoded (server.checkpoint_stats job)) s)

    -- The response on the metrics: only one that does not come is an error.
    abbrev pub after_metrics :
        String → String → Response (List (String × String)) → Result (Option (JobMetricsSummary F))
    after_metrics job url (unbuilt e) = err ("build metrics request: " & e)
    after_metrics job url (lost e) = err ("GET " & url & ": " & e)
    after_metrics job url (answered status body) =
        ok
          (some (completed_summary job (with_items (decoded (answered status body)) empty_summary)))

    abbrev pub metrics_of : String → String → Result (Option (JobMetricsSummary F))
    metrics_of base_url job =
        if str_eq job ""
        then ok none
        else after_metrics job
            (base_url & "/jobs/" & job & "/metrics?get=lastCheckpointDuration,lastCheckpointSize,"
              & "numberOfCompletedCheckpoints,numberOfFailedCheckpoints,numRestarts,"
              & "numberOfInProgressCheckpoints,numberOfRestoredCheckpoints,"
              & "numRecordsInPerSecond,numRecordsOutPerSecond,"
              & "numBytesInPerSecond,numBytesOutPerSecond&agg=sum")
            (server.job_metrics job)

    -- `JobMetrics`
    unfoldable pub job_metrics : String → Result (Option (JobMetricsSummary F))
    unfolding read first_running apply_items fetch_checkpoint_detail decode_vertex_throughput
        fetch_vertex_rates
    job_metrics base_url = elim (read "jobs" (base_url & "/jobs/overview") server.jobs_overview) [
      | ok listed ↦ metrics_of base_url (first_running listed)
      | err e ↦ err ("list jobs: " & e)
    ]

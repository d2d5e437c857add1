-- ===== src/Observers/Metrics/Job.antt =====
-- The metrics of the first running job: JobMetrics and its helpers in
-- internal/observer/flinkrest/client.go.
use flink_chaos_operator.Prelude.{
  ℤ, pos, String, ◌&&◌, Option, none, some, List, [], ◌∷◌, map, if◌then◌else◌, str_eq, ltb_ℤ, eq_ℤ,
  plus_int64,
}
use flink_chaos_operator.Observers.Checkpoints.{Response, JobSummary}
use flink_chaos_operator.Observers.Metrics.{decoded}

-- VertexDetail
pub record VertexDetail : Type 0 where
  pub name : String
  pub parallelism : ℤ
  pub status : String

-- JobMetricsSummary, but for the moment of the sample.
pub record JobMetricsSummary (F : Type 0) : Type 0 where
  pub job_id : String
  pub job_name : String
  pub job_start_time : ℤ
  pub job_duration_ms : ℤ
  pub max_parallelism : ℤ
  pub vertices : List VertexDetail
  pub last_checkpoint_duration_ms : ℤ
  pub last_checkpoint_size_bytes : ℤ
  pub completed_checkpoints : ℤ
  pub failed_checkpoints : ℤ
  pub num_restarts : ℤ
  pub in_progress_checkpoints : ℤ
  pub restored_checkpoints : ℤ
  pub total_checkpoints : ℤ
  pub latest_checkpoint_id : ℤ
  pub latest_checkpoint_completion_time : ℤ
  pub latest_checkpoint_duration_ms : ℤ
  pub latest_checkpoint_state_size_bytes : ℤ
  pub latest_checkpoint_full_size_bytes : ℤ
  pub records_in_per_sec : F
  pub records_out_per_sec : F
  pub bytes_in_per_sec : F
  pub bytes_out_per_sec : F
  pub read_records : ℤ
  pub write_records : ℤ
  pub read_bytes : ℤ
  pub write_bytes : ℤ

-- The body of /jobs/{id}/checkpoints.
pub record CompletedCheckpoint : Type 0 where
  pub id : ℤ
  pub latest_ack_timestamp : ℤ
  pub end_to_end_duration : ℤ
  pub state_size : ℤ
  pub full_size : ℤ

pub record CheckpointStats : Type 0 where
  pub restored : ℤ
  pub total : ℤ
  pub in_progress : ℤ
  pub completed : ℤ
  pub failed : ℤ
  pub latest_completed : Option CompletedCheckpoint

-- The body of /jobs/{id}, with the nodes of the plan that Ververica gives, if they can be decoded.
pub record JobVertex : Type 0 where
  pub id : String
  pub name : String
  pub parallelism : ℤ
  pub status : String
  pub read_records : ℤ
  pub write_records : ℤ
  pub read_bytes : ℤ
  pub write_bytes : ℤ

pub record PlanNode : Type 0 where
  pub num_records_in : ℤ
  pub num_records_out : ℤ
  pub num_bytes_in : ℤ
  pub num_bytes_out : ℤ

pub record JobDetail : Type 0 where
  pub jid : String
  pub name : String
  pub start_time : ℤ
  pub duration : ℤ
  pub max_parallelism : ℤ
  pub vertices : List JobVertex
  pub plan : Option (List PlanNode)

-- The server's answers to one call, by the job and the vertex.
pub record MetricsServer (F : Type 0) : Type 0 where
  pub jobs_overview : Response (List JobSummary)
  pub job_metrics : String → Response (List (String × String))
  pub checkpoint_stats : String → Response CheckpointStats
  pub job_detail : String → Response JobDetail
  pub vertex_metrics : String → String → Response (List (String × F))

-- The counters of a job, added up.
abbrev pub text_or : String → String → String
text_or new old = if str_eq new "" then old else new

abbrev pub positive_or : ℤ → ℤ → ℤ
positive_or new old = if ltb_ℤ (pos 0) new then new else old

abbrev pub with_ids : String → List String → List String
with_ids id ids = if str_eq id "" then ids else id ∷ ids

unfoldable pub vertex_ids : List JobVertex → List String
vertex_ids [] = []
vertex_ids (v ∷ vs) = with_ids v.id (vertex_ids vs)

abbrev pub vertex_detail : JobVertex → VertexDetail
vertex_detail v = record { name = v.name; parallelism = v.parallelism; status = v.status }

module _ {F : Type 0} where
  abbrev pub with_counts : ℤ → ℤ → ℤ → ℤ → JobMetricsSummary F → JobMetricsSummary F
  with_counts ri wi rb wb s = record s {
    read_records = plus_int64 s.read_records ri;
    write_records = plus_int64 s.write_records wi;
    read_bytes = plus_int64 s.read_bytes rb;
    write_bytes = plus_int64 s.write_bytes wb;
  }

  unfoldable pub add_vertices : List JobVertex → JobMetricsSummary F → JobMetricsSummary F
  unfolding plus_int64
  add_vertices [] s = s
  add_vertices (v ∷ vs) s =
      add_vertices vs (with_counts v.read_records v.write_records v.read_bytes v.write_bytes s)

  unfoldable pub add_nodes : List PlanNode → JobMetricsSummary F → JobMetricsSummary F
  unfolding plus_int64
  add_nodes [] s = s
  add_nodes (n ∷ ns) s =
      add_nodes ns (with_counts n.num_records_in n.num_records_out n.num_bytes_in n.num_bytes_out s)

  abbrev pub of_plan : Option (List PlanNode) → JobMetricsSummary F → JobMetricsSummary F
  of_plan none s = s
  of_plan (some nodes) s = add_nodes nodes s

  -- The plan's counters, where the vertices have no records.
  abbrev pub or_plan : Option (List PlanNode) → JobMetricsSummary F → JobMetricsSummary F
  or_plan plan s =
      if eq_ℤ s.read_records (pos 0) && eq_ℤ s.write_records (pos 0) then of_plan plan s else s

  -- `decodeVertexThroughput`: the summary, and the ids of the vertices.
  unfoldable pub decode_vertex_throughput :
      JobDetail → JobMetricsSummary F → JobMetricsSummary F × List String
  unfolding add_vertices add_nodes vertex_ids
  decode_vertex_throughput d s = (
    or_plan d.plan (
        add_vertices d.vertices (record s {
          job_id = text_or d.jid s.job_id;
          job_name = text_or d.name s.job_name;
          job_start_time = positive_or d.start_time s.job_start_time;
          job_duration_ms = positive_or d.duration s.job_duration_ms;
          max_parallelism = positive_or d.max_parallelism s.max_parallelism;
          vertices = map vertex_detail d.vertices;
        })),
    vertex_ids d.vertices,
  )

  abbrev pub with_counted : CheckpointStats → JobMetricsSummary F → JobMetricsSummary F
  with_counted c s = record s {
    restored_checkpoints = c.restored;
    total_checkpoints = c.total;
    in_progress_checkpoints = c.in_progress;
    completed_checkpoints = if ltb_ℤ (pos 0) c.total then c.completed else s.completed_checkpoints;
    failed_checkpoints = if ltb_ℤ (pos 0) c.total then c.failed else s.failed_checkpoints;
  }

  abbrev pub with_latest : Option CompletedCheckpoint → JobMetricsSummary F → JobMetricsSummary F
  with_latest none s = s
  with_latest (some cp) s = record s {
    latest_checkpoint_id = cp.id;
    latest_checkpoint_completion_time = cp.latest_ack_timestamp;
    latest_checkpoint_duration_ms = cp.end_to_end_duration;
    latest_checkpoint_state_size_bytes = cp.state_size;
    latest_checkpoint_full_size_bytes = cp.full_size;
  }

  -- `fetchCheckpointDetail`, from what was decoded.
  unfoldable pub fetch_checkpoint_detail :
      Option CheckpointStats → JobMetricsSummary F → JobMetricsSummary F
  fetch_checkpoint_detail none s = s
  fetch_checkpoint_detail (some c) s = with_latest c.latest_completed (with_counted c s)

  -- The floating point numbers, with the sum and the start value.
  module _ (add : F → F → F) where
    -- One entry of a vertex's metrics.
    unfoldable pub add_rate : String × F → JobMetricsSummary F → JobMetricsSummary F
    add_rate (id, sum) s =
        if str_eq id "numRecordsInPerSecond"
        then record s { records_in_per_sec = add s.records_in_per_sec sum }
        else if str_eq id "numRecordsOutPerSecond"
        then record s { records_out_per_sec = add s.records_out_per_sec sum }
        else if str_eq id "numBytesInPerSecond"
        then record s { bytes_in_per_sec = add s.bytes_in_per_sec sum }
        else if str_eq id "numBytesOutPerSecond"
        then record s { bytes_out_per_sec = add s.bytes_out_per_sec sum }
        else s

    unfoldable pub add_rates : List (String × F) → JobMetricsSummary F → JobMetricsSummary F
    unfolding add_rate
    add_rates [] s = s
    add_rates (e ∷ es) s = add_rates es (add_rate e s)

    abbrev pub of_vertex : Option (List (String × F)) → JobMetricsSummary F → JobMetricsSummary F
    of_vertex none s = s
    of_vertex (some entries) s = add_rates entries s

    -- `fetchVertexRates`: each vertex adds its entries under the lock, in the order given.
    unfoldable pub fetch_vertex_rates :
        (String → Response (List (String × F)))
        → List String
        → JobMetricsSummary F
        → JobMetricsSummary F
    unfolding add_rates
    fetch_vertex_rates ask [] s = s
    fetch_vertex_rates ask (v ∷ vs) s = fetch_vertex_rates ask vs (of_vertex (decoded (ask v)) s)

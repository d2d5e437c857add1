-- ===== src/Tests/Metrics.antt =====
-- The client's metrics of a job and of TaskManagers, with natural numbers for the rates.
use flink_chaos_operator.Prelude.{
  ℕ, ◌+◌, ℤ, pos, String, ◌≡◌, refl, Option, none, some, [], ◌∷◌, if◌then◌else◌, str_eq,
}
use flink_chaos_operator.Interfaces.{Result, ok}
use flink_chaos_operator.Observers.Checkpoints.{lost, answered}
use flink_chaos_operator.Observers.Metrics.{heap_percent_of, pod_ip_of}
use flink_chaos_operator.Observers.Metrics.Job.{JobVertex, MetricsServer, JobMetricsSummary}
use flink_chaos_operator.Observers.Metrics.Summary.{job_metrics}

address : pod_ip_of "10.0.0.7:6122-a1" ≡ "10.0.0.7"
unfolding pod_ip_of
address = refl

three_quarters : heap_percent_of (pos 768) (pos 1024) ≡ pos 75
unfolding heap_percent_of
three_quarters = refl

over_the_maximum : heap_percent_of (pos 2048) (pos 1024) ≡ pos 100
unfolding heap_percent_of
over_the_maximum = refl

abbrev vertex : String → JobVertex
vertex id = record {
  id = id;
  name = id;
  parallelism = pos 1;
  status = "RUNNING";
  read_records = pos 5;
  write_records = pos 7;
  read_bytes = pos 50;
  write_bytes = pos 70;
}

abbrev job_server : MetricsServer ℕ
job_server = record {
  jobs_overview =
      answered 200 (ok (record { id = "job-1"; name = "orders"; state = "RUNNING" } ∷ []));
  job_metrics = λ job. answered 200 (ok (("numRecordsInPerSecond", "ten") ∷ []));
  checkpoint_stats = λ job. lost "timeout";
  job_detail = λ job. answered 200 (
      ok (record {
        jid = job;
        name = "orders";
        start_time = pos 0;
        duration = pos 0;
        max_parallelism = pos 4;
        vertices = vertex "source" ∷ vertex "sink" ∷ [];
        plan = none;
      }));
  vertex_metrics = λ job v.
      answered 200 (ok (("numRecordsInPerSecond", if str_eq v "source" then 4 else 6) ∷ []));
}

abbrev records_in : Result (Option (JobMetricsSummary ℕ)) → ℕ
records_in (ok (some s)) = s.records_in_per_sec
records_in _ = 0

abbrev bytes_written : Result (Option (JobMetricsSummary ℕ)) → ℤ
bytes_written (ok (some s)) = s.write_bytes
bytes_written _ = pos 0

abbrev sampled : Result (Option (JobMetricsSummary ℕ))
sampled = job_metrics 0 ◌+◌ (λ s. some 10) (λ s. none) (λ vs. vs) job_server "http://orders"

-- The vertices' rates are added to the one of the job.
counted_twice : records_in sampled ≡ 20
unfolding job_metrics
counted_twice = refl

summed : bytes_written sampled ≡ pos 140
unfolding job_metrics
summed = refl

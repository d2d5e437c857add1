-- ===== src/Tests/Checkpoints.antt =====
-- A server with one running job, whose checkpoint was triggered half a minute ago.
use flink_chaos_operator.Prelude.{
  ℕ, pos, ◌-ℤ◌, decimal, ◌≡◌, ◌↔◌, refl, true, false, some, List, [], ◌∷◌,
}
use flink_chaos_operator.Api.Types.{Time}
use flink_chaos_operator.Interfaces.{ok, err}
use flink_chaos_operator.Observers.Checkpoints.{
  Response, answered, JobSummary, Server, is_checkpoint_stable,
}
use flink_chaos_operator.Observers.Stable.{IsStable, is_checkpoint_stable-IsStable}

abbrev at_100_s : ℕ → Time
at_100_s n = pos 100000000000

abbrev one_running : ℕ → Response (List JobSummary)
one_running n = answered 200 (
    ok (
      (record { id = "a1"; name = "etl"; state = "FINISHED" })
      ∷ (record { id = "b2"; name = "orders"; state = "RUNNING" })
      ∷ []))

abbrev server : Server
server = record {
  jobs_overview = one_running;
  checkpoints = λ n id.
      answered 200 (ok (some (record { trigger_timestamp = pos 70000; status = "COMPLETED" })));
}

within_30_s : is_checkpoint_stable at_100_s "http://flink:8081" server 0 (pos 30) ≡ ok true
unfolding is_checkpoint_stable ◌-ℤ◌
within_30_s = refl

not_within_29_s : is_checkpoint_stable at_100_s "http://flink:8081" server 0 (pos 29) ≡ ok false
unfolding is_checkpoint_stable ◌-ℤ◌
not_within_29_s = refl

-- An error status is an error of the check.
unavailable :
    is_checkpoint_stable at_100_s "http://flink:8081"
      (record server {
        checkpoints = λ n id.
            answered 503
              (ok (some (record { trigger_timestamp = pos 70000; status = "COMPLETED" })));
      })
      0
      (pos 30)
    ≡ err "checkpoints query: GET http://flink:8081/jobs/b2/checkpoints: unexpected status 503"
unfolding is_checkpoint_stable decimal
unavailable = refl

is_checkpoint_stable-IsStable_example :
    (is_checkpoint_stable at_100_s "http://flink:8081" server 0 (pos 30) ≡ ok true)
    ↔ IsStable at_100_s server 0 (pos 30)
is_checkpoint_stable-IsStable_example =
    is_checkpoint_stable-IsStable at_100_s "http://flink:8081" server 0 (pos 30)

-- ===== src/Observers/Checkpoints.antt =====
-- The check that a checkpoint is recent (internal/observer/flinkrest/checkpoints.go, with `Jobs` of
-- client.go). Flink's REST server is a parameter: what it answers to each request, once decoded.
use flink_chaos_operator.Prelude.{
  ℕ, suc, ◌+◌, ◌-◌, ◌*◌, ℤ, pos, negsuc, String, Bool, false, not, Option, none, some, List, [],
  ◌∷◌, ◌&◌, if◌then◌else◌, ◌==◌, str_eq, decimal, leb_ℤ, ◌-ℤ◌,
}
use flink_chaos_operator.Api.Types.{Time, Duration}
use flink_chaos_operator.Interfaces.{Error, Result, ok, err}

-- What comes of a GET request: a request that can not be built,
-- no response, or a status with a body, which may fail to decode.
pub data Response {ℓ} (A : Type ℓ) : Type ℓ where
  unbuilt lost : Error → Response A
  answered : ℕ → Result A → Response A

pub record JobSummary : Type 0 where
  pub id : String
  pub name : String
  pub state : String

pub record CheckpointDetail : Type 0 where
  pub trigger_timestamp : ℤ  -- milliseconds since 1970
  pub status : String

-- The field is nil where no checkpoint has completed.
pub record CheckpointSummary : Type 0 where
  pub latest_completed : Option CheckpointDetail

-- The REST server, by the path that is asked for.
pub record Server : Type 0 where
  pub jobs_overview : ℕ → Response (List JobSummary)
  pub checkpoints : ℕ → String → Response (Option CheckpointDetail)

-- From the response of `Do` to the value that is decoded; `what` names it in an error.
unfoldable pub read {ℓ} : {A : Type ℓ} → String → String → Response A → Result A
read what url (unbuilt e) = err ("build request: " & e)
read what url (lost e) = err ("GET " & url & ": " & e)
read what url (answered status body) =
    if status == 200
    then elim body [ ok a ↦ ok a | err e ↦ err ("decode " & what & " response: " & e) ]
    else err ("GET " & url & ": unexpected status " & decimal (pos status))

-- The loop over the jobs: the first that is running, or the empty text.
unfoldable pub first_running : List JobSummary → String
first_running [] = ""
first_running (j ∷ rest) =
    let found = first_running rest in if str_eq j.state "RUNNING" then j.id else found

-- `time.UnixMilli`
unfoldable pub unix_milli : ℤ → Time
unix_milli (pos n) = pos (n * 1000000)
unix_milli (negsuc n) = negsuc (suc n * 1000000 - 1)

-- `time.Duration(s) * time.Second`
unfoldable pub seconds : ℤ → Duration
seconds (pos n) = pos (n * 1000000000)
seconds (negsuc n) = negsuc (suc n * 1000000000 - 1)

module _ (base_url : String) (server : Server) where
  unfoldable pub jobs : ℕ → Result (List JobSummary)
  unfolding read
  jobs n = read "jobs" (base_url & "/jobs/overview") (server.jobs_overview n)

  -- The request for the checkpoints of a job; without a job there is no summary.
  unfoldable pub checkpoints_of : ℕ → String → Result (Option CheckpointSummary)
  unfolding read
  checkpoints_of n job =
      if str_eq job ""
      then ok none
      else elim (read "checkpoints" (base_url & "/jobs/" & job & "/checkpoints")
          (server.checkpoints n job)) [
            | ok completed ↦ ok (some (record { latest_completed = completed }))
            | err e ↦ err e
          ]

  unfoldable pub checkpoints : ℕ → Result (Option CheckpointSummary)
  unfolding jobs checkpoints_of first_running
  checkpoints n = elim (jobs n) [
    | ok listed ↦ checkpoints_of (n + 1) (first_running listed)
    | err e ↦ err ("list jobs: " & e)
  ]

-- The test of the latest completed checkpoint.
unfoldable pub is_recent : Time → ℤ → Option CheckpointSummary → Bool
unfolding unix_milli seconds
is_recent now window none = false
is_recent now window (some summary) = elim summary.latest_completed [
  | none ↦ false
  | some completed ↦
      if not (str_eq completed.status "COMPLETED")
      then false
      else leb_ℤ (now -ℤ unix_milli completed.trigger_timestamp) (seconds window)
]

-- `IsCheckpointStable`, for the client of a server; the clock is read after the answers.
unfoldable pub is_checkpoint_stable : (ℕ → Time) → String → Server → ℕ → ℤ → Result Bool
unfolding checkpoints is_recent
is_checkpoint_stable clock base_url server n window = elim (checkpoints base_url server n) [
  | ok summary ↦ ok (is_recent (clock (n + 2)) window summary)
  | err e ↦ err ("checkpoints query: " & e)
]

-- ===== src/Observers/Stable.antt =====
-- When the check of internal/observer/flinkrest/checkpoints.go finds a checkpoint recent.
use flink_chaos_operator.Prelude.{
  ℕ, ◌+◌, ℤ, String, ◌≡◌, refl, sym, ap, ◌∙◌, subst, if◌then◌else◌, ◌↔◌, Bool, true, false, Option,
  none, some, List, [], ◌∷◌, ◌++◌, All, ◌&◌, str_eq, str_eq_sound, str_eq_refl, ◌≤ℤ◌, ◌-ℤ◌, arith,
}
use flink_chaos_operator.Api.Types.{Time}
use flink_chaos_operator.Interfaces.{Result, ok, err}
use flink_chaos_operator.Observers.Checkpoints.{
  Response, unbuilt, lost, answered, JobSummary, CheckpointDetail, CheckpointSummary, Server, read,
  jobs, first_running, unix_milli, seconds, checkpoints_of, checkpoints, is_recent,
  is_checkpoint_stable,
}

-- Only a decoded body of a response with status 200 is read.
read-ok :
    {A : Type 0} (what url : String) (response : Response A) (a : A)
    → read what url response ≡ ok a
    → response ≡ answered 200 (ok a)
unfolding read
read-ok what url (unbuilt e) a h = ground arith
read-ok what url (lost e) a h = ground arith
read-ok what url (answered status (ok b)) a h = ground arith
read-ok what url (answered status (err e)) a h = ground arith

-- A job of this id is running, and none before it in the list is.
pub record IsFirstRunning (listed : List JobSummary) (id : String) : Type 0 where
  pub before : List JobSummary
  pub job : JobSummary
  pub after : List JobSummary
  pub split : listed ≡ before ++ job ∷ after
  pub none_before : All (λ j. str_eq j.state "RUNNING" ≡ false) before
  pub runs : job.state ≡ "RUNNING"
  pub has_id : job.id ≡ id

first_running-IsFirstRunning :
    (listed : List JobSummary)
    → str_eq (first_running listed) "" ≡ false
    → IsFirstRunning listed (first_running listed)
unfolding first_running
first_running-IsFirstRunning [] h = ground arith
first_running-IsFirstRunning (j ∷ rest) h =
    by (first_running-IsFirstRunning rest) (str_eq j.state "RUNNING") refl h
  where
    by :
        (str_eq (first_running rest) "" ≡ false → IsFirstRunning rest (first_running rest))
        → (running : Bool) → str_eq j.state "RUNNING" ≡ running
        → let id : String = if running then j.id else first_running rest in
          str_eq id "" ≡ false → IsFirstRunning (j ∷ rest) id
    by later true r h = record {
      before = [];
      job = j;
      after = rest;
      split = refl;
      none_before = tt;
      runs = str_eq_sound j.state "RUNNING" r;
      has_id = refl;
    }
    by later false r h =
        let first = later h in
        record {
          before = j ∷ first.before;
          job = first.job;
          after = first.after;
          split = cc;
          none_before = (r, first.none_before);
          runs = first.runs;
          has_id = first.has_id;
        }

skip_before :
    (before : List JobSummary) (job : JobSummary) (after : List JobSummary)
    → All (λ j. str_eq j.state "RUNNING" ≡ false) before
    → job.state ≡ "RUNNING"
    → first_running (before ++ job ∷ after) ≡ job.id
unfolding first_running
skip_before [] job after none_before runs =
    ap (λ running. if running then job.id else first_running after)
      (subst (λ state. str_eq state "RUNNING" ≡ true) (sym runs) (str_eq_refl "RUNNING"))
skip_before (j ∷ before) job after none_before runs =
    ap (λ running. if running then j.id else first_running (before ++ job ∷ after)) none_before.0
    ∙ skip_before before job after none_before.1 runs

IsFirstRunning-first_running :
    (listed : List JobSummary) (id : String) → IsFirstRunning listed id → first_running listed ≡ id
IsFirstRunning-first_running listed id first =
    ap first_running first.split
    ∙ skip_before first.before first.job first.after first.none_before first.runs
    ∙ first.has_id

-- What the check looks for, by what the server answers: the list of jobs, with a first running job
-- that has an id, and a completed checkpoint of it, triggered within the window.
pub record IsStable (clock : ℕ → Time) (server : Server) (n : ℕ) (window : ℤ) : Type 0 where
  pub listed : List JobSummary
  pub id : String
  pub completed : CheckpointDetail
  pub lists : server.jobs_overview n ≡ answered 200 (ok listed)
  pub first : IsFirstRunning listed id
  pub named : str_eq id "" ≡ false
  pub answers : server.checkpoints (n + 1) id ≡ answered 200 (ok (some completed))
  pub has_completed : completed.status ≡ "COMPLETED"
  pub recent : (clock (n + 2) -ℤ unix_milli completed.trigger_timestamp) ≤ℤ seconds window

-- What is asked of a completed checkpoint.
abbrev IsRecent : Time → ℤ → CheckpointDetail → Type 0
IsRecent now window completed =
    (completed.status ≡ "COMPLETED")
    × ((now -ℤ unix_milli completed.trigger_timestamp) ≤ℤ seconds window)

is_recent-latest :
    (now : Time) (window : ℤ) (latest : Option CheckpointDetail)
    → is_recent now window (some (record { latest_completed = latest })) ≡ true
    → (completed : CheckpointDetail) × (latest ≡ some completed) × IsRecent now window completed
unfolding is_recent
is_recent-latest now window none h = ground arith
is_recent-latest now window (some c) h =
    (c, refl, (str_eq_sound c.status "COMPLETED" (ground arith), ground arith))

IsRecent-is_recent :
    (now : Time) (window : ℤ) (completed : CheckpointDetail)
    → IsRecent now window completed
    → is_recent now window (some (record { latest_completed = some completed })) ≡ true
unfolding is_recent
IsRecent-is_recent now window completed h =
    let same = subst (λ t. str_eq t "COMPLETED" ≡ true) (sym h.0) (str_eq_refl "COMPLETED") in
    ground arith

module _ (url : String) (server : Server) (n : ℕ) where
  checkpoints_of-some :
      (id : String) (summary : CheckpointSummary)
      → checkpoints_of url server n id ≡ ok (some summary)
      → (str_eq id "" ≡ false)
        × (server.checkpoints n id ≡ answered 200 (ok summary.latest_completed))
  unfolding checkpoints_of
  checkpoints_of-some id summary h =
      by (str_eq id "") refl (read "checkpoints" address (server.checkpoints n id)) refl h
    where
      address : String
      address = url & "/jobs/" & id & "/checkpoints"

      by :
          (unnamed : Bool)
          → str_eq id "" ≡ unnamed
          → (r : Result (Option CheckpointDetail))
          → read "checkpoints" address (server.checkpoints n id) ≡ r
          → (if unnamed then ok none else elim r [
            | ok completed ↦ ok (some (record { latest_completed = completed }))
            | err e ↦ err e
          ])
            ≡ ok (some summary)
          → (str_eq id "" ≡ false)
            × (server.checkpoints n id ≡ answered 200 (ok summary.latest_completed))
      by true e r q h = ground arith
      by false e (ok c) q h = (e, read-ok "checkpoints" address _ _ (q ∙ ground arith))
      by false e (err x) q h = ground arith

  checkpoints-some :
      (summary : CheckpointSummary)
      → checkpoints url server n ≡ ok (some summary)
      → (listed : List JobSummary) × (server.jobs_overview n ≡ answered 200 (ok listed))
        × (checkpoints_of url server (n + 1) (first_running listed) ≡ ok (some summary))
  unfolding checkpoints jobs
  checkpoints-some summary h = by (jobs url server n) refl h
    where
      by :
          (r : Result (List JobSummary))
          → jobs url server n ≡ r
          → elim r [
            | ok listed ↦ checkpoints_of url server (n + 1) (first_running listed)
            | err e ↦ err ("list jobs: " & e)
          ]
            ≡ ok (some summary)
          → (listed : List JobSummary) × (server.jobs_overview n ≡ answered 200 (ok listed))
            × (checkpoints_of url server (n + 1) (first_running listed) ≡ ok (some summary))
      by (ok listed) q h = (listed, read-ok "jobs" (url & "/jobs/overview") _ _ q, h)
      by (err e) q h = ground arith

  some-checkpoints :
      (listed : List JobSummary) (completed : Option CheckpointDetail)
      → server.jobs_overview n ≡ answered 200 (ok listed)
      → str_eq (first_running listed) "" ≡ false
      → server.checkpoints (n + 1) (first_running listed) ≡ answered 200 (ok completed)
      → checkpoints url server n ≡ ok (some (record { latest_completed = completed }))
  unfolding checkpoints jobs checkpoints_of read
  some-checkpoints listed completed lists named answers = ground arith

-- The check answers that the checkpoint is stable exactly when the server lists the jobs, the first
-- running one has an id, and its latest completed checkpoint was triggered within the window.
pub is_checkpoint_stable-IsStable :
    (clock : ℕ → Time) (url : String) (server : Server) (n : ℕ) (window : ℤ)
    → (is_checkpoint_stable clock url server n window ≡ ok true) ↔ IsStable clock server n window
unfolding is_checkpoint_stable
is_checkpoint_stable-IsStable clock url server n window =
    (λ h. there (checkpoints url server n) refl h, λ stable. back stable)
  where
    there :
        (r : Result (Option CheckpointSummary))
        → checkpoints url server n ≡ r
        → elim r [
          | ok summary ↦ ok (is_recent (clock (n + 2)) window summary)
          | err e ↦ err ("checkpoints query: " & e)
        ]
          ≡ ok true
        → IsStable clock server n window
    there (ok none) q h = ground arith
    there (ok (some summary)) q h =
        let (completed, latest, recent) =
          is_recent-latest (clock (n + 2)) window summary.latest_completed (ground arith) in
        let (listed, lists, of_job) = checkpoints-some url server n summary q in
        let (named, answers) =
          checkpoints_of-some url server (n + 1) (first_running listed) summary of_job in
        record {
          listed = listed;
          id = first_running listed;
          completed = completed;
          lists = lists;
          first = first_running-IsFirstRunning listed named;
          named = named;
          answers = answers ∙ ap (λ o. answered 200 (ok o)) latest;
          has_completed = recent.0;
          recent = recent.1;
        }
    there (err e) q h = ground arith

    back : IsStable clock server n window → is_checkpoint_stable clock url server n window ≡ ok true
    back stable =
        let same = sym (IsFirstRunning-first_running stable.listed stable.id stable.first) in
        let found =
          some-checkpoints url server n stable.listed (some stable.completed) stable.lists
            (subst (λ id. str_eq id "" ≡ false) same stable.named)
            (subst (λ id. server.checkpoints (n + 1) id ≡ answered 200 (ok (some stable.completed)))
              same stable.answers) in
        let recent =
          IsRecent-is_recent (clock (n + 2)) window stable.completed
            (stable.has_completed, stable.recent) in
        ground arith

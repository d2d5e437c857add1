-- ===== src/Observers/Recovery.antt =====
-- What the observers' answers mean (internal/observer).
use flink_chaos_operator.Prelude.{
  ℕ, ◌+◌, ◌≤◌, String, true, false, Option, List, [], ◌∷◌, ◌≡◌, refl, inl, inr, arith, All, member,
  str_eq, Bool-cases,
}
use flink_chaos_operator.Api.Types.{ChaosRun}
use flink_chaos_operator.Interfaces.{Result, ok, err, ResolvedTarget, ObservationResult, Observer}
use flink_chaos_operator.Observers.FlinkRest.{
  Client, has_running, job_state, baseline, report, with_task_managers, with_jobs,
  observe as observe_rest,
}
use flink_chaos_operator.Observers.Composite.{merge, and_then, observe_from, observe as observe_all}

has_running-member :
    (states : List String) → has_running states ≡ true → member "RUNNING" states ≡ true
unfolding has_running member
has_running-member [] e = absurd (ground arith)
has_running-member (s ∷ ss) e = elim (Bool-cases (str_eq s "RUNNING")) [
  | inl h ↦ rw h refl
  | inr h ↦ rw h (has_running-member ss (ground arith))
]

job_state-running :
    (states : List String)
    → str_eq (job_state states) "RUNNING" ≡ true
    → member "RUNNING" states ≡ true
unfolding job_state member
job_state-running [] e = absurd (ground arith)
job_state-running (s ∷ ss) e = elim (Bool-cases (has_running (s ∷ ss))) [
  | inl h ↦ has_running-member (s ∷ ss) h
  | inr h ↦ (let first : str_eq s "RUNNING" ≡ true = ground arith in rw first refl)
]

-- Flink's REST API, asked by this client, has shown a running job and as many TaskManagers as
-- before the injection.
pub record IsRunning (client : Client) (run : ChaosRun) : Type 0 where
  pub asked_jobs : ℕ
  pub asked_managers : ℕ
  pub states : List String
  pub tm_count : ℕ
  pub jobs_answer : client.jobs asked_jobs ≡ ok states
  pub managers_answer : client.task_managers asked_managers ≡ ok tm_count
  pub some_running : member "RUNNING" states ≡ true
  pub enough : baseline run.status.observation ≤ tm_count

module _ (new_client : String → Client) where
  report-ready :
      (run : ChaosRun) (state : String) (tm_count : ℕ)
      → (report run state tm_count).all_replacements_ready ≡ true
      → (str_eq state "RUNNING" ≡ true) × (baseline run.status.observation ≤ tm_count)
  unfolding report
  report-ready run state tm_count e = (ground arith, ground arith)

  managers-ready :
      (run : ChaosRun) (states : List String) (answer : Result ℕ) (r : ObservationResult)
      → with_task_managers new_client run states answer ≡ ok r
      → r.all_replacements_ready ≡ true
      → (tm_count : ℕ) × (answer ≡ ok tm_count)
        × (member "RUNNING" states ≡ true)
        × (baseline run.status.observation ≤ tm_count)
  managers-ready run states (err x) r e ready = absurd (ground arith)
  managers-ready run states (ok tm_count) r e ready =
      let (running, enough) = report-ready run (job_state states) tm_count (ground arith) in
      (tm_count, refl, job_state-running states running, enough)

  jobs-ready :
      (client : Client) (n : ℕ) (run : ChaosRun) (answer : Result (List String))
      (r : ObservationResult)
      → client.jobs n ≡ answer
      → with_jobs new_client client n run answer ≡ ok r
      → r.all_replacements_ready ≡ true
      → IsRunning client run
  jobs-ready client n run (err x) r g e ready = absurd (ground arith)
  jobs-ready client n run (ok states) r g e ready =
      let (tm_count, managers, running, enough) =
        managers-ready run states (client.task_managers (n + 1)) r e ready in
      record {
        asked_jobs = n;
        asked_managers = n + 1;
        states = states;
        tm_count = tm_count;
        jobs_answer = g;
        managers_answer = managers;
        some_running = running;
        enough = enough;
      }

  -- If the REST observer is enabled with an endpoint and reports all replacements ready, Flink has
  -- shown a running job and no fewer TaskManagers than were counted before the injection.
  observe_rest-ready :
      (n : ℕ) (run : ChaosRun) (target : Option ResolvedTarget) (r : ObservationResult)
      → run.spec.observe.flink_rest.enabled ≡ true
      → str_eq run.spec.observe.flink_rest.endpoint "" ≡ false
      → observe_rest new_client n run target ≡ ok r
      → r.all_replacements_ready ≡ true
      → IsRunning (new_client run.spec.observe.flink_rest.endpoint) run
  unfolding observe_rest
  observe_rest-ready n run target r on endpoint e ready =
      let client = new_client run.spec.observe.flink_rest.endpoint in
      jobs-ready client n run (client.jobs n) r refl (ground arith) ready

-- The child has answered at some moment that all replacements are ready.
abbrev pub SaysReady : ChaosRun → Option ResolvedTarget → Observer → Type 0
SaysReady run target child =
    (n : ℕ) × (r : ObservationResult) × (child n run target ≡ ok r)
    × (r.all_replacements_ready ≡ true)

merge-ready :
    (merged r : ObservationResult)
    → (merge merged r).all_replacements_ready ≡ true
    → (merged.all_replacements_ready ≡ true) × (r.all_replacements_ready ≡ true)
unfolding merge
merge-ready merged r e = (ground arith, ground arith)

module _ (run : ChaosRun) (target : Option ResolvedTarget) where
  observe_from-ready :
      (children : List Observer) (merged : ObservationResult) (n : ℕ) (r : ObservationResult)
      → observe_from children merged n run target ≡ ok r
      → r.all_replacements_ready ≡ true
      → (merged.all_replacements_ready ≡ true) × All (SaysReady run target) children
  unfolding observe_from
  observe_from-ready [] merged n r e ready = (ground arith, tt)
  observe_from-ready (child ∷ children) merged n r e ready =
      by (child n run target) refl e (λ m. observe_from-ready children m (n + 1) r)
    where
      by :
          (answer : Result ObservationResult)
          → child n run target ≡ answer
          → and_then answer (λ a. observe_from children (merge merged a) (n + 1) run target) ≡ ok r
          → ((m : ObservationResult)
              → observe_from children m (n + 1) run target ≡ ok r
              → r.all_replacements_ready ≡ true
              → (m.all_replacements_ready ≡ true) × All (SaysReady run target) children)
          → (merged.all_replacements_ready ≡ true) × All (SaysReady run target) (child ∷ children)
      by (err x) g e k = absurd (ground arith)
      by (ok a) g e k =
          let (m, rest) = k (merge merged a) e ready in
          let (before, now) = merge-ready merged a m in (before, ((n, a, g, now), rest))

  -- If the merged answer says that all replacements are ready, each of the observers has answered
  -- so, and none has failed.
  pub observe_all-ready :
      (children : List Observer) (n : ℕ) (r : ObservationResult)
      → observe_all children n run target ≡ ok r
      → r.all_replacements_ready ≡ true
      → All (SaysReady run target) children
  unfolding observe_all
  observe_all-ready children n r e ready = (observe_from-ready children _ n r e ready).1

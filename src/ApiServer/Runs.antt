-- ===== src/ApiServer/Runs.antt =====
-- The handlers that list, show, abort and delete ChaosRuns (internal/apiserver/handlers_chaos.go and
-- handlers_chaos_write.go).
use flink_chaos_operator.Prelude.{
  ℕ, ℤ, pos, String, Bool, false, not, ◌&&◌, ◌||◌, Option, none, some, List, [], ◌∷◌, map,
  if◌then◌else◌, str_eq, ltb_ℤ, quotient,
}
use flink_chaos_operator.Api.Types.{Time, TargetSummary, ObservationStatus, ObserveSpec, ChaosRun}
use flink_chaos_operator.Api.Texts.{scenario_text, phase_text, verdict_text}
use flink_chaos_operator.Interfaces.{Error, Result, ok, err}
use flink_chaos_operator.Controller.World.{Fetch, found, not_found, get_failed}
use flink_chaos_operator.Cli.Commands.{abort_requested, target_summary_text}
use flink_chaos_operator.ApiServer.Http.{HttpResponse, Write, Kube, Handled, is_valid_k8s_name}

-- ChaosRunSummary
pub record ChaosRunSummary : Type 0 where
  pub name : String
  pub phase : String
  pub verdict : String
  pub scenario : String
  pub target : String
  pub started_at : String
  pub ended_at : String

-- ChaosRunDetail
pub record ChaosRunDetail : Type 0 where
  pub summary : ChaosRunSummary
  pub selected_pods : List String
  pub injected_pods : List String
  pub message : String
  pub network_policies : List String
  pub recovery_time_seconds : Option ℤ  -- *int64
  pub recovery_observed_at : String
  pub tm_count_before : ℕ
  pub tm_count_after : ℕ
  pub observation_timeout_secs : ℤ  -- int64

abbrev pub is_named : String → Option TargetSummary → Bool
is_named name none = false
is_named name (some s) = str_eq s.name name

unfoldable pub run_matches_deployment : ChaosRun → String → Bool
run_matches_deployment run name =
    str_eq run.spec.target.name name
    || str_eq run.spec.target.deployment_name name
    || is_named name run.status.target_summary

-- `if filterName != "" && !runMatchesDeployment(run, filterName) { continue }`
unfoldable pub filter_runs : String → List ChaosRun → List ChaosRun
unfolding run_matches_deployment
filter_runs name [] = []
filter_runs name (run ∷ runs) =
    let rest = filter_runs name runs in
    if not (str_eq name "") && not (run_matches_deployment run name) then rest else run ∷ rest

module _ (kube : Kube) (namespace : String) where
  -- The start of the handlers of one run: the name is checked and the run fetched.
  abbrev pub with_run : {A : Type 0} → (ChaosRun → Handled A) → Fetch → Handled A
  with_run rest (found run) = rest run
  with_run rest not_found = ([], HttpResponse.error 404 "ChaosRun not found")
  with_run rest (get_failed e) = ([], HttpResponse.error 500 "failed to get ChaosRun")

  abbrev pub on_run : {A : Type 0} → String → (ChaosRun → Handled A) → Handled A
  on_run name rest =
      if str_eq name ""
      then ([], HttpResponse.error 400 "name is required")
      else if is_valid_k8s_name name
      then with_run rest (kube.get namespace name)
      else ([], HttpResponse.error 400 "invalid resource name")

  abbrev pub after_write : Write → Option Error → String → Handled (Unit {0})
  after_write write none message = (write ∷ [], HttpResponse.status_only 204)
  after_write write (some e) message = (write ∷ [], HttpResponse.error 500 message)

  -- `abortChaosRunHandler`
  unfoldable pub abort_chaos_run : String → Handled (Unit {0})
  unfolding is_valid_k8s_name
  abort_chaos_run name = on_run name (λ run.
      after_write (Write.updated (abort_requested run)) (kube.update (abort_requested run))
        "failed to abort ChaosRun")

  -- `deleteChaosRunHandler`
  unfoldable pub delete_chaos_run : String → Handled (Unit {0})
  unfolding is_valid_k8s_name
  delete_chaos_run name =
      on_run name
        (λ run. after_write (Write.deleted run) (kube.delete run) "failed to delete ChaosRun")

-- The formatting of a time is an argument.
module _ (format : Time → String) where
  unfoldable pub rfc3339 : Option Time → String
  rfc3339 none = ""
  rfc3339 (some t) = format t

  unfoldable pub to_chaos_run_summary : ChaosRun → ChaosRunSummary
  unfolding rfc3339
  to_chaos_run_summary run = record {
    name = run.name;
    phase = phase_text run.status.phase;
    verdict = verdict_text run.status.verdict;
    scenario = scenario_text run.spec.scenario.scenario_type;
    target = target_summary_text run.spec.target run.status.target_summary;
    started_at = rfc3339 run.status.started_at;
    ended_at = rfc3339 run.status.ended_at;
  }

  abbrev pub observed : ChaosRunDetail → Option ObservationStatus → ChaosRunDetail
  observed d none = d
  observed d (some o) = record d {
    tm_count_before = o.task_manager_count_before;
    tm_count_after = o.task_manager_count_after;
    recovery_time_seconds = o.recovery_time_seconds;
    recovery_observed_at = rfc3339 o.recovery_observed_at;
  }

  abbrev pub timeout_of : ObserveSpec → ℤ
  timeout_of o =
      if o.enabled && ltb_ℤ (pos 0) o.timeout then quotient o.timeout 1000000000 else pos 0

  unfoldable pub to_chaos_run_detail : ChaosRun → ChaosRunDetail
  unfolding to_chaos_run_summary rfc3339
  to_chaos_run_detail run =
      observed
        (record {
          summary = to_chaos_run_summary run;
          selected_pods = run.status.selected_pods;
          injected_pods = run.status.injected_pods;
          message = run.status.message;
          network_policies = run.status.network_policies;
          recovery_time_seconds = none;
          recovery_observed_at = "";
          tm_count_before = 0;
          tm_count_after = 0;
          observation_timeout_secs = timeout_of run.spec.observe;
        })
        run.status.observation

  module _ (kube : Kube) (namespace : String) where
    abbrev pub listed : String → Result (List ChaosRun) → Handled (List ChaosRunSummary)
    listed name (ok runs) =
        ([], HttpResponse.json 200 (map to_chaos_run_summary (filter_runs name runs)))
    listed name (err e) = ([], HttpResponse.error 500 "failed to list ChaosRuns")

    -- `listChaosRunsHandler`, by the query's deployment name.
    unfoldable pub list_chaos_runs : String → Handled (List ChaosRunSummary)
    unfolding to_chaos_run_summary filter_runs
    list_chaos_runs name = listed name (kube.list namespace)

    -- `getChaosRunHandler`
    unfoldable pub get_chaos_run : String → Handled ChaosRunDetail
    unfolding to_chaos_run_detail is_valid_k8s_name
    get_chaos_run name =
        on_run kube namespace name (λ run. ([], HttpResponse.json 200 (to_chaos_run_detail run)))

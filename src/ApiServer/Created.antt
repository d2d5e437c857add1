-- ===== src/ApiServer/Created.antt =====
-- What the checks of the safety checker make of a run that POST /api/chaosruns has created
-- (internal/apiserver/handlers_chaos_write.go, with the defaults of api/v1alpha1 and
-- internal/safety/checker.go).
use flink_chaos_operator.Prelude.{
  ◌<◌, ℤ, pos, ◌-ℤ◌, ◌≤ℤ◌, ◌<ℤ◌, -ℤ_parts, to_int32, to_int32_of_range, String, ◌≡◌, refl, sym, ap,
  ◌∙◌, subst, Bool, true, false, none, some, List, [], ◌∷◌, arith, ◌&◌, length, ltb_ℤ, str_eq,
  if◌then◌else◌,
}
use flink_chaos_operator.Api.Types.{ScenarioType, ChaosRun}
use flink_chaos_operator.Api.Texts.{to_scenario_type, to_selection_mode}
use flink_chaos_operator.Api.Defaults.{or_default, set_defaults}
use flink_chaos_operator.Interfaces.{Result, ok, err, ResolvedTarget}
use flink_chaos_operator.Safety.Checker.{injection_count, check_min_task_managers_remaining}
use flink_chaos_operator.ApiServer.Http.{HttpResponse, Write, Kube, Handled}
use flink_chaos_operator.ApiServer.Creates.{
  CreateRequest, run_of_request, is_known_scenario, is_known_mode, create_chaos_run, after_creation,
  create_run,
}

-- A write of a handler that refuses in four ways is that of its last branch.
unless_refused :
    (a b c d : Bool) (r s t u : HttpResponse (String × String)) (last : Handled (String × String))
    (write : Write)
    → (if a
        then ([], r)
        else if b
        then ([], s)
        else if c
        then if d then last else ([], t)
        else ([], u)).0
      ≡ write ∷ []
    → last.0 ≡ write ∷ []
unless_refused true b c d r s t u last write h = absurd (ground arith)
unless_refused false true c d r s t u last write h = absurd (ground arith)
unless_refused false false true true r s t u last write h = h
unless_refused false false true false r s t u last write h = absurd (ground arith)
unless_refused false false false d r s t u last write h = absurd (ground arith)

creation-writes :
    (kube : Kube) (namespace : String) (sent : ChaosRun) (answer : Result ChaosRun)
    → (after_creation kube namespace sent answer).0 ≡ Write.created sent ∷ []
creation-writes kube namespace sent (ok run) = refl
creation-writes kube namespace sent (err e) = refl

-- A creation sends the run of the request's scenario.
create-sends :
    (kube : Kube) (namespace : String) (req : CreateRequest) (run : ChaosRun)
    → (create_chaos_run kube namespace (ok req)).0 ≡ Write.created run ∷ []
    → run ≡ run_of_request namespace (to_scenario_type req.scenario_type) req
unfolding create_chaos_run
create-sends kube namespace req run h =
    let made = run_of_request namespace (to_scenario_type req.scenario_type) req in
    let last =
      unless_refused (str_eq req.target_name "") (str_eq req.scenario_type "")
        (is_known_scenario (to_scenario_type req.scenario_type))
        (is_known_mode (to_selection_mode req.selection_mode))
        (HttpResponse.error 400 "targetName is required")
        (HttpResponse.error 400 "scenarioType is required")
        (HttpResponse.error 400 ("unknown selectionMode: " & req.selection_mode))
        (HttpResponse.error 400 ("unknown scenarioType: " & req.scenario_type))
        (create_run kube namespace made) (Write.created run) h in
    let writes = creation-writes kube namespace made (kube.create made) in
    created_inj (sym last ∙ writes)
  where
    created_inj :
        {a b : ChaosRun}
        → ◌≡◌ {A = List Write} (Write.created a ∷ []) (Write.created b ∷ [])
        → a ≡ b
    created_inj e = cc

none_required : (x : ℤ) → pos 0 ≤ℤ x → x <ℤ pos 2147483648 → ltb_ℤ (to_int32 x) (pos 0) ≡ false
none_required x lo hi =
    subst (λ y. ltb_ℤ y (pos 0) ≡ false) (sym (to_int32_of_range x hi (omega arith))) (ground arith)

passes_without_minimum :
    (run : ChaosRun) (target : ResolvedTarget)
    → run.spec.safety.min_task_managers_remaining ≡ some (pos 0)
    → pos 0 ≤ℤ injection_count run
    → injection_count run ≤ℤ pos (length target.tm_pod_names)
    → length target.tm_pod_names < 2147483648
    → check_min_task_managers_remaining run target ≡ none
unfolding check_min_task_managers_remaining
passes_without_minimum run target none_kept positive enough few =
    let count = injection_count run in
    let parts = -ℤ_parts (pos (length target.tm_pod_names)) count in
    let passes =
      none_required (pos (length target.tm_pod_names) -ℤ count) (omega (arith, parts))
        (omega (arith, parts)) in
    rw (none_kept, passes)

keeps_minimum :
    (run : ChaosRun) (m : ℤ)
    → run.spec.safety.min_task_managers_remaining ≡ some m
    → (set_defaults run).spec.safety.min_task_managers_remaining ≡ some m
unfolding set_defaults
keeps_minimum run m e = ap (or_default (pos 1)) e

minimum_of_request :
    (namespace : String) (t : ScenarioType) (req : CreateRequest)
    → (run_of_request namespace t req).spec.safety.min_task_managers_remaining
      ≡ some req.min_task_managers
unfolding run_of_request
minimum_of_request namespace t req = refl

-- A run that POST /api/chaosruns creates from a request that leaves minTaskManagers out keeps none
-- back: the check of the remaining TaskManagers passes it, with its defaults applied, as long as it
-- takes no more TaskManagers than the target has, so also where it takes all of them.
pub created_without_minimum :
    (kube : Kube) (namespace : String) (req : CreateRequest) (run : ChaosRun)
    (target : ResolvedTarget)
    → (create_chaos_run kube namespace (ok req)).0 ≡ Write.created run ∷ []
    → req.min_task_managers ≡ pos 0
    → pos 0 ≤ℤ injection_count (set_defaults run)
    → injection_count (set_defaults run) ≤ℤ pos (length target.tm_pod_names)
    → length target.tm_pod_names < 2147483648
    → check_min_task_managers_remaining (set_defaults run) target ≡ none
created_without_minimum kube namespace req run target sent left_out positive enough few =
    let t = to_scenario_type req.scenario_type in
    let of_request =
      subst (λ r. r.spec.safety.min_task_managers_remaining ≡ some req.min_task_managers)
        (sym (create-sends kube namespace req run sent)) (minimum_of_request namespace t req) in
    passes_without_minimum (set_defaults run) target
      (keeps_minimum run (pos 0) (of_request ∙ ap some left_out)) positive enough few

-- ===== src/ApiServer/Endpoint.antt =====
-- Where the Flink REST API of a deployment is found, and the handlers that pass its answers on
-- (internal/apiserver/handlers_flink.go). The text of an
-- error, which is only logged, is shortened.
pub mod Serves
use flink_chaos_operator.Prelude.{
  ℤ, pos, String, Bool, true, false, Option, none, some, List, [], ◌∷◌, ◌&◌, if◌then◌else◌, str_eq,
  index, lookup, member, decimal,
}
use flink_chaos_operator.Interfaces.{Error, Result, ok, err}
use flink_chaos_operator.ApiServer.Http.{HttpResponse}
use flink_chaos_operator.ApiServer.Cluster.{
  ListedPod, Service, ClusterView, non_empty, deployment_label, is_running,
}

-- `if deploymentName != "" { … podList.Items = filtered }`
unfoldable pub pods_of_deployment : String → List ListedPod → List ListedPod
unfolding deployment_label
pods_of_deployment name [] = []
pods_of_deployment name (pod ∷ pods) =
    let rest = pods_of_deployment name pods in
    if str_eq name ""
    then pod ∷ rest
    else if str_eq (deployment_label pod.labels) name
    then pod ∷ rest
    else rest

abbrev pub with_job : Option String → List String → List String
with_job none ids = ids
with_job (some id) ids = id ∷ ids

-- The set of the job ids of the running pods.
unfoldable pub running_job_ids : List ListedPod → List String
unfolding non_empty is_running
running_job_ids [] = []
running_job_ids (pod ∷ pods) =
    let rest = running_job_ids pods in
    if is_running pod then with_job (non_empty "jobId" pod.labels) rest else rest

abbrev pub has_job : List String → Option String → Bool
has_job ids none = false
has_job ids (some id) = member id ids

-- The services that stand for the job of a running pod.
unfoldable pub backed_services : List String → List Service → List Service
unfolding lookup member
backed_services ids [] = []
backed_services ids (svc ∷ svcs) =
    let rest = backed_services ids svcs in
    if has_job ids (lookup "jobId" svc.labels) then svc ∷ rest else rest

-- The first service that carries the annotation.
unfoldable pub annotated_service : List Service → List Service
unfolding index
annotated_service [] = []
annotated_service (svc ∷ svcs) =
    let rest = annotated_service svcs in
    if str_eq (index "flink-chaos/flink-rest" svc.annotations) "true" then svc ∷ [] else rest

-- `port := int32(8081)`, or the first port of the name rest.
unfoldable pub rest_port : List (String × ℤ) → ℤ
unfolding lookup
rest_port ports = elim (lookup "rest" ports) [ none ↦ pos 8081 | some port ↦ port ]

abbrev pub endpoint_of_service : Service → String
endpoint_of_service svc =
    "http://"
    & svc.name
    & "."
    & svc.namespace
    & ".svc.cluster.local:"
    & decimal (rest_port svc.ports)

module _ (cluster : ClusterView) where
  abbrev pub no_endpoint : String → Error
  no_endpoint name = "no running Flink REST service found (deploymentName=" & name & ")"

  abbrev pub first_of : String → List Service → Result String
  first_of name [] = err (no_endpoint name)
  first_of name (svc ∷ svcs) = ok (endpoint_of_service svc)

  abbrev pub by_annotation : String → Result (List Service) → Result String
  by_annotation name (err e) = err ("list services: " & e)
  by_annotation name (ok svcs) = first_of name (annotated_service svcs)

  -- The fall back to the annotation, if there is no candidate.
  abbrev pub candidates_or_annotated : String → List Service → Result String
  candidates_or_annotated name [] = by_annotation name cluster.list_services
  candidates_or_annotated name (svc ∷ svcs) = first_of name (svc ∷ svcs)

  abbrev pub among_services : String → List String → Result (List Service) → Result String
  among_services name ids (err e) = err ("list jobmanager services: " & e)
  among_services name ids (ok svcs) = candidates_or_annotated name (backed_services ids svcs)

  abbrev pub among_pods : String → Result (List ListedPod) → Result String
  among_pods name (err e) = err ("list jobmanager pods: " & e)
  among_pods name (ok pods) =
      among_services name (running_job_ids (pods_of_deployment name pods))
        cluster.list_jobmanager_services

  -- `resolveFlinkClient`: the endpoint that its client is made for.
  unfoldable pub resolve_flink_client : String → String → Result String
  unfolding pods_of_deployment running_job_ids backed_services annotated_service rest_port
  resolve_flink_client flink_endpoint name =
      if str_eq flink_endpoint ""
      then among_pods name (cluster.list_pods "jobmanager")
      else ok flink_endpoint

-- The handlers of jobs, TaskManagers, checkpoints and metrics: each asks the client for its answer by
-- a query, and passes it on.
abbrev pub passed_on : {A : Type 0} → String → Result A → HttpResponse A
passed_on what (ok a) = HttpResponse.json 200 a
passed_on what (err e) = HttpResponse.error 502 ("failed to query Flink " & what)

abbrev pub queried : {A : Type 0} → String → (String → Result A) → Result String → HttpResponse A
queried what query (err e) = HttpResponse.error 503 "flink endpoint not available"
queried what query (ok endpoint) = passed_on what (query endpoint)

module _ (cluster : ClusterView) (flink_endpoint : String) where
  unfoldable pub proxy : {A : Type 0} → String → (String → Result A) → String → HttpResponse A
  unfolding resolve_flink_client
  proxy what query name = queried what query (resolve_flink_client cluster flink_endpoint name)

  abbrev pub flink_jobs : {Jobs : Type 0} → (String → Result Jobs) → String → HttpResponse Jobs
  flink_jobs query name = proxy "jobs" query name

  abbrev pub flink_task_managers :
      {Count : Type 0} → (String → Result Count) → String → HttpResponse Count
  flink_task_managers query name = proxy "TaskManagers" query name

  abbrev pub flink_checkpoints :
      {Summary : Type 0} → (String → Result Summary) → String → HttpResponse Summary
  flink_checkpoints query name = proxy "checkpoints" query name

  abbrev pub flink_job_metrics :
      {Metrics : Type 0} → (String → Result Metrics) → String → HttpResponse Metrics
  flink_job_metrics query name = proxy "job metrics" query name

  abbrev pub flink_tm_metrics :
      {Metrics : Type 0} → (String → Result Metrics) → String → HttpResponse Metrics
  flink_tm_metrics query name = proxy "TM metrics" query name

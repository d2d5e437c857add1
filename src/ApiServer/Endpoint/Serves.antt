-- ===== src/ApiServer/Endpoint/Serves.antt =====
-- Which deployment the Flink endpoint is of (resolveFlinkClient of
-- internal/apiserver/handlers_flink.go).
use flink_chaos_operator.Prelude.{
  String, ◌≡◌, ◌≢◌, refl, sym, ap, ◌∙◌, ◌↔◌, ◌⊎◌, inl, inr, true, false, Option, none, some, List,
  [], ◌∷◌, str_eq, str_eq_sound, str_eq_refl, index, lookup, member, All, Any, Bool-cases,
}
use flink_chaos_operator.Interfaces.{Result, ok, err}
use flink_chaos_operator.ApiServer.Cluster.{
  ListedPod, Service, ClusterView, non_empty, deployment_label, is_running,
}
use flink_chaos_operator.ApiServer.Endpoint.{
  pods_of_deployment, running_job_ids, has_job, backed_services, annotated_service,
  endpoint_of_service, first_of, candidates_or_annotated, resolve_flink_client,
}

-- A running pod of the deployment with the job id.
abbrev pub Runs : String → String → ListedPod → Type 0
Runs name id pod =
    (is_running pod ≡ true)
    × (deployment_label pod.labels ≡ name)
    × (index "jobId" pod.labels ≡ id)
    × (id ≢ "")

abbrev pub RunsJob : String → Option String → List ListedPod → Type 0
RunsJob name none pods = ⊥
RunsJob name (some id) pods = Any (Runs name id) pods

-- The service stands for the job of a running pod of the deployment.
abbrev pub Serves : String → List ListedPod → Service → Type 0
Serves name pods svc = RunsJob name (lookup "jobId" svc.labels) pods

not_this : {P A B : Type 0} → ¬ A → P ↔ B → P ↔ (A ⊎ B)
not_this no_a (to, back) =
    ((λ p. inr (to p)), (λ s. elim s [ inl a ↦ absurd (no_a a) | inr b ↦ back b ]))

running_job_ids_iff :
    (name id : String) (pods : List ListedPod)
    → str_eq name "" ≡ false
    → (member id (running_job_ids (pods_of_deployment name pods)) ≡ true) ↔ Any (Runs name id) pods
unfolding running_job_ids pods_of_deployment member non_empty
running_job_ids_iff name id [] named = ((λ h. cc), (λ h. absurd h))
running_job_ids_iff name id (pod ∷ pods) named =
    elim (Bool-cases (str_eq (deployment_label pod.labels) name)) [
      | inr differ ↦
          rw (named, differ)
            (not_this (λ r. cc (str_eq_refl name, differ, r.1))
              (running_job_ids_iff name id pods named))
      | inl same ↦ elim (Bool-cases (is_running pod)) [
        | inr ended ↦
            rw (named, same, ended)
              (not_this (λ r. cc (r.0)) (running_job_ids_iff name id pods named))
        | inl runs ↦ elim (Bool-cases (str_eq (index "jobId" pod.labels) "")) [
          | inl without ↦
              rw (named, same, runs, without)
                (not_this (λ r. r.3 (sym r.2 ∙ str_eq_sound _ _ without))
                  (running_job_ids_iff name id pods named))
          | inr with_id ↦ elim (Bool-cases (str_eq (index "jobId" pod.labels) id)) [
            | inl this ↦
                rw (named, same, runs, with_id, this)
                  (
                    (λ h.
                        inl (
                          refl,
                          str_eq_sound _ _ same,
                          str_eq_sound _ _ this,
                          λ e. cc (with_id, e),
                        )),
                    (λ h. refl),
                  )
            | inr other ↦
                rw (named, same, runs, with_id, other)
                  (not_this (λ r. cc (str_eq_refl id, other, r.2))
                    (running_job_ids_iff name id pods named))
          ]
        ]
      ]
    ]

-- With the job ids known, what is left of the services is empty only if none serves, and its first
-- one serves otherwise.
abbrev FirstServing : String → List ListedPod → List Service → List Service → Type 0
FirstServing name pods svcs [] = All (λ svc. ¬ Serves name pods svc) svcs
FirstServing name pods svcs (first ∷ rest) =
    Any (λ (svc : Service). (svc ≡ first) × Serves name pods svc) svcs

has_job_iff :
    (name : String) (pods : List ListedPod) (id : Option String)
    → str_eq name "" ≡ false
    → (has_job (running_job_ids (pods_of_deployment name pods)) id ≡ true) ↔ RunsJob name id pods
has_job_iff name pods none named = ((λ h. cc), (λ h. absurd h))
has_job_iff name pods (some id) named = running_job_ids_iff name id pods named

FirstServing-skip :
    (name : String) (pods : List ListedPod) (svc : Service) (svcs kept : List Service)
    → ¬ Serves name pods svc
    → FirstServing name pods svcs kept
    → FirstServing name pods (svc ∷ svcs) kept
FirstServing-skip name pods svc svcs [] apart h = (apart, h)
FirstServing-skip name pods svc svcs (first ∷ rest) apart h = inr h

backed_services-FirstServing :
    (name : String) (pods : List ListedPod) (svcs : List Service)
    → str_eq name "" ≡ false
    → FirstServing name pods svcs
        (backed_services (running_job_ids (pods_of_deployment name pods)) svcs)
unfolding backed_services
backed_services-FirstServing name pods [] named = tt
backed_services-FirstServing name pods (svc ∷ svcs) named =
    elim (Bool-cases
      (has_job (running_job_ids (pods_of_deployment name pods)) (lookup "jobId" svc.labels))) [
        | inl has ↦
            rw has (inl (refl, (has_job_iff name pods (lookup "jobId" svc.labels) named).0 has))
        | inr without ↦ rw without (
            FirstServing-skip name pods svc svcs
              (backed_services (running_job_ids (pods_of_deployment name pods)) svcs)
              (λ s. cc ((has_job_iff name pods (lookup "jobId" svc.labels) named).1 s, without))
              (backed_services-FirstServing name pods svcs named))
      ]

-- The endpoint is that of a service that stands for the job of a running pod of the deployment.
abbrev pub IsServedAt : String → List ListedPod → String → Service → Type 0
IsServedAt name pods endpoint svc = (endpoint ≡ endpoint_of_service svc) × Serves name pods svc

abbrev pub IsMarkedAt : String → Service → Type 0
IsMarkedAt endpoint svc =
    (endpoint ≡ endpoint_of_service svc) × (index "flink-chaos/flink-rest" svc.annotations ≡ "true")

abbrev pub IsMarked : Service → Type 0
IsMarked svc = index "flink-chaos/flink-rest" svc.annotations ≡ "true"

-- What is found among all services, by the annotation.
abbrev AmongMarked : List Service → Result String → Type 0
AmongMarked svcs (ok endpoint) = Any (IsMarkedAt endpoint) svcs
AmongMarked svcs (err e) = All (λ svc. ¬ IsMarked svc) svcs

AmongMarked-skip :
    (svc : Service) (svcs : List Service) (r : Result String)
    → ¬ IsMarked svc
    → AmongMarked svcs r
    → AmongMarked (svc ∷ svcs) r
AmongMarked-skip svc svcs (ok endpoint) apart h = inr h
AmongMarked-skip svc svcs (err e) apart h = (apart, h)

annotated_service-AmongMarked :
    (name : String) (cluster : ClusterView) (svcs : List Service)
    → AmongMarked svcs (first_of cluster name (annotated_service svcs))
unfolding annotated_service
annotated_service-AmongMarked name cluster [] = tt
annotated_service-AmongMarked name cluster (svc ∷ svcs) =
    elim (Bool-cases (str_eq (index "flink-chaos/flink-rest" svc.annotations) "true")) [
      | inl marked ↦ rw marked (inl (refl, str_eq_sound _ _ marked))
      | inr plain ↦ rw plain (
          AmongMarked-skip svc svcs (first_of cluster name (annotated_service svcs))
            (λ m. cc (plain, str_eq_refl "true", m))
            (annotated_service-AmongMarked name cluster svcs))
    ]

-- The two ways to an endpoint, and what an error means.
abbrev pub Resolved : String → List ListedPod → List Service → List Service → Result String → Type 0
Resolved name pods svcs all (ok endpoint) =
    Any (IsServedAt name pods endpoint) svcs
    ⊎ (All (λ svc. ¬ Serves name pods svc) svcs × Any (IsMarkedAt endpoint) all)
Resolved name pods svcs all (err e) =
    All (λ svc. ¬ Serves name pods svc) svcs × All (λ svc. ¬ IsMarked svc) all

Any-IsServedAt :
    (name : String) (pods : List ListedPod) (svcs : List Service) (first : Service)
    → Any (λ (svc : Service). (svc ≡ first) × Serves name pods svc) svcs
    → Any (IsServedAt name pods (endpoint_of_service first)) svcs
Any-IsServedAt name pods [] first h = absurd h
Any-IsServedAt name pods (svc ∷ svcs) first (inl h) = inl (ap endpoint_of_service (sym h.0), h.1)
Any-IsServedAt name pods (svc ∷ svcs) first (inr h) = inr (Any-IsServedAt name pods svcs first h)

Resolved-of_AmongMarked :
    (name : String) (pods : List ListedPod) (svcs all : List Service) (r : Result String)
    → All (λ svc. ¬ Serves name pods svc) svcs
    → AmongMarked all r
    → Resolved name pods svcs all r
Resolved-of_AmongMarked name pods svcs all (ok endpoint) none_serves h = inr (none_serves, h)
Resolved-of_AmongMarked name pods svcs all (err e) none_serves h = (none_serves, h)

candidates-Resolved :
    (name : String) (cluster : ClusterView) (pods : List ListedPod) (svcs all kept : List Service)
    → cluster.list_services ≡ ok all
    → FirstServing name pods svcs kept
    → Resolved name pods svcs all (candidates_or_annotated cluster name kept)
candidates-Resolved name cluster pods svcs all [] listed h = rw listed (
    Resolved-of_AmongMarked name pods svcs all (first_of cluster name (annotated_service all)) h
      (annotated_service-AmongMarked name cluster all))
candidates-Resolved name cluster pods svcs all (first ∷ rest) listed h =
    inl (Any-IsServedAt name pods svcs first h)

-- Where the lists of the API server succeed and no endpoint is configured, the endpoint that is found
-- for a named deployment is that of a service that stands for the job of a running JobManager of the
-- deployment; only if there is none of these, it is that of some service with the annotation, of
-- whatever deployment; and it is an error exactly if there is neither.
pub resolve_flink_client-Resolved :
    (cluster : ClusterView) (name : String) (pods : List ListedPod) (svcs all : List Service)
    → str_eq name "" ≡ false
    → cluster.list_pods "jobmanager" ≡ ok pods
    → cluster.list_jobmanager_services ≡ ok svcs
    → cluster.list_services ≡ ok all
    → Resolved name pods svcs all (resolve_flink_client cluster "" name)
unfolding resolve_flink_client
resolve_flink_client-Resolved cluster name pods svcs all named listed_pods listed listed_all =
    rw (listed_pods, listed)
      (candidates-Resolved name cluster pods svcs all
        (backed_services (running_job_ids (pods_of_deployment name pods)) svcs) listed_all
        (backed_services-FirstServing name pods svcs named))

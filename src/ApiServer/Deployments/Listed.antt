-- ===== src/ApiServer/Deployments/Listed.antt =====
-- Each running deployment is listed, once (internal/apiserver/handlers_deployments.go).
use flink_chaos_operator.Prelude.{
  String, ◌≡◌, ◌≢◌, refl, sym, ap, subst, ◌∙◌, ◌↔◌, ◌⊎◌, inl, inr, true, false, Option, none, some,
  List, [], ◌∷◌, str_eq, str_eq_sound, str_eq_refl, index, member, All, Any, Bool-cases,
  Option-cases,
}
use flink_chaos_operator.Interfaces.{ok}
use flink_chaos_operator.ApiServer.Http.{HttpResponse}
use flink_chaos_operator.ApiServer.Cluster.{
  ListedPod, ClusterView, non_empty, deployment_label, is_running,
}
use flink_chaos_operator.ApiServer.Deployments.{
  DeploymentInfo, info_by_labels, deployment_info, collect_deployments, deployments_of,
  list_deployments,
}

-- A running pod whose labels name the deployment.
abbrev pub RunsFor : String → ListedPod → Type 0
RunsFor name pod = (is_running pod ≡ true) × (deployment_label pod.labels ≡ name) × (name ≢ "")

abbrev pub InfoFor : Option DeploymentInfo → String → Type 0
InfoFor none name = ⊥
InfoFor (some info) name = info.deployment_name ≡ name

info_by_labels_iff :
    (pod : ListedPod) (name : String)
    → InfoFor
        (info_by_labels (non_empty "deploymentName" pod.labels) (non_empty "app" pod.labels) pod)
        name
      ↔ ((deployment_label pod.labels ≡ name) × (name ≢ ""))
unfolding non_empty deployment_label
info_by_labels_iff pod name = elim (Bool-cases (str_eq (index "deploymentName" pod.labels) "")) [
  | inr vvp ↦ rw vvp ((λ e. (e, λ empty. cc (vvp, str_eq_refl "", e, empty))), (λ h. h.0))
  | inl no_vvp ↦ elim (Bool-cases (str_eq (index "app" pod.labels) "")) [
    | inr app ↦
        rw (no_vvp, app) ((λ e. (e, λ empty. cc (app, str_eq_refl "", e, empty))), (λ h. h.0))
    | inl no_app ↦
        rw (no_vvp, no_app)
          ((λ e. absurd e), (λ h. h.1 (sym h.0 ∙ str_eq_sound (index "app" pod.labels) "" no_app)))
  ]
]

deployment_info_iff :
    (pod : ListedPod) (name : String) → InfoFor (deployment_info pod) name ↔ RunsFor name pod
unfolding deployment_info
deployment_info_iff pod name = elim (Bool-cases (is_running pod)) [
  | inl runs ↦ rw runs (
      let (to, back) = info_by_labels_iff pod name in
      ((λ e. let (named, some_name) = to e in (refl, named, some_name)), (λ h. back (h.1, h.2))))
  | inr ended ↦ rw ended ((λ e. absurd e), (λ h. cc (h.0)))
]

-- No two infos have one name, and none has a name seen before.
abbrev pub NamesApart : List DeploymentInfo → Type 0
NamesApart [] = Unit
NamesApart (d ∷ ds) =
    All (λ (e : DeploymentInfo). str_eq d.deployment_name e.deployment_name ≡ false) ds
    × NamesApart ds

abbrev Unseen : List String → DeploymentInfo → Type 0
Unseen seen d = member d.deployment_name seen ≡ false

abbrev pub Has : String → List DeploymentInfo → Type 0
Has name = Any (λ (d : DeploymentInfo). d.deployment_name ≡ name)

member_cons_false :
    (s x : String) (xs : List String)
    → member s (x ∷ xs) ≡ false
    → (str_eq x s ≡ false) × (member s xs ≡ false)
unfolding member
member_cons_false s x xs = elim (Bool-cases (str_eq x s)) [
  | inl same ↦ rw same (λ h. cc)
  | inr differ ↦ rw differ (λ h. (refl, h))
]

All-Unseen_cons :
    (x : String) (seen : List String) (ds : List DeploymentInfo)
    → All (Unseen (x ∷ seen)) ds
    → All (λ (e : DeploymentInfo). str_eq x e.deployment_name ≡ false) ds × All (Unseen seen) ds
All-Unseen_cons x seen [] h = (tt, tt)
All-Unseen_cons x seen (d ∷ ds) h =
    let (apart, unseen) = member_cons_false d.deployment_name x seen h.0 in
    let (rest_apart, rest_unseen) = All-Unseen_cons x seen ds h.1 in
    ((apart, rest_apart), (unseen, rest_unseen))

abbrev Collects : List ListedPod → List String → List DeploymentInfo → Type 0
Collects pods seen ds =
    NamesApart ds
    × All (Unseen seen) ds
    × ((name : String)
        → ((member name seen ≡ true) ⊎ Has name ds)
          ↔ ((member name seen ≡ true) ⊎ Any (RunsFor name) pods))

member_cons_iff :
    (s x : String) (xs : List String)
    → (member s (x ∷ xs) ≡ true) ↔ ((x ≡ s) ⊎ (member s xs ≡ true))
unfolding member
member_cons_iff s x xs = elim (Bool-cases (str_eq x s)) [
  | inl same ↦ rw same ((λ h. inl (str_eq_sound x s same)), (λ h. refl))
  | inr differ ↦
      rw differ ((λ h. inr h), (λ o. elim o [ inl e ↦ cc (differ, str_eq_refl s, e) | inr h ↦ h ]))
]

-- A pod of no deployment, one whose deployment was seen, and one of a new deployment.
skip-Collects :
    (pod : ListedPod) (pods : List ListedPod) (seen : List String) (ds : List DeploymentInfo)
    → ((name : String) → ¬ RunsFor name pod)
    → Collects pods seen ds
    → Collects (pod ∷ pods) seen ds
skip-Collects pod pods seen ds apart (differ, unseen, same) = (
  differ,
  unseen,
  λ name.
      let (to, back) = same name in
      (
        (λ h. elim (to h) [ inl a ↦ inl a | inr b ↦ inr (inr b) ]),
        (λ h. elim h [
          | inl a ↦ back (inl a)
          | inr b ↦ elim b [ inl r ↦ absurd (apart name r) | inr c ↦ back (inr c) ]
        ]),
      ),
)

repeat-Collects :
    (pod : ListedPod) (pods : List ListedPod) (seen : List String) (ds : List DeploymentInfo)
    (n : String)
    → ((name : String) → (n ≡ name) ↔ RunsFor name pod)
    → member n seen ≡ true
    → Collects pods seen ds
    → Collects (pod ∷ pods) seen ds
repeat-Collects pod pods seen ds n this known (differ, unseen, same) = (
  differ,
  unseen,
  λ name.
      let (to, back) = same name in
      (
        (λ h. elim (to h) [ inl a ↦ inl a | inr b ↦ inr (inr b) ]),
        (λ h. elim h [
          | inl a ↦ back (inl a)
          | inr b ↦ elim b [
            | inl r ↦ inl (ap (λ m. member m seen) (sym ((this name).1 r)) ∙ known)
            | inr c ↦ back (inr c)
          ]
        ]),
      ),
)

add-Collects :
    (pod : ListedPod) (pods : List ListedPod) (seen : List String) (ds : List DeploymentInfo)
    (info : DeploymentInfo)
    → ((name : String) → (info.deployment_name ≡ name) ↔ RunsFor name pod)
    → member info.deployment_name seen ≡ false
    → Collects pods (info.deployment_name ∷ seen) ds
    → Collects (pod ∷ pods) seen (info ∷ ds)
add-Collects pod pods seen ds info this new (differ, unseen, same) =
    let (apart, unseen') = All-Unseen_cons info.deployment_name seen ds unseen in
    (
      (apart, differ),
      (new, unseen'),
      λ name.
          let (to, back) = same name in
          let (split, join) = member_cons_iff name info.deployment_name seen in
          (
            (λ h. elim h [
              | inl a ↦ inl a
              | inr b ↦ elim b [
                | inl e ↦ inr (inl ((this name).0 e))
                | inr c ↦ elim (to (inr c)) [
                  | inl m ↦ elim (split m) [ inl e ↦ inr (inl ((this name).0 e)) | inr a ↦ inl a ]
                  | inr r ↦ inr (inr r)
                ]
              ]
            ]),
            (λ h. elim h [
              | inl a ↦ inl a
              | inr b ↦ elim b [
                | inl r ↦ inr (inl ((this name).1 r))
                | inr c ↦ elim (back (inr c)) [
                  | inl m ↦ elim (split m) [ inl e ↦ inr (inl e) | inr a ↦ inl a ]
                  | inr d ↦ inr (inr d)
                ]
              ]
            ]),
          ),
    )

collect_deployments-Collects :
    (pods : List ListedPod) (seen : List String)
    → Collects pods seen (collect_deployments pods seen)
unfolding collect_deployments
collect_deployments-Collects [] seen = (tt, tt, λ name. ((λ h. h), (λ h. h)))
collect_deployments-Collects (pod ∷ pods) seen = elim (Option-cases (deployment_info pod)) [
  | inl e ↦ rw e (
      skip-Collects pod pods seen (collect_deployments pods seen)
        (λ name r. subst (λ o. InfoFor o name) e ((deployment_info_iff pod name).1 r))
        (collect_deployments-Collects pods seen))
  | inr (info, e) ↦
      let this : (name : String) → (info.deployment_name ≡ name) ↔ RunsFor name pod =
        λ name. subst (λ o. InfoFor o name ↔ RunsFor name pod) e (deployment_info_iff pod name) in
      elim (Bool-cases (member info.deployment_name seen)) [
        | inl known ↦
            rw (e, known)
              (repeat-Collects pod pods seen (collect_deployments pods seen) info.deployment_name
                this known (collect_deployments-Collects pods seen))
        | inr new ↦
            rw (e, new)
              (add-Collects pod pods seen (collect_deployments pods (info.deployment_name ∷ seen))
                info this new (collect_deployments-Collects pods (info.deployment_name ∷ seen)))
      ]
]

-- Where the API server lists the JobManager pods, the answer has no two deployments of one name, and
-- it has a deployment exactly if the labels of some running pod name it, the label deploymentName
-- coming before app.
pub list_deployments-Lists :
    (cluster : ClusterView) (pods : List ListedPod)
    → cluster.list_pods "jobmanager" ≡ ok pods
    → (ds : List DeploymentInfo) × (list_deployments cluster ≡ HttpResponse.json 200 ds)
      × NamesApart ds
      × ((name : String) → Has name ds ↔ Any (RunsFor name) pods)
unfolding list_deployments member
list_deployments-Lists cluster pods listed =
    let (differ, unseen, same) = collect_deployments-Collects pods [] in
    (
      collect_deployments pods [],
      ap (deployments_of cluster) listed,
      differ,
      λ name.
          let (to, back) = same name in
          (
            (λ h. elim (to (inr h)) [ inl m ↦ cc | inr r ↦ r ]),
            (λ h. elim (back (inr h)) [ inl m ↦ cc | inr d ↦ d ]),
          ),
    )

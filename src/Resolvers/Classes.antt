-- ===== src/Resolvers/Classes.antt =====
-- Which pods a label selector resolves to (internal/resolver/podselector/resolver.go).
use flink_chaos_operator.Prelude.{
  ℕ, String, ◌≡◌, refl, ◌↔◌, Bool, true, false, ◌&&◌, Option, none, some, List, [], ◌∷◌, arith,
  if◌then◌else◌, str_eq, is_empty, subst,
}
use flink_chaos_operator.Api.Types.{LabelSelector, ChaosRun}
use flink_chaos_operator.Interfaces.{Result, ok, err, ResolvedTarget}
use flink_chaos_operator.Resolvers.Pods.{Pod, is_pod_eligible, component_role}
use flink_chaos_operator.Resolvers.Picks.{
  Picked, done, picked, passed, IsEligible, HasRole, is_pod_eligible_iff, component_role_iff,
}
use flink_chaos_operator.Resolvers.PodSelector.{
  classify_pods, target_of, target_from, resolve_selector, resolve,
}

-- A pod that is eligible, and not a JobManager.
abbrev pub IsTaskManager : Pod → Type 0
IsTaskManager pod = IsEligible pod × (¬ HasRole pod.labels "jobmanager")

abbrev pub IsJobManager : Pod → Type 0
IsJobManager pod = IsEligible pod × HasRole pod.labels "jobmanager"

-- The pods in two classes, each of exactly the pods of its kind, in their order.
abbrev pub IsClassified : List Pod → List String × List String → Type 0
IsClassified pods (tm_pods, jm_pods) =
    Picked IsTaskManager pods tm_pods × Picked IsJobManager pods jm_pods

classify-IsClassified : (pods : List Pod) → IsClassified pods (classify_pods pods)
unfolding classify_pods
classify-IsClassified [] = (done, done)
classify-IsClassified (pod ∷ pods) =
    let (tm, jm) = classify-IsClassified pods in
    by (is_pod_eligible pod) (is_pod_eligible_iff pod)
      (str_eq (component_role pod.labels) "jobmanager") (component_role_iff pod.labels "jobmanager")
      tm jm
  where
    by :
        (eligible : Bool)
        → (eligible ≡ true) ↔ IsEligible pod
        → (jobmanager : Bool) → (jobmanager ≡ true) ↔ HasRole pod.labels "jobmanager"
        → Picked IsTaskManager pods (classify_pods pods).0
        → Picked IsJobManager pods (classify_pods pods).1
        → let (tm, jm) = classify_pods pods in
          let split : List String × List String =
            if eligible
            then if jobmanager then (tm, pod.name ∷ jm) else (pod.name ∷ tm, jm)
            else (tm, jm) in
          IsClassified (pod ∷ pods) split
    by true e true j tm jm = (passed (λ h. h.1 (j.0 refl)) tm, picked (e.0 refl, j.0 refl) jm)
    by true e false j tm jm = (
      picked (e.0 refl, λ h. absurd (let no = j.1 h in ground arith)) tm,
      passed (λ h. absurd (let no = j.1 h.1 in ground arith)) jm,
    )
    by false e j q tm jm = (
      passed (λ h. absurd (let no = e.1 h.0 in ground arith)) tm,
      passed (λ h. absurd (let no = e.1 h.0 in ground arith)) jm,
    )

module _ (list_pods : ℕ → String → LabelSelector → Result (List Pod)) where
  -- The target's pods are the listed ones in their classes, and there is at least one.
  pub record IsResolved (n : ℕ) (run : ChaosRun) (target : ResolvedTarget) : Type 0 where
    pub selector : LabelSelector
    pub pods : List Pod
    pub given : run.spec.target.selector ≡ some selector
    pub listed : list_pods n run.namespace selector ≡ ok pods
    pub classified : IsClassified pods (target.tm_pod_names, target.jm_pod_names)
    pub some_pod : is_empty target.tm_pod_names && is_empty target.jm_pod_names ≡ false

  of_classes :
      (run : ChaosRun) (classes : List String × List String) (target : ResolvedTarget)
      → target_of list_pods run classes ≡ ok target
      → (classes ≡ (target.tm_pod_names, target.jm_pod_names))
        × (is_empty target.tm_pod_names && is_empty target.jm_pod_names ≡ false)
  of_classes run (tm_pods, jm_pods) target e = (ground arith, ground arith)

  answer-IsResolved :
      (n : ℕ) (run : ChaosRun) (selector : LabelSelector) (answer : Result (List Pod))
      (target : ResolvedTarget)
      → run.spec.target.selector ≡ some selector
      → list_pods n run.namespace selector ≡ answer
      → target_from list_pods run answer ≡ ok target
      → IsResolved n run target
  answer-IsResolved n run selector (err x) target s l e = absurd (ground arith)
  answer-IsResolved n run selector (ok pods) target s l e =
      let (same, some_one) = of_classes run (classify_pods pods) target e in
      record {
        selector = selector;
        pods = pods;
        given = s;
        listed = l;
        classified = subst (IsClassified pods) same (classify-IsClassified pods);
        some_pod = some_one;
      }

  selector-IsResolved :
      (n : ℕ) (run : ChaosRun) (selector : Option LabelSelector) (target : ResolvedTarget)
      → run.spec.target.selector ≡ selector
      → resolve_selector list_pods n run selector ≡ ok target
      → IsResolved n run target
  selector-IsResolved n run none target s e = absurd (ground arith)
  selector-IsResolved n run (some selector) target s e =
      answer-IsResolved n run selector (list_pods n run.namespace selector) target s refl e

  -- A target that the resolver of label selectors answers with has at least one pod; of the pods
  -- that the API server lists for the run's selector in its namespace, its JobManagers are exactly
  -- the eligible ones whose component label says so, and its TaskManagers all other eligible ones,
  -- each once and in the list's order.
  pub resolve-IsResolved :
      (n : ℕ) (run : ChaosRun) (target : ResolvedTarget)
      → resolve list_pods n run ≡ ok target
      → IsResolved n run target
  unfolding resolve
  resolve-IsResolved n run target e =
      selector-IsResolved n run run.spec.target.selector target refl (ground arith)

-- ===== src/Resolvers/Discovers.antt =====
-- Which pods a FlinkDeployment resolves to (internal/resolver/flinkdeployment/resolver.go).
use flink_chaos_operator.Prelude.{
  ℕ, ◌+◌, String, ◌≡◌, refl, sym, subst, ◌↔◌, ◌⊎◌, inl, inr, Bool, true, false, ◌||◌, Option, List,
  [], ◌∷◌, arith, if◌then◌else◌, str_eq, is_empty, index,
}
use flink_chaos_operator.Api.Types.{ChaosRun}
use flink_chaos_operator.Interfaces.{Result, ok, err, ResolvedTarget}
use flink_chaos_operator.Resolvers.Pods.{Pod, is_pod_eligible, component_role}
use flink_chaos_operator.Resolvers.Picks.{
  Picked, done, picked, passed, IsEligible, HasRole, HasLabel, is_pod_eligible_iff,
  component_role_iff, index_iff, one_role,
}
use flink_chaos_operator.Resolvers.Modes.{IsSession, is_session_mode_iff}
use flink_chaos_operator.Resolvers.Deployment.{
  is_session_mode, matches_deployment, add_by_role, discover_pods, Deployment, target_with,
  target_among, resolve_deployment, resolve,
}

-- The labels of a pod name the deployment.
abbrev pub NamesDeployment : String → List (String × String) → Type 0
NamesDeployment deployment labels =
    HasLabel "app" labels deployment ⊎ HasLabel "app.kubernetes.io/name" labels deployment

-- An eligible pod of the deployment in a role.
abbrev pub IsPodOf : String → String → Pod → Type 0
IsPodOf deployment role pod =
    IsEligible pod × NamesDeployment deployment pod.labels × HasRole pod.labels role

-- Both classes of a deployment's pods, each of exactly the pods in the role, in their order.
abbrev pub AreOf : String → List Pod → List String × List String → Type 0
AreOf deployment pods (tm_pods, jm_pods) =
    Picked (IsPodOf deployment "taskmanager") pods tm_pods
    × Picked (IsPodOf deployment "jobmanager") pods jm_pods

matches_deployment_iff :
    (labels : List (String × String)) (deployment : String)
    → (matches_deployment labels deployment ≡ true) ↔ NamesDeployment deployment labels
unfolding matches_deployment
matches_deployment_iff labels deployment =
    by (str_eq (index "app" labels) deployment) (index_iff "app" labels deployment)
      (str_eq (index "app.kubernetes.io/name" labels) deployment)
      (index_iff "app.kubernetes.io/name" labels deployment)
  where
    by :
        (app : Bool)
        → (app ≡ true) ↔ HasLabel "app" labels deployment
        → (name : Bool) → (name ≡ true) ↔ HasLabel "app.kubernetes.io/name" labels deployment
        → (app || name ≡ true) ↔ NamesDeployment deployment labels
    by true a name b = ((λ h. inl (a.0 refl)), (λ h. refl))
    by false a name b = (
      (λ h. inr (b.0 h)),
      (λ h. elim h [ inl l ↦ absurd (let no = a.1 l in ground arith) | inr r ↦ b.1 r ]),
    )

passed_both :
    (deployment : String) (pod : Pod) (pods : List Pod) (classes : List String × List String)
    → ((role : String) → ¬ IsPodOf deployment role pod)
    → AreOf deployment pods classes
    → AreOf deployment (pod ∷ pods) classes
passed_both deployment pod pods (tm, jm) none_of h =
    (passed (none_of "taskmanager") h.0, passed (none_of "jobmanager") h.1)

-- A pod of the deployment is added to the class of its role.
add_by_role-AreOf :
    (deployment : String) (pod : Pod) (pods : List Pod) (classes : List String × List String)
    → IsEligible pod
    → NamesDeployment deployment pod.labels
    → AreOf deployment pods classes
    → AreOf deployment (pod ∷ pods) (add_by_role (component_role pod.labels) pod.name classes)
add_by_role-AreOf deployment pod pods (tm, jm) e m h =
    by (str_eq (component_role pod.labels) "taskmanager") refl
      (str_eq (component_role pod.labels) "jobmanager") refl
  where
    role : (r : String) → (str_eq (component_role pod.labels) r ≡ true) ↔ HasRole pod.labels r
    role r = component_role_iff pod.labels r

    by :
        (task : Bool)
        → str_eq (component_role pod.labels) "taskmanager" ≡ task
        → (job : Bool) → str_eq (component_role pod.labels) "jobmanager" ≡ job
        → let classes : List String × List String =
            if task then (pod.name ∷ tm, jm) else if job then (tm, pod.name ∷ jm) else (tm, jm) in
          AreOf deployment (pod ∷ pods) classes
    by true t job j = (
      picked (e, m, (role "taskmanager").0 t) h.0,
      passed (λ p. one_role pod.labels "taskmanager" "jobmanager" t refl p.2) h.1,
    )
    by false t true j = (
      passed (λ p. absurd (let yes = (role "taskmanager").1 p.2 in cc)) h.0,
      picked (e, m, (role "jobmanager").0 j) h.1,
    )
    by false t false j = (
      passed (λ p. absurd (let yes = (role "taskmanager").1 p.2 in cc)) h.0,
      passed (λ p. absurd (let yes = (role "jobmanager").1 p.2 in cc)) h.1,
    )

discover_pods-AreOf :
    (deployment : String) (pods : List Pod) → AreOf deployment pods (discover_pods deployment pods)
unfolding discover_pods
discover_pods-AreOf deployment [] = (done, done)
discover_pods-AreOf deployment (pod ∷ pods) =
    by (is_pod_eligible pod) (is_pod_eligible_iff pod) (matches_deployment pod.labels deployment)
      (matches_deployment_iff pod.labels deployment) (discover_pods deployment pods)
      (discover_pods-AreOf deployment pods)
  where
    by :
        (eligible : Bool)
        → (eligible ≡ true) ↔ IsEligible pod
        → (matching : Bool) → (matching ≡ true) ↔ NamesDeployment deployment pod.labels
        → (rest : List String × List String) → AreOf deployment pods rest
        → AreOf deployment (pod ∷ pods) (
            if eligible
            then if matching then add_by_role (component_role pod.labels) pod.name rest else rest
            else rest)
    by true e true m rest h = add_by_role-AreOf deployment pod pods rest (e.0 refl) (m.0 refl) h
    by true e false m rest h =
        passed_both deployment pod pods rest (λ role p. absurd (let no = m.1 p.1 in ground arith)) h
    by false e matching m rest h =
        passed_both deployment pod pods rest (λ role p. absurd (let no = e.1 p.0 in ground arith)) h

module _ (get : ℕ → String → String → Deployment) (list_pods : ℕ → String → Result (List Pod)) where
  -- A target that the API server's answers support.
  pub record IsTargetOf (n : ℕ) (run : ChaosRun) (target : ResolvedTarget) : Type 0 where
    pub exec_target : Option String
    pub pods : List Pod
    pub found : get n run.spec.target.name run.namespace ≡ Deployment.deployment exec_target
    pub listed : list_pods (n + 1) run.namespace ≡ ok pods
    pub discovered : AreOf run.spec.target.name pods (target.tm_pod_names, target.jm_pod_names)
    pub some_task_manager : is_empty target.tm_pod_names ≡ false
    pub shared : (target.shared_cluster ≡ true) ↔ IsSession exec_target

  of_target :
      (run : ChaosRun) (exec_target : Option String) (pods : List String × List String)
      (target : ResolvedTarget)
      → target_with get list_pods run exec_target pods ≡ ok target
      → (pods ≡ (target.tm_pod_names, target.jm_pod_names))
        × (is_empty target.tm_pod_names ≡ false)
        × (target.shared_cluster ≡ is_session_mode exec_target)
  of_target run exec_target ([], jm) target e = absurd (ground arith)
  of_target run exec_target (p ∷ ps, jm) target e = (ground arith, ground arith, ground arith)

  among-IsTargetOf :
      (n : ℕ) (run : ChaosRun) (exec_target : Option String) (answer : Result (List Pod))
      (target : ResolvedTarget)
      → get n run.spec.target.name run.namespace ≡ Deployment.deployment exec_target
      → list_pods (n + 1) run.namespace ≡ answer
      → target_among get list_pods run exec_target answer ≡ ok target
      → IsTargetOf n run target
  among-IsTargetOf n run exec_target (err x) target g l e = absurd (ground arith)
  among-IsTargetOf n run exec_target (ok pods) target g l e =
      let (same, some_one, shared) =
        of_target run exec_target (discover_pods run.spec.target.name pods) target e in
      record {
        exec_target = exec_target;
        pods = pods;
        found = g;
        listed = l;
        discovered =
            subst (λ both. AreOf run.spec.target.name pods both) same
              (discover_pods-AreOf run.spec.target.name pods);
        some_task_manager = some_one;
        shared =
            subst (λ b. (b ≡ true) ↔ IsSession exec_target) (sym shared)
              (is_session_mode_iff exec_target);
      }

  answer-IsTargetOf :
      (n : ℕ) (run : ChaosRun) (answer : Deployment) (target : ResolvedTarget)
      → get n run.spec.target.name run.namespace ≡ answer
      → resolve_deployment get list_pods n run answer ≡ ok target
      → IsTargetOf n run target
  answer-IsTargetOf n run (Deployment.deployment exec_target) target g e =
      among-IsTargetOf n run exec_target (list_pods (n + 1) run.namespace) target g refl e
  answer-IsTargetOf n run Deployment.missing target g e = absurd (ground arith)
  answer-IsTargetOf n run (Deployment.get_failed x) target g e = absurd (ground arith)

  -- A target that the resolver of FlinkDeployments answers with stands for a deployment that the
  -- API server has found, and has a TaskManager; its TaskManagers and JobManagers are exactly the
  -- eligible pods listed in the run's namespace whose labels name the deployment and the role, each
  -- once and in the list's order; and the cluster is shared exactly if the deployment has an
  -- execution target in which "session" is spelled, in small letters or capitals.
  pub resolve-IsTargetOf :
      (n : ℕ) (run : ChaosRun) (target : ResolvedTarget)
      → resolve get list_pods n run ≡ ok target
      → IsTargetOf n run target
  unfolding resolve
  resolve-IsTargetOf n run target e =
      answer-IsTargetOf n run (get n run.spec.target.name run.namespace) target refl (ground arith)

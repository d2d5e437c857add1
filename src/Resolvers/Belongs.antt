-- ===== src/Resolvers/Belongs.antt =====
-- Which pods a VervericaDeployment resolves to (internal/resolver/ververica/resolver.go).
use flink_chaos_operator.Prelude.{
  ℕ, String, ◌≡◌, refl, subst, inl, inr, Bool, true, false, List, [], ◌∷◌, arith, All,
  if◌then◌else◌, is_empty, Bool-cases,
}
use flink_chaos_operator.Api.Types.{ChaosRun}
use flink_chaos_operator.Interfaces.{Result, ok, err, ResolvedTarget}
use flink_chaos_operator.Resolvers.Pods.{Pod, is_pod_eligible, component_role}
use flink_chaos_operator.Resolvers.Picks.{IsEligible, is_pod_eligible_iff}
use flink_chaos_operator.Resolvers.Ververica.{
  matches_target, is_session_mode, add_pod, discover_pods, target_with, target_among, resolve,
}
use flink_chaos_operator.Resolvers.Members.{
  Belongs, matches_target-Belongs, IsMemberOf, HasSession, is_session_mode-SaysSession,
  component_role-HasRole, All-map, add_by_role-All,
}

module _ (id name vvp_namespace : String) where
  -- What is found belongs to the deployment; it counts as shared only for a session-mode pod of it.
  pub record IsFound (pods : List Pod) (found : (List String × List String) × Bool) : Type 0 where
    pub task_managers : All (IsMemberOf id name vvp_namespace "taskmanager" pods) found.0.0
    pub job_managers : All (IsMemberOf id name vvp_namespace "jobmanager" pods) found.0.1
    pub shared : found.1 ≡ true → HasSession id name vvp_namespace pods

  later-IsFound :
      (pod : Pod) (pods : List Pod) (found : (List String × List String) × Bool)
      → IsFound pods found
      → IsFound (pod ∷ pods) found
  later-IsFound pod pods found h = record {
    task_managers = All-map found.0.0 (λ s m. inr m) h.task_managers;
    job_managers = All-map found.0.1 (λ s m. inr m) h.job_managers;
    shared = λ s. inr (h.shared s);
  }

  add_pod-IsFound :
      (pod : Pod) (pods : List Pod) (found : (List String × List String) × Bool)
      → IsEligible pod
      → Belongs id name vvp_namespace pod.labels
      → IsFound pods found
      → IsFound (pod ∷ pods) (add_pod pod found)
  add_pod-IsFound pod pods (classes, shared) e b h =
      let later = later-IsFound pod pods (classes, shared) h in
      let (tm, jm) =
        add_by_role-All (IsMemberOf id name vvp_namespace "taskmanager" (pod ∷ pods))
          (IsMemberOf id name vvp_namespace "jobmanager" (pod ∷ pods)) (component_role pod.labels)
          pod.name classes (λ r. inl (refl, e, b, component_role-HasRole pod.labels _ r))
          (λ r. inl (refl, e, b, component_role-HasRole pod.labels _ r)) later.task_managers
          later.job_managers in
      record {
        task_managers = tm;
        job_managers = jm;
        shared = λ s. elim (Bool-cases (is_session_mode pod.labels)) [
          | inl session ↦ inl (e, b, is_session_mode-SaysSession pod.labels session)
          | inr alone ↦ later.shared (ground arith)
        ];
      }

  discover_pods-IsFound :
      (pods : List Pod) → IsFound pods (discover_pods id name vvp_namespace pods)
  unfolding discover_pods
  discover_pods-IsFound [] = record {
    task_managers = tt;
    job_managers = tt;
    shared = λ s. ground arith;
  }
  discover_pods-IsFound (pod ∷ pods) =
      by (discover_pods-IsFound pods) (is_pod_eligible pod) refl
        (matches_target pod.labels id name vvp_namespace) refl
    where
      by :
          IsFound pods (discover_pods id name vvp_namespace pods)
          → (eligible : Bool) → is_pod_eligible pod ≡ eligible
          → (matching : Bool) → matches_target pod.labels id name vvp_namespace ≡ matching
          → let rest = discover_pods id name vvp_namespace pods in
            let all : (List String × List String) × Bool =
              if eligible then if matching then add_pod pod rest else rest else rest in
            IsFound (pod ∷ pods) all
      by h true e true m =
          add_pod-IsFound pod pods (discover_pods id name vvp_namespace pods)
            ((is_pod_eligible_iff pod).0 e)
            (matches_target-Belongs pod.labels id name vvp_namespace m) h
      by h true e false m = later-IsFound pod pods (discover_pods id name vvp_namespace pods) h
      by h false e m p = later-IsFound pod pods (discover_pods id name vvp_namespace pods) h

module _ (list_pods : ℕ → String → Result (List Pod)) where
  -- A target that the API server's list supports.
  pub record IsOfVervericaDeployment (n : ℕ) (run : ChaosRun) (target : ResolvedTarget)
      : Type 0 where
    pub pods : List Pod
    pub listed : list_pods n run.namespace ≡ ok pods
    pub found :
        IsFound run.spec.target.deployment_id run.spec.target.deployment_name
          run.spec.target.vvp_namespace pods
          ((target.tm_pod_names, target.jm_pod_names), target.shared_cluster)
    pub some_task_manager : is_empty target.tm_pod_names ≡ false

  of_target :
      (run : ChaosRun) (logical : String) (found : (List String × List String) × Bool)
      (target : ResolvedTarget)
      → target_with run logical found ≡ ok target
      → (found ≡ ((target.tm_pod_names, target.jm_pod_names), target.shared_cluster))
        × (is_empty target.tm_pod_names ≡ false)
  of_target run logical (([], jm), shared) target e = absurd (ground arith)
  of_target run logical ((p ∷ ps, jm), shared) target e = (ground arith, ground arith)

  answer-IsOf :
      (n : ℕ) (run : ChaosRun) (answer : Result (List Pod)) (target : ResolvedTarget)
      → list_pods n run.namespace ≡ answer
      → target_among run answer ≡ ok target
      → IsOfVervericaDeployment n run target
  answer-IsOf n run (err x) target l e = absurd (ground arith)
  answer-IsOf n run (ok pods) target l e =
      let (same, some_one) = of_target run _ _ target e in
      record {
        pods = pods;
        listed = l;
        found =
            subst
              (λ all.
                IsFound run.spec.target.deployment_id run.spec.target.deployment_name
                  run.spec.target.vvp_namespace pods all)
              same (discover_pods-IsFound _ _ _ pods);
        some_task_manager = some_one;
      }

  -- A target that the resolver of VervericaDeployments answers with has a TaskManager. Its
  -- TaskManagers and JobManagers are eligible pods listed in the run's namespace, in their role,
  -- that carry the deployment's identifier or, if none is given, its name and any namespace given;
  -- it counts as shared only if one of the deployment's eligible pods has a label of session mode.
  pub resolve-IsOfVervericaDeployment :
      (n : ℕ) (run : ChaosRun) (target : ResolvedTarget)
      → resolve list_pods n run ≡ ok target
      → IsOfVervericaDeployment n run target
  unfolding resolve
  resolve-IsOfVervericaDeployment n run target e =
      answer-IsOf n run (list_pods n run.namespace) target refl (ground arith)

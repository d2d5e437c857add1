-- ===== src/Tests/Answers.antt =====
-- An API server that takes every patch, a cluster with three ready TaskManagers, and the
-- controller's surroundings with the real drivers, checker and observers.
use flink_chaos_operator.Prelude.{
  ℕ, ◌*◌, ◌≡◌, refl, sym, subst, pos, String, true, false, Option, none, some, List, [], ◌∷◌, arith,
  member,
}
use flink_chaos_operator.Api.Types.{ScenarioType, RunPhase, ChaosRun}
use flink_chaos_operator.Interfaces.{
  Error, Result, ok, ResolvedTarget, ScenarioDriver, Observer, SafetyChecker,
}
use flink_chaos_operator.Safety.Checker.{safety_checker}
use flink_chaos_operator.Scenarios.PodKill.{Deletion, Answer, kill_driver}
use flink_chaos_operator.Scenarios.Policy.{NetworkPolicy, build}
use flink_chaos_operator.Scenarios.Partition.{Created, Deleted, partition_driver}
use flink_chaos_operator.Scenarios.Keeps.{inject-phase, cleanup-phase}
use flink_chaos_operator.Observers.Kubernetes.{PodView, observe as observe_pods}
use flink_chaos_operator.Observers.FlinkRest.{Client, observe as observe_rest}
use flink_chaos_operator.Observers.Composite.{observe as observe_all}
use flink_chaos_operator.Controller.World.{Env, World, found}
use flink_chaos_operator.Controller.Cleaning.{cleanup_of}
use flink_chaos_operator.Controller.Lifecycle.{KeepsPhases, KeepsPhase}
use flink_chaos_operator.Tests.Data.{target_three, storage_spec, kill_run}

abbrev pub keep_order : ℕ → List String → List String
keep_order n pods = pods

abbrev pub delete_pod : ℕ → Deletion → Answer
delete_pod n call = Answer.deleted

abbrev pub create_policy : ℕ → NetworkPolicy → Created
create_policy n np = Created.created

abbrev pub list_policies : ℕ → String → String × String → Result (List NetworkPolicy)
list_policies n namespace label = ok (build storage_spec ∷ [])

abbrev pub delete_policy : ℕ → NetworkPolicy → Deleted
delete_policy n np = Deleted.deleted

abbrev pub get_pod : ℕ → String → String → Result PodView
get_pod n namespace name = ok (record { running = true; containers_ready = true ∷ [] })

abbrev pub flink_client : String → Client
flink_client endpoint = record {
  jobs = λ n. ok ("FINISHED" ∷ "RUNNING" ∷ []);
  task_managers = λ n. ok 3;
}

abbrev pub no_peers : ℕ → String → Result (List ChaosRun)
no_peers n namespace = ok []

abbrev pub drivers : ScenarioType → Option ScenarioDriver
drivers ScenarioType.task_manager_pod_kill = some (kill_driver keep_order delete_pod)
drivers ScenarioType.network_partition =
    some (partition_driver create_policy list_policies delete_policy)
drivers _ = none

abbrev pub observers : List Observer
observers = observe_pods get_pod ∷ observe_rest flink_client ∷ []

abbrev pub checker : SafetyChecker
checker = safety_checker (λ e. "refused") no_peers

abbrev pub server : Env
server = record {
  now = λ n. pos (n * 1000000000);
  get = λ n namespace name. found (kill_run RunPhase.injecting);
  patch_status = λ n base run. ok run;
  patch = λ n base run. ok run;
  safety_checker = some checker;
  resolvers = some (λ t. some (λ n run. ok target_three));
  scenario_drivers = some drivers;
  observer = some (observe_all observers);
  checkpoint_stable = λ n endpoint window. ok false;
  set_status_condition = λ c cs. c ∷ cs;
  contains_finalizer = λ run. member "chaos.flink.io/cleanup" run.finalizers;
  add_finalizer = λ run. record run { finalizers = "chaos.flink.io/cleanup" ∷ run.finalizers };
  remove_finalizer = λ run. record run { finalizers = [] };
  parse_cidr = λ s. true;
  describe = λ errs. "invalid";
}

abbrev pub start : World
start = record { step = 0; trace = [] }

ok_same : (a b : ChaosRun) → ok a ≡ ok b → b.status.phase ≡ a.status.phase
ok_same a b e = ground arith

some_same : {A : Type 0} (a b : A) → some a ≡ some b → a ≡ b
some_same a b e = ground arith

driver_keeps :
    (t : ScenarioType) (driver : ScenarioDriver)
    → drivers t ≡ some driver
    → (n : ℕ) (run : ChaosRun) (target : ResolvedTarget)
    → (driver.inject n run target).0.status.phase ≡ run.status.phase
unfolding kill_driver partition_driver
driver_keeps ScenarioType.task_manager_pod_kill driver e n run target =
    subst (λ (d : ScenarioDriver). (d.inject n run target).0.status.phase ≡ run.status.phase)
      (some_same _ _ e) refl
driver_keeps ScenarioType.network_partition driver e n run target =
    subst (λ (d : ScenarioDriver). (d.inject n run target).0.status.phase ≡ run.status.phase)
      (some_same _ _ e) (inject-phase create_policy n run target)
driver_keeps _ driver e n run target = absurd (ground arith)

cleanup_keeps :
    (t : ScenarioType) (cleanup : ℕ → ChaosRun → ChaosRun × Option Error)
    → cleanup_of (some drivers) t ≡ some cleanup
    → (n : ℕ) (run : ChaosRun) → (cleanup n run).0.status.phase ≡ run.status.phase
unfolding cleanup_of kill_driver partition_driver
cleanup_keeps ScenarioType.network_partition cleanup e n run =
    subst (λ c. (c n run).0.status.phase ≡ run.status.phase) (some_same _ _ e)
      (cleanup-phase list_policies delete_policy n run)
cleanup_keeps _ cleanup e n run = absurd (ground arith)

pub server-KeepsPhase : KeepsPhase server
server-KeepsPhase n base run run' e = ok_same run run' e

-- The surroundings keep to the phases, by the lemmas on the drivers.
pub server-KeepsPhases : KeepsPhases server
server-KeepsPhases = record {
  status_keeps = server-KeepsPhase;
  object_keeps = λ n base run run' e. ok_same run run' e;
  finalizer_keeps = λ run. refl;
  inject_keeps = λ ds t driver same e. driver_keeps t driver (
      subst (λ (f : ScenarioType → Option ScenarioDriver). f t ≡ some driver)
        (sym (some_same _ _ same)) e);
  cleanup_keeps = cleanup_keeps;
}

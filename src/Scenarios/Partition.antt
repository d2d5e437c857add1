-- ===== src/Scenarios/Partition.antt =====
-- The NetworkPartition driver (internal/scenario/networkpartition/driver.go). The policies that it
-- asks the API server to create, and those that it deletes, are kept with its answer.
use flink_chaos_operator.Prelude.{
  ℕ, ◌+◌, ℤ, pos, String, Option, none, some, List, [], ◌∷◌, ◌++◌, ◌&◌, if◌then◌else◌, str_eq,
  quoted,
}
use flink_chaos_operator.Api.Types.{
  ScenarioType, NetworkTarget, NetworkDirection, ExternalTarget, NetworkChaosSpec, ChaosRun,
}
use flink_chaos_operator.Interfaces.{
  Error, Result, ok, err, ResolvedTarget, Injection, injected, refused, ScenarioDriver,
}
use flink_chaos_operator.Scenarios.Policy.{Spec, NetworkPolicy, names, build}

abbrev tm_labels : List (String × String)
tm_labels = ("component", "taskmanager") ∷ []

abbrev jm_labels : List (String × String)
jm_labels = ("component", "jobmanager") ∷ []

-- Source labels, destination labels and destination block.
pub record Peers : Type 0 where
  pub src_labels : List (String × String)
  pub dest_labels : Option (List (String × String))
  pub dest_cidr : String

abbrev peers_of_labels : List (String × String) → Peers
peers_of_labels labels = record {
  src_labels = tm_labels;
  dest_labels = some labels;
  dest_cidr = "";
}

abbrev cidr_needed : Result Peers
cidr_needed = err "network target requires ExternalEndpoint.CIDR to be set"

abbrev peers_of_endpoint : Option ExternalTarget → Result Peers
peers_of_endpoint none = cidr_needed
peers_of_endpoint (some e) =
    if str_eq e.cidr ""
    then cidr_needed
    else ok (record { src_labels = tm_labels; dest_labels = none; dest_cidr = e.cidr })

abbrev peers_as : NetworkTarget → Option ExternalTarget → Result Peers
peers_as NetworkTarget.tm_to_tm endpoint = ok (peers_of_labels tm_labels)
peers_as NetworkTarget.tm_to_jm endpoint = ok (peers_of_labels jm_labels)
peers_as NetworkTarget.tm_to_checkpoint endpoint = peers_of_endpoint endpoint
peers_as NetworkTarget.tm_to_external endpoint = peers_of_endpoint endpoint
peers_as _ endpoint = err "unsupported network target"

unfoldable pub resolve_partition_peers : NetworkChaosSpec → Result Peers
resolve_partition_peers n = peers_as n.target n.external_endpoint

pub record Entry : Type 0 where
  pub name : String
  pub direction : String

-- `toCreate`; a direction that is neither Ingress nor Egress means both.
unfoldable pub entries : NetworkDirection → String → List Entry
entries direction run_name =
    let (ingress_name, egress_name) = names run_name in
    let inward : Entry = record { name = ingress_name; direction = "Ingress" } in
    let outward : Entry = record { name = egress_name; direction = "Egress" } in
    elim direction [
      | NetworkDirection.ingress ↦ inward ∷ []
      | NetworkDirection.egress ↦ outward ∷ []
      | _ ↦ inward ∷ outward ∷ []
    ]

pub data Created : Type 0 where
  created already_exists : Created
  create_failed : Error → Created

-- What the loop has done: the names it returns, its error, and its calls in order.
pub record Progress : Type 0 where
  pub names_created : List String
  pub stopped : Option Error
  pub calls : List NetworkPolicy

abbrev pub after_create : Entry → NetworkPolicy → Created → Progress → Progress
after_create e policy (Created.create_failed x) rest = record {
  names_created = [];
  stopped = some ("creating NetworkPolicy " & quoted e.name & ": " & x);
  calls = policy ∷ [];
}
after_create e policy _ rest = record {
  names_created = e.name ∷ rest.names_created;
  stopped = rest.stopped;
  calls = policy ∷ rest.calls;
}

abbrev pub policy_of : Spec → Entry → NetworkPolicy
policy_of base e = build (record base { name = e.name; direction = e.direction })

abbrev port_of : Option ExternalTarget → ℤ
port_of none = pos 0
port_of (some e) = e.port

-- For labels the destination pods are selected, for a block the source pods.
abbrev selected_labels : Peers → List (String × String)
selected_labels p = elim p.dest_labels [ none ↦ p.src_labels | some labels ↦ labels ]

unfoldable pub base_spec : ChaosRun → NetworkChaosSpec → Peers → Spec
base_spec run n peers = record {
  name = "";
  namespace = run.namespace;
  chaos_run_name = run.name;
  source_labels = selected_labels peers;
  dest_labels = peers.dest_labels;
  dest_cidr = peers.dest_cidr;
  direction = "";
  port = port_of n.external_endpoint;
}

-- What an injection leaves: the run, the answer, and the creations asked for.
pub record Injected : Type 0 where
  pub run : ChaosRun
  pub injection : Injection
  pub calls : List NetworkPolicy

abbrev pub refuse : ChaosRun → Error → Injected
refuse run e = record { run = run; injection = refused e; calls = [] }

abbrev pub record_policies : ChaosRun → ResolvedTarget → List String → ChaosRun
record_policies run target names = record run {
  status = record (run.status) {
    network_policies = run.status.network_policies ++ names;
    selected_pods = target.tm_pod_names;
  };
}

abbrev pub injected_with : ChaosRun → ResolvedTarget → Progress → Option Error → Injected
injected_with run target p none = record {
  run = record_policies run target p.names_created;
  injection =
      injected
        (record { selected_pods = target.tm_pod_names; injected_pods = target.tm_pod_names });
  calls = p.calls;
}
injected_with run target p (some e) = record { run = run; injection = refused e; calls = p.calls }

module _ (create : ℕ → NetworkPolicy → Created) where
  unfoldable pub create_policies : ℕ → Spec → List Entry → Progress
  create_policies n base [] = record { names_created = []; stopped = none; calls = [] }
  create_policies n base (e ∷ es) =
      let rest = create_policies (n + 1) base es in
      let policy = policy_of base e in after_create e policy (create n policy) rest

  abbrev pub inject_peers :
      ℕ → ChaosRun → ResolvedTarget → NetworkChaosSpec → Result Peers → Injected
  inject_peers n run target net (err e) = refuse run e
  inject_peers n run target net (ok peers) =
      let p = create_policies n (base_spec run net peers) (entries net.direction run.name) in
      injected_with run target p p.stopped

  abbrev pub inject_network : ℕ → ChaosRun → ResolvedTarget → Option NetworkChaosSpec → Injected
  inject_network n run target none =
      refuse run "network spec is required for NetworkPartition scenario"
  inject_network n run target (some net) =
      inject_peers n run target net (resolve_partition_peers net)

  abbrev pub inject_as : ScenarioType → ℕ → ChaosRun → ResolvedTarget → Injected
  inject_as ScenarioType.network_partition n run target =
      inject_network n run target run.spec.scenario.network
  inject_as t n run target = refuse run "driver supports \"NetworkPartition\" scenario only"

  -- `Inject`
  unfoldable pub inject : ℕ → ChaosRun → ResolvedTarget → Injected
  unfolding resolve_partition_peers entries base_spec create_policies
  inject n run target = inject_as run.spec.scenario.scenario_type n run target

pub data Deleted : Type 0 where
  deleted not_found : Deleted
  delete_failed : Error → Deleted

-- The listing of a namespace's policies with a label, and the deletion of one by its name.
module _ (list : ℕ → String → String × String → Result (List NetworkPolicy))
    (delete : ℕ → NetworkPolicy → Deleted) where
  abbrev pub after_delete : NetworkPolicy → Deleted → Option Error → Option Error
  after_delete np (Deleted.delete_failed e) rest =
      some ("deleting NetworkPolicy " & quoted np.name & ": " & e)
  after_delete np _ rest = rest

  unfoldable pub delete_all : ℕ → List NetworkPolicy → Option Error
  delete_all n [] = none
  delete_all n (np ∷ nps) = let rest = delete_all (n + 1) nps in after_delete np (delete n np) rest

  abbrev pub forget_policies : ChaosRun → Option Error → ChaosRun × Option Error
  forget_policies run none =
      (record run { status = record (run.status) { network_policies = [] } }, none)
  forget_policies run (some e) = (run, some e)

  abbrev pub delete_listed : ℕ → ChaosRun → Result (List NetworkPolicy) → ChaosRun × Option Error
  delete_listed n run (err e) =
      (run, some ("listing NetworkPolicies for run " & quoted run.name & ": " & e))
  delete_listed n run (ok nps) = forget_policies run (delete_all (n + 1) nps)

  -- `Cleanup`
  unfoldable pub cleanup : ℕ → ChaosRun → ChaosRun × Option Error
  unfolding delete_all
  cleanup n run = delete_listed n run (list n run.namespace ("chaos.flink.io/run-name", run.name))

-- The driver as the controller takes it.
unfoldable pub partition_driver :
    (ℕ → NetworkPolicy → Created)
    → (ℕ → String → String × String → Result (List NetworkPolicy))
    → (ℕ → NetworkPolicy → Deleted)
    → ScenarioDriver
partition_driver create list delete = record {
  inject = λ n run target. let done = inject create n run target in (done.run, done.injection);
  cleanup = some (cleanup list delete);
}

-- ===== src/Scenarios/Policy.antt =====
-- The construction of NetworkPolicy objects (internal/netchaos/policy/builder.go).
use flink_chaos_operator.Prelude.{
  ℤ, pos, String, Option, none, some, List, [], ◌∷◌, ◌&◌, if◌then◌else◌, str_eq, eq_ℤ,
}

-- policy.Spec
pub record Spec : Type 0 where
  pub name : String
  pub namespace : String
  pub chaos_run_name : String
  pub source_labels : List (String × String)
  pub dest_labels : Option (List (String × String))
  pub dest_cidr : String
  pub direction : String
  pub port : ℤ  -- int32

pub data PolicyType : Type 0 where
  ingress egress : PolicyType

pub record IpBlock : Type 0 where
  pub cidr : String
  pub except : List String

-- networkingv1.NetworkPolicyEgressRule with the peers that the builder makes; the TCP ports of the
-- rule are nil where all are meant. The builder makes no ingress rule with a content.
pub record Rule : Type 0 where
  pub ports : Option (List ℤ)
  pub to : List IpBlock

-- networkingv1.NetworkPolicy, by the fields that the builder sets.
pub record NetworkPolicy : Type 0 where
  pub name : String
  pub namespace : String
  pub labels : List (String × String)
  pub pod_selector : List (String × String)
  pub policy_types : List PolicyType
  pub ingress_rules : Option (List Rule)
  pub egress_rules : Option (List Rule)

unfoldable pub build_ports : ℤ → Option (List ℤ)
build_ports port = if eq_ℤ port (pos 0) then none else some (port ∷ [])

-- `Names`: of the ingress and the egress policy.
abbrev pub names : String → String × String
names run_name = (run_name & "-netpol-ingress", run_name & "-netpol-egress")

abbrev policy_with :
    Spec → List PolicyType → Option (List Rule) → Option (List Rule) → NetworkPolicy
policy_with s types inward outward = record {
  name = s.name;
  namespace = s.namespace;
  labels =
      ("chaos.flink.io/run-name", s.chaos_run_name)
      ∷ ("chaos.flink.io/managed-by", "flink-chaos-operator")
      ∷ [];
  pod_selector = s.source_labels;
  policy_types = types;
  ingress_rules = inward;
  egress_rules = outward;
}

-- The rule that allows all addresses but the block.
abbrev all_except : Spec → Rule
all_except s = record {
  ports = build_ports s.port;
  to = record { cidr = "0.0.0.0/0"; except = s.dest_cidr ∷ [] } ∷ [];
}

abbrev build_cidr : Spec → NetworkPolicy
build_cidr s =
    if str_eq s.direction "Ingress"
    then policy_with s (PolicyType.ingress ∷ []) (some []) none
    else if str_eq s.direction "Both"
    then policy_with s (PolicyType.ingress ∷ PolicyType.egress ∷ []) (some [])
        (some (all_except s ∷ []))
    else policy_with s (PolicyType.egress ∷ []) none (some (all_except s ∷ []))

abbrev build_labels : Spec → NetworkPolicy
build_labels s =
    if str_eq s.direction "Egress"
    then policy_with s (PolicyType.egress ∷ []) none (some [])
    else if str_eq s.direction "Ingress"
    then policy_with s (PolicyType.ingress ∷ []) (some []) none
    else policy_with s (PolicyType.ingress ∷ PolicyType.egress ∷ []) (some []) (some [])

unfoldable pub build : Spec → NetworkPolicy
unfolding build_ports
build s = if str_eq s.dest_cidr "" then build_labels s else build_cidr s

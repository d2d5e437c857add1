-- ===== src/Resolvers/Pods.antt =====
-- Eligible pods and their component (internal/podutil/podutil.go).
use flink_chaos_operator.Prelude.{
  String, Bool, true, false, Option, none, some, List, [], ◌∷◌, lookup,
}
use flink_chaos_operator.Api.Types.{Time}

-- corev1.PodPhase, by the two phases that are named.
pub data PodPhase : Type 0 where
  running pending : PodPhase
  other : String → PodPhase

-- The fields of a pod that the resolvers read.
pub record Pod : Type 0 where
  pub name : String
  pub deletion_timestamp : Option Time
  pub phase : PodPhase
  pub labels : List (String × String)

abbrev live_phase : PodPhase → Bool
live_phase PodPhase.running = true
live_phase PodPhase.pending = true
live_phase (PodPhase.other s) = false

abbrev pub eligible_when : Option Time → PodPhase → Bool
eligible_when none phase = live_phase phase
eligible_when (some t) phase = false

unfoldable pub is_pod_eligible : Pod → Bool
is_pod_eligible pod = eligible_when pod.deletion_timestamp pod.phase

abbrev role_keys : List String
role_keys =
    "component" ∷ "app.kubernetes.io/component" ∷ "flink.apache.org/component" ∷ "vvp.io/component"
    ∷ []

-- The value of the first key that is there.
unfoldable pub first_label : List String → List (String × String) → String
first_label [] labels = ""
first_label (key ∷ keys) labels =
    let rest = first_label keys labels in elim (lookup key labels) [ none ↦ rest | some v ↦ v ]

unfoldable pub component_role : List (String × String) → String
unfolding first_label
component_role labels = first_label role_keys labels

-- ===== src/Resolvers/Picks.antt =====
-- What the resolvers look at in a pod, described apart from their code, and the pods that a
-- description takes out of a list (internal/podutil/podutil.go and internal/resolver).
use flink_chaos_operator.Prelude.{
  String, ◌≡◌, refl, sym, ap, subst, ◌↔◌, ◌⊎◌, inl, inr, true, false, Option, none, some, List, [],
  ◌∷◌, arith, str_eq, str_eq_refl, str_eq_sound, lookup, index,
}
use flink_chaos_operator.Api.Types.{Time}
use flink_chaos_operator.Resolvers.Pods.{
  Pod, PodPhase, is_pod_eligible, eligible_when, first_label, component_role,
}

-- The names of exactly the pods that a description takes, in their order.
pub data Picked (P : Pod → Type 0) : List Pod → List String → Type 0 where
  done : Picked P [] []
  picked :
      {pod : Pod} {pods : List Pod} {names : List String}
      → P pod
      → Picked P pods names
      → Picked P (pod ∷ pods) (pod.name ∷ names)
  passed :
      {pod : Pod} {pods : List Pod} {names : List String}
      → ¬ P pod
      → Picked P pods names
      → Picked P (pod ∷ pods) names

-- A pod that is not being deleted, and runs or is to run.
abbrev pub IsEligible : Pod → Type 0
IsEligible pod =
    (pod.deletion_timestamp ≡ none)
    × ((pod.phase ≡ PodPhase.running) ⊎ (pod.phase ≡ PodPhase.pending))

pub is_pod_eligible_iff : (pod : Pod) → (is_pod_eligible pod ≡ true) ↔ IsEligible pod
unfolding is_pod_eligible
is_pod_eligible_iff pod = by pod.deletion_timestamp pod.phase
  where
    by :
        (deleted : Option Time) (phase : PodPhase)
        → (eligible_when deleted phase ≡ true)
          ↔ ((deleted ≡ none) × ((phase ≡ PodPhase.running) ⊎ (phase ≡ PodPhase.pending)))
    by none PodPhase.running = ((λ h. (refl, inl refl)), (λ h. refl))
    by none PodPhase.pending = ((λ h. (refl, inr refl)), (λ h. refl))
    by none (PodPhase.other s) = ((λ h. absurd (ground arith)), (λ h. absurd (ground arith)))
    by (some t) phase = ((λ h. absurd (ground arith)), (λ h. absurd (ground arith)))

-- The first of the keys that the labels have gives the value, and the empty text is for none.
abbrev pub IsFirst : List String → List (String × String) → String → Type 0
IsFirst [] labels v = v ≡ ""
IsFirst (key ∷ keys) labels v =
    (lookup key labels ≡ some v) ⊎ ((lookup key labels ≡ none) × IsFirst keys labels v)

first_label_iff :
    (keys : List String) (labels : List (String × String)) (v : String)
    → (first_label keys labels ≡ v) ↔ IsFirst keys labels v
unfolding first_label
first_label_iff [] labels v = ((λ h. sym h), (λ h. sym h))
first_label_iff (key ∷ keys) labels v = by (lookup key labels) (first_label_iff keys labels v)
  where
    by :
        (found : Option String)
        → (first_label keys labels ≡ v) ↔ IsFirst keys labels v
        → ((elim found [ none ↦ first_label keys labels | some w ↦ w ]) ≡ v)
          ↔ ((found ≡ some v) ⊎ ((found ≡ none) × IsFirst keys labels v))
    by none (to, back) = (
      (λ h. inr (refl, to h)),
      (λ h. elim h [ inl e ↦ absurd (ground arith) | inr r ↦ back r.1 ]),
    )
    by (some w) later = (
      (λ h. inl (ap (λ s. some s) h)),
      (λ h. elim h [ inl e ↦ ground arith | inr r ↦ absurd (ground arith) ]),
    )

-- The labels that name the role of a pod, the first to be asked for first.
abbrev component_keys : List String
component_keys =
    "component" ∷ "app.kubernetes.io/component" ∷ "flink.apache.org/component" ∷ "vvp.io/component"
    ∷ []

-- The role that the labels of a pod give it.
abbrev pub HasRole : List (String × String) → String → Type 0
HasRole labels role = IsFirst component_keys labels role

str_eq_iff : (s t : String) → (str_eq s t ≡ true) ↔ (s ≡ t)
str_eq_iff s t = (str_eq_sound s t, λ e. subst (λ u. str_eq s u ≡ true) e (str_eq_refl s))

pub component_role_iff :
    (labels : List (String × String)) (role : String)
    → (str_eq (component_role labels) role ≡ true) ↔ HasRole labels role
unfolding component_role
component_role_iff labels role =
    let (to, back) = str_eq_iff (component_role labels) role in
    let (first, of_first) = first_label_iff component_keys labels role in
    ((λ h. first (to h)), (λ h. back (of_first h)))

-- The value at a key of the labels, which is the empty text for a missing one.
abbrev pub HasLabel : String → List (String × String) → String → Type 0
HasLabel key labels v = IsFirst (key ∷ []) labels v

pub index_iff :
    (key : String) (labels : List (String × String)) (v : String)
    → (str_eq (index key labels) v ≡ true) ↔ HasLabel key labels v
unfolding index first_label
index_iff key labels v =
    let (to, back) = str_eq_iff (index key labels) v in
    let (first, of_first) = first_label_iff (key ∷ []) labels v in
    ((λ h. first (to h)), (λ h. back (of_first h)))

-- A pod has one role.
pub one_role :
    (labels : List (String × String)) (role other : String)
    → str_eq (component_role labels) role ≡ true
    → str_eq role other ≡ false
    → ¬ HasRole labels other
one_role labels role other is_role differ has =
    let same = str_eq_sound (component_role labels) role is_role in
    let both = subst (λ r. str_eq r other ≡ true) same ((component_role_iff labels other).1 has) in
    absurd cc

-- ===== src/Resolvers/Members.antt =====
-- The pods that are matched to a Ververica deployment (internal/resolver/ververica/resolver.go).
use flink_chaos_operator.Prelude.{
  String, ◌≡◌, refl, subst, ◌⊎◌, inl, inr, Bool, true, false, ◌||◌, List, [], ◌∷◌, arith, All,
  if◌then◌else◌, str_eq, str_eq_refl, str_eq_sound, index, Bool-cases,
}
use flink_chaos_operator.Resolvers.Pods.{Pod, component_role}
use flink_chaos_operator.Resolvers.Picks.{IsEligible, HasRole, component_role_iff}
use flink_chaos_operator.Resolvers.Deployment.{add_by_role}
use flink_chaos_operator.Resolvers.Ververica.{
  any_label, has_id, has_name, has_namespace, matches_target, is_session_mode,
}

-- One of the labels has the value.
abbrev pub Carries : List String → String → List (String × String) → Type 0
Carries [] value labels = ⊥
Carries (key ∷ keys) value labels = (index key labels ≡ value) ⊎ Carries keys value labels

any_label-Carries :
    (first second third value : String) (labels : List (String × String))
    → any_label first second third value labels ≡ true
    → Carries (first ∷ second ∷ third ∷ []) value labels
any_label-Carries first second third value labels h =
    by (str_eq (index first labels) value) refl (str_eq (index second labels) value) refl h
  where
    by :
        (a : Bool)
        → str_eq (index first labels) value ≡ a
        → (b : Bool) → str_eq (index second labels) value ≡ b
        → a || b || str_eq (index third labels) value ≡ true
        → Carries (first ∷ second ∷ third ∷ []) value labels
    by true p b q h = inl (str_eq_sound _ _ p)
    by false p true q h = inr (inl (str_eq_sound _ _ q))
    by false p false q h = inr (inr (inl (str_eq_sound _ _ h)))

-- The pods of a deployment: by its identifier if there is one, or else by its name and, if one is
-- given, the namespace.
abbrev pub Belongs : String → String → String → List (String × String) → Type 0
Belongs id name vvp_namespace labels =
    ((str_eq id "" ≡ false)
      × Carries ("deploymentId" ∷ "flink.apache.org/deployment-id" ∷ "vvp.io/deployment-id" ∷ []) id
          labels)
    ⊎ ((id ≡ "")
        × Carries
            ("deploymentName" ∷ "flink.apache.org/deployment-name" ∷ "vvp.io/deployment-name" ∷ [])
            name labels
        × ((vvp_namespace ≡ "")
            ⊎ Carries ("vvpNamespace" ∷ "flink.apache.org/namespace" ∷ "vvp.io/namespace" ∷ [])
                vvp_namespace labels))

pub matches_target-Belongs :
    (labels : List (String × String)) (id name vvp_namespace : String)
    → matches_target labels id name vvp_namespace ≡ true
    → Belongs id name vvp_namespace labels
unfolding matches_target
matches_target-Belongs labels id name vvp_namespace h =
    by (str_eq id "") refl (has_name name labels) refl (str_eq vvp_namespace "") refl h
  where
    by :
        (no_id : Bool)
        → str_eq id "" ≡ no_id
        → (named : Bool) → has_name name labels ≡ named
        → (anywhere : Bool) → str_eq vvp_namespace "" ≡ anywhere
        → (if no_id
            then if named
              then if anywhere then true else has_namespace vvp_namespace labels
              else false
            else has_id id labels)
          ≡ true
        → Belongs id name vvp_namespace labels
    by false i m p a q h = inl (i, any_label-Carries _ _ _ id labels h)
    by true i true p true q h =
        inr (str_eq_sound _ _ i, any_label-Carries _ _ _ name labels p, inl (str_eq_sound _ _ q))
    by true i true p false q h = inr (
      str_eq_sound _ _ i,
      any_label-Carries _ _ _ name labels p,
      inr (any_label-Carries _ _ _ vvp_namespace labels h),
    )
    by true i false p a q h = absurd (ground arith)

-- One of the labels of the cluster's mode is that of session mode.
abbrev pub SaysSession : List (String × String) → Type 0
SaysSession labels =
    Carries ("flink.apache.org/cluster-mode" ∷ "vvp.io/cluster-mode" ∷ []) "session" labels

pub is_session_mode-SaysSession :
    (labels : List (String × String)) → is_session_mode labels ≡ true → SaysSession labels
unfolding is_session_mode
is_session_mode-SaysSession labels h =
    elim (Bool-cases (str_eq (index "flink.apache.org/cluster-mode" labels) "session")) [
      | inl first ↦ inl (str_eq_sound _ _ first)
      | inr other ↦ inr (inl (str_eq_sound _ _ (second _ _ other h)))
    ]
  where
    second : (a b : Bool) → a ≡ false → a || b ≡ true → b ≡ true
    second a b no_first either = ground arith

pub component_role-HasRole :
    (labels : List (String × String)) (role : String)
    → component_role labels ≡ role
    → HasRole labels role
component_role-HasRole labels role e =
    (component_role_iff labels role).0
      (subst (λ r. str_eq (component_role labels) r ≡ true) e (str_eq_refl (component_role labels)))

-- The names of the eligible pods of a deployment in a role.
abbrev pub IsMemberOf : String → String → String → String → List Pod → String → Type 0
IsMemberOf id name vvp_namespace role [] pod_name = ⊥
IsMemberOf id name vvp_namespace role (pod ∷ pods) pod_name =
    ((pod.name ≡ pod_name)
      × IsEligible pod
      × Belongs id name vvp_namespace pod.labels
      × HasRole pod.labels role)
    ⊎ IsMemberOf id name vvp_namespace role pods pod_name

-- One of the eligible pods of a deployment has a label of session mode.
abbrev pub HasSession : String → String → String → List Pod → Type 0
HasSession id name vvp_namespace [] = ⊥
HasSession id name vvp_namespace (pod ∷ pods) =
    (IsEligible pod × Belongs id name vvp_namespace pod.labels × SaysSession pod.labels)
    ⊎ HasSession id name vvp_namespace pods

pub All-map :
    {P Q : String → Type 0} (names : List String)
    → ((s : String) → P s → Q s)
    → All P names
    → All Q names
All-map [] f h = tt
All-map (name ∷ names) f h = (f name h.0, All-map names f h.1)

pub add_by_role-All :
    (P Q : String → Type 0) (role name : String) (classes : List String × List String)
    → (role ≡ "taskmanager" → P name)
    → (role ≡ "jobmanager" → Q name)
    → All P classes.0
    → All Q classes.1
    → All P (add_by_role role name classes).0 × All Q (add_by_role role name classes).1
add_by_role-All P Q role name (tm, jm) p q hp hq =
    by (str_eq role "taskmanager") refl (str_eq role "jobmanager") refl
  where
    by :
        (task : Bool)
        → str_eq role "taskmanager" ≡ task
        → (job : Bool) → str_eq role "jobmanager" ≡ job
        → let split : List String × List String =
            if task then (name ∷ tm, jm) else if job then (tm, name ∷ jm) else (tm, jm) in
          All P split.0 × All Q split.1
    by true t j r = ((p (str_eq_sound _ _ t), hp), hq)
    by false t true r = (hp, (q (str_eq_sound _ _ r), hq))
    by false t false r = (hp, hq)

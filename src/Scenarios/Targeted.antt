-- ===== src/Scenarios/Targeted.antt =====
-- The pods that the pod kill selects are pods of the target (selectPods, explicitSelect and
-- randomSelect of internal/scenario/tmpodkill/driver.go).
use flink_chaos_operator.Prelude.{
  ℕ, zero, suc, ◌≤◌, ℤ, pos, pos_part, ◌≤ℤ◌, String, true, false, List, [], ◌∷◌, ◌≡◌, refl, subst,
  ap, sym, arith, All, member, length, take, inl, inr, str_eq_refl, Bool-cases, leb_ℤ,
}
use flink_chaos_operator.Api.Types.{SelectionMode, SelectionSpec, ChaosRun}
use flink_chaos_operator.Interfaces.{ok, ResolvedTarget}
use flink_chaos_operator.Scenarios.PodKill.{
  Deletion, Answer, unknown_pods, unless_unknown, explicit_select, random_select, at_least_one,
  select_as, deletion_of, Progress, after_delete,
}

-- A shuffle adds no element and drops none.
pub record IsShuffle (shuffle : List String → List String) : Type 0 where
  pub same_length : (pods : List String) → length (shuffle pods) ≡ length pods
  pub no_new : (pods : List String) → All (λ p. member p pods ≡ true) (shuffle pods)

-- A deletion in the run's namespace of one of the target's TaskManagers.
abbrev pub IsTargeted : ChaosRun → ResolvedTarget → Deletion → Type 0
IsTargeted run target call =
    (call.namespace ≡ run.namespace)
    × (member call.pod target.tm_pod_names ≡ true)
    × (call.grace_period_seconds ≡ run.spec.scenario.action.grace_period_seconds)

All-take : {A : Type 0} (P : A → Type 0) (n : ℕ) (xs : List A) → All P xs → All P (take n xs)
All-take P zero xs h = tt
All-take P (suc n) [] h = tt
All-take P (suc n) (x ∷ xs) h = (h.0, All-take P n xs h.1)

length-take : {A : Type 0} (n : ℕ) (xs : List A) → n ≤ length xs → length (take n xs) ≡ n
length-take zero xs h = refl
length-take (suc n) [] h = omega (arith, h)
length-take (suc n) (x ∷ xs) h = ap suc (length-take n xs (omega (arith, h)))

All-map :
    {A : Type 0} (P Q : A → Type 0) (xs : List A) → ((x : A) → P x → Q x) → All P xs → All Q xs
All-map P Q [] f h = tt
All-map P Q (x ∷ xs) f h = (f x h.0, All-map P Q xs f h.1)

member-cons : (x y : String) (xs : List String) → member x xs ≡ true → member x (y ∷ xs) ≡ true
unfolding member
member-cons x y xs h = ground (arith, h)

-- Every pod of a list is in the list.
pub members_of_self : (pods : List String) → All (λ p. member p pods ≡ true) pods
unfolding member
members_of_self [] = tt
members_of_self (p ∷ ps) = (
  rw (str_eq_refl p) refl,
  All-map (λ x. member x ps ≡ true) (λ x. member x (p ∷ ps) ≡ true) ps (λ x h. member-cons x p ps h)
      (members_of_self ps),
)

-- What an explicit selection lets through is in the target.
unknown_none :
    (requested available : List String)
    → unknown_pods requested available ≡ []
    → All (λ p. member p available ≡ true) requested
unfolding unknown_pods
unknown_none [] available e = tt
unknown_none (p ∷ ps) available e = elim (Bool-cases (member p available)) [
  | inl h ↦ (h, unknown_none ps available (ground arith))
  | inr h ↦ absurd (ground arith)
]

pub count_kept : (count : ℕ) → 1 ≤ count → at_least_one (pos count) ≡ pos count
count_kept count positive = ground arith

explicit-known :
    (unknown requested available selected : List String)
    → unknown ≡ unknown_pods requested available
    → unless_unknown unknown requested ≡ ok selected
    → All (λ p. member p available ≡ true) selected
explicit-known [] requested available selected u e =
    subst (λ s. All (λ p. member p available ≡ true) s) (ground arith)
      (unknown_none requested available (sym u))
explicit-known (p ∷ ps) requested available selected u e = absurd (ground arith)

module _ (shuffle : List String → List String) (shuffles : IsShuffle shuffle) where
  random-known :
      (pods : List String) (count : ℤ)
      → All (λ p. member p pods ≡ true) (random_select shuffle pods count)
  unfolding random_select
  random-known pods count = elim (Bool-cases (leb_ℤ (pos (length pods)) count)) [
    | inl h ↦ rw h (members_of_self pods)
    | inr h ↦ rw h (All-take _ (pos_part count) _ (shuffles.no_new pods))
  ]

  -- At random, one pod or more is selected, as many as the count says and the target has.
  pub length-random :
      (pods : List String) (count : ℤ)
      → pos 1 ≤ℤ count
      → pos (length (random_select shuffle pods count)) ≤ℤ count
  unfolding random_select
  length-random pods count positive = elim (Bool-cases (leb_ℤ (pos (length pods)) count)) [
    | inl h ↦ rw h (ground arith)
    | inr h ↦ rw h (rw (length-take (pos_part count) (shuffle pods) (few h)) (ground arith))
  ]
    where
      few : leb_ℤ (pos (length pods)) count ≡ false → pos_part count ≤ length (shuffle pods)
      few h = rw (shuffles.same_length pods) (ground arith)

  pub select_as-known :
      (m : SelectionMode) (sel : SelectionSpec) (available selected : List String)
      → select_as shuffle m sel available ≡ ok selected
      → All (λ p. member p available ≡ true) selected
  unfolding select_as explicit_select
  select_as-known SelectionMode.explicit sel available selected e =
      explicit-known _ sel.pod_names available selected refl e
  select_as-known m sel available selected e =
      subst (λ s. All (λ p. member p available ≡ true) s) (ground arith)
        (random-known available (at_least_one sel.count))

pub after_delete-IsTargeted :
    (run : ChaosRun) (target : ResolvedTarget) (p : String) (answer : Answer) (rest : Progress)
    → member p target.tm_pod_names ≡ true
    → All (IsTargeted run target) rest.calls
    → All (IsTargeted run target) (after_delete p (deletion_of run p) answer rest).calls
after_delete-IsTargeted run target p (Answer.failed e) rest known h = ((refl, known, refl), tt)
after_delete-IsTargeted run target p _ rest known h = ((refl, known, refl), h)

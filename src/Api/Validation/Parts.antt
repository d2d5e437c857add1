-- ===== src/Api/Validation/Parts.antt =====
-- The checks of the target, the selection, the resource exhaustion and the observation report no error
-- exactly when these are valid (api/v1alpha1/chaosrun_validation.go).
use flink_chaos_operator.Prelude.{
  String, ℤ, pos, ◌≤ℤ◌, ◌<ℤ◌, ◌≡◌, refl, ◌↔◌, Bool, true, false, not, ◌&&◌, Option, none, some,
  List, [], ◌∷◌, ◌++◌, arith, str_eq, if◌then◌else◌, ltb_ℤ,
}
use flink_chaos_operator.Api.Types.{
  TargetType, SelectionMode, ResourceExhaustionMode, LabelSelector, TargetSpec, SelectionSpec,
  ResourceExhaustionSpec, ObserveSpec,
}
use flink_chaos_operator.Api.Validation.{
  ValidationError, when, selector_is_empty, validate_target_as, validate_selection_as,
  validate_exhaustion_as, validate_observe_spec,
}
use flink_chaos_operator.Api.Validation.Valid.{
  IsGiven, SelectorValid, TargetValid, SelectionValid, ExhaustionValid, ObserveValid,
}

-- Error lists that are nil.
pub when-nil : (test : Bool) (e : ValidationError) → (when test e ≡ []) ↔ (test ≡ false)
when-nil test e = (λ p. ground arith, λ p. ground arith)

pub append-nil : (xs ys : List ValidationError) → (xs ++ ys ≡ []) ↔ ((xs ≡ []) × (ys ≡ []))
append-nil [] ys = (λ p. (refl, p), λ p. p.1)
append-nil (x ∷ xs) ys = (λ p. absurd (ground arith), λ p. absurd (ground arith))

pub both-nil :
    {P Q : Type 0} (xs ys : List ValidationError)
    → ((xs ≡ []) ↔ P)
    → ((ys ≡ []) ↔ Q)
    → (xs ++ ys ≡ []) ↔ (P × Q)
both-nil xs ys f g = (
  λ p. let (x, y) = (append-nil xs ys).0 p in (f.0 x, g.0 y),
  λ (a, b). (append-nil xs ys).1 (f.1 a, g.1 b),
)

selector-nil :
    (s : Option LabelSelector)
    → (when (selector_is_empty s) ValidationError.selector_required ≡ []) ↔ SelectorValid s
unfolding selector_is_empty
selector-nil none = (λ p. ground arith, λ p. absurd p)
selector-nil (some s) = (λ p. ground arith, λ p. ground arith)

pub target-nil :
    (type : TargetType) (t : TargetSpec) → (validate_target_as type t ≡ []) ↔ TargetValid type t
unfolding validate_target_as
target-nil TargetType.flink_deployment t = when-nil _ _
target-nil TargetType.ververica_deployment t = (λ p. ground arith, λ p. ground arith)
target-nil TargetType.pod_selector t = selector-nil t.selector
target-nil (TargetType.other s) t = (λ p. ground arith, λ p. absurd p)

pub selection-nil :
    (m : SelectionMode) (sel : SelectionSpec)
    → (validate_selection_as m sel ≡ []) ↔ SelectionValid m sel
unfolding validate_selection_as
selection-nil SelectionMode.explicit sel = when-nil _ _
selection-nil (SelectionMode.other s) sel = (λ p. ground arith, λ p. absurd p)
selection-nil _ sel = (λ p. ground arith, λ p. ground arith)

pub exhaustion-nil :
    (parse_cidr : String → Bool) (m : ResourceExhaustionMode) (re : ResourceExhaustionSpec)
    → (validate_exhaustion_as parse_cidr m re ≡ []) ↔ ExhaustionValid m re
unfolding validate_exhaustion_as
exhaustion-nil parse_cidr ResourceExhaustionMode.cpu re = (λ p. tt, λ p. refl)
exhaustion-nil parse_cidr ResourceExhaustionMode.memory re =
    (λ p. (ground arith, ground arith), λ p. ground arith)
exhaustion-nil parse_cidr (ResourceExhaustionMode.other s) re = (λ p. ground arith, λ p. absurd p)

rest-nil :
    (required enabled : Bool) (endpoint : String)
    → ((if required
          then when (not enabled) ValidationError.rest_not_enabled
            ++ when (str_eq endpoint "") ValidationError.rest_endpoint_required
          else [])
        ≡ [])
      ↔ (required ≡ true → (enabled ≡ true) × IsGiven endpoint)
rest-nil true enabled endpoint = (
  λ p r.
      let (on, given) = (append-nil (when (not enabled) _) _).0 p in
      (ground arith, (when-nil _ _).0 given),
  λ h.
      let (on, given) = h refl in
      (append-nil (when (not enabled) _) _).1 (ground arith, (when-nil _ _).1 given),
)
rest-nil false enabled endpoint = (λ p r. absurd (ground arith), λ h. refl)

poll-nil :
    (timeout poll : ℤ) (e : ValidationError)
    → (when (ltb_ℤ (pos 0) timeout && ltb_ℤ (pos 0) poll && ltb_ℤ timeout poll) e ≡ [])
      ↔ (pos 0 <ℤ timeout → pos 0 <ℤ poll → poll ≤ℤ timeout)
poll-nil timeout poll e = (λ p a b. ground arith, λ h. ground arith)

pub observe-nil : (o : ObserveSpec) → (validate_observe_spec o ≡ []) ↔ ObserveValid o
unfolding validate_observe_spec
observe-nil o =
    let rest =
      rest-nil o.flink_rest.require_stable_checkpoint_before_inject o.flink_rest.enabled
        o.flink_rest.endpoint in
    let poll =
      poll-nil o.timeout o.poll_interval
        (ValidationError.timeout_below_poll_interval o.timeout o.poll_interval) in
    (
      λ p.
          let (r, w) = (append-nil _ _).0 p in
          record { rest_for_checkpoint = rest.0 r; window_of_poll = poll.0 w },
      λ v. (append-nil _ _).1 (rest.1 v.rest_for_checkpoint, poll.1 v.window_of_poll),
    )

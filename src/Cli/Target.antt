-- ===== src/Cli/Target.antt =====
-- The target flags (targetFlagSet and parseSelectorToLabelSelector of cmd/kubectl-fchaos/main.go).
use flink_chaos_operator.Prelude.{
  String, Bool, true, false, ◌&&◌, Option, none, some, List, [], ◌∷◌, ◌&◌, if◌then◌else◌, str_eq,
  quoted,
}
use flink_chaos_operator.Api.Types.{TargetType, LabelSelector, TargetSpec}
use flink_chaos_operator.Interfaces.{Error, Result, ok, err}

-- selection.Operator, by the three that the plugin names.
pub data Operator : Type 0 where
  equals double_equals in_set : Operator
  other : String → Operator

-- labels.Requirement
pub record Requirement : Type 0 where
  pub key : String
  pub operator : Operator
  pub values : List String

-- The answer of `labels.Parse`, with that of `Requirements`.
pub data Parsed : Type 0 where
  parsed : List Requirement → Parsed
  not_selectable : Parsed
  parse_failed : Error → Parsed

-- `m[key] = value`
unfoldable pub insert : String → String → List (String × String) → List (String × String)
insert key value [] = (key, value) ∷ []
insert key value ((k, v) ∷ m) =
    let rest = insert key value m in if str_eq k key then (k, value) ∷ m else (k, v) ∷ rest

abbrev pub is_equality : Operator → Bool
is_equality (Operator.other s) = false
is_equality _ = true

-- A set of one value.
abbrev pub only_value : List String → Option String
only_value (v ∷ []) = some v
only_value _ = none

abbrev pub add_value :
    Bool → String → Option String → List (String × String) → List (String × String)
add_value true key (some v) labels = insert key v labels
add_value _ key _ labels = labels

-- The loop over the requirements: those with an equality and one value are kept.
unfoldable pub match_labels : List Requirement → List (String × String) → List (String × String)
unfolding insert
match_labels [] labels = labels
match_labels (r ∷ rs) labels =
    match_labels rs (add_value (is_equality r.operator) r.key (only_value r.values) labels)

abbrev pub selector_of : String → Parsed → Result LabelSelector
selector_of s (Parsed.parsed rs) =
    ok (record { match_labels = match_labels rs []; match_expressions = [] })
selector_of s Parsed.not_selectable =
    err ("selector " & quoted s & " is not convertible to requirements")
selector_of s (Parsed.parse_failed e) = err ("parse selector " & quoted s & ": " & e)

-- targetFlagSet
pub record TargetFlags : Type 0 where
  pub target_type : String
  pub target_name : String
  pub deployment_name : String
  pub deployment_id : String
  pub vvp_namespace : String
  pub selector : String

abbrev pub empty_target : TargetType → TargetSpec
empty_target t = record {
  target_type = t;
  name = "";
  deployment_id = "";
  deployment_name = "";
  vvp_namespace = "";
  selector = none;
}

-- `labels.Parse` and `strings.ToLower` are arguments.
module _ (parse_labels : String → Parsed) (to_lower : String → String) where
  unfoldable pub parse_selector_to_label_selector : String → Result LabelSelector
  unfolding match_labels
  parse_selector_to_label_selector s = selector_of s (parse_labels s)

  abbrev pub with_selector : Result LabelSelector → Result TargetSpec
  with_selector (ok ls) = ok (record (empty_target TargetType.pod_selector) { selector = some ls })
  with_selector (err e) = err e

  -- The cases of the switch, on the type's text in lower case.
  unfoldable pub build_as : String → TargetFlags → Result TargetSpec
  unfolding parse_selector_to_label_selector
  build_as t tf =
      if str_eq t "flinkdeployment"
      then if str_eq tf.target_name ""
        then err ("--target-name is required for target type " & quoted t)
        else ok (record (empty_target TargetType.flink_deployment) { name = tf.target_name })
      else if str_eq t "ververica"
      then if str_eq tf.deployment_id "" && str_eq tf.deployment_name ""
        then err (
            "at least one of --deployment-id or --deployment-name is required for target type "
            & quoted t)
        else ok (record (empty_target TargetType.ververica_deployment) {
          deployment_id = tf.deployment_id;
          deployment_name = tf.deployment_name;
          vvp_namespace = tf.vvp_namespace;
        })
      else if str_eq t "podselector"
      then if str_eq tf.selector ""
        then err ("--selector is required for target type " & quoted t)
        else with_selector (parse_selector_to_label_selector tf.selector)
      else err (
          "unknown target type "
          & quoted t
          & "; valid values: flinkdeployment, ververica, podselector")

  unfoldable pub build_target : TargetFlags → Result TargetSpec
  unfolding build_as
  build_target tf = build_as (to_lower tf.target_type) tf

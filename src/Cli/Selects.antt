-- ===== src/Cli/Selects.antt =====
-- Which labels the selector of the flag --selector asks for (parseSelectorToLabelSelector of
-- cmd/kubectl-fchaos/main.go).
use flink_chaos_operator.Prelude.{
  String, ◌≡◌, refl, sym, ap, ◌∙◌, subst, ◌↔◌, ◌⊎◌, inl, inr, Bool, true, false, Option, none, some,
  List, [], ◌∷◌, arith, if◌then◌else◌, str_eq, str_eq_refl, str_eq_sound, lookup, Any, Bool-cases,
}
use flink_chaos_operator.Interfaces.{ok}
use flink_chaos_operator.Api.Types.{LabelSelector}
use flink_chaos_operator.Cli.Target.{
  Operator, Requirement, insert, is_equality, only_value, add_value, match_labels, Parsed,
  selector_of, parse_selector_to_label_selector,
}

-- A requirement is an equality, or a set, with one value.
abbrev pub Asks : Requirement → String → Type 0
Asks r v =
    ((r.operator ≡ Operator.equals)
      ⊎ (r.operator ≡ Operator.double_equals)
      ⊎ (r.operator ≡ Operator.in_set))
    × (r.values ≡ v ∷ [])

-- One of the requirements asks for a value of the key.
abbrev pub IsAsked : String → List Requirement → Type 0
IsAsked key rs = Any (λ r. (r.key ≡ key) × ((v : String) × Asks r v)) rs

-- The last of the requirements that ask for a value of the key asks for this one.
abbrev pub AsksLast : String → List Requirement → String → Type 0
AsksLast key [] v = ⊥
AsksLast key (r ∷ rs) v = AsksLast key rs v ⊎ ((¬ IsAsked key rs) × (r.key ≡ key) × Asks r v)

lookup-insert :
    (key k v : String) (m : List (String × String))
    → lookup key (insert k v m) ≡ (if str_eq k key then some v else lookup key m)
unfolding insert lookup
lookup-insert key k v [] = refl
lookup-insert key k v ((k', w) ∷ m) = elim (Bool-cases (str_eq k' k)) [
  | inl same ↦ rw (same, sym (str_eq_sound k' k same)) (by (str_eq k' key))
  | inr differ ↦
      rw (differ, lookup-insert key k v m)
        (elim (Bool-cases (str_eq k' key)) [
          | inl found ↦ rw (found, other differ found) refl
          | inr missed ↦ rw missed refl
        ])
]
  where
    by :
        (b : Bool)
        → (if b then some v else lookup key m)
          ≡ (if b then some v else if b then some w else lookup key m)
    by true = refl
    by false = refl

    other : str_eq k' k ≡ false → str_eq k' key ≡ true → str_eq k key ≡ false
    other differ found = elim (Bool-cases (str_eq k key)) [
      | inl same ↦
          (let k_is = str_eq_sound k key same in
            let k'_is = str_eq_sound k' key found in
            let again = subst (λ t. str_eq k' t ≡ true) (k'_is ∙ sym k_is) (str_eq_refl k') in
            absurd cc)
      | inr missed ↦ missed
    ]

-- What a requirement does to the labels: it sets the value that it asks for, or nothing.
abbrev HasEffect : Requirement → Type 0
HasEffect r =
    ((v : String) × Asks r v
      × ((m : List (String × String))
          → add_value (is_equality r.operator) r.key (only_value r.values) m ≡ insert r.key v m))
    ⊎ ((¬ ((v : String) × Asks r v))
        × ((m : List (String × String))
            → add_value (is_equality r.operator) r.key (only_value r.values) m ≡ m))

effect_of : (r : Requirement) → HasEffect r
effect_of r = by r.operator refl r.values refl
  where
    asked :
        (v : String)
        → (r.operator ≡ Operator.equals)
          ⊎ (r.operator ≡ Operator.double_equals)
          ⊎ (r.operator ≡ Operator.in_set)
        → r.values ≡ v ∷ []
        → is_equality r.operator ≡ true
        → HasEffect r
    asked v o e equality = inl (v, (o, e), λ m. rw (equality, e) refl)

    many : only_value r.values ≡ none → ((v : String) → ¬ (r.values ≡ v ∷ [])) → HasEffect r
    many none_only differ =
        inr (λ a. differ a.0 a.1.1, λ m. rw none_only (nothing (is_equality r.operator) m))
      where
        nothing : (b : Bool) (m : List (String × String)) → add_value b r.key none m ≡ m
        nothing true m = refl
        nothing false m = refl

    by :
        (operator : Operator)
        → r.operator ≡ operator
        → (values : List String) → r.values ≡ values
        → HasEffect r
    by (Operator.other s) o values e = inr (λ a. absurd (ground arith), λ m. rw o refl)
    by operator o [] e = many (rw e refl) (λ v h. absurd (ground arith))
    by operator o (v ∷ w ∷ vs) e = many (rw e refl) (λ v' h. absurd (ground arith))
    by Operator.equals o (v ∷ []) e = asked v (inl o) e (rw o refl)
    by Operator.double_equals o (v ∷ []) e = asked v (inr (inl o)) e (rw o refl)
    by Operator.in_set o (v ∷ []) e = asked v (inr (inr o)) e (rw o refl)

-- The step of the loop, for one key: the requirement asks for a value of it, or it does not.
module _ (key v : String) (r : Requirement) (rs : List Requirement)
    (before after : Option String) where
  abbrev IsLeft : Type 0
  IsLeft = AsksLast key rs v ⊎ ((¬ IsAsked key rs) × (after ≡ some v))

  abbrev WasLeft : Type 0
  WasLeft = AsksLast key (r ∷ rs) v ⊎ ((¬ IsAsked key (r ∷ rs)) × (before ≡ some v))

  asked_here : (w : String) → r.key ≡ key → Asks r w → after ≡ some w → IsLeft ↔ WasLeft
  asked_here w k a e = (
    λ h. elim h [
      | inl last ↦ inl (inl last)
      | inr left ↦ (let w_is : w ≡ v = ground arith in inl (inr (left.0, k, subst (Asks r) w_is a)))
    ],
    λ h. elim h [
      | inl (inl last) ↦ inl last
      | inl (inr here) ↦
          (let values = a.1 in
            let values' = here.2.1 in
            let w_is : w ≡ v = ground arith in inr (here.0, subst (λ u. after ≡ some u) w_is e))
      | inr left ↦ absurd (left.0 (inl (k, (w, a))))
    ],
  )

  not_here : ¬ ((r.key ≡ key) × ((w : String) × Asks r w)) → after ≡ before → IsLeft ↔ WasLeft
  not_here never e = (
    λ h. elim h [
      | inl last ↦ inl (inl last)
      | inr left ↦
          inr (
            λ asked. elim asked [ inl here ↦ never here | inr later ↦ left.0 later ],
            sym e ∙ left.1,
          )
    ],
    λ h. elim h [
      | inl (inl last) ↦ inl last
      | inl (inr here) ↦ absurd (never (here.1, (v, here.2)))
      | inr left ↦ inr (λ later. left.0 (inr later), e ∙ left.1)
    ],
  )

add_value-IsLeft :
    (key v : String) (r : Requirement) (rs : List Requirement) (m : List (String × String))
    → IsLeft key v r rs
        (lookup key m)
        (lookup key (add_value (is_equality r.operator) r.key (only_value r.values) m))
      ↔ WasLeft key v r rs
          (lookup key m)
          (lookup key (add_value (is_equality r.operator) r.key (only_value r.values) m))
add_value-IsLeft key v r rs m = elim (effect_of r) [
  | inl (w, asks, same) ↦ elim (Bool-cases (str_eq r.key key)) [
    | inl k ↦
        asked_here key v r rs _ _ w (str_eq_sound r.key key k) asks
          (ap (lookup key) (same m) ∙ lookup-insert key r.key w m ∙ rw k refl)
    | inr k ↦
        not_here key v r rs _ _
          (λ h.
            absurd (let again = subst (λ t. str_eq r.key t ≡ true) h.0 (str_eq_refl r.key) in cc))
          (ap (lookup key) (same m) ∙ lookup-insert key r.key w m ∙ rw k refl)
  ]
  | inr (never, same) ↦ not_here key v r rs _ _ (λ h. never h.1) (ap (lookup key) (same m))
]

match_labels-AsksLast :
    (key v : String) (rs : List Requirement) (m : List (String × String))
    → (lookup key (match_labels rs m) ≡ some v)
      ↔ (AsksLast key rs v ⊎ ((¬ IsAsked key rs) × (lookup key m ≡ some v)))
unfolding match_labels
match_labels-AsksLast key v [] m =
    ((λ h. inr ((λ asked. asked), h)), (λ h. elim h [ inl last ↦ absurd last | inr e ↦ e.1 ]))
match_labels-AsksLast key v (r ∷ rs) m =
    let added = add_value (is_equality r.operator) r.key (only_value r.values) m in
    let (to, back) = match_labels-AsksLast key v rs added in
    let (on, off) = add_value-IsLeft key v r rs m in ((λ h. on (to h)), (λ h. back (off h)))

-- The selector that a text is turned into has no expressions, and asks for a value of a label
-- exactly if the text is parsed into requirements of which the last with one value of the label,
-- as an equality or a set, is for this value: any other requirement, such as one that excludes a
-- value, and any earlier one on the label is dropped.
pub parse_selector-takes :
    (parse_labels : String → Parsed) (to_lower : String → String) (text : String)
    (rs : List Requirement)
    → parse_labels text ≡ Parsed.parsed rs
    → (made : LabelSelector) × (parse_selector_to_label_selector parse_labels to_lower text
        ≡ ok made)
      × (made.match_expressions ≡ [])
      × ((key v : String) → (lookup key made.match_labels ≡ some v) ↔ AsksLast key rs v)
unfolding parse_selector_to_label_selector lookup
parse_selector-takes parse_labels to_lower text rs parsed = (
  record { match_labels = match_labels rs []; match_expressions = [] },
  ap (selector_of text) parsed,
  refl,
  λ key v.
      let (to, back) = match_labels-AsksLast key v rs [] in
      (
        λ h. elim (to h) [ inl last ↦ last | inr e ↦ absurd (ground arith) ],
        λ last. back (inl last),
      ),
)

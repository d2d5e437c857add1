-- ===== src/Scenarios/Scripts.antt =====
-- When the script of a NetworkChaos container can be built: the validation of
-- api/v1alpha1/chaosrun_validation.go, buildRule of internal/scenario/networkchaos/driver.go and
-- EntrypointScript of internal/netchaos/tc/builder.go together.
use flink_chaos_operator.Prelude.{
  ℕ, ◌≤◌, ◌<◌, String, ◌≡◌, refl, sym, ap, ◌∙◌, subst, ◌↔◌, ◌⊎◌, inl, inr, Bool, true, false, ◌&&◌,
  Option, none, some, List, [], ◌∷◌, ◌++◌, if◌then◌else◌, str_eq, str_eq_sound, arith, Bool-cases,
  codes, All,
}
use flink_chaos_operator.Api.Types.{
  Duration, ScenarioType, ExternalTarget, NetworkChaosSpec, ChaosRun,
}
use flink_chaos_operator.Api.Bandwidth.{IsDigit, IsLetter, IsUnit, unit, IsRate}
use flink_chaos_operator.Api.Validation.{validate, needs_external_endpoint}
use flink_chaos_operator.Api.Validation.Valid.{
  IsGiven, EndpointValid, NetworkValid, NetworkOptValid, ScenarioValid,
}
use flink_chaos_operator.Api.Validation.Decides.{validate-IsValid}
use flink_chaos_operator.Scenarios.NetworkChaos.{cidr_of, build_rule}
use flink_chaos_operator.Scenarios.Tc.{is_safe_code, all_safe, is_shell_safe, entrypoint_script}

abbrev pub IsAscii : String → Type 0
IsAscii s = All (λ c. c < 128) (codes s)

all_safe-append :
    (xs ys : List ℕ) → all_safe xs ≡ true → all_safe ys ≡ true → all_safe (xs ++ ys) ≡ true
all_safe-append [] ys h k = k
all_safe-append (x ∷ xs) ys h k = ground (arith, all_safe-append xs ys)

safe_digits : (ds : List ℕ) → All IsDigit ds → all_safe ds ≡ true
safe_digits [] h = refl
safe_digits (d ∷ ds) h = ground (arith, safe_digits ds)

safe_letter : (l c : ℕ) → b'a' ≤ l → l ≤ b'z' → c < 128 → IsLetter l c → is_safe_code c ≡ true
safe_letter l c lo hi few h = ground arith

first_letter : (l : ℕ) → (l ≡ b'k') ⊎ (l ≡ b'm') ⊎ (l ≡ b'g') ⊎ (l ≡ b't') → (b'a' ≤ l) × (l ≤ b'z')
first_letter l h = ground arith

safe_unit : {u : List ℕ} → IsUnit u → All (λ c. c < 128) u → all_safe u ≡ true
safe_unit (unit {l} {p} {b} {i} {t} one is_p is_b is_i is_t) (few_p, (few_b, (few_i, (few_t, _)))) =
    let (lo, hi) = first_letter l one in
    let p' = safe_letter l p lo hi few_p is_p in
    let b' = safe_letter b'b' b (omega arith) (omega arith) few_b is_b in
    let i' = safe_letter b'i' i (omega arith) (omega arith) few_i is_i in
    let t' = safe_letter b't' t (omega arith) (omega arith) few_t is_t in
    ground (arith, p', b', i', t')

All-drop : (P : ℕ → Type 0) (xs ys : List ℕ) → All P (xs ++ ys) → All P ys
All-drop P [] ys h = h
All-drop P (x ∷ xs) ys h = All-drop P xs ys h.1

-- A bandwidth rate in ASCII has nothing that a shell would read.
safe_rate : (cs : List ℕ) → IsRate cs → All (λ c. c < 128) cs → all_safe cs ≡ true
safe_rate cs (c, rest, lo, hi, (ds, u, digits, is_u, e), split) few =
    let all = split ∙ ap (λ r. c ∷ r) e in
    let few' = subst (All (λ c. c < 128)) all few in
    let tail =
      all_safe-append ds u (safe_digits ds digits)
        (safe_unit is_u (All-drop (λ c. c < 128) ds u few'.1)) in
    subst (λ cs. all_safe cs ≡ true) (sym all) (ground arith)

-- The block of an endpoint that the validation looks at.
safe_endpoint :
    (parse_cidr : String → Bool)
    → ((s : String) → parse_cidr s ≡ true → is_shell_safe s ≡ true)
    → (endpoint : Option ExternalTarget) → EndpointValid parse_cidr false endpoint
    → is_shell_safe (cidr_of endpoint) ≡ true
unfolding is_shell_safe
safe_endpoint parse_cidr safe none v = absurd v
safe_endpoint parse_cidr safe (some e) v = elim (Bool-cases (str_eq e.cidr "")) [
  | inl empty ↦ ap (λ s. is_shell_safe s) (str_eq_sound e.cidr "" empty)
  | inr given ↦ safe e.cidr (v.1 given)
]

safe_bandwidth :
    (bandwidth : String)
    → (IsGiven bandwidth → IsRate (codes bandwidth))
    → IsAscii bandwidth
    → is_shell_safe bandwidth ≡ true
unfolding is_shell_safe
safe_bandwidth bandwidth rate ascii = elim (Bool-cases (str_eq bandwidth "")) [
  | inl empty ↦ ap (λ s. is_shell_safe s) (str_eq_sound bandwidth "" empty)
  | inr given ↦ safe_rate (codes bandwidth) (rate given) ascii
]

safe_codes-IsAscii : (cs : List ℕ) → all_safe cs ≡ true → All (λ c. c < 128) cs
safe_codes-IsAscii [] h = tt
safe_codes-IsAscii (c ∷ cs) h =
    (safe_code_below c (ground arith), safe_codes-IsAscii cs (ground arith))
  where
    safe_code_below : (c : ℕ) → is_safe_code c ≡ true → c < 128
    safe_code_below c h = ground arith

safe-IsAscii : (s : String) → is_shell_safe s ≡ true → IsAscii s
unfolding is_shell_safe
safe-IsAscii s h = safe_codes-IsAscii (codes s) h

-- A bandwidth rate is safe in a shell exactly if it is in ASCII.
unsafe_bandwidth :
    (bandwidth : String)
    → (IsGiven bandwidth → IsRate (codes bandwidth))
    → (is_shell_safe bandwidth ≡ false) ↔ (¬ IsAscii bandwidth)
unsafe_bandwidth bandwidth rate = elim (Bool-cases (is_shell_safe bandwidth)) [
  | inl safe ↦ ((λ unsafe. absurd cc), (λ foreign. absurd (foreign (safe-IsAscii bandwidth safe))))
  | inr unsafe ↦
      ((λ _ ascii. let safe = safe_bandwidth bandwidth rate ascii in absurd cc), (λ _. unsafe))
]

none_if :
    (a b c : Bool) (script : String)
    → a ≡ true
    → ((if a && b && c then some script else none) ≡ none) ↔ ((c ≡ false) ⊎ (b ≡ false))
none_if a true true script is_a = ((λ h. absurd (ground arith)), (λ h. absurd (ground arith)))
none_if a true false script is_a = ((λ h. inl refl), (λ h. ground arith))
none_if a false c script is_a = ((λ h. inr refl), (λ h. ground arith))

script_panics :
    (n : NetworkChaosSpec) (duration : Duration)
    → (entrypoint_script (build_rule n) duration ≡ none) ↔ (
        (is_shell_safe (cidr_of n.external_endpoint) ≡ false) ⊎ (is_shell_safe n.bandwidth ≡ false))
unfolding entrypoint_script build_rule
script_panics n duration = none_if _ _ _ _ refl

-- The values that the validation lets through although they are not safe in a shell: a block that
-- it does not look at, as the target needs no endpoint, and a bandwidth with a foreign character.
abbrev pub SlipsThrough : NetworkChaosSpec → Type 0
SlipsThrough n =
    ((needs_external_endpoint n.target ≡ false)
      × (is_shell_safe (cidr_of n.external_endpoint) ≡ false))
    ⊎ (¬ IsAscii n.bandwidth)

module _ (parse_cidr : String → Bool)
    (safe : (s : String) → parse_cidr s ≡ true → is_shell_safe s ≡ true) where
  unsafe_block :
      (n : NetworkChaosSpec)
      → NetworkValid parse_cidr false n
      → is_shell_safe (cidr_of n.external_endpoint) ≡ false
      → needs_external_endpoint n.target ≡ false
  unsafe_block n v unsafe = elim (Bool-cases (needs_external_endpoint n.target)) [
    | inl needs ↦
        (let checked = safe_endpoint parse_cidr safe n.external_endpoint (v.endpoint needs) in
          absurd cc)
    | inr unchecked ↦ unchecked
  ]

  valid_script :
      (n : NetworkChaosSpec) (duration : Duration)
      → NetworkValid parse_cidr false n
      → (entrypoint_script (build_rule n) duration ≡ none) ↔ SlipsThrough n
  valid_script n duration v =
      let (to, back) = script_panics n duration in
      let (foreign, unsafe) = unsafe_bandwidth n.bandwidth v.rate in
      (
        λ none_built. elim (to none_built) [
          | inl block ↦ inl (unsafe_block n v block, block)
          | inr bandwidth ↦ inr (foreign bandwidth)
        ],
        λ h. elim h [ inl block ↦ back (inl block.1) | inr f ↦ back (inr (unsafe f)) ],
      )

  -- The script of a NetworkChaos run that the validation has passed can not be built exactly where
  -- its target needs no endpoint, so that the validation does not look at the one that is given,
  -- and its address block has a character that is not safe in a shell, or where its bandwidth is
  -- not in ASCII. It holds where all that net.ParseCIDR takes is safe in a shell.
  pub validated_script :
      (run : ChaosRun) (n : NetworkChaosSpec) (duration : Duration)
      → validate parse_cidr run ≡ []
      → run.spec.scenario.scenario_type ≡ ScenarioType.network_chaos
      → run.spec.scenario.network ≡ some n
      → (entrypoint_script (build_rule n) duration ≡ none) ↔ SlipsThrough n
  validated_script run n duration passed chaos network =
      let scenario = ((validate-IsValid parse_cidr run).0 passed).scenario_valid in
      let of_chaos = subst (λ t. ScenarioValid parse_cidr t run.spec.scenario) chaos scenario in
      valid_script n duration (subst (NetworkOptValid parse_cidr false) network of_chaos)

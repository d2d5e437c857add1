-- ===== src/Scenarios/Lasting.antt =====
-- How long an injection lasts (resolveDuration of internal/scenario/networkchaos/driver.go and of
-- internal/scenario/resourceexhaustion/driver.go), described apart from the code.
use flink_chaos_operator.Prelude.{
  pos, ◌≤ℤ◌, ◌<ℤ◌, ltb_ℤ, leb_ℤ, ◌≡◌, refl, sym, subst, ap, ◌↔◌, ◌⊎◌, inl, inr, Bool, true, false,
  Option, none, some, arith, if◌then◌else◌, Bool-cases,
}
use flink_chaos_operator.Api.Types.{Duration, NetworkChaosSpec, ResourceExhaustionSpec}
use flink_chaos_operator.Scenarios.NetworkChaos.{positive_or_default, resolve_duration}
use flink_chaos_operator.Scenarios.ResourceExhaustion.{resolve_stress_duration}

abbrev minute : Duration
minute = pos 60000000000

-- The duration that is asked for, if it is positive, and a minute if none is.
abbrev pub Lasts : Option Duration → Duration → Type 0
Lasts asked d =
    ((asked ≡ some d) × (pos 0 <ℤ d))
    ⊎ ((d ≡ minute) × ((a : Duration) → asked ≡ some a → a ≤ℤ pos 0))

abbrev pub ChaosLasts : Option NetworkChaosSpec → Duration → Type 0
ChaosLasts none d = d ≡ minute
ChaosLasts (some n) d = Lasts n.duration d

abbrev pub StressLasts : Option ResourceExhaustionSpec → Duration → Type 0
StressLasts none d = d ≡ minute
StressLasts (some re) d = Lasts re.duration d

some_iff :
    (a d : Duration) (positive : Bool)
    → (positive ≡ true) ↔ (pos 0 <ℤ a)
    → ((if positive then a else minute) ≡ d) ↔ Lasts (some a) d
some_iff a d true p = (
  (λ h. inl (ap (λ t. some t) h, subst (λ t. pos 0 <ℤ t) h (p.0 refl))),
  (λ h. elim h [
    | inl asked ↦ (let e = asked.0 in ground arith)
    | inr none_asked ↦
        absurd (let no = none_asked.1 a refl in let yes = p.0 refl in omega (arith, no, yes))
  ]),
)
some_iff a d false p = (
  (λ h. inr (sym h, λ a' e. subst (λ t. t ≤ℤ pos 0) (same a' e) (not_positive p))),
  (λ h. elim h [
    | inl asked ↦
        absurd
          (let wrong = p.1 (subst (λ t. pos 0 <ℤ t) (sym (same d asked.0)) asked.1) in ground arith)
    | inr none_asked ↦ sym none_asked.0
  ]),
)
  where
    same : (t : Duration) → some a ≡ some t → a ≡ t
    same t e = ground arith

    not_positive : (false ≡ true) ↔ (pos 0 <ℤ a) → a ≤ℤ pos 0
    not_positive p = elim (Bool-cases (leb_ℤ a (pos 0))) [
      | inl most ↦ ground arith
      | inr more ↦ absurd (let wrong = p.1 (ground arith) in ground arith)
    ]

positive_or_default_iff :
    (asked : Option Duration) (d : Duration) → (positive_or_default asked ≡ d) ↔ Lasts asked d
positive_or_default_iff none d = (
  (λ h. inr (sym h, λ a e. absurd (ground arith))),
  (λ h. elim h [ inl one ↦ absurd (let e = one.0 in ground arith) | inr two ↦ sym two.0 ]),
)
positive_or_default_iff (some a) d =
    some_iff a d (ltb_ℤ (pos 0) a) (λ h. ground arith, λ h. ground arith)

pub resolve_duration_iff :
    (network : Option NetworkChaosSpec) (d : Duration)
    → (resolve_duration network ≡ d) ↔ ChaosLasts network d
unfolding resolve_duration
resolve_duration_iff none d = ((λ h. sym h), (λ h. sym h))
resolve_duration_iff (some n) d = positive_or_default_iff n.duration d

pub resolve_stress_duration_iff :
    (exhaustion : Option ResourceExhaustionSpec) (d : Duration)
    → (resolve_stress_duration exhaustion ≡ d) ↔ StressLasts exhaustion d
unfolding resolve_stress_duration
resolve_stress_duration_iff none d = ((λ h. sym h), (λ h. sym h))
resolve_stress_duration_iff (some re) d = positive_or_default_iff re.duration d

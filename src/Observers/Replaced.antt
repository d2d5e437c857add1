-- ===== src/Observers/Replaced.antt =====
-- What an answer of the Kubernetes observer means (internal/observer/kubernetes/observer.go).
use flink_chaos_operator.Prelude.{
  ℕ, ◌+◌, ◌-ℤ◌, -ℤ_parts, pos, String, Bool, true, false, some, List, [], ◌∷◌, ◌≡◌, refl, ◌↔◌, inl,
  inr, ◌≢◌, arith, All, member, length, leb_ℤ, Bool-cases,
}
use flink_chaos_operator.Api.Types.{ChaosRun}
use flink_chaos_operator.Interfaces.{Result, ok, err, ResolvedTarget, ObservationResult}
use flink_chaos_operator.Observers.Kubernetes.{
  PodView, pod_ready, any_present, replacements_seen, after_get, all_pods_ready, with_readiness,
  observe_live, observe as observe_pods,
}

abbrev IsGone : List String → String → Type 0
IsGone live p = member p live ≡ false

any_present-false :
    (injected live : List String) → any_present injected live ≡ false → All (IsGone live) injected
unfolding any_present
any_present-false [] live e = tt
any_present-false (p ∷ ps) live e = (ground arith, any_present-false ps live (ground arith))

any_present-gone :
    (injected live : List String) → All (IsGone live) injected → any_present injected live ≡ false
unfolding any_present
any_present-gone [] live h = refl
any_present-gone (p ∷ ps) live h = rw (h.0) (any_present-gone ps live h.1)

-- The comparison of the counts holds of itself.
counts_agree : (live injected : ℕ) → leb_ℤ (pos (live + injected) -ℤ pos injected) (pos live) ≡ true
counts_agree live injected =
    let parts = -ℤ_parts (pos (live + injected)) (pos injected) in ground (arith, parts)

-- Replacements count as observed exactly when none of the injected pods is live any more: the
-- number of live pods never matters, and no new pod has to appear.
pub replacements_seen_iff :
    (injected live : List String)
    → (replacements_seen injected live ≡ true) ↔ All (λ p. member p live ≡ false) injected
unfolding replacements_seen
replacements_seen_iff [] live = (λ e. tt, λ h. refl)
replacements_seen_iff (p ∷ ps) live = (
  λ e. any_present-false (p ∷ ps) live (ground arith),
  λ h. rw (any_present-gone (p ∷ ps) live h) (counts_agree (length live) (length (p ∷ ps))),
)

module _ (get_pod : ℕ → String → String → Result PodView) where
  -- The API server has answered at some moment that the pod is ready.
  abbrev pub IsReady : String → String → Type 0
  IsReady namespace name =
      (n : ℕ) × (pod : PodView) × (get_pod n namespace name ≡ ok pod) × (pod_ready pod ≡ true)

  all_pods_ready-IsReady :
      (n : ℕ) (namespace : String) (names : List String)
      → all_pods_ready get_pod n namespace names ≡ ok true
      → All (IsReady namespace) names
  unfolding all_pods_ready
  all_pods_ready-IsReady n namespace [] e = tt
  all_pods_ready-IsReady n namespace (name ∷ names) e =
      by (get_pod n namespace name) refl e (all_pods_ready-IsReady (n + 1) namespace names)
    where
      by :
          (answer : Result PodView)
          → get_pod n namespace name ≡ answer
          → after_get get_pod name answer (all_pods_ready get_pod (n + 1) namespace names) ≡ ok true
          → (all_pods_ready get_pod (n + 1) namespace names ≡ ok true
              → All (IsReady namespace) names)
          → All (IsReady namespace) (name ∷ names)
      by (err x) g e k = absurd (ground arith)
      by (ok pod) g e k = elim (Bool-cases (pod_ready pod)) [
        | inl r ↦ ((n, pod, g, r), k (ground arith))
        | inr r ↦ absurd (ground arith)
      ]

  -- Live TaskManagers with all replacements ready: there is one, no injected pod is among them,
  -- and each is ready.
  pub record HasRecovered (run : ChaosRun) (live : List String) : Type 0 where
    pub some_live : live ≢ []
    pub injected_gone : All (λ p. member p live ≡ false) run.status.injected_pods
    pub live_ready : All (IsReady run.namespace) live

  with_readiness-ready :
      (run : ChaosRun) (live : List String) (answer : Result Bool) (r : ObservationResult)
      → with_readiness get_pod run live answer ≡ ok r
      → r.all_replacements_ready ≡ true
      → answer ≡ ok true
  with_readiness-ready run live (err x) r e ready = absurd (ground arith)
  with_readiness-ready run live (ok b) r e ready = ground arith

  live-recovered :
      (n : ℕ) (run : ChaosRun) (live : List String) (r : ObservationResult)
      → observe_live get_pod n run live ≡ ok r
      → r.all_replacements_ready ≡ true
      → HasRecovered run live
  live-recovered n run [] r e ready = absurd (ground arith)
  live-recovered n run (p ∷ ps) r e ready =
      elim (Bool-cases (replacements_seen run.status.injected_pods (p ∷ ps))) [
        | inl seen ↦ record {
          some_live = λ q. ground arith;
          injected_gone = (replacements_seen_iff run.status.injected_pods (p ∷ ps)).0 seen;
          live_ready = all_pods_ready-IsReady n run.namespace (p ∷ ps) (
              with_readiness-ready run (p ∷ ps) (all_pods_ready get_pod n run.namespace (p ∷ ps)) r
                (ground (arith)) ready);
        }
        | inr unseen ↦ absurd (ground arith)
      ]

  -- If the Kubernetes observer reports all replacements ready, the target has a TaskManager, none
  -- of the injected pods is one of its TaskManagers, and the API server has answered that each of
  -- its TaskManagers is ready.
  pub observe_pods-ready :
      (n : ℕ) (run : ChaosRun) (target : ResolvedTarget) (r : ObservationResult)
      → observe_pods get_pod n run (some target) ≡ ok r
      → r.all_replacements_ready ≡ true
      → HasRecovered run target.tm_pod_names
  unfolding observe_pods
  observe_pods-ready n run target r e ready = live-recovered n run target.tm_pod_names r e ready

-- ===== src/Scenarios/Injections.antt =====
-- What the drivers that add ephemeral containers record and clean up
-- (internal/scenario/networkchaos/driver.go, internal/scenario/resourceexhaustion/driver.go).
use flink_chaos_operator.Prelude.{
  ℕ, ◌+◌, ◌-ℤ◌, ◌≤ℤ◌, String, ◌≡◌, refl, sym, subst, ◌⊎◌, inl, inr, Bool, true, false, Option, none,
  some, List, [], ◌∷◌, arith, All, if◌then◌else◌, Bool-cases,
}
use flink_chaos_operator.Api.Types.{Duration, Time, EphemeralContainerRecord, ChaosRun}
use flink_chaos_operator.Interfaces.{Error}
use flink_chaos_operator.Scenarios.Ephemeral.{
  Cluster, PodStatus, PodAnswer, has_terminated, mark, has_elapsed, check_pod, after_fetch,
  clean_records,
}
use flink_chaos_operator.Scenarios.Lasting.{ChaosLasts, resolve_duration_iff}
use flink_chaos_operator.Scenarios.NetworkChaos.{resolve_duration, cleanup}

module _ (cluster : Cluster) where
  -- Why a record may be marked: the pod is gone, its container has terminated, or the duration
  -- has passed by some reading of the clock.
  abbrev pub HasEnded : Duration → String → EphemeralContainerRecord → Type 0
  HasEnded duration namespace rec =
      ((n : ℕ) × (cluster.get_pod n namespace rec.pod_name ≡ PodAnswer.missing))
      ⊎ ((n : ℕ) × (status : PodStatus) × (cluster.get_pod n namespace rec.pod_name
            ≡ PodAnswer.pod status)
          × (has_terminated rec.container_name status ≡ true))
      ⊎ ((n : ℕ) × (at : Time) × (rec.injected_at ≡ some at) × (duration ≤ℤ cluster.now n -ℤ at))

  -- A record is left alone, or marked for a reason.
  abbrev pub IsCleanedFrom :
      Duration → String → EphemeralContainerRecord → EphemeralContainerRecord → Type 0
  IsCleanedFrom duration namespace rec rec' =
      (rec' ≡ rec) ⊎ ((rec' ≡ record rec { cleaned_up = true }) × HasEnded duration namespace rec)

  -- The records pair by pair.
  abbrev pub AllCleanedFrom :
      Duration → String → List EphemeralContainerRecord → List EphemeralContainerRecord → Type 0
  AllCleanedFrom duration namespace [] [] = Unit
  AllCleanedFrom duration namespace (rec ∷ recs) (rec' ∷ recs') =
      IsCleanedFrom duration namespace rec rec' × AllCleanedFrom duration namespace recs recs'
  AllCleanedFrom duration namespace _ _ = ⊥

  unchanged :
      (duration : Duration) (namespace : String) (recs : List EphemeralContainerRecord)
      → AllCleanedFrom duration namespace recs recs
  unchanged duration namespace [] = tt
  unchanged duration namespace (rec ∷ recs) = (inl refl, unchanged duration namespace recs)

  elapsed_at :
      (duration : Duration) (now : Time) (at : Option Time)
      → has_elapsed cluster duration now at ≡ true
      → (t : Time) × (at ≡ some t) × (duration ≤ℤ now -ℤ t)
  elapsed_at duration now none e = absurd (ground arith)
  elapsed_at duration now (some t) e = (t, refl, ground arith)

  check_pod-cleaned :
      (duration : Duration) (namespace : String) (n m : ℕ) (rec : EphemeralContainerRecord)
      (status : PodStatus)
      → cluster.get_pod n namespace rec.pod_name ≡ PodAnswer.pod status
      → IsCleanedFrom duration namespace rec (check_pod cluster duration (cluster.now m) rec status)
  check_pod-cleaned duration namespace n m rec status g =
      elim (Bool-cases (has_terminated rec.container_name status)) [
        | inl t ↦ rw t (inr (refl, inr (inl (n, status, g, t))))
        | inr t ↦
            rw t (elim (Bool-cases (has_elapsed cluster duration (cluster.now m) rec.injected_at)) [
              | inl e ↦
                  (let (at, s, d) = elapsed_at duration (cluster.now m) rec.injected_at e in
                    rw e (inr (refl, inr (inr (m, at, s, d)))))
              | inr e ↦ rw e (inl refl)
            ])
      ]

  after_fetch-cleaned :
      (duration : Duration) (namespace : String) (n m : ℕ) (rec : EphemeralContainerRecord)
      (recs : List EphemeralContainerRecord) (answer : PodAnswer)
      (rest : List EphemeralContainerRecord × Option Error)
      → cluster.get_pod n namespace rec.pod_name ≡ answer
      → AllCleanedFrom duration namespace recs rest.0
      → AllCleanedFrom duration namespace
          (rec ∷ recs)
          (after_fetch cluster duration (cluster.now m) rec recs answer rest).0
  after_fetch-cleaned duration namespace n m rec recs PodAnswer.missing rest g h =
      (inr (refl, inl (n, g)), h)
  after_fetch-cleaned duration namespace n m rec recs (PodAnswer.get_failed x) rest g h =
      (inl refl, unchanged duration namespace recs)
  after_fetch-cleaned duration namespace n m rec recs (PodAnswer.pod status) rest g h =
      (check_pod-cleaned duration namespace n m rec status g, h)

  pub clean_records-cleaned :
      (duration : Duration) (n : ℕ) (namespace : String) (recs : List EphemeralContainerRecord)
      → AllCleanedFrom duration namespace recs (clean_records cluster duration n namespace recs).0
  unfolding clean_records
  clean_records-cleaned duration n namespace [] = tt
  clean_records-cleaned duration n namespace (rec ∷ recs) =
      by rec.cleaned_up (clean_records-cleaned duration (n + 2) namespace recs)
    where
      by :
          (cleaned : Bool)
          → AllCleanedFrom duration namespace recs
              (clean_records cluster duration (n + 2) namespace recs).0
          → let rest = clean_records cluster duration (n + 2) namespace recs in
            AllCleanedFrom duration namespace
              (rec ∷ recs)
              (if cleaned
                then (rec ∷ rest.0, rest.1)
                else after_fetch cluster duration
                    (cluster.now (n + 1))
                    rec
                    recs
                    (cluster.get_pod n namespace rec.pod_name)
                    rest).0
      by true h = (inl refl, h)
      by false h =
          after_fetch-cleaned duration namespace n (n + 1) rec recs
            (cluster.get_pod n namespace rec.pod_name) _ refl h

  -- Every record is late: it has a time, and the duration has passed since by each reading of the
  -- clock.
  abbrev pub AllLate : Duration → List EphemeralContainerRecord → Type 0
  AllLate duration recs =
      All
        (λ rec.
          (at : Time) × (rec.injected_at ≡ some at) × ((n : ℕ) → duration ≤ℤ cluster.now n -ℤ at))
        recs

  late-has_elapsed :
      (duration : Duration) (m : ℕ) (injected_at : Option Time) (at : Time)
      → injected_at ≡ some at
      → duration ≤ℤ cluster.now m -ℤ at
      → has_elapsed cluster duration (cluster.now m) injected_at ≡ true
  late-has_elapsed duration m injected_at at e passed =
      subst (λ t. has_elapsed cluster duration (cluster.now m) t ≡ true) (sym e) (ground arith)

  after_fetch-marked :
      (duration : Duration) (m : ℕ) (rec : EphemeralContainerRecord)
      (recs : List EphemeralContainerRecord) (answer : PodAnswer)
      (rest : List EphemeralContainerRecord × Option Error)
      → has_elapsed cluster duration (cluster.now m) rec.injected_at ≡ true
      → (rest.1 ≡ none → All (λ r. r.cleaned_up ≡ true) rest.0)
      → (after_fetch cluster duration (cluster.now m) rec recs answer rest).1 ≡ none
      → All
          (λ r. r.cleaned_up ≡ true)
          (after_fetch cluster duration (cluster.now m) rec recs answer rest).0
  after_fetch-marked duration m rec recs PodAnswer.missing rest late h e = (refl, h e)
  after_fetch-marked duration m rec recs (PodAnswer.get_failed x) rest late h e =
      absurd (ground arith)
  after_fetch-marked duration m rec recs (PodAnswer.pod status) rest late h e =
      (marked (has_terminated rec.container_name status), h e)
    where
      marked :
          (terminated : Bool)
          → (if terminated
              then mark cluster rec
              else if has_elapsed cluster duration (cluster.now m) rec.injected_at
              then mark cluster rec
              else rec).cleaned_up
            ≡ true
      marked true = refl
      marked false = rw late refl

  pub clean_records-marked :
      (duration : Duration) (n : ℕ) (namespace : String) (recs : List EphemeralContainerRecord)
      → AllLate duration recs
      → (clean_records cluster duration n namespace recs).1 ≡ none
      → All (λ r. r.cleaned_up ≡ true) (clean_records cluster duration n namespace recs).0
  unfolding clean_records
  clean_records-marked duration n namespace [] late e = tt
  clean_records-marked duration n namespace (rec ∷ recs) late e =
      by rec.cleaned_up refl (clean_records-marked duration (n + 2) namespace recs late.1) e
    where
      by :
          (cleaned : Bool)
          → rec.cleaned_up ≡ cleaned
          → ((clean_records cluster duration (n + 2) namespace recs).1 ≡ none
              → All
                  (λ r. r.cleaned_up ≡ true)
                  (clean_records cluster duration (n + 2) namespace recs).0)
          → let rest = clean_records cluster duration (n + 2) namespace recs in
            let done : List EphemeralContainerRecord × Option Error =
              if cleaned
              then (rec ∷ rest.0, rest.1)
              else after_fetch cluster duration
                  (cluster.now (n + 1))
                  rec
                  recs
                  (cluster.get_pod n namespace rec.pod_name)
                  rest in
            done.1 ≡ none → All (λ r. r.cleaned_up ≡ true) done.0
      by true c h e = (c, h e)
      by false c h e =
          after_fetch-marked duration (n + 1) rec recs (cluster.get_pod n namespace rec.pod_name) _
            (let (at, s, passed) = late.0 in
              late-has_elapsed duration (n + 1) rec.injected_at at s (passed (n + 1)))
            h e

  -- A cleanup of the NetworkChaos driver changes nothing of the run but its records of ephemeral
  -- containers, and no record but to mark it as cleaned up; it marks one only if its pod is gone,
  -- its container has terminated, or the duration of the chaos has passed since the injection.
  pub cleanup-AllCleanedFrom :
      (image : String) (n : ℕ) (run : ChaosRun)
      → (duration : Duration) × ChaosLasts run.spec.scenario.network duration
        × (recs : List EphemeralContainerRecord) × ((cleanup image cluster n run).0
            ≡ record run { status = record (run.status) { ephemeral_container_injections = recs } })
        × AllCleanedFrom duration run.namespace run.status.ephemeral_container_injections recs
  unfolding cleanup
  cleanup-AllCleanedFrom image n run = (
    _,
    (resolve_duration_iff run.spec.scenario.network _).0 refl,
    _,
    refl,
    clean_records-cleaned (resolve_duration run.spec.scenario.network) n run.namespace
        run.status.ephemeral_container_injections,
  )

  -- If the duration of the chaos has passed for every record at each reading of the clock, a
  -- cleanup of the NetworkChaos driver that ends without an error leaves every record marked.
  pub cleanup_marks :
      (image : String) (n : ℕ) (run : ChaosRun) (duration : Duration)
      → ChaosLasts run.spec.scenario.network duration
      → AllLate duration run.status.ephemeral_container_injections
      → (cleanup image cluster n run).1 ≡ none
      → All
          (λ r. r.cleaned_up ≡ true)
          (cleanup image cluster n run).0.status.ephemeral_container_injections
  unfolding cleanup
  cleanup_marks image n run duration lasts late e =
      clean_records-marked (resolve_duration run.spec.scenario.network) n run.namespace
        run.status.ephemeral_container_injections
        (subst (λ d. AllLate d run.status.ephemeral_container_injections)
          (sym ((resolve_duration_iff run.spec.scenario.network duration).1 lasts)) late)
        e

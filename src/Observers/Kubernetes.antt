-- ===== src/Observers/Kubernetes.antt =====
-- The observer that asks the Kubernetes API alone (internal/observer/kubernetes/observer.go).
use flink_chaos_operator.Prelude.{
  ℕ, ◌+◌, String, Bool, true, false, not, ◌&&◌, none, some, List, [], ◌∷◌, ◌&◌, if◌then◌else◌,
  member, length, is_empty, pos, ◌-ℤ◌, leb_ℤ, quoted,
}
use flink_chaos_operator.Api.Types.{ChaosRun}
use flink_chaos_operator.Interfaces.{Result, ok, err, ObservationResult, Observer}
use flink_chaos_operator.Controller.Outcomes.{nothing_observed}

-- What the observer reads of a pod: whether its phase is Running, and the readiness of each
-- container that its status lists.
pub record PodView : Type 0 where
  pub running : Bool
  pub containers_ready : List Bool

abbrev all_ready : List Bool → Bool
all_ready [] = true
all_ready (ready ∷ rest) = if ready then all_ready rest else false

abbrev pub pod_ready : PodView → Bool
pod_ready pod = if pod.running then all_ready pod.containers_ready else false

-- The loop over the injected pods, with its break.
unfoldable pub any_present : List String → List String → Bool
any_present [] live = false
any_present (p ∷ ps) live = let rest = any_present ps live in if member p live then true else rest

-- `replacementObserved`: the pods injected, the pods that are live, and the counts.
unfoldable pub replacements_seen : List String → List String → Bool
unfolding any_present
replacements_seen injected live =
    let count_before = length live + length injected in
    let count_after = length live in
    let expected_minimum = pos count_before -ℤ pos (length injected) in
    if is_empty injected
    then true
    else not (any_present injected live) && leb_ℤ expected_minimum (pos count_after)

-- `Client.Get` of a pod, by moment, namespace and name.
module _ (get_pod : ℕ → String → String → Result PodView) where
  abbrev pub after_get : String → Result PodView → Result Bool → Result Bool
  after_get name (err e) rest = err ("get pod " & quoted name & ": " & e)
  after_get name (ok pod) rest = if pod_ready pod then rest else ok false

  unfoldable pub all_pods_ready : ℕ → String → List String → Result Bool
  all_pods_ready n namespace [] = ok true
  all_pods_ready n namespace (name ∷ names) =
      let rest = all_pods_ready (n + 1) namespace names in
      after_get name (get_pod n namespace name) rest

  abbrev pub snapshot : ChaosRun → List String → Bool → Bool → ObservationResult
  snapshot run live seen ready = record nothing_observed {
    replacement_observed = seen;
    all_replacements_ready = ready;
    tm_count_before = length live + length run.status.injected_pods;
    tm_count_after = length live;
  }

  abbrev pub with_readiness : ChaosRun → List String → Result Bool → Result ObservationResult
  with_readiness run live (err e) = err ("observer: checking pod readiness: " & e)
  with_readiness run live (ok ready) = ok (snapshot run live true ready)

  abbrev pub observe_live : ℕ → ChaosRun → List String → Result ObservationResult
  observe_live n run [] = ok nothing_observed
  observe_live n run (p ∷ ps) =
      if replacements_seen run.status.injected_pods (p ∷ ps)
      then with_readiness run (p ∷ ps) (all_pods_ready n run.namespace (p ∷ ps))
      else ok (snapshot run (p ∷ ps) false false)

  -- `Observe`
  unfoldable pub observe : Observer
  unfolding replacements_seen all_pods_ready
  observe n run none = ok nothing_observed
  observe n run (some target) = observe_live n run target.tm_pod_names

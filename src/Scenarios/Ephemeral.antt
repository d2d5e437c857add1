-- ===== src/Scenarios/Ephemeral.antt =====
-- What the drivers of internal/scenario/networkchaos/driver.go and
-- internal/scenario/resourceexhaustion/driver.go share: the names of ephemeral containers
-- (internal/ephemeral/ephemeral.go), the loop that injects them and the loop that cleans up.
use Prim.Native.String.{[], ◌∷◌}
use flink_chaos_operator.Prelude.{
  ℕ, zero, suc, ◌+◌, ◌-◌, ℤ, pos, ◌-ℤ◌, String, Bool, true, false, Option, none, some, List, [],
  ◌∷◌, ◌&◌, if◌then◌else◌, str_eq, ltb, leb_ℤ, decimal,
}
use flink_chaos_operator.Api.Types.{
  Duration, Time, ResourceExhaustionSpec, EphemeralContainerRecord,
}
use flink_chaos_operator.Interfaces.{Error}

-- The text's first characters; the names are ASCII, so that bytes are characters.
unfoldable pub take_text : ℕ → String → String
take_text zero s = ""
take_text (suc n) String.[] = ""
take_text (suc n) (String.◌∷◌ c s) = String.◌∷◌ c (take_text n s)

unfoldable pub text_length : String → ℕ
text_length String.[] = 0
text_length (String.◌∷◌ c s) = suc (text_length s)

-- `s[:n]` where `len(s) > n`
abbrev pub cut : ℕ → String → String
cut n s = if ltb n (text_length s) then take_text n s else s

-- `ContainerName`; the subtraction stops at 0 as `maxName` does.
unfoldable pub container_name : String → String → ℕ → String
unfolding take_text text_length
container_name prefix run_name index =
    let suffix = "-" & decimal (pos index) in
    let max_name = 63 - text_length prefix - text_length suffix in
    cut 63 (prefix & cut max_name (cut 20 run_name) & suffix)

-- tc.Rule
pub record TcRule : Type 0 where
  pub interface : String
  pub latency : Duration
  pub jitter : Duration
  pub loss_pct : ℤ  -- int32
  pub bandwidth : String
  pub peer_cidr : String

-- The command of a container, by what its text is built from.
pub data Command : Type 0 where
  tc_script : TcRule → Duration → Command
  stress_args : ResourceExhaustionSpec → Command

pub record EphemeralContainer : Type 0 where
  pub name : String
  pub image : String
  pub command : Command

-- What the drivers read of a pod: its ephemeral containers with their status, by name, and whether
-- each has terminated.
abbrev pub PodStatus : Type 0
PodStatus = List (String × Bool)

pub data PodAnswer : Type 0 where
  pod : PodStatus → PodAnswer
  missing : PodAnswer
  get_failed : Error → PodAnswer

-- The API server and the clock, by the moment of the call: a pod by its namespace and name, and the
-- addition of a container to one.
pub record Cluster : Type 0 where
  pub get_pod : ℕ → String → String → PodAnswer
  pub add_container : ℕ → String → String → EphemeralContainer → Option Error
  pub now : ℕ → Time

-- `FindContainerState(…)` and its `Terminated`: the first status of that name decides.
unfoldable pub has_terminated : String → PodStatus → Bool
has_terminated name [] = false
has_terminated name ((n, terminated) ∷ rest) =
    let later = has_terminated name rest in if str_eq n name then terminated else later

-- The new records, the error that stopped the loop, and the containers added.
pub record Additions : Type 0 where
  pub records : List EphemeralContainerRecord
  pub stopped : Option Error
  pub added : List (String × EphemeralContainer)

abbrev pub stop_adding : Error → Additions
stop_adding e = record { records = []; stopped = some e; added = [] }

abbrev pub record_of : String → String → Time → EphemeralContainerRecord
record_of pod_name container_name at = record {
  pod_name = pod_name;
  container_name = container_name;
  injected_at = some at;
  cleaned_up = false;
}

module _ (cluster : Cluster) where
  abbrev pub after_add : String → EphemeralContainer → Time → Option Error → Additions → Additions
  after_add name container at (some e) rest =
      stop_adding ("injecting ephemeral container into " & name & ": " & e)
  after_add name container at none rest = record {
    records = record_of name container.name at ∷ rest.records;
    stopped = rest.stopped;
    added = (name, container) ∷ rest.added;
  }

  abbrev pub after_get : String → PodAnswer → Additions → Additions
  after_get name (PodAnswer.pod status) rest = rest
  after_get name PodAnswer.missing rest = stop_adding ("fetching pod " & name & ": not found")
  after_get name (PodAnswer.get_failed e) rest = stop_adding ("fetching pod " & name & ": " & e)

  -- The loop over the pods; `container` makes the container of the pod's index.
  unfoldable pub add_containers :
      (ℕ → EphemeralContainer) → ℕ → ℕ → String → List String → Additions
  add_containers container n index namespace [] = record {
    records = [];
    stopped = none;
    added = [];
  }
  add_containers container n index namespace (name ∷ names) =
      let rest = add_containers container (n + 3) (index + 1) namespace names in
      after_get name (cluster.get_pod n namespace name) (
        after_add name (container index) (cluster.now (n + 2))
          (cluster.add_container (n + 1) namespace name (container index)) rest)

  abbrev pub mark : EphemeralContainerRecord → EphemeralContainerRecord
  mark rec = record rec { cleaned_up = true }

  -- `time.Since(rec.InjectedAt.Time) >= duration`, where the record has a time.
  abbrev pub has_elapsed : Duration → Time → Option Time → Bool
  has_elapsed duration now none = false
  has_elapsed duration now (some at) = leb_ℤ duration (now -ℤ at)

  abbrev pub check_pod :
      Duration → Time → EphemeralContainerRecord → PodStatus → EphemeralContainerRecord
  check_pod duration now rec status =
      if has_terminated rec.container_name status
      then mark rec
      else if has_elapsed duration now rec.injected_at
      then mark rec
      else rec

  -- One round's answer, with what the rest of the loop would do.
  abbrev pub after_fetch :
      Duration
      → Time
      → EphemeralContainerRecord
      → List EphemeralContainerRecord
      → PodAnswer
      → List EphemeralContainerRecord × Option Error
      → List EphemeralContainerRecord × Option Error
  after_fetch duration now rec recs PodAnswer.missing (rest, e) = (mark rec ∷ rest, e)
  after_fetch duration now rec recs (PodAnswer.get_failed x) rest =
      (rec ∷ recs, some ("fetching pod " & rec.pod_name & " during cleanup: " & x))
  after_fetch duration now rec recs (PodAnswer.pod status) (rest, e) =
      (check_pod duration now rec status ∷ rest, e)

  -- The loop over the records; an error leaves the rest of them.
  unfoldable pub clean_records :
      Duration
      → ℕ
      → String
      → List EphemeralContainerRecord
      → List EphemeralContainerRecord × Option Error
  unfolding has_terminated
  clean_records duration n namespace [] = ([], none)
  clean_records duration n namespace (rec ∷ recs) =
      let rest = clean_records duration (n + 2) namespace recs in
      if rec.cleaned_up
      then (rec ∷ rest.0, rest.1)
      else after_fetch duration (cluster.now (n + 1)) rec recs
          (cluster.get_pod n namespace rec.pod_name) rest

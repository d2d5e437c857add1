-- ===== src/Observers/Metrics.antt =====
-- What the client of Flink's REST API reads of TaskManagers and of a job's metrics
-- (internal/observer/flinkrest/client.go). The server's answers, once decoded, are a parameter, and so
-- are the floating point numbers and the reading of numbers by fmt.Sscanf.
pub mod Job
pub mod Summary
use flink_chaos_operator.Prelude.{
  ℕ, ℤ, pos, negsuc, String, Option, none, some, List, [], ◌∷◌, map, length, ◌&◌, if◌then◌else◌,
  ◌==◌, str_eq, ltb_ℤ, quotient, times_int64,
}
use Prim.Native.Char.{code}
use flink_chaos_operator.Interfaces.{Result, ok, err}
use flink_chaos_operator.Observers.Checkpoints.{Response, unbuilt, lost, answered, read}

-- TMMetrics; a missing CPU load stands for -1.
pub record TmMetrics (F : Type 0) : Type 0 where
  pub tm_id : String
  pub pod_ip : String
  pub cpu_load : Option F
  pub heap_used_mb : ℤ
  pub heap_max_mb : ℤ
  pub heap_percent : ℤ

-- What the server answers on TaskManagers: their ids, and the metrics of one as texts by names.
pub record TmServer : Type 0 where
  pub task_managers : Response (List String)
  pub tm_metrics : String → Response (List (String × String))

-- The text before the first colon, or nothing.
unfoldable pub before_colon : String → Option String
before_colon String.[] = none
before_colon (String.◌∷◌ c s) =
    if code c == b':'
    then some ""
    else elim (before_colon s) [ none ↦ none | some t ↦ some (String.◌∷◌ c t) ]

-- `if idx := strings.IndexByte(tmID, ':'); idx > 0 { m.PodIP = tmID[:idx] }`
unfoldable pub pod_ip_of : String → String
unfolding before_colon
pod_ip_of tm_id = elim (before_colon tm_id) [ none ↦ "" | some ip ↦ ip ]

-- What is decoded of a response with the status 200; every other is passed over.
abbrev pub decoded {ℓ} : {A : Type ℓ} → Response A → Option A
decoded (unbuilt e) = none
decoded (lost e) = none
decoded (answered status (err e)) = none
decoded (answered status (ok a)) = if status == 200 then some a else none

abbrev pub mib : ℤ → ℤ
mib v = quotient v 1048576

-- `int(used * 100 / max)`, cut to 100, for a maximum above 0.
unfoldable pub heap_percent_of : ℤ → ℤ → ℤ
unfolding times_int64
heap_percent_of used (negsuc max) = pos 0
heap_percent_of used (pos max) =
    if max == 0
    then pos 0
    else if ltb_ℤ (pos 100) (quotient (times_int64 used 100) max)
    then pos 100
    else quotient (times_int64 used 100) max

module _ {F : Type 0} (scan_float : String → Option F) (scan_int : String → Option ℤ) where
  abbrev pub with_load : Option F → TmMetrics F → TmMetrics F
  with_load none m = m
  with_load (some v) m = record m { cpu_load = some v }

  abbrev pub with_used : Option ℤ → TmMetrics F → TmMetrics F
  with_used none m = m
  with_used (some v) m = record m { heap_used_mb = mib v }

  abbrev pub with_max : Option ℤ → TmMetrics F → TmMetrics F
  with_max none m = m
  with_max (some v) m = record m { heap_max_mb = mib v }

  unfoldable pub tm_entry : String × String → TmMetrics F → TmMetrics F
  tm_entry (id, value) m =
      if str_eq id "Status.JVM.CPU.Load"
      then with_load (scan_float value) m
      else if str_eq id "Status.JVM.Memory.Heap.Used"
      then with_used (scan_int value) m
      else if str_eq id "Status.JVM.Memory.Heap.Max"
      then with_max (scan_int value) m
      else m

  unfoldable pub tm_entries : List (String × String) → TmMetrics F → TmMetrics F
  unfolding tm_entry
  tm_entries [] m = m
  tm_entries (e ∷ es) m = tm_entries es (tm_entry e m)

  abbrev pub unknown_tm : String → TmMetrics F
  unknown_tm tm_id = record {
    tm_id = tm_id;
    pod_ip = pod_ip_of tm_id;
    cpu_load = none;
    heap_used_mb = pos 0;
    heap_max_mb = pos 0;
    heap_percent = pos 0;
  }

  abbrev pub with_percent : TmMetrics F → TmMetrics F
  with_percent m = record m { heap_percent = heap_percent_of m.heap_used_mb m.heap_max_mb }

  abbrev pub from_entries : String → Option (List (String × String)) → TmMetrics F
  from_entries tm_id none = unknown_tm tm_id
  from_entries tm_id (some entries) = with_percent (tm_entries entries (unknown_tm tm_id))

  unfoldable pub fetch_tm_metrics : TmServer → String → TmMetrics F
  unfolding pod_ip_of heap_percent_of tm_entries
  fetch_tm_metrics server tm_id = from_entries tm_id (decoded (server.tm_metrics tm_id))

  unfoldable pub task_manager_metrics : String → TmServer → Result (List (TmMetrics F))
  unfolding read fetch_tm_metrics
  task_manager_metrics base_url server =
      elim (read "taskmanagers" (base_url & "/taskmanagers") server.task_managers) [
        | ok ids ↦ ok (map (fetch_tm_metrics server) ids)
        | err e ↦ err e
      ]

-- `TaskManagers`
unfoldable pub task_managers : String → TmServer → Result ℕ
unfolding read
task_managers base_url server =
    elim (read "taskmanagers" (base_url & "/taskmanagers") server.task_managers) [
      | ok ids ↦ ok (length ids)
      | err e ↦ err e
    ]

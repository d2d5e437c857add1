-- ===== src/ApiServer/Events.antt =====
-- GET /api/events: the stream of the changes of the ChaosRuns' phases, and the number of streams that
-- are open at once (internal/apiserver/handlers_sse.go).
mod Laws
pub mod Open
pub mod Told
mod Detects
pub mod Follows
pub mod Connections
use flink_chaos_operator.Prelude.{
  ℕ, String, Bool, true, false, not, Option, none, some, List, [], ◌∷◌, map, length, if◌then◌else◌,
  str_eq, lookup, member,
}
use flink_chaos_operator.Api.Types.{ChaosRun}
use flink_chaos_operator.Api.Texts.{scenario_text, phase_text}
use flink_chaos_operator.Interfaces.{Result, ok, err}

-- sseEvent
pub record SseEvent : Type 0 where
  pub event_type : String
  pub name : String
  pub phase : String
  pub scenario : String

-- The names of the runs with their phases, as the stream has seen them last.
abbrev pub Snapshot : Type 0
Snapshot = List (String × String)

-- One stream: what it has seen, the events that were written, the latest first, and whether the
-- handler still runs.
pub record Stream : Type 0 where
  pub snapshot : Snapshot
  pub sent : List SseEvent
  pub is_open : Bool

-- `snapshot[name] = phase`
unfoldable pub set_phase : String → String → Snapshot → Snapshot
set_phase name phase [] = (name, phase) ∷ []
set_phase name phase ((k, p) ∷ m) =
    let rest = set_phase name phase m in if str_eq k name then (k, phase) ∷ m else (k, p) ∷ rest

-- `for name := range snapshot { if _, ok := seen[name]; !ok { delete(snapshot, name) } }`
unfoldable pub remove_stale : List String → Snapshot → Snapshot
remove_stale seen [] = []
remove_stale seen ((k, p) ∷ m) =
    let rest = remove_stale seen m in if member k seen then (k, p) ∷ rest else rest

-- `!exists || prev != run.Status.Phase`
abbrev pub is_changed : Option String → String → Bool
is_changed none phase = true
is_changed (some prev) phase = not (str_eq prev phase)

abbrev pub plain_event : String → SseEvent
plain_event t = record { event_type = t; name = ""; phase = ""; scenario = "" }

abbrev pub update_event : ChaosRun → SseEvent
update_event run = record {
  event_type = "chaosrun_update";
  name = run.name;
  phase = phase_text run.status.phase;
  scenario = scenario_text run.spec.scenario.scenario_type;
}

-- What the handler waits for: the client's leaving, a heartbeat's tick and a poll's, with the answer
-- of the API server.
pub data Tick : Type 0 where
  cancelled heartbeat : Tick
  poll : Result (List ChaosRun) → Tick

-- Whether the write that follows so many written events succeeds.
module _ (writes : ℕ → Bool) where
  -- `writeSSEEvent`, with the return on an error.
  unfoldable pub write_sse_event : SseEvent → Stream → Stream
  write_sse_event ev s =
      if writes (length s.sent)
      then record s { sent = ev ∷ s.sent }
      else record s { is_open = false }

  -- One run of a poll's list.
  unfoldable pub announce : ChaosRun → Stream → Stream
  unfolding write_sse_event
  announce run s =
      if is_changed (lookup run.name s.snapshot) (phase_text run.status.phase)
      then write_sse_event (update_event run)
          (record s { snapshot = set_phase run.name (phase_text run.status.phase) s.snapshot })
      else s

  unfoldable pub detect : List ChaosRun → Stream → Stream
  unfolding announce
  detect [] s = s
  detect (run ∷ runs) s =
      let s' = announce run s in let rest = detect runs s' in if s'.is_open then rest else s'

  abbrev pub without_stale : List ChaosRun → Stream → Stream
  without_stale runs s =
      if s.is_open
      then record s { snapshot = remove_stale (map (λ (r : ChaosRun). r.name) runs) s.snapshot }
      else s

  -- One round of the loop.
  unfoldable pub on_tick : Tick → Stream → Stream
  unfolding write_sse_event detect remove_stale
  on_tick cancelled s = record s { is_open = false }
  on_tick heartbeat s = write_sse_event (plain_event "heartbeat") s
  on_tick (poll (err e)) s = s
  on_tick (poll (ok runs)) s = without_stale runs (detect runs s)

  unfoldable pub sse_loop : List Tick → Stream → Stream
  unfolding on_tick
  sse_loop [] s = s
  sse_loop (t ∷ ts) s =
      let s' = on_tick t s in let rest = sse_loop ts s' in if s'.is_open then rest else s'

  -- `sseHandler`, once the stream is admitted: the first event, and the loop if it is written.
  unfoldable pub stream_events : List Tick → Stream
  unfolding write_sse_event sse_loop
  stream_events ticks =
      let s =
        write_sse_event (plain_event "connected")
          (record { snapshot = []; sent = []; is_open = true }) in
      let rest = sse_loop ticks s in if s.is_open then rest else s

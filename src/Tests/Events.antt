-- ===== src/Tests/Events.antt =====
-- The stream of events, and the connections to it.
use flink_chaos_operator.Prelude.{
  ℕ, ◌+◌, ◌≤◌, ◌≡◌, refl, Bool, true, List, [], ◌∷◌, ◌++◌, map, All, ltb, lookup, member,
}
use flink_chaos_operator.Api.Types.{RunPhase, ChaosRun}
use flink_chaos_operator.Interfaces.{ok, err}
use flink_chaos_operator.ApiServer.Events.{
  SseEvent, Tick, heartbeat, poll, set_phase, on_tick, stream_events,
}
use flink_chaos_operator.ApiServer.Events.Open.{stream_events-open}
use flink_chaos_operator.ApiServer.Events.Told.{Told}
use flink_chaos_operator.ApiServer.Events.Follows.{stream_events-Settles}
use flink_chaos_operator.ApiServer.Events.Connections.{
  Connections, sse_max_connections, enter, admit, start, later, idle, Reaches-bounded,
}
use flink_chaos_operator.Tests.Data.{kill_run, partition_run}

abbrev orders : RunPhase → ChaosRun
orders phase = record (kill_run phase) { name = "orders" }

abbrev payments : RunPhase → ChaosRun
payments phase = record (partition_run phase) { name = "payments" }

abbrev always : ℕ → Bool
always n = true

-- One run, a failed list and a heartbeat, and then the first run in its next phase beside a second.
abbrev ticks : List Tick
ticks =
    poll (ok (orders RunPhase.injecting ∷ []))
    ∷ poll (err "timeout")
    ∷ heartbeat
    ∷ poll (ok (orders RunPhase.injecting ∷ []))
    ∷ []

abbrev two_runs : List ChaosRun
two_runs = orders RunPhase.observing ∷ payments RunPhase.injecting ∷ []

stream_events-Settles_example :
    All (Told (stream_events always (ticks ++ poll (ok two_runs) ∷ []))) two_runs
    × (on_tick always (poll (ok two_runs)) (stream_events always (ticks ++ poll (ok two_runs) ∷ []))
        ≡ stream_events always (ticks ++ poll (ok two_runs) ∷ []))
stream_events-Settles_example =
    stream_events-Settles always ticks two_runs ((refl, tt), (tt, tt))
      (stream_events-open always (λ n. refl) (ticks ++ poll (ok two_runs) ∷ [])
        (tt, (tt, (tt, (tt, (tt, tt))))))

-- The phases that were written, the latest first.
phases_sent :
    map (λ (ev : SseEvent). ev.phase) (stream_events always (ticks ++ poll (ok two_runs) ∷ [])).sent
    ≡ "Injecting" ∷ "Observing" ∷ "" ∷ "Injecting" ∷ "" ∷ []
unfolding stream_events lookup member set_phase
phases_sent = refl

abbrev one_stream : Connections
one_stream = record { active = 1; streaming = 1; refusing = 0 }

Reaches-bounded_example :
    (one_stream.streaming ≤ sse_max_connections)
    × (one_stream.active ≡ one_stream.streaming + one_stream.refusing)
    × ((enter one_stream.active).1
        ≡ ltb (one_stream.streaming + one_stream.refusing) sse_max_connections)
unfolding enter
Reaches-bounded_example = Reaches-bounded {c = one_stream} (later start (admit idle refl))

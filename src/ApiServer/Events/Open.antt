-- ===== src/ApiServer/Events/Open.antt =====
-- When an event stream stays open (internal/apiserver/handlers_sse.go).
use flink_chaos_operator.Prelude.{
  ℕ, ◌≡◌, refl, sym, inl, inr, ◌∙◌, Bool, true, false, List, [], ◌∷◌, length, if◌then◌else◌, lookup,
  All, Bool-cases,
}
use flink_chaos_operator.Api.Types.{ChaosRun}
use flink_chaos_operator.Api.Texts.{phase_text}
use flink_chaos_operator.Interfaces.{ok, err}
use flink_chaos_operator.ApiServer.Events.{
  SseEvent, Stream, Tick, cancelled, heartbeat, poll, is_changed, plain_event, update_event,
  write_sse_event, announce, detect, on_tick, sse_loop, stream_events,
}

-- The client stays.
abbrev pub Stays : Tick → Type 0
Stays cancelled = ⊥
Stays heartbeat = Unit
Stays (poll answer) = Unit

if-open :
    (b : Bool) (s t : Stream) → s.is_open ≡ t.is_open → (if b then s else t).is_open ≡ t.is_open
if-open true s t e = e
if-open false s t e = refl

-- Both the stream and what is made of an open one are open.
next-open :
    (s t : Stream)
    → s.is_open ≡ true
    → t.is_open ≡ true
    → (if s.is_open then t else s).is_open ≡ true
next-open s t alive next = if-open s.is_open t s (next ∙ sym alive) ∙ alive

module _ (writes : ℕ → Bool) (all_written : (n : ℕ) → writes n ≡ true) where
  write-open : (ev : SseEvent) (s : Stream) → (write_sse_event writes ev s).is_open ≡ s.is_open
  unfolding write_sse_event
  write-open ev s = rw (all_written (length s.sent))

  announce-open : (run : ChaosRun) (s : Stream) → (announce writes run s).is_open ≡ s.is_open
  unfolding announce
  announce-open run s =
      elim (Bool-cases (is_changed (lookup run.name s.snapshot) (phase_text run.status.phase))) [
        | inl changed ↦ rw changed (write-open (update_event run) _)
        | inr unchanged ↦ rw unchanged
      ]

  detect-open :
      (runs : List ChaosRun) (s : Stream) → s.is_open ≡ true → (detect writes runs s).is_open ≡ true
  unfolding detect
  detect-open [] s alive = alive
  detect-open (run ∷ runs) s alive =
      let first = announce-open run s ∙ alive in
      next-open (announce writes run s) _ first (detect-open runs (announce writes run s) first)

  on_tick-open :
      (t : Tick) (s : Stream) → Stays t → s.is_open ≡ true → (on_tick writes t s).is_open ≡ true
  unfolding on_tick
  on_tick-open cancelled s stays alive = absurd stays
  on_tick-open heartbeat s stays alive = write-open (plain_event "heartbeat") s ∙ alive
  on_tick-open (poll (err e)) s stays alive = alive
  on_tick-open (poll (ok runs)) s stays alive =
      if-open (detect writes runs s).is_open _ (detect writes runs s) refl
      ∙ detect-open runs s alive

  sse_loop-open :
      (ts : List Tick) (s : Stream)
      → All Stays ts
      → s.is_open ≡ true
      → (sse_loop writes ts s).is_open ≡ true
  unfolding sse_loop
  sse_loop-open [] s stay alive = alive
  sse_loop-open (t ∷ ts) s stay alive =
      let first = on_tick-open t s stay.0 alive in
      next-open (on_tick writes t s) _ first (sse_loop-open ts (on_tick writes t s) stay.1 first)

  -- As long as the client stays and each write succeeds, the stream is open.
  pub stream_events-open :
      (ts : List Tick) → All Stays ts → (stream_events writes ts).is_open ≡ true
  unfolding stream_events
  stream_events-open ts stay =
      let fresh : Stream = record { snapshot = []; sent = []; is_open = true } in
      let s : Stream = write_sse_event writes (plain_event "connected") fresh in
      let alive : s.is_open ≡ true = write-open (plain_event "connected") fresh in
      next-open s (sse_loop writes ts s) alive (sse_loop-open ts s stay alive)

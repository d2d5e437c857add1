-- ===== src/ApiServer/Events/Follows.antt =====
-- The client of an event stream is told every phase (internal/apiserver/handlers_sse.go).
use flink_chaos_operator.Prelude.{
  ℕ, String, ◌≡◌, refl, sym, ap, ◌∙◌, subst, inl, inr, Bool, true, List, [], ◌∷◌, ◌++◌,
  if◌then◌else◌, lookup, All, Bool-cases,
}
use flink_chaos_operator.Api.Types.{ChaosRun}
use flink_chaos_operator.Interfaces.{ok, err}
use flink_chaos_operator.ApiServer.Events.{
  Stream, Tick, cancelled, heartbeat, poll, remove_stale, plain_event, write_sse_event, detect,
  without_stale, on_tick, sse_loop, stream_events,
}
use flink_chaos_operator.ApiServer.Events.Laws.{lookup-of_remove_stale, remove_stale_twice}
use flink_chaos_operator.ApiServer.Events.Told.{
  Tells, Shows, NamesDiffer, Told, plain_written-Tells,
}
use flink_chaos_operator.ApiServer.Events.Detects.{
  detect-Tells, detect-Shows, detect_seen, run_names, All-member-run_names, remove_stale-Shows,
  Told-of_Tells,
}

-- A poll that ends with the stream open leaves it so that each run was told, and a second poll with
-- the same answer leaves it as it is.
abbrev Settles : (ℕ → Bool) → List ChaosRun → Stream → Type 0
Settles writes runs s = All (Told s) runs × (on_tick writes (poll (ok runs)) s ≡ s)

module _ (writes : ℕ → Bool) where
  without_stale-alive :
      (runs : List ChaosRun) (s : Stream)
      → (without_stale writes runs s).is_open ≡ true
      → (s.is_open ≡ true)
        × (without_stale writes runs s
            ≡ record s { snapshot = remove_stale (run_names runs) s.snapshot })
  without_stale-alive runs s = elim (Bool-cases s.is_open) [
    | inl alive ↦ λ h. (
      alive,
      ap (λ b. if b then record s { snapshot = remove_stale (run_names runs) s.snapshot } else s)
          alive,
    )
    | inr closed ↦ λ h. cc (closed, h)
  ]

  trimmed-Tells :
      (seen : List String) (s : Stream)
      → Tells s
      → Tells (record s { snapshot = remove_stale seen s.snapshot })
  trimmed-Tells seen s h k p e = h k p (lookup-of_remove_stale k p seen s.snapshot e)

  on_tick-Tells :
      (t : Tick) (s : Stream)
      → Tells s
      → (on_tick writes t s).is_open ≡ true
      → Tells (on_tick writes t s)
  unfolding on_tick
  on_tick-Tells cancelled s h alive = cc
  on_tick-Tells heartbeat s h alive = plain_written-Tells writes "heartbeat" s refl h
  on_tick-Tells (poll (err e)) s h alive = h
  on_tick-Tells (poll (ok runs)) s h alive =
      let (open_then, e) = without_stale-alive runs (detect writes runs s) alive in
      subst Tells (sym e) (
        trimmed-Tells (run_names runs) (detect writes runs s)
          (detect-Tells writes runs s h open_then))

  trimmed-Settles :
      (runs : List ChaosRun) (s : Stream)
      → Tells s
      → s.is_open ≡ true
      → All (Shows s.snapshot) runs
      → Settles writes runs (record s { snapshot = remove_stale (run_names runs) s.snapshot })
  unfolding on_tick
  trimmed-Settles runs s h alive shown =
      let left : Stream = record s { snapshot = remove_stale (run_names runs) s.snapshot } in
      let shows =
        remove_stale-Shows (run_names runs) s.snapshot runs (All-member-run_names runs) shown in
      (
        Told-of_Tells left runs (trimmed-Tells (run_names runs) s h) shows,
        ap (without_stale writes runs) (detect_seen writes runs left shows alive)
            ∙ ap
                (λ b.
                  if b
                  then record left { snapshot = remove_stale (run_names runs) left.snapshot }
                  else left)
                alive
            ∙ ap (λ m. record left { snapshot = m })
                (remove_stale_twice (run_names runs) s.snapshot),
      )

  poll-Settles :
      (runs : List ChaosRun) (s : Stream)
      → Tells s
      → NamesDiffer runs
      → (on_tick writes (poll (ok runs)) s).is_open ≡ true
      → Settles writes runs (on_tick writes (poll (ok runs)) s)
  unfolding on_tick
  poll-Settles runs s h differ alive =
      let (open_then, e) = without_stale-alive runs (detect writes runs s) alive in
      subst (Settles writes runs) (sym e) (
        trimmed-Settles runs (detect writes runs s) (detect-Tells writes runs s h open_then)
          open_then (detect-Shows writes runs s differ open_then))

  loop-last :
      (ts : List Tick) (t : Tick) (s : Stream)
      → Tells s
      → (sse_loop writes (ts ++ t ∷ []) s).is_open ≡ true
      → (last : Stream) × Tells last × (sse_loop writes (ts ++ t ∷ []) s ≡ on_tick writes t last)
  unfolding sse_loop
  loop-last [] t s h alive = elim (Bool-cases (on_tick writes t s).is_open) [
    | inl b ↦ (s, h, ap (λ c. if c then on_tick writes t s else on_tick writes t s) b)
    | inr b ↦ (s, h, ap (λ c. if c then on_tick writes t s else on_tick writes t s) b)
  ]
  loop-last (u ∷ ts) t s h alive = elim (Bool-cases (on_tick writes u s).is_open) [
    | inl b ↦
        let e =
          ap
            (λ c.
              if c then sse_loop writes (ts ++ t ∷ []) (on_tick writes u s) else on_tick writes u s)
            b in
        let (last, told_all, end) =
          loop-last ts t (on_tick writes u s) (on_tick-Tells u s h b)
            (ap (λ (x : Stream). x.is_open) (sym e) ∙ alive) in
        (last, told_all, e ∙ end)
    | inr b ↦
        let e =
          ap
            (λ c.
              if c then sse_loop writes (ts ++ t ∷ []) (on_tick writes u s) else on_tick writes u s)
            b in
        cc (b, alive)
  ]

  -- If a stream is still open after a poll, whatever was awaited before it, then of every run that the
  -- poll has listed the phase told last is the run's, and a further poll that lists the same runs
  -- writes nothing and changes nothing. It holds where no two of the runs have one name.
  pub stream_events-Settles :
      (ticks : List Tick) (runs : List ChaosRun)
      → NamesDiffer runs
      → (stream_events writes (ticks ++ poll (ok runs) ∷ [])).is_open ≡ true
      → All (Told (stream_events writes (ticks ++ poll (ok runs) ∷ []))) runs
        × (on_tick writes (poll (ok runs)) (stream_events writes (ticks ++ poll (ok runs) ∷ []))
            ≡ stream_events writes (ticks ++ poll (ok runs) ∷ []))
  unfolding stream_events lookup
  stream_events-Settles ticks runs differ alive = elim (Bool-cases first.is_open) [
    | inl b ↦
        let e =
          ap (λ c. if c then sse_loop writes (ticks ++ poll (ok runs) ∷ []) first else first) b in
        let (last, tells, end) =
          loop-last ticks (poll (ok runs)) first first-Tells
            (ap (λ (x : Stream). x.is_open) (sym e) ∙ alive) in
        subst (Settles writes runs) (sym (e ∙ end)) (
          poll-Settles runs last tells differ
            (ap (λ (x : Stream). x.is_open) (sym (e ∙ end)) ∙ alive))
    | inr b ↦
        let e =
          ap (λ c. if c then sse_loop writes (ticks ++ poll (ok runs) ∷ []) first else first) b in
        cc (b, alive)
  ]
    where
      first : Stream
      first =
          write_sse_event writes (plain_event "connected")
            (record { snapshot = []; sent = []; is_open = true })

      first-Tells : Tells first
      first-Tells =
          plain_written-Tells writes "connected"
            (record { snapshot = []; sent = []; is_open = true }) refl (λ k p e. cc e)

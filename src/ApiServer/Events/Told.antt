-- ===== src/ApiServer/Events/Told.antt =====
-- What the events of a stream tell, and what one run of a list does to the stream
-- (internal/apiserver/handlers_sse.go).
use flink_chaos_operator.Prelude.{
  ℕ, String, ◌≡◌, refl, sym, ap, ◌∙◌, ◌⊎◌, inl, inr, Bool, true, false, not, ◌&&◌, Option, none,
  some, List, [], ◌∷◌, length, if◌then◌else◌, str_eq, str_eq_sound, str_eq_refl, lookup, All,
  Bool-cases,
}
use flink_chaos_operator.Api.Types.{ChaosRun}
use flink_chaos_operator.Api.Texts.{phase_text}
use flink_chaos_operator.ApiServer.Events.{
  SseEvent, Snapshot, Stream, set_phase, is_changed, plain_event, update_event, write_sse_event,
  announce,
}
use flink_chaos_operator.ApiServer.Events.Laws.{lookup-set_phase_self, lookup-set_phase_other}

-- The phase that the events of a stream, the latest first, tell of a run.
unfoldable pub told : String → List SseEvent → Option String
told name [] = none
told name (ev ∷ evs) =
    if str_eq ev.event_type "chaosrun_update" && str_eq ev.name name
    then some ev.phase
    else told name evs

-- What the stream has seen last is what the client was told.
abbrev pub Tells : Stream → Type 0
Tells s = (k p : String) → lookup k s.snapshot ≡ some p → told k s.sent ≡ some p

-- The snapshot has the run's phase.
abbrev pub Shows : Snapshot → ChaosRun → Type 0
Shows m run = lookup run.name m ≡ some (phase_text run.status.phase)

abbrev pub NamesDiffer : List ChaosRun → Type 0
NamesDiffer [] = Unit
NamesDiffer (r ∷ rs) = All (λ (q : ChaosRun). str_eq q.name r.name ≡ false) rs × NamesDiffer rs

-- The client was told the phase of a run, and nothing else of it since.
abbrev pub Told : Stream → ChaosRun → Type 0
Told s run = told run.name s.sent ≡ some (phase_text run.status.phase)

pub is_changed_same : (p : String) → is_changed (some p) p ≡ false
is_changed_same p = ap not (str_eq_refl p)

shown_unless_changed : (o : Option String) (p : String) → is_changed o p ≡ false → o ≡ some p
shown_unless_changed none p h = cc
shown_unless_changed (some q) p h = elim (Bool-cases (str_eq q p)) [
  | inl same ↦ ap some (str_eq_sound q p same)
  | inr differ ↦ cc (ap not differ, h)
]

-- A text to compare with, once for the event's kind and once for its name.
told_update :
    (run : ChaosRun) (k : String) (evs : List SseEvent)
    → told k (update_event run ∷ evs)
      ≡ (if str_eq run.name k then some (phase_text run.status.phase) else told k evs)
unfolding told
told_update run k evs = refl

module _ (writes : ℕ → Bool) where
  write-cases :
      (ev : SseEvent) (s : Stream)
      → (write_sse_event writes ev s ≡ record s { sent = ev ∷ s.sent })
        ⊎ (write_sse_event writes ev s ≡ record s { is_open = false })
  unfolding write_sse_event
  write-cases ev s = elim (Bool-cases (writes (length s.sent))) [
    | inl written ↦ inl (rw written)
    | inr failed ↦ inr (rw failed)
  ]

  pub plain_written-Tells :
      (t : String) (s : Stream)
      → str_eq t "chaosrun_update" ≡ false
      → Tells s
      → Tells (write_sse_event writes (plain_event t) s)
  unfolding told
  plain_written-Tells t s plain h = elim (write-cases (plain_event t) s) [
    | inl written ↦ rw written (λ k p e. rw plain (h k p e))
    | inr failed ↦ rw failed h
  ]

  -- What one run of the list does to the stream.
  announce-cases :
      (run : ChaosRun) (s : Stream)
      → (Shows s.snapshot run × (announce writes run s ≡ s))
        ⊎ (announce writes run s ≡ record s {
          snapshot = set_phase run.name (phase_text run.status.phase) s.snapshot;
          sent = update_event run ∷ s.sent;
        })
        ⊎ (announce writes run s ≡ record s {
          snapshot = set_phase run.name (phase_text run.status.phase) s.snapshot;
          is_open = false;
        })
  unfolding announce
  announce-cases run s =
      elim (Bool-cases (is_changed (lookup run.name s.snapshot) (phase_text run.status.phase))) [
        | inl changed ↦ rw changed (
            inr (
              write-cases (update_event run) (record s {
                snapshot = set_phase run.name (phase_text run.status.phase) s.snapshot;
              })))
        | inr unchanged ↦ inl (shown_unless_changed _ _ unchanged, rw unchanged)
      ]

  pub announce-Shows : (run : ChaosRun) (s : Stream) → Shows (announce writes run s).snapshot run
  announce-Shows run s = elim (announce-cases run s) [
    | inl (shown, e) ↦ rw e shown
    | inr (inl e) ↦ rw e (lookup-set_phase_self run.name (phase_text run.status.phase) s.snapshot)
    | inr (inr e) ↦ rw e (lookup-set_phase_self run.name (phase_text run.status.phase) s.snapshot)
  ]

  pub announce-lookup_other :
      (run : ChaosRun) (k : String) (s : Stream)
      → str_eq run.name k ≡ false
      → lookup k (announce writes run s).snapshot ≡ lookup k s.snapshot
  announce-lookup_other run k s other =
      let unset =
        lookup-set_phase_other run.name k (phase_text run.status.phase) s.snapshot other in
      elim (announce-cases run s) [
        | inl (shown, e) ↦ rw e
        | inr (inl e) ↦ rw e unset
        | inr (inr e) ↦ rw e unset
      ]

  update-Tells :
      (run : ChaosRun) (s : Stream)
      → Tells s
      → (k p : String)
      → lookup k (set_phase run.name (phase_text run.status.phase) s.snapshot) ≡ some p
      → told k (update_event run ∷ s.sent) ≡ some p
  update-Tells run s h k p e = elim (Bool-cases (str_eq run.name k)) [
    | inl same ↦
        told_update run k s.sent
        ∙ rw same (
            sym (lookup-set_phase_self run.name (phase_text run.status.phase) s.snapshot)
            ∙ ap (λ n. lookup n (set_phase run.name (phase_text run.status.phase) s.snapshot))
                (str_eq_sound run.name k same)
            ∙ e)
    | inr differ ↦
        told_update run k s.sent
        ∙ rw differ (
            h k p (
              sym
                (lookup-set_phase_other run.name k (phase_text run.status.phase) s.snapshot differ)
              ∙ e))
  ]

  pub announce-Tells :
      (run : ChaosRun) (s : Stream)
      → Tells s
      → (announce writes run s).is_open ≡ true
      → Tells (announce writes run s)
  announce-Tells run s h alive = elim (announce-cases run s) [
    | inl (shown, e) ↦ rw e h
    | inr (inl e) ↦ rw e (update-Tells run s h)
    | inr (inr e) ↦ cc (ap (λ (t : Stream). t.is_open) e, alive)
  ]

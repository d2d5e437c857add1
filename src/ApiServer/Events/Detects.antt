-- ===== src/ApiServer/Events/Detects.antt =====
-- What the loop over the listed runs does to a stream (internal/apiserver/handlers_sse.go).
use flink_chaos_operator.Prelude.{
  ℕ, String, ◌≡◌, refl, sym, ap, ◌∙◌, subst, inl, inr, Bool, true, false, List, [], ◌∷◌, map,
  if◌then◌else◌, str_eq, str_eq_refl, lookup, member, All, Bool-cases,
}
use flink_chaos_operator.Api.Types.{ChaosRun}
use flink_chaos_operator.Api.Texts.{phase_text}
use flink_chaos_operator.ApiServer.Events.{Snapshot, Stream, remove_stale, announce, detect}
use flink_chaos_operator.ApiServer.Events.Laws.{lookup-remove_stale}
use flink_chaos_operator.ApiServer.Events.Told.{
  Tells, Shows, NamesDiffer, Told, is_changed_same, announce-Shows, announce-lookup_other,
  announce-Tells,
}

module _ (writes : ℕ → Bool) where
  detect-step :
      (run : ChaosRun) (runs : List ChaosRun) (s : Stream)
      → (detect writes (run ∷ runs) s).is_open ≡ true
      → ((announce writes run s).is_open ≡ true)
        × (detect writes (run ∷ runs) s ≡ detect writes runs (announce writes run s))
  unfolding detect
  detect-step run runs s = elim (Bool-cases (announce writes run s).is_open) [
    | inl alive ↦ rw alive (λ h. (refl, refl))
    | inr closed ↦ rw closed (λ h. cc)
  ]

  pub detect-Tells :
      (runs : List ChaosRun) (s : Stream)
      → Tells s
      → (detect writes runs s).is_open ≡ true
      → Tells (detect writes runs s)
  detect-Tells [] s h alive = unfold detect in h
  detect-Tells (run ∷ runs) s h alive =
      let (first, e) = detect-step run runs s alive in
      rw e (
        detect-Tells runs (announce writes run s) (announce-Tells writes run s h first)
          (ap (λ (t : Stream). t.is_open) (sym e) ∙ alive))

  detect-lookup_other :
      (runs : List ChaosRun) (k : String) (s : Stream)
      → All (λ (q : ChaosRun). str_eq q.name k ≡ false) runs
      → (detect writes runs s).is_open ≡ true
      → lookup k (detect writes runs s).snapshot ≡ lookup k s.snapshot
  detect-lookup_other [] k s others alive = unfold detect in refl
  detect-lookup_other (run ∷ runs) k s others alive =
      let (first, e) = detect-step run runs s alive in
      rw e (
        detect-lookup_other runs k (announce writes run s) others.1
          (ap (λ (t : Stream). t.is_open) (sym e) ∙ alive)
        ∙ announce-lookup_other writes run k s others.0)

  pub detect-Shows :
      (runs : List ChaosRun) (s : Stream)
      → NamesDiffer runs
      → (detect writes runs s).is_open ≡ true
      → All (Shows (detect writes runs s).snapshot) runs
  detect-Shows [] s differ alive = tt
  detect-Shows (run ∷ runs) s differ alive =
      let (first, e) = detect-step run runs s alive in
      let still = ap (λ (t : Stream). t.is_open) (sym e) ∙ alive in
      subst (λ (t : Stream). All (Shows t.snapshot) (run ∷ runs)) (sym e)
        (
          detect-lookup_other runs run.name (announce writes run s) differ.0 still
              ∙ announce-Shows writes run s,
          detect-Shows runs (announce writes run s) differ.1 still,
        )

  -- Runs whose phases the stream has seen already change nothing.
  announce_seen : (run : ChaosRun) (s : Stream) → Shows s.snapshot run → announce writes run s ≡ s
  unfolding announce
  announce_seen run s shown = rw shown (rw (is_changed_same (phase_text run.status.phase)))

  pub detect_seen :
      (runs : List ChaosRun) (s : Stream)
      → All (Shows s.snapshot) runs
      → s.is_open ≡ true
      → detect writes runs s ≡ s
  unfolding detect
  detect_seen [] s shown alive = refl
  detect_seen (run ∷ runs) s shown alive =
      rw (announce_seen run s shown.0)
        (ap (λ b. if b then detect writes runs s else s) alive ∙ detect_seen runs s shown.1 alive)

abbrev pub run_names : List ChaosRun → List String
run_names = map (λ (r : ChaosRun). r.name)

All-member-cons :
    (n : String) (ns : List String) (runs : List ChaosRun)
    → All (λ (r : ChaosRun). member r.name ns ≡ true) runs
    → All (λ (r : ChaosRun). member r.name (n ∷ ns) ≡ true) runs
unfolding member
All-member-cons n ns [] h = tt
All-member-cons n ns (run ∷ runs) h = (
  elim (Bool-cases (str_eq n run.name)) [ inl same ↦ rw same | inr differ ↦ rw differ h.0 ],
  All-member-cons n ns runs h.1,
)

pub All-member-run_names :
    (runs : List ChaosRun) → All (λ (r : ChaosRun). member r.name (run_names runs) ≡ true) runs
unfolding member
All-member-run_names [] = tt
All-member-run_names (run ∷ runs) = (
  rw (str_eq_refl run.name),
  All-member-cons run.name (run_names runs) runs (All-member-run_names runs),
)

-- The removal of what is stale leaves the runs that are listed.
pub remove_stale-Shows :
    (seen : List String) (m : Snapshot) (runs : List ChaosRun)
    → All (λ (r : ChaosRun). member r.name seen ≡ true) runs
    → All (Shows m) runs
    → All (Shows (remove_stale seen m)) runs
remove_stale-Shows seen m [] listed shown = tt
remove_stale-Shows seen m (run ∷ runs) listed shown = (
  lookup-remove_stale run.name seen m listed.0 ∙ shown.0,
  remove_stale-Shows seen m runs listed.1 shown.1,
)

pub Told-of_Tells :
    (s : Stream) (runs : List ChaosRun) → Tells s → All (Shows s.snapshot) runs → All (Told s) runs
Told-of_Tells s [] h shown = tt
Told-of_Tells s (run ∷ runs) h shown =
    (h run.name (phase_text run.status.phase) shown.0, Told-of_Tells s runs h shown.1)

-- ===== src/Controller/Lifecycle/History.antt =====
-- Whatever reconciles a run sees, in whatever order and surroundings: the phases that are stored
-- (Reconcile of internal/controller/chaosrun_controller.go, called again and again).
use flink_chaos_operator.Prelude.{
  ℕ, ◌+◌, ◌*◌, ◌≤◌, String, ◌≡◌, refl, ap, subst, inl, inr, Bool, true, false, Bool-cases, List, [],
  ◌∷◌, All, arith, if◌then◌else◌, str_eq, str_eq_refl, str_eq_sound,
}
use flink_chaos_operator.Api.Types.{RunPhase}
use flink_chaos_operator.Interfaces.{ok, err}
use flink_chaos_operator.Controller.World.{Env, World, Effect}
use flink_chaos_operator.Controller.Rules.{Holds}
use flink_chaos_operator.Controller.Reconcile.{reconcile}
use flink_chaos_operator.Controller.Lifecycle.{leads_to, KeepsDiagram, KeepsPhases}
use flink_chaos_operator.Controller.Lifecycle.Reconcile.{reconcile-KeepsDiagram}

-- One reconcile: its surroundings, and the request's namespace and name.
pub record ReconcileRequest : Type 0 where
  pub env : Env
  pub namespace : String
  pub name : String

-- The reconciles one after another.
unfoldable pub replay : List ReconcileRequest → World → World
replay [] w = w
replay (r ∷ rs) w = replay rs (reconcile r.env r.namespace r.name w).1

-- The phase that is stored after the calls of a trace, the latest first: a status patch that the
-- server takes stores the phase that was sent.
abbrev pub stored_by : Effect → RunPhase → RunPhase
stored_by (Effect.status_patched base run (ok run')) p = run.status.phase
stored_by _ p = p

abbrev pub phase_after : RunPhase → List Effect → RunPhase
phase_after p [] = p
phase_after p (e ∷ es) = stored_by e (phase_after p es)

replay-KeepsDiagram :
    (rs : List ReconcileRequest) (w : World)
    → All (λ r. KeepsPhases r.env) rs
    → Holds KeepsDiagram w
    → Holds KeepsDiagram (replay rs w)
unfolding replay
replay-KeepsDiagram [] w keeps h = h
replay-KeepsDiagram (r ∷ rs) w keeps h =
    replay-KeepsDiagram rs (reconcile r.env r.namespace r.name w).1 keeps.1
      (reconcile-KeepsDiagram r.env keeps.0 r.namespace r.name w h)

-- The calls of a sequence of reconciles.
abbrev pub history : List ReconcileRequest → List Effect
history rs = (replay rs (record { step = 0; trace = [] })).trace

abbrev pub same_phase : RunPhase → RunPhase → Bool
same_phase RunPhase.unset RunPhase.unset = true
same_phase RunPhase.pending RunPhase.pending = true
same_phase RunPhase.injecting RunPhase.injecting = true
same_phase RunPhase.observing RunPhase.observing = true
same_phase RunPhase.cleaning_up RunPhase.cleaning_up = true
same_phase RunPhase.completed RunPhase.completed = true
same_phase RunPhase.aborted RunPhase.aborted = true
same_phase RunPhase.failed RunPhase.failed = true
same_phase (RunPhase.other s) (RunPhase.other t) = str_eq s t
same_phase _ _ = false

-- The stored phase changes where a patch sends another.
abbrev pub changes : RunPhase → List Effect → ℕ
changes p [] = 0
changes p (e ∷ es) =
    (if same_phase (phase_after p es) (stored_by e (phase_after p es)) then 0 else 1) + changes p es

-- How far along the diagram a phase is.
rank : RunPhase → ℕ
rank RunPhase.injecting = 1
rank RunPhase.observing = 2
rank RunPhase.cleaning_up = 3
rank RunPhase.completed = 4
rank RunPhase.aborted = 4
rank RunPhase.failed = 4
rank _ = 0

rank_bounded : (p : RunPhase) → rank p ≤ 4
unfolding rank
rank_bounded p = ground arith

edge_climbs :
    (p q : RunPhase) → leads_to p q ≡ true → (if same_phase p q then 0 else 1) + rank p ≤ rank q
unfolding rank
edge_climbs p q h = ground arith

same_refl : (p : RunPhase) → same_phase p p ≡ true
same_refl (RunPhase.other s) = str_eq_refl s
same_refl RunPhase.unset = refl
same_refl RunPhase.pending = refl
same_refl RunPhase.injecting = refl
same_refl RunPhase.observing = refl
same_refl RunPhase.cleaning_up = refl
same_refl RunPhase.completed = refl
same_refl RunPhase.aborted = refl
same_refl RunPhase.failed = refl

same_sound : (p q : RunPhase) → same_phase p q ≡ true → p ≡ q
same_sound (RunPhase.other s) (RunPhase.other t) h =
    ap (λ text. RunPhase.other text) (str_eq_sound s t h)
same_sound p q h = ground arith

-- A patch that is stored although it was made from a stale run: its base is not in the phase that
-- is stored, as a read from a cache can have it.
abbrev pub stale_patch : RunPhase → Effect → ℕ
stale_patch p (Effect.status_patched base run (ok run')) =
    if same_phase base.status.phase p then 0 else 1
stale_patch p _ = 0

abbrev pub stale_patches : RunPhase → List Effect → ℕ
stale_patches p [] = 0
stale_patches p (e ∷ es) = stale_patch (phase_after p es) e + stale_patches p es

-- A stored patch from a base climbs from that base, and costs all that was climbed if it is stale.
patch_climbs :
    (q base sent : RunPhase)
    → leads_to base sent ≡ true
    → (if same_phase q sent then 0 else 1) + rank q
      ≤ rank sent + 5 * (if same_phase base q then 0 else 1)
patch_climbs q base sent k = elim (Bool-cases (same_phase base q)) [
  | inl fresh ↦
      (let climbs =
          edge_climbs q sent (subst (λ q'. leads_to q' sent ≡ true) (same_sound base q fresh) k) in
        rw fresh (omega (arith, climbs)))
  | inr stale ↦
      (let most = rank_bounded q in
        let change = at_most_one (same_phase q sent) in rw stale (omega (arith, most, change)))
]
  where
    at_most_one : (same : Bool) → (if same then 0 else 1) ≤ 1
    at_most_one true = omega arith
    at_most_one false = omega arith

effect_climbs :
    (q : RunPhase) (e : Effect)
    → KeepsDiagram e
    → (if same_phase q (stored_by e q) then 0 else 1) + rank q
      ≤ rank (stored_by e q) + 5 * stale_patch q e
effect_climbs q (Effect.status_patched base run (ok run')) k =
    patch_climbs q base.status.phase run.status.phase k
effect_climbs q (Effect.status_patched base run (err x)) k = rw (same_refl q) (omega arith)
effect_climbs q _ k = rw (same_refl q) (omega arith)

changes_climb :
    (p : RunPhase) (es : List Effect)
    → All KeepsDiagram es
    → changes p es + rank p ≤ rank (phase_after p es) + 5 * stale_patches p es
changes_climb p [] k = omega arith
changes_climb p (e ∷ es) k =
    let later = changes_climb p es k.1 in
    let now = effect_climbs (phase_after p es) e k.0 in omega (arith, later, now)

-- However often a run is reconciled, and whatever it meets, its stored phase changes at most four
-- times, and five times more for each stored patch that was made from a stale run. It holds where
-- the server answers a patch with the phase that was sent, and where the drivers leave the phase
-- alone.
pub replay-changes :
    (p : RunPhase) (rs : List ReconcileRequest)
    → All (λ r. KeepsPhases r.env) rs
    → changes p (history rs) ≤ 4 + 5 * stale_patches p (history rs)
replay-changes p rs keeps =
    let climbs =
      changes_climb p (history rs)
        (replay-KeepsDiagram rs (record { step = 0; trace = [] }) keeps tt) in
    let bounded = rank_bounded (phase_after p (history rs)) in omega (arith, climbs, bounded)

-- ===== src/Controller/Rules.antt =====
-- Rules for what holds of every call that a handler of the controller makes: a status patch, a
-- patch of the object, and what follows them.
use flink_chaos_operator.Prelude.{Bool, true, false, if◌then◌else◌, ◌≡◌, refl, ap, All}
use flink_chaos_operator.Api.Types.{ChaosRun}
use flink_chaos_operator.Interfaces.{Result, ok, err}
use flink_chaos_operator.Controller.World.{
  Env, World, Effect, M, Reply, failure, pure, note, after_patch, after_patch_object,
}

-- What holds of all effects of a world's trace.
abbrev pub Holds : (Effect → Type 0) → World → Type 0
Holds P w = All P w.trace

-- A branch keeps what both of its sides keep.
pub if-Holds :
    (P : Effect → Type 0) (b : Bool) (yes_branch no_branch : M Reply) (w : World)
    → (b ≡ true → Holds P (yes_branch w).1)
    → (b ≡ false → Holds P (no_branch w).1)
    → Holds P ((if b then yes_branch else no_branch) w).1
if-Holds P true m n w h k = h refl
if-Holds P false m n w h k = k refl

module _ (env : Env) (P : Effect → Type 0) where
  -- After a status patch the rest runs with the server's answer, or not at all.
  pub after_patch-Holds :
      (base run : ChaosRun) (rest : ChaosRun → M Reply) (w : World)
      → Holds P w
      → P (Effect.status_patched base run (env.patch_status w.step base run))
      → ((run' : ChaosRun) (w' : World)
          → env.patch_status w.step base run ≡ ok run'
          → Holds P w'
          → Holds P (rest run' w').1)
      → Holds P (after_patch env base run rest w).1
  after_patch-Holds base run rest w h p k = go (env.patch_status w.step base run) refl
    where
      go :
          (answer : Result ChaosRun)
          → env.patch_status w.step base run ≡ answer
          → let w' = note (Effect.status_patched base run (env.patch_status w.step base run)) w in
            Holds P
              ((let m : M Reply = elim answer [ ok run' ↦ rest run' | err e ↦ pure (failure e) ] in
                  m)
                w').1
      go (ok run') e = k run' _ e (p, h)
      go (err x) e = (p, h)

  pub after_patch_object-Holds :
      (base run : ChaosRun) (rest : ChaosRun → M Reply) (w : World)
      → Holds P w
      → P (Effect.object_patched base run (env.patch w.step base run))
      → ((run' : ChaosRun) (w' : World)
          → env.patch w.step base run ≡ ok run'
          → Holds P w'
          → Holds P (rest run' w').1)
      → Holds P (after_patch_object env base run rest w).1
  after_patch_object-Holds base run rest w h p k = go (env.patch w.step base run) refl
    where
      go :
          (answer : Result ChaosRun)
          → env.patch w.step base run ≡ answer
          → let w' = note (Effect.object_patched base run (env.patch w.step base run)) w in
            Holds P
              ((let m : M Reply = elim answer [ ok run' ↦ rest run' | err e ↦ pure (failure e) ] in
                  m)
                w').1
      go (ok run') e = k run' _ e (p, h)
      go (err x) e = (p, h)

  -- A patch that the server takes.
  pub after_patch-ok :
      (base run run' : ChaosRun) (rest : ChaosRun → M Reply) (w : World)
      → env.patch_status w.step base run ≡ ok run'
      → after_patch env base run rest w
        ≡ rest run' (note (Effect.status_patched base run (env.patch_status w.step base run)) w)
  after_patch-ok base run run' rest w e =
      ap
        (λ (a : Result ChaosRun).
          (elim a as (λ _. M Reply) [ ok r ↦ rest r | err x ↦ pure (failure x) ])
            (note (Effect.status_patched base run (env.patch_status w.step base run)) w))
        e

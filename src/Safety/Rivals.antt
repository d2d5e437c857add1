-- ===== src/Safety/Rivals.antt =====
-- Which runs of a namespace count as active on a target (checkConcurrency of
-- internal/safety/checker.go), described apart from the loop that counts them.
use flink_chaos_operator.Prelude.{
  ℕ, suc, String, ◌≡◌, refl, sym, ap, ◌∙◌, subst, ◌↔◌, ◌⊎◌, inl, inr, Bool, true, false, ◌&&◌,
  Option, none, some, List, [], ◌∷◌, arith, if◌then◌else◌, str_eq, str_eq_refl, str_eq_sound,
}
use flink_chaos_operator.Api.Types.{RunPhase, TargetSummary, ChaosRun}
use flink_chaos_operator.Safety.Checker.{is_terminal, summary_names, is_active_peer, count_active}

abbrev pub HasEnded : RunPhase → Type 0
HasEnded phase =
    (phase ≡ RunPhase.completed) ⊎ (phase ≡ RunPhase.aborted) ⊎ (phase ≡ RunPhase.failed)

abbrev pub IsOn : String → Option TargetSummary → Type 0
IsOn name summary = (s : TargetSummary) × (summary ≡ some s) × (s.name ≡ name)

-- Another run, which has not ended and has the target in its status.
abbrev pub IsRival : ChaosRun → String → ChaosRun → Type 0
IsRival run name peer =
    (¬ ((peer.name ≡ run.name) × (peer.namespace ≡ run.namespace)))
    × (¬ HasEnded peer.status.phase)
    × IsOn name peer.status.target_summary

-- So many runs of the list are rivals.
abbrev pub AreRivals : ChaosRun → String → List ChaosRun → ℕ → Type 0
AreRivals run name [] n = n ≡ 0
AreRivals run name (peer ∷ peers) n =
    (IsRival run name peer × ((m : ℕ) × (n ≡ suc m) × AreRivals run name peers m))
    ⊎ ((¬ IsRival run name peer) × AreRivals run name peers n)

is_terminal_iff : (phase : RunPhase) → (is_terminal phase ≡ true) ↔ HasEnded phase
unfolding is_terminal
is_terminal_iff phase = (to phase, λ h. ground arith)
  where
    to : (phase : RunPhase) → is_terminal phase ≡ true → HasEnded phase
    to RunPhase.completed h = inl refl
    to RunPhase.aborted h = inr (inl refl)
    to RunPhase.failed h = inr (inr refl)
    to _ h = absurd (ground arith)

summary_names_iff :
    (summary : Option TargetSummary) (name : String)
    → (summary_names summary name ≡ true) ↔ IsOn name summary
summary_names_iff none name =
    ((λ h. absurd (ground arith)), (λ h. absurd (let e = h.1 in ground arith)))
summary_names_iff (some s) name = (
  (λ h. (s, refl, str_eq_sound s.name name h)),
  (λ h.
      let (t, e, n) = h in
      let same : s ≡ t = ground arith in
      subst (λ u. str_eq u.name name ≡ true) (sym same)
        (subst (λ m. str_eq t.name m ≡ true) n (str_eq_refl t.name))),
)

both_iff : (s t u v : String) → (str_eq s t && str_eq u v ≡ true) ↔ ((s ≡ t) × (u ≡ v))
both_iff s t u v = (
  (λ h. (str_eq_sound s t (ground arith), str_eq_sound u v (ground arith))),
  (λ h.
      let a = subst (λ x. str_eq s x ≡ true) h.0 (str_eq_refl s) in
      let b = subst (λ x. str_eq u x ≡ true) h.1 (str_eq_refl u) in ground (arith, a, b)),
)

is_active_peer_iff :
    (run : ChaosRun) (name : String) (peer : ChaosRun)
    → (is_active_peer run name peer ≡ true) ↔ IsRival run name peer
unfolding is_active_peer
is_active_peer_iff run name peer =
    by (str_eq peer.name run.name && str_eq peer.namespace run.namespace)
      (both_iff peer.name run.name peer.namespace run.namespace) (is_terminal peer.status.phase)
      (is_terminal_iff peer.status.phase) (summary_names peer.status.target_summary name)
      (summary_names_iff peer.status.target_summary name)
  where
    by :
        (itself : Bool)
        → (itself ≡ true) ↔ ((peer.name ≡ run.name) × (peer.namespace ≡ run.namespace))
        → (ended : Bool) → (ended ≡ true) ↔ HasEnded peer.status.phase
        → (on : Bool) → (on ≡ true) ↔ IsOn name peer.status.target_summary
        → ((if itself then false else if ended then false else on) ≡ true) ↔ IsRival run name peer
    by true i ended e on o = ((λ h. absurd (ground arith)), (λ h. absurd (h.0 (i.0 refl))))
    by false i true e on o = ((λ h. absurd (ground arith)), (λ h. absurd (h.1 (e.0 refl))))
    by false i false e on o = (
      (λ h. (
        λ s. absurd (let wrong = i.1 s in ground arith),
        λ d. absurd (let wrong = e.1 d in ground arith),
        o.0 h,
      )),
      (λ h. o.1 h.2),
    )

-- The count is the one number of rivals.
pub count_active_iff :
    (run : ChaosRun) (name : String) (peers : List ChaosRun) (n : ℕ)
    → AreRivals run name peers n ↔ (n ≡ count_active run name peers)
unfolding count_active
count_active_iff run name [] n = ((λ h. h), (λ h. h))
count_active_iff run name (peer ∷ peers) n =
    by (is_active_peer run name peer) (is_active_peer_iff run name peer)
      (count_active_iff run name peers)
  where
    by :
        (active : Bool)
        → (active ≡ true) ↔ IsRival run name peer
        → ((m : ℕ) → AreRivals run name peers m ↔ (m ≡ count_active run name peers))
        → AreRivals run name (peer ∷ peers) n ↔ (
            n ≡ (if active then suc (count_active run name peers) else count_active run name peers))
    by true a rest = (
      (λ h. elim h [
        | inl (r, (m, e, c)) ↦ e ∙ ap suc ((rest m).0 c)
        | inr (never, c) ↦ absurd (never (a.0 refl))
      ]),
      (λ h. inl (a.0 refl, (count_active run name peers, h, (rest _).1 refl))),
    )
    by false a rest = (
      (λ h. elim h [
        | inl (r, c) ↦ absurd (let wrong = a.1 r in ground arith)
        | inr (never, c) ↦ (rest n).0 c
      ]),
      (λ h. inr (λ r. absurd (let wrong = a.1 r in ground arith), (rest n).1 h)),
    )

-- ===== src/ApiServer/Events/Laws.antt =====
-- The snapshot of an event stream as a table (internal/apiserver/handlers_sse.go).
use flink_chaos_operator.Prelude.{
  String, ◌≡◌, refl, sym, ap, ◌∙◌, inl, inr, true, false, none, some, List, [], ◌∷◌, if◌then◌else◌,
  str_eq, str_eq_sound, str_eq_refl, lookup, member, Bool-cases,
}
use flink_chaos_operator.ApiServer.Events.{Snapshot, set_phase, remove_stale}

pub lookup-set_phase_self :
    (name phase : String) (m : Snapshot) → lookup name (set_phase name phase m) ≡ some phase
unfolding lookup set_phase
lookup-set_phase_self name phase [] = rw (str_eq_refl name)
lookup-set_phase_self name phase ((k, p) ∷ m) = elim (Bool-cases (str_eq k name)) [
  | inl same ↦ rw same (rw same)
  | inr differ ↦ rw differ (rw differ (lookup-set_phase_self name phase m))
]

pub lookup-set_phase_other :
    (name k phase : String) (m : Snapshot)
    → str_eq name k ≡ false
    → lookup k (set_phase name phase m) ≡ lookup k m
unfolding lookup set_phase
lookup-set_phase_other name k phase [] other = rw other
lookup-set_phase_other name k phase ((j, p) ∷ m) other = elim (Bool-cases (str_eq j name)) [
  | inl same ↦ rw same (
      let apart : str_eq j k ≡ false = ap (λ n. str_eq n k) (str_eq_sound j name same) ∙ other in
      rw apart)
  | inr differ ↦
      rw differ
        (ap (λ r. if str_eq j k then some p else r) (lookup-set_phase_other name k phase m other))
]

-- A name that was seen keeps its phase.
pub lookup-remove_stale :
    (k : String) (seen : List String) (m : Snapshot)
    → member k seen ≡ true
    → lookup k (remove_stale seen m) ≡ lookup k m
unfolding lookup remove_stale
lookup-remove_stale k seen [] h = refl
lookup-remove_stale k seen ((j, p) ∷ m) h = elim (Bool-cases (member j seen)) [
  | inl stays ↦
      rw stays (ap (λ r. if str_eq j k then some p else r) (lookup-remove_stale k seen m h))
  | inr goes ↦ elim (Bool-cases (str_eq j k)) [
    | inl same ↦ cc (ap (λ n. member n seen) (str_eq_sound j k same), goes, h)
    | inr differ ↦ rw (goes, differ) (lookup-remove_stale k seen m h)
  ]
]

lookup-remove_stale_unseen :
    (k : String) (seen : List String) (m : Snapshot)
    → member k seen ≡ false
    → lookup k (remove_stale seen m) ≡ none
unfolding lookup remove_stale
lookup-remove_stale_unseen k seen [] h = refl
lookup-remove_stale_unseen k seen ((j, p) ∷ m) h = elim (Bool-cases (member j seen)) [
  | inl stays ↦ elim (Bool-cases (str_eq j k)) [
    | inl same ↦ cc (ap (λ n. member n seen) (str_eq_sound j k same), stays, h)
    | inr differ ↦ rw (stays, differ) (lookup-remove_stale_unseen k seen m h)
  ]
  | inr goes ↦ rw goes (lookup-remove_stale_unseen k seen m h)
]

-- What is left after the removal was there before it.
pub lookup-of_remove_stale :
    (k p : String) (seen : List String) (m : Snapshot)
    → lookup k (remove_stale seen m) ≡ some p
    → lookup k m ≡ some p
lookup-of_remove_stale k p seen m h = elim (Bool-cases (member k seen)) [
  | inl shown ↦ sym (lookup-remove_stale k seen m shown) ∙ h
  | inr unseen ↦ cc (lookup-remove_stale_unseen k seen m unseen, h)
]

pub remove_stale_twice :
    (seen : List String) (m : Snapshot)
    → remove_stale seen (remove_stale seen m) ≡ remove_stale seen m
unfolding remove_stale
remove_stale_twice seen [] = refl
remove_stale_twice seen ((j, p) ∷ m) = elim (Bool-cases (member j seen)) [
  | inl stays ↦ rw stays (rw stays (ap (λ r. (j, p) ∷ r) (remove_stale_twice seen m)))
  | inr goes ↦ rw goes (remove_stale_twice seen m)
]

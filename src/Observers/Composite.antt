-- ===== src/Observers/Composite.antt =====
-- The observer that merges the answers of others (internal/observer/composite/observer.go).
use flink_chaos_operator.Prelude.{
  ℕ, ◌+◌, true, false, Option, List, [], ◌∷◌, if◌then◌else◌, ltb, str_eq,
}
use flink_chaos_operator.Api.Types.{ChaosRun}
use flink_chaos_operator.Interfaces.{Result, ok, err, ResolvedTarget, ObservationResult, Observer}
use flink_chaos_operator.Controller.Outcomes.{nothing_observed}

-- One round of the loop: the child's answer is merged into what is there.
unfoldable pub merge : ObservationResult → ObservationResult → ObservationResult
merge merged r = record {
  replacement_observed = if r.replacement_observed then true else merged.replacement_observed;
  all_replacements_ready =
      if r.all_replacements_ready then merged.all_replacements_ready else false;
  tm_count_before = if ltb 0 r.tm_count_before then r.tm_count_before else merged.tm_count_before;
  tm_count_after = if ltb 0 r.tm_count_after then r.tm_count_after else merged.tm_count_after;
  flink_job_state =
      if str_eq r.flink_job_state "" then merged.flink_job_state else r.flink_job_state;
  checkpoint_status =
      if str_eq r.checkpoint_status "" then merged.checkpoint_status else r.checkpoint_status;
}

abbrev pub and_then : {A B : Type 0} → Result A → (A → Result B) → Result B
and_then (ok a) f = f a
and_then (err e) f = err e

unfoldable pub observe_from :
    List Observer
    → ObservationResult
    → ℕ
    → ChaosRun
    → Option ResolvedTarget
    → Result ObservationResult
unfolding merge
observe_from [] merged n run target = ok merged
observe_from (child ∷ children) merged n run target =
    and_then (child n run target) (λ r. observe_from children (merge merged r) (n + 1) run target)

-- `Observe`
unfoldable pub observe : List Observer → Observer
unfolding observe_from
observe children n run target =
    observe_from children (record nothing_observed { all_replacements_ready = true }) n run target

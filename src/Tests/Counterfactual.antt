-- ===== src/Tests/Counterfactual.antt =====
-- The simulation at a concrete history.
use post_rag_drift_evaluator.Prelude.{◌≡◌, refl, some, List, [], ◌∷◌, All, map}
use post_rag_drift_evaluator.Result.{ok}
use post_rag_drift_evaluator.Float.{IsNum}
use post_rag_drift_evaluator.Float.Milli.{Milli, pos, milli, Milli-IsOrdered}
use post_rag_drift_evaluator.Models.Records.{EvaluationRecord}
use post_rag_drift_evaluator.Models.Scenarios.{CounterfactualScenario, CounterfactualResult}
use post_rag_drift_evaluator.Temporal.Series.{timestamp_of}
use post_rag_drift_evaluator.Causal.Attribution.{attribute_drift}
use post_rag_drift_evaluator.Counterfactual.Estimator.{estimate_metric_after_intervention}
use post_rag_drift_evaluator.Counterfactual.Scenario.{build_counterfactual_scenarios}
use post_rag_drift_evaluator.Counterfactual.Simulator.{apply_scenario, run_counterfactual_analysis}
use post_rag_drift_evaluator.Counterfactual.Simulator.Invariance.{
  unsimulated, HasUnsimulatedMetric, apply_scenario-estimate,
  run_counterfactual_analysis-eq-unsimulated,
}
use post_rag_drift_evaluator.Tests.Fixtures.{
  id_of, shift_event, attribution, history, record_of, or_else,
}

abbrev results : List (CounterfactualResult Milli)
results =
    or_else [] (run_counterfactual_analysis id_of shift_event attribution history (some "drift") 3)

results-ok :
    run_counterfactual_analysis id_of shift_event attribution history (some "drift") 3 ≡ ok results
unfolding run_counterfactual_analysis attribute_drift milli
results-ok = refl

history-timed : All (λ r. IsNum (timestamp_of r)) history
unfolding timestamp_of milli
history-timed = (refl, (refl, (refl, tt)))

run_counterfactual_analysis-eq-unsimulated_example :
    (results
      ≡ map
          (unsimulated shift_event history "drift")
          (build_counterfactual_scenarios attribution 3))
    × All (HasUnsimulatedMetric shift_event history "drift") results
run_counterfactual_analysis-eq-unsimulated_example =
    run_counterfactual_analysis-eq-unsimulated Milli-IsOrdered id_of shift_event attribution history
      "drift" 3 results history-timed results-ok

-- The scenario that reverts the release.
abbrev revert : CounterfactualScenario Milli
revert = record {
  drift_event_id = "e1";
  interventions =
      record {
        action = "remove";
        change_id = "r3:3.000:version_change";
        override_metadata = [];
        metadata = [];
      }
      ∷ [];
  description = "";
}

abbrev reverted : List (EvaluationRecord Milli)
reverted =
    record_of "r1" "v1" (pos 1000) (pos 100)
    ∷ record_of "r2" "v1" (pos 2000) (pos 100)
    ∷ record_of "r3" "v1" (pos 3000) (pos 900)
    ∷ []

reverted-ok : apply_scenario id_of history revert ≡ ok reverted
unfolding apply_scenario milli
reverted-ok = refl

apply_scenario-estimate_example :
    estimate_metric_after_intervention shift_event reverted "drift" "mean" (pos 300)
    ≡ estimate_metric_after_intervention shift_event history "drift" "mean" (pos 300)
apply_scenario-estimate_example =
    apply_scenario-estimate Milli-IsOrdered id_of history reverted revert shift_event "drift" "mean"
      (pos 300) history-timed reverted-ok

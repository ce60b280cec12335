-- ===== src/Optimization/Planner.antt =====
-- evaluator/optimization/optimizer.py. `str.lower` is an argument.
use post_rag_drift_evaluator.Prelude.{
  String, List, [], ◌∷◌, ◌++◌, concat, str_eq, if◌then◌else◌, length,
}
use post_rag_drift_evaluator.Float.{Float}
use post_rag_drift_evaluator.Value.{text, num}
use post_rag_drift_evaluator.Models.Records.{DriftEvent}
use post_rag_drift_evaluator.Models.Events.{CausalAttribution}
use post_rag_drift_evaluator.Models.Scenarios.{CounterfactualResult}
use post_rag_drift_evaluator.Models.Actions.{OptimizationRecommendation, OptimizationPlan}
use post_rag_drift_evaluator.Optimization.Actions.{generate_actions}
use post_rag_drift_evaluator.Optimization.Scorer.{score_actions}

-- " ".join(parts)
unfoldable pub join_words : List String → String
join_words [] = ""
join_words (s ∷ []) = s
join_words (s ∷ t ∷ rest) = concat (s ∷ " " ∷ join_words (t ∷ rest) ∷ [])

module _ {F : Type 0} ⦃fl : Float F⦄ (lower : String → String) where
  open fl use {decimal, lt, round, show}

  unfoldable pub build_summary : List (OptimizationRecommendation F) → DriftEvent F → String
  unfolding join_words
  build_summary [] e = concat (
      "No actionable recommendations for drift event " ∷ e.event_id
      ∷ ". No causal factors identified." ∷ [])
  build_summary (top ∷ recs) e =
      let action = top.action in
      join_words (
        concat ("Top recommendation: " ∷ lower action.description ∷ [])
        ∷ ((if str_eq action.target_run_id ""
              then []
              else concat ("in run " ∷ action.target_run_id ∷ []) ∷ [])
            ++ (concat
                  ("(expected improvement: " ∷ show (round 4 top.expected_improvement) ∷ ")" ∷ [])
                ∷ (if lt (decimal 0 0) top.confidence
                    then concat ("confidence: " ∷ show top.confidence ∷ []) ∷ []
                    else []))))

  unfoldable pub generate_optimization_plan :
      DriftEvent F → CausalAttribution F → List (CounterfactualResult F) → OptimizationPlan F
  unfolding generate_actions score_actions build_summary
  generate_optimization_plan e a results =
      let actions = generate_actions a in
      let recommendations = score_actions actions results in
      record {
        drift_event_id = e.event_id;
        recommendations = recommendations;
        summary = build_summary recommendations e;
        metadata =
            ("metric_name", text a.metric_name)
            ∷ ("num_actions", num (decimal (length actions) 0))
            ∷ ("num_recommendations", num (decimal (length recommendations) 0))
            ∷ ("drift_magnitude", num e.magnitude)
            ∷ [];
      }

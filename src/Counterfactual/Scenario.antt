-- ===== src/Counterfactual/Scenario.antt =====
-- evaluator/counterfactual/scenario.py.
use post_rag_drift_evaluator.Prelude.{
  ℕ, String, List, [], ◌∷◌, ◌++◌, map, concat, show_ℕ, ltb, if◌then◌else◌, sort_by, length, take,
}
use post_rag_drift_evaluator.Float.{Float}
use post_rag_drift_evaluator.Dict.{get, get_or}
use post_rag_drift_evaluator.Value.{Items, nil, cons, text, num, items, str_value}
use post_rag_drift_evaluator.Models.Events.{CausalFactor, CausalAttribution}
use post_rag_drift_evaluator.Models.Scenarios.{Intervention, CounterfactualScenario}
use post_rag_drift_evaluator.Causal.Attribution.{by_score}

unfoldable pub text_items : {F : Type 0} → List String → Items F
text_items [] = nil
text_items (s ∷ rest) = cons (text s) (text_items rest)

module _ {F : Type 0} ⦃fl : Float F⦄ where
  open fl use {format}

  -- `str(factor.metadata.get("change_id", ""))`
  unfoldable pub change_id_of : CausalFactor F → String
  unfolding get str_value
  change_id_of f = str_value (get_or "change_id" (text "") f.metadata)

  -- The factor's own scenario.
  unfoldable pub removal : String → CausalFactor F → CounterfactualScenario F
  unfolding change_id_of text_items
  removal drift_event_id f = record {
    drift_event_id = drift_event_id;
    interventions =
        record {
          action = "remove";
          change_id = change_id_of f;
          override_metadata = [];
          metadata =
              ("factor_name", text f.factor_name)
              ∷ ("factor_score", num f.score)
              ∷ ("related_run_ids", items (text_items f.related_run_ids))
              ∷ [];
        }
        ∷ [];
    description = concat (
        "Remove change '"
        ∷ f.factor_name
        ∷ "' (score="
        ∷ format 4 f.score
        ∷ ", change_id="
        ∷ change_id_of f
        ∷ ")"
        ∷ []);
  }

  -- The factor's part in the combined scenario.
  unfoldable pub joint_intervention : CausalFactor F → Intervention F
  unfolding change_id_of
  joint_intervention f = record {
    action = "remove";
    change_id = change_id_of f;
    override_metadata = [];
    metadata = ("factor_name", text f.factor_name) ∷ ("factor_score", num f.score) ∷ [];
  }

  unfoldable pub combined : String → List (CausalFactor F) → List (CounterfactualScenario F)
  unfolding joint_intervention
  combined drift_event_id factors =
      if ltb 1 (length factors)
      then record {
        drift_event_id = drift_event_id;
        interventions = map joint_intervention factors;
        description = concat ("Remove all " ∷ show_ℕ (length factors) ∷ " top-ranked changes" ∷ []);
      }
        ∷ []
      else []

  -- The `top_k` factors of the highest scores.
  unfoldable pub top_factors : ℕ → CausalAttribution F → List (CausalFactor F)
  unfolding sort_by
  top_factors top_k a = take top_k (sort_by by_score a.factors)

  -- With no factors at all both parts are empty, as the early return is.
  unfoldable pub build_counterfactual_scenarios :
      CausalAttribution F → ℕ → List (CounterfactualScenario F)
  unfolding removal combined top_factors
  build_counterfactual_scenarios a top_k =
      let factors = top_factors top_k a in
      map (removal a.drift_event_id) factors ++ combined a.drift_event_id factors

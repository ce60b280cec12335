-- ===== src/Optimization/Scorer.antt =====
-- evaluator/optimization/scorer.py.
pub mod Ranking
pub mod Order
use post_rag_drift_evaluator.Prelude.{
  ℕ, suc, ◌+◌, String, Bool, Option, none, some, List, [], ◌∷◌, if◌then◌else◌, sort_by,
}
use post_rag_drift_evaluator.Float.{Float}
use post_rag_drift_evaluator.Dict.{Dict, get, put}
use post_rag_drift_evaluator.Value.{Value, text, items, elements, str_value, dict_of, fields_of}
use post_rag_drift_evaluator.Models.Scenarios.{CounterfactualResult}
use post_rag_drift_evaluator.Models.Actions.{OptimizationAction, OptimizationRecommendation}

module _ {F : Type 0} where
  -- `cf.metadata.get("change_ids", [])`, which is a list in every result.
  unfoldable pub change_ids_of : CounterfactualResult F → List (Value F)
  unfolding get elements
  change_ids_of cf = elim (get "change_ids" cf.metadata) [ some (items xs) ↦ elements xs | _ ↦ [] ]

module _ {F : Type 0} ⦃fl : Float F⦄ where
  open fl use {decimal, lt, feq, round}

  unfoldable pub note_ids :
      CounterfactualResult F
      → List (Value F)
      → Dict (CounterfactualResult F)
      → Dict (CounterfactualResult F)
  unfolding put str_value
  note_ids cf [] d = d
  note_ids cf (id ∷ ids) d = note_ids cf ids (put (str_value id) cf d)

  -- The results by change; a later result of the same change replaces an earlier one.
  unfoldable pub index_results :
      List (CounterfactualResult F) → Dict (CounterfactualResult F) → Dict (CounterfactualResult F)
  unfolding note_ids change_ids_of
  index_results [] d = d
  index_results (cf ∷ results) d = index_results results (note_ids cf (change_ids_of cf) d)

  unfoldable pub recommend :
      Dict (CounterfactualResult F) → ℕ → OptimizationAction F → OptimizationRecommendation F
  unfolding get fields_of
  recommend by_change priority action = elim (get action.change_id by_change) [
    | none ↦ record {
      action = action;
      expected_improvement = round 6 (decimal 0 0);
      confidence = round 4 (decimal 0 0);
      priority = priority;
      metadata = ("source", text "counterfactual_simulation") ∷ ("cf_metadata", dict_of []) ∷ [];
    }
    | some cf ↦ record {
      action = action;
      expected_improvement = round 6 cf.delta;
      confidence = round 4 cf.confidence;
      priority = priority;
      metadata =
          ("source", text "counterfactual_simulation") ∷ ("cf_metadata", dict_of cf.metadata) ∷ [];
    }
  ]

  unfoldable pub recommend_all :
      Dict (CounterfactualResult F)
      → ℕ
      → List (OptimizationAction F)
      → List (OptimizationRecommendation F)
  unfolding recommend
  recommend_all by_change priority [] = []
  recommend_all by_change priority (a ∷ actions) =
      recommend by_change priority a ∷ recommend_all by_change (priority + 1) actions

  -- The key `(expected_improvement, confidence)` in reverse: the greater pair comes first.
  abbrev pub ranks_above : OptimizationRecommendation F → OptimizationRecommendation F → Bool
  ranks_above r s =
      if feq s.expected_improvement r.expected_improvement
      then lt s.confidence r.confidence
      else lt s.expected_improvement r.expected_improvement

  unfoldable pub renumber :
      ℕ → List (OptimizationRecommendation F) → List (OptimizationRecommendation F)
  renumber i [] = []
  renumber i (r ∷ recs) = record r { priority = i } ∷ renumber (i + 1) recs

  unfoldable pub score_actions :
      List (OptimizationAction F)
      → List (CounterfactualResult F)
      → List (OptimizationRecommendation F)
  unfolding index_results recommend_all renumber sort_by
  score_actions actions results =
      renumber 1 (sort_by ranks_above (recommend_all (index_results results []) 1 actions))

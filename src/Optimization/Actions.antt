-- ===== src/Optimization/Actions.antt =====
-- evaluator/optimization/actions.py.
use post_rag_drift_evaluator.Prelude.{String, List, [], ◌∷◌, map, str_eq, if◌then◌else◌, sort_by}
use post_rag_drift_evaluator.Float.{Float}
use post_rag_drift_evaluator.Value.{text, num}
use post_rag_drift_evaluator.Models.Events.{CausalFactor, CausalAttribution}
use post_rag_drift_evaluator.Models.Actions.{OptimizationAction}
use post_rag_drift_evaluator.Causal.Attribution.{by_score}
use post_rag_drift_evaluator.Counterfactual.Scenario.{change_id_of}

-- _CHANGE_TYPE_TO_ACTION.get(change_type, "rollback_config")
unfoldable pub action_type_of : String → String
action_type_of t =
    if str_eq t "model_update"
    then "revert_model"
    else if str_eq t "config_change"
    then "rollback_config"
    else if str_eq t "version_change"
    then "restore_version"
    else "rollback_config"

-- _ACTION_DESCRIPTIONS.get(action_type, "Rollback configuration change")
unfoldable pub description_of : String → String
description_of t =
    if str_eq t "revert_model"
    then "Revert model change"
    else if str_eq t "rollback_config"
    then "Rollback configuration change"
    else if str_eq t "restore_version"
    then "Restore previous version"
    else "Rollback configuration change"

-- `ids[0] if ids else ""`
unfoldable pub first_or_empty : List String → String
first_or_empty [] = ""
first_or_empty (id ∷ ids) = id

module _ {F : Type 0} ⦃fl : Float F⦄ where
  unfoldable pub action_of : CausalFactor F → OptimizationAction F
  unfolding action_type_of description_of first_or_empty change_id_of
  action_of f = record {
    action_type = action_type_of f.factor_name;
    target_run_id = first_or_empty f.related_run_ids;
    change_id = change_id_of f;
    description = description_of (action_type_of f.factor_name);
    metadata =
        ("factor_name", text f.factor_name)
        ∷ ("factor_score", num f.score)
        ∷ ("change_type", text f.factor_name)
        ∷ [];
  }

  unfoldable pub generate_actions : CausalAttribution F → List (OptimizationAction F)
  unfolding action_of sort_by
  generate_actions a = map action_of (sort_by by_score a.factors)

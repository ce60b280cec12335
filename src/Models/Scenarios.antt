-- ===== src/Models/Scenarios.antt =====
-- evaluator/counterfactual/models.py.
use post_rag_drift_evaluator.Prelude.{String, List}
use post_rag_drift_evaluator.Dict.{Dict}
use post_rag_drift_evaluator.Value.{Value}

pub record Intervention (F : Type 0) : Type 0 where
  pub action : String
  pub change_id : String
  pub override_metadata : Dict (Value F)
  pub metadata : Dict (Value F)

pub record CounterfactualScenario (F : Type 0) : Type 0 where
  pub drift_event_id : String
  pub interventions : List (Intervention F)
  pub description : String

pub record CounterfactualResult (F : Type 0) : Type 0 where
  pub original_metric : F
  pub counterfactual_metric : F
  pub delta : F
  pub confidence : F
  pub metadata : Dict (Value F)

-- ===== src/Models/Actions.antt =====
-- evaluator/optimization/models.py. The random identifiers (`action_id` and the like) are left out:
-- they are drawn afresh, and no code of the pipeline reads them.
use post_rag_drift_evaluator.Prelude.{ℕ, String, List}
use post_rag_drift_evaluator.Dict.{Dict}
use post_rag_drift_evaluator.Value.{Value}

pub record OptimizationAction (F : Type 0) : Type 0 where
  pub action_type : String
  pub target_run_id : String
  pub change_id : String
  pub description : String
  pub metadata : Dict (Value F)

pub record OptimizationRecommendation (F : Type 0) : Type 0 where
  pub action : OptimizationAction F
  pub expected_improvement : F
  pub confidence : F
  pub priority : ℕ
  pub metadata : Dict (Value F)

pub record OptimizationPlan (F : Type 0) : Type 0 where
  pub drift_event_id : String
  pub recommendations : List (OptimizationRecommendation F)
  pub summary : String
  pub metadata : Dict (Value F)

-- ===== src/Models/Records.antt =====
-- evaluator/metrics/results.py, evaluator/storage/models.py and evaluator/temporal/models.py.
use post_rag_drift_evaluator.Prelude.{String, Option, List}
use post_rag_drift_evaluator.Dict.{Dict}
use post_rag_drift_evaluator.Value.{Value}

-- `MetricResult` and its two subclasses, by their own fields.
pub data MetricKind : Type 0 where
  plain : MetricKind
  -- DriftResult(baseline_run_id, current_run_id)
  drift : Option String → Option String → MetricKind
  -- QualityResult(run_id)
  quality : Option String → MetricKind

pub record MetricResult (F : Type 0) : Type 0 where
  pub metric_name : String
  pub value : F
  pub metadata : Dict (Value F)
  pub kind : MetricKind

pub record EvaluationRecord (F : Type 0) : Type 0 where
  pub run_id : String
  pub metrics : List (MetricResult F)
  pub metadata : Dict (Value F)
  pub system_version : Option String
  pub timestamp : Option F

pub record DriftEvent (F : Type 0) : Type 0 where
  pub metric_name : String
  pub start_timestamp : F
  pub end_timestamp : F
  pub magnitude : F
  pub involved_run_ids : List String
  pub metadata : Dict (Value F)
  -- the given identifier, or a fresh `uuid4`
  pub event_id : String

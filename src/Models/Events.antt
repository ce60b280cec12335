-- ===== src/Models/Events.antt =====
-- evaluator/causal/models.py. A `change_id` is `uuid5` of the run, the timestamp and the type, an
-- argument where a change is made.
use post_rag_drift_evaluator.Prelude.{String, List}
use post_rag_drift_evaluator.Dict.{Dict}
use post_rag_drift_evaluator.Value.{Value}

pub record ChangeEvent (F : Type 0) : Type 0 where
  pub change_id : String
  pub timestamp : F
  pub run_id : String
  pub change_type : String
  pub details : Dict (Value F)

pub record CausalFactor (F : Type 0) : Type 0 where
  pub factor_name : String
  pub score : F
  pub related_run_ids : List String
  pub metadata : Dict (Value F)

pub record CausalAttribution (F : Type 0) : Type 0 where
  pub drift_event_id : String
  pub metric_name : String
  pub factors : List (CausalFactor F)
  pub confidence : F
  pub metadata : Dict (Value F)

-- ===== src/Causal/Features.antt =====
-- evaluator/causal/feature_builder.py.
use post_rag_drift_evaluator.Prelude.{String, Bool, List, ◌&&◌, map, str_eq, if◌then◌else◌, sort_by}
use post_rag_drift_evaluator.Float.{Float, fmin}
use post_rag_drift_evaluator.Dict.{Dict}
use post_rag_drift_evaluator.Value.{Value}
use post_rag_drift_evaluator.Models.Records.{DriftEvent}
use post_rag_drift_evaluator.Models.Events.{ChangeEvent}

-- The keys of a feature dictionary, as fields.
pub record Feature (F : Type 0) : Type 0 where
  pub change_id : String
  pub run_id : String
  pub change_type : String
  pub change_type_weight : F
  pub time_delta : F
  pub in_window : Bool
  pub drift_magnitude : F
  pub details : Dict (Value F)

module _ {F : Type 0} ⦃fl : Float F⦄ where
  open fl use {decimal, sub, abs, lt, le}

  -- _CHANGE_TYPE_WEIGHTS, with the weight of "unknown" for any other type.
  unfoldable pub change_type_weight : String → F
  change_type_weight t =
      if str_eq t "model_update"
      then decimal 1 0
      else if str_eq t "version_change"
      then decimal 8 1
      else if str_eq t "config_change"
      then decimal 6 1
      else decimal 3 1

  unfoldable pub is_in_window : DriftEvent F → F → Bool
  is_in_window e t = le e.start_timestamp t && le t e.end_timestamp

  unfoldable pub time_delta : DriftEvent F → F → F
  unfolding is_in_window
  time_delta e t =
      if is_in_window e t
      then decimal 0 0
      else fmin (abs (sub t e.start_timestamp)) (abs (sub t e.end_timestamp))

  unfoldable pub feature_of : DriftEvent F → ChangeEvent F → Feature F
  unfolding change_type_weight time_delta
  feature_of e c = record {
    change_id = c.change_id;
    run_id = c.run_id;
    change_type = c.change_type;
    change_type_weight = change_type_weight c.change_type;
    time_delta = time_delta e c.timestamp;
    in_window = is_in_window e c.timestamp;
    drift_magnitude = e.magnitude;
    details = c.details;
  }

  unfoldable pub build_drift_features : DriftEvent F → List (ChangeEvent F) → List (Feature F)
  unfolding feature_of sort_by
  build_drift_features e changes =
      map (feature_of e) (sort_by (λ c d. lt c.timestamp d.timestamp) changes)

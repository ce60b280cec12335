-- ===== src/Temporal/Series.antt =====
-- evaluator/temporal/series.py.
use post_rag_drift_evaluator.Prelude.{
  String, Bool, none, some, List, [], ◌∷◌, ◌++◌, map, str_eq, if◌then◌else◌, sort_by,
}
use post_rag_drift_evaluator.Float.{Float}
use post_rag_drift_evaluator.Models.Records.{
  MetricKind, drift, quality, MetricResult, EvaluationRecord,
}

-- One observation: the timestamp, the value and the run.
abbrev pub Point : Type 0 → Type 0
Point F = F × F × String

module _ {F : Type 0} where
  -- The run of the metric if its class has one that is set, else the record's, which is a string.
  unfoldable pub extract_run_id : EvaluationRecord F → MetricKind → String
  extract_run_id r (quality (some run)) = run
  extract_run_id r (drift _ (some run)) = run
  extract_run_id r _ = r.run_id

module _ {F : Type 0} ⦃fl : Float F⦄ where
  open fl use {decimal, lt, feq}

  -- `record.timestamp or 0.0`
  unfoldable pub timestamp_of : EvaluationRecord F → F
  timestamp_of r = elim r.timestamp [
    | none ↦ decimal 0 0
    | some t ↦ if feq t (decimal 0 0) then decimal 0 0 else t
  ]

  unfoldable pub points_of : EvaluationRecord F → String → List (MetricResult F) → List (Point F)
  unfolding timestamp_of extract_run_id
  points_of r metric_name [] = []
  points_of r metric_name (m ∷ metrics) =
      let rest = points_of r metric_name metrics in
      if str_eq m.metric_name metric_name
      then (timestamp_of r, m.value, extract_run_id r m.kind) ∷ rest
      else rest

  unfoldable pub collect_points : String → List (EvaluationRecord F) → List (Point F)
  unfolding points_of
  collect_points metric_name [] = []
  collect_points metric_name (r ∷ records) =
      points_of r metric_name r.metrics ++ collect_points metric_name records

  -- `points.sort(key=lambda p: p[0])`
  abbrev pub earlier : Point F → Point F → Bool
  earlier p q = lt p.0 q.0

  -- The argument is `store.load_all()`.
  unfoldable pub get_metric_series_with_runs : List (EvaluationRecord F) → String → List (Point F)
  unfolding collect_points sort_by
  get_metric_series_with_runs records metric_name =
      sort_by earlier (collect_points metric_name records)

  unfoldable pub get_metric_series : List (EvaluationRecord F) → String → List (F × F)
  unfolding get_metric_series_with_runs
  get_metric_series records metric_name =
      map (λ (ts, val, run). (ts, val)) (get_metric_series_with_runs records metric_name)

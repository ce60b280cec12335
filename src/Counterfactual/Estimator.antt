-- ===== src/Counterfactual/Estimator.antt =====
-- evaluator/counterfactual/estimator.py. The squares of the distances of times to their mean are
-- products: times so far apart that `**` raises OverflowError are left out.

use post_rag_drift_evaluator.Prelude.{
  String, List, [], ◌∷◌, ◌++◌, map, str_eq, ltb, keep, if◌then◌else◌, sort_by, length,
}
use post_rag_drift_evaluator.Float.{Float}
use post_rag_drift_evaluator.Models.Records.{DriftEvent, MetricResult, EvaluationRecord}
use post_rag_drift_evaluator.Temporal.Series.{timestamp_of}
use post_rag_drift_evaluator.Latent.Adaptive.{sum, mean}

module _ {F : Type 0} ⦃fl : Float F⦄ where
  open fl use {decimal, add, sub, mul, div, abs, lt}

  abbrev times : List (F × F) → List F
  times = map (λ (ts, v). ts)

  abbrev pub vals : List (F × F) → List F
  vals = map (λ (ts, v). v)

  -- The loop of the moving average, from the first value.
  unfoldable pub smooth : F → F → List F → F
  smooth alpha result [] = result
  smooth alpha result (val ∷ values) =
      smooth alpha (add (mul alpha val) (mul (sub (decimal 1 0) alpha) result)) values

  unfoldable pub smooth_all : F → List F → F
  unfolding smooth
  smooth_all alpha [] = decimal 0 0
  smooth_all alpha (v ∷ values) = smooth alpha v values

  -- `pre_window_values.sort(key=lambda x: x[0])`
  abbrev pub by_first : List (F × F) → List (F × F)
  by_first = sort_by (λ (s, v) (t, w). lt s t)

  unfoldable pub ewma_estimate : List (F × F) → F → F
  unfolding smooth_all sort_by
  ewma_estimate pre_window alpha = smooth_all alpha (vals (by_first pre_window))

  unfoldable pub trend_adjusted_estimate : List (F × F) → F → F
  unfolding sum mean
  trend_adjusted_estimate pre_window target =
      let mean_t = mean (times pre_window) in
      let mean_v = mean (vals pre_window) in
      let numerator = sum (map (λ (t, v). mul (sub t mean_t) (sub v mean_v)) pre_window) in
      let denominator = sum (map (λ t. mul (sub t mean_t) (sub t mean_t)) (times pre_window)) in
      let m = div numerator denominator in
      if lt (abs denominator) (decimal 1 12)
      then mean_v
      else add (mul m target) (sub mean_v (mul m mean_t))

  -- The values of one metric in a record, with the record's time.
  unfoldable pub values_in : String → F → List (MetricResult F) → List (F × F)
  values_in metric_name ts [] = []
  values_in metric_name ts (m ∷ metrics) =
      let rest = values_in metric_name ts metrics in
      if str_eq m.metric_name metric_name then (ts, m.value) ∷ rest else rest

  unfoldable pub values_of : String → List (EvaluationRecord F) → List (F × F)
  unfolding values_in timestamp_of
  values_of metric_name [] = []
  values_of metric_name (r ∷ records) =
      values_in metric_name (timestamp_of r) r.metrics ++ values_of metric_name records

  -- `sum(values) / len(values)`, or 0.0 for no value at all.
  unfoldable pub mean_or_zero : List F → F
  unfolding mean
  mean_or_zero [] = decimal 0 0
  mean_or_zero (v ∷ values) = mean (v ∷ values)

  -- The estimate from the values before the window, which are not empty.
  unfoldable pub estimate_from : List (F × F) → F → String → F → F
  unfolding ewma_estimate trend_adjusted_estimate mean
  estimate_from pre_window start method alpha =
      if str_eq method "mean"
      then mean (vals pre_window)
      else if str_eq method "ewma"
      then ewma_estimate pre_window alpha
      else if str_eq method "trend_adjusted"
      then (if ltb (length pre_window) 3
          then ewma_estimate pre_window alpha
          else trend_adjusted_estimate pre_window start)
      else mean (vals pre_window)

  -- The records are `modified_store.load_all()`.
  unfoldable pub estimate_metric_after_intervention :
      DriftEvent F → List (EvaluationRecord F) → String → String → F → F
  unfolding values_of mean_or_zero estimate_from sort_by
  estimate_metric_after_intervention e records metric_name method alpha =
      let all_values =
        values_of metric_name (sort_by (λ r s. lt (timestamp_of r) (timestamp_of s)) records) in
      elim (keep (λ (ts, v). lt ts e.start_timestamp) all_values) [
        | [] ↦ mean_or_zero (vals all_values)
        | p ∷ pre_window ↦ estimate_from (p ∷ pre_window) e.start_timestamp method alpha
      ]

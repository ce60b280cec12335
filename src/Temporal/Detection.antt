-- ===== src/Temporal/Detection.antt =====
-- evaluator/temporal/drift_detection.py.
pub mod Chunks
use post_rag_drift_evaluator.Prelude.{
  ℕ, zero, suc, ◌+◌, ◌-◌, ◌*◌, String, Option, none, some, List, [], ◌∷◌, ◌++◌, map, ltb, ◌==◌,
  if◌then◌else◌, length, take, drop,
}
use post_rag_drift_evaluator.Result.{Result, ok, err, value_error, ◌>>=◌}
use post_rag_drift_evaluator.Float.{Float}
use post_rag_drift_evaluator.Value.{num, text}
use post_rag_drift_evaluator.Models.Records.{DriftEvent, EvaluationRecord}
use post_rag_drift_evaluator.Temporal.Series.{Point, get_metric_series_with_runs}

-- `range(start, stop, step)` for a step that is not zero; the fuel bounds the number of items.
unfoldable pub range_from : ℕ → ℕ → ℕ → ℕ → List ℕ
range_from zero i stop step = []
range_from (suc fuel) i stop step =
    let rest = range_from fuel (i + step) stop step in if ltb i stop then i ∷ rest else []

-- `xs[a : b]`
abbrev pub slice {ℓ} : {A : Type ℓ} → ℕ → ℕ → List A → List A
slice a b xs = take (b - a) (drop a xs)

module _ {F : Type 0} ⦃fl : Float F⦄ where
  open fl use {decimal, sub, abs, average, lt}

  abbrev pub vals : List (Point F) → List F
  vals = map (λ (ts, v, run). v)

  abbrev pub runs : List (Point F) → List String
  runs = map (λ (ts, v, run). run)

  -- `w[-1]` of a list that starts with the given item.
  unfoldable pub last_of : Point F → List (Point F) → Point F
  last_of p [] = p
  last_of p (q ∷ rest) = last_of q rest

  -- The event of two neighbouring windows, with the given identifier, if their means differ by more than the threshold.
  unfoldable pub compare_windows :
      String → ℕ → F → String → List (Point F) → List (Point F) → List (DriftEvent F)
  unfolding last_of
  compare_windows id window_size threshold metric_name prev [] = []
  compare_windows id window_size threshold metric_name prev (p ∷ curr) =
      let mean_prev = average (vals prev) in
      let mean_curr = average (vals (p ∷ curr)) in
      let magnitude = abs (sub mean_curr mean_prev) in
      if lt threshold magnitude
      then record {
        metric_name = metric_name;
        start_timestamp = p.0;
        end_timestamp = (last_of p curr).0;
        magnitude = magnitude;
        involved_run_ids = runs (p ∷ curr);
        metadata =
            ("method", text "mean_shift")
            ∷ ("window_size", num (decimal window_size 0))
            ∷ ("threshold", num threshold)
            ∷ ("mean_previous", num mean_prev)
            ∷ ("mean_current", num mean_curr)
            ∷ [];
        event_id = id;
      }
        ∷ []
      else []

  -- The body of the loop, for each index; `fresh` gives the `uuid4` of the event found there.
  unfoldable pub scan_windows :
      (ℕ → String) → ℕ → F → String → List (Point F) → List ℕ → List (DriftEvent F)
  unfolding compare_windows
  scan_windows fresh w threshold metric_name series [] = []
  scan_windows fresh w threshold metric_name series (i ∷ indices) =
      let prev = slice (i - w) i series in
      let curr = slice i (i + w) series in
      let rest = scan_windows fresh w threshold metric_name series indices in
      if ltb (length curr) w
      then rest
      else compare_windows (fresh i) w threshold metric_name prev curr ++ rest

  -- A window size of zero is a `range` with step zero, which raises.
  unfoldable pub detect_drift_events :
      (ℕ → String) → List (Point F) → ℕ → F → String → Result (List (DriftEvent F))
  unfolding scan_windows range_from
  detect_drift_events fresh series w threshold metric_name =
      let n = length series in
      if ltb n (w * 2)
      then ok []
      else if w == 0
      then err value_error
      else ok
          (scan_windows fresh w threshold metric_name series (range_from (n + 1) w (n - w + 1) w))

  unfoldable pub detect_drift_from_store :
      (ℕ → String) → List (EvaluationRecord F) → String → ℕ → F → Result (List (DriftEvent F))
  unfolding get_metric_series_with_runs detect_drift_events
  detect_drift_from_store fresh records metric_name w threshold =
      detect_drift_events fresh (get_metric_series_with_runs records metric_name) w threshold
        metric_name

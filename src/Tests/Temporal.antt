-- ===== src/Tests/Temporal.antt =====
-- Drift detection at a concrete series.
use post_rag_drift_evaluator.Prelude.{◌≡◌, ◌<◌, List, [], ◌∷◌, arith, length, take, drop, show_ℕ}
use post_rag_drift_evaluator.Result.{ok}
use post_rag_drift_evaluator.Float.Milli.{Milli, pos, milli}
use post_rag_drift_evaluator.Temporal.Series.{Point}
use post_rag_drift_evaluator.Temporal.Detection.{detect_drift_events}
use post_rag_drift_evaluator.Temporal.Detection.Chunks.{
  events_by_chunk, detect_drift_events-eq-events_by_chunk,
}

abbrev series : List (Point Milli)
series =
    (pos 1000, pos 100, "r1")
    ∷ (pos 2000, pos 100, "r2")
    ∷ (pos 3000, pos 900, "r3")
    ∷ (pos 4000, pos 900, "r4")
    ∷ []

some_window : 0 < 2
some_window = omega arith

enough_fuel : length series < 5
enough_fuel = omega arith

detect_drift_events-eq-events_by_chunk_example :
    detect_drift_events show_ℕ series 2 (pos 150) "drift"
    ≡ ok (events_by_chunk show_ℕ 2 (pos 150) "drift" 5 2 (take 2 series) (drop 2 series))
detect_drift_events-eq-events_by_chunk_example =
    detect_drift_events-eq-events_by_chunk show_ℕ 2 (pos 150) "drift" series 5 some_window
      enough_fuel

-- ===== src/Tests/Latent.antt =====
-- The buffers and the thresholds at concrete inputs.
use mathlib.Core.List.{foldl}
use post_rag_drift_evaluator.Prelude.{
  String, ◌≡◌, ◌≢◌, ◌↔◌, ◌≤◌, refl, none, List, [], ◌∷◌, arith, length, ◌/◌,
}
use post_rag_drift_evaluator.Result.{ok}
use post_rag_drift_evaluator.Float.Milli.{Milli, nan, pos, milli, Milli-IsOrdered}
use post_rag_drift_evaluator.Latent.Adaptive.{
  AdaptiveThresholdManager, update, reset, get_threshold,
}
use post_rag_drift_evaluator.Latent.Adaptive.Bounds.{IsClamped, get_threshold_bounds}
use post_rag_drift_evaluator.Latent.Adaptive.Window.{last_n, foldl-update-reset}
use post_rag_drift_evaluator.Latent.Streaming.{
  StreamingDriftBuffer, reservoir, fifo, new, init, track_of, ingest,
}
use post_rag_drift_evaluator.Latent.Streaming.Bounds.{
  IsBounded, ingest-IsBounded, ingest_raises_iff, init-IsBounded,
}
use post_rag_drift_evaluator.Latent.Streaming.Window.{arrivals, ingest_all, ingest_all-window}

abbrev manager : AdaptiveThresholdManager Milli
manager = record {
  base_threshold = pos 150;
  sensitivity_z = pos 2000;
  window_size = 2;
  min_threshold = pos 50;
  max_threshold = pos 500;
  scores = pos 100 ∷ nan ∷ [];
}

foldl-update-reset_example :
    foldl (λ s x. update x s) (reset manager) (pos 1 ∷ pos 2 ∷ pos 3 ∷ [])
    ≡ record manager { scores = last_n 2 (pos 1 ∷ pos 2 ∷ pos 3 ∷ []) }
foldl-update-reset_example = foldl-update-reset manager (pos 1 ∷ pos 2 ∷ pos 3 ∷ [])

enough_scores : 2 ≤ length manager.scores
enough_scores = omega arith

get_threshold_bounds_example : IsClamped manager (get_threshold manager)
unfolding milli
get_threshold_bounds_example = get_threshold_bounds Milli-IsOrdered manager enough_scores refl

abbrev small : StreamingDriftBuffer String
small = new 3 reservoir

small-IsBounded : IsBounded small
unfolding init
small-IsBounded = (init-IsBounded 3 "reservoir" small small_init).0
  where
    small_init : init 3 "reservoir" ≡ ok small
    small_init = refl

ingest-IsBounded_example : IsBounded (ingest small 0 "v" "retrieval").0
ingest-IsBounded_example = ingest-IsBounded small 0 "v" "retrieval" small-IsBounded

ingest_raises_iff_example :
    ((ingest small 0 "v" "retrieval").1 ≢ none) ↔ (small.per_track_capacity ≡ 0)
ingest_raises_iff_example = ingest_raises_iff small 0 "v" "retrieval" small-IsBounded

abbrev arrived : List (String × String)
arrived = ("retrieval", "a") ∷ ("generation", "b") ∷ ("retrieval", "c") ∷ ("retrieval", "d") ∷ []

at_least_two : 2 ≤ 4
at_least_two = omega arith

ingest_all-window_example :
    track_of (ingest_all (new 4 fifo) arrived) "retrieval"
    ≡ last_n (4 / 2) (arrivals "retrieval" arrived)
ingest_all-window_example = ingest_all-window 4 arrived "retrieval" at_least_two

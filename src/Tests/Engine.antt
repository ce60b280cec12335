-- ===== src/Tests/Engine.antt =====
-- The latent drift engine on lists in place of arrays.
use post_rag_drift_evaluator.Prelude.{
  ℕ, ◌≡◌, refl, none, some, List, [], ◌∷◌, ◌++◌, take, drop, ◌-◌, length,
}
use post_rag_drift_evaluator.Float.Milli.{Milli, pos, milli}
use post_rag_drift_evaluator.Result.{Result, ok, err, value_error}
use post_rag_drift_evaluator.Latent.Adaptive.{AdaptiveThresholdManager}
use post_rag_drift_evaluator.Latent.Engine.{ArrayKernels, LatentDriftEngine, score_of}
use post_rag_drift_evaluator.Latent.Engine.Tracks.{compute_dual_track_drift}
use post_rag_drift_evaluator.Latent.Engine.Decision.{
  compute_all, scores_of, shown, IsStatic, compute_all-engine, compute_dual_track_drift-IsStatic,
}

-- A row is a number, and a score is the first row of the current window.
abbrev first_row : List Milli → List Milli → Result Milli
first_row b [] = err value_error
first_row b (x ∷ xs) = ok x

abbrev lists : ArrayKernels Milli
lists = record {
  Array = List Milli;
  Pca = ℕ;
  Kde = List Milli;
  Density = List Milli;
  empty = [];
  rows = length;
  stack = λ a b. a ++ b;
  slice = λ start stop a. take (stop - start) (drop start a);
  fit_pca = λ n a. ok n;
  n_components = λ p. p;
  variance_ratio = λ p. [];
  project_vectors = λ p a. ok a;
  fit_kde = λ a. ok a;
  build_shared_grid = λ a b. a ++ b;
  evaluate_density = λ kde grid. ok kde;
  flat = λ p. [];
  compute_mmd = first_row;
  compute_swd = first_row;
  compute_jsd = first_row;
}

abbrev manager : AdaptiveThresholdManager Milli
manager = record {
  base_threshold = pos 100;
  sensitivity_z = pos 2000;
  window_size = 2;
  min_threshold = pos 50;
  max_threshold = pos 900;
  scores = [];
}

abbrev engine : LatentDriftEngine lists
engine = record {
  threshold = pos 150;
  metric = "mmd";
  pca_components = 2;
  kde_sample_size = 10;
  threshold_manager = some manager;
  pca = some 2;
  kde_baseline = none;
  baseline_proj = some (pos 10 ∷ pos 20 ∷ []);
}

-- The second batch is empty and raises.
abbrev batches : List (List Milli)
batches = (pos 200 ∷ []) ∷ [] ∷ (pos 400 ∷ []) ∷ []

compute_all-engine_example :
    (compute_all lists batches engine).0 ≡ shown lists (scores_of lists engine batches) engine
compute_all-engine_example = compute_all-engine lists batches engine

batches-scores : scores_of lists engine batches ≡ pos 200 ∷ pos 400 ∷ []
unfolding score_of
batches-scores = refl

compute_dual_track_drift-IsStatic_example :
    let d =
      compute_dual_track_drift lists
        (pos 10 ∷ [])
        (pos 300 ∷ [])
        (pos 20 ∷ [])
        (pos 90 ∷ [])
        engine in
    (d.0.threshold_manager ≡ some manager) × IsStatic lists (pos 150) d.1
compute_dual_track_drift-IsStatic_example =
    compute_dual_track_drift-IsStatic lists (pos 10 ∷ []) (pos 300 ∷ []) (pos 20 ∷ []) (pos 90 ∷ [])
      engine

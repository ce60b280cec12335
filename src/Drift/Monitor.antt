-- ===== src/Drift/Monitor.antt =====
-- evaluator/drift_monitor.py: `DriftMonitor`. The numeric part of the three vector measures, and
-- what graph and swarm drift take of scipy and numpy, are parameters (`Kernels`).
pub mod Evaluation
pub mod Runs
use post_rag_drift_evaluator.Prelude.{
  ℕ, String, Bool, true, false, ◌&&◌, ◌||◌, Option, none, some, List, [], ◌∷◌, ◌++◌, map, length,
  str_eq, ltb, ◌==◌, if◌then◌else◌,
}
use post_rag_drift_evaluator.Float.{Float}
use post_rag_drift_evaluator.Result.{Result, ok, err, value_error, ◌>>=◌}
use post_rag_drift_evaluator.Dict.{Dict, get, has, get_or}
use post_rag_drift_evaluator.Telemetry.{RagEvaluationFrame}
use post_rag_drift_evaluator.Drift.Graph.{GraphDriftCalculator, GraphDrift, compute_graph_drift}
use post_rag_drift_evaluator.Drift.Swarm.{
  SwarmDriftCalculator, SwarmDrift, SwarmValues, compute_swarm_drift,
}

pub record SavedThresholds (F : Type 0) : Type 0 where
  pub jsd : F
  pub mmd : F
  pub kl : F
  pub spectral : F
  pub graph_density : F
  pub entropy : F
  pub reflection : F
  pub calibrated : Bool
  pub calibrated_thresholds : Dict F

pub record DriftMonitor (F : Type 0) : Type 0 where
  pub threshold : F
  pub mmd_threshold : F
  pub per_component_kl_threshold : F
  pub calibrated_thresholds : Dict F
  pub calibrated : Bool
  pub graph_calculator : GraphDriftCalculator F
  pub swarm_calculator : SwarmDriftCalculator F
  pub saved_thresholds : Option (SavedThresholds F)

-- The numeric measures of two matrices: the Jensen-Shannon distance of the shared histograms, the
-- MMD score with its p-value, the greatest and the mean component divergence, the distance of
-- two spectra, and the natural logarithm.
pub record Kernels (F : Type 0) : Type 0 where
  pub js : List (List F) → List (List F) → Result F
  pub mmd_test : List (List F) → List (List F) → Result (F × F)
  pub component_kl : List (List F) → List (List F) → Result (F × F)
  pub eigen_distance : ℕ → List (List F) → List (List F) → F
  pub log : F → F
  pub values : SwarmValues F

pub record VectorDrift (F : Type 0) : Type 0 where
  pub js_divergence : F
  pub mmd_score : F
  pub is_drifted : Bool

pub record ComprehensiveDrift (F : Type 0) : Type 0 where
  pub js_divergence : F
  pub js_drifted : Bool
  pub mmd_score : F
  pub mmd_p_value : F
  pub mmd_drifted : Bool
  pub max_component_kl : F
  pub mean_component_kl : F
  pub per_component_drifted : Bool
  pub is_drifted : Bool

module _ {F : Type 0} ⦃fl : Float F⦄ where
  open fl use {decimal, lt}

  abbrev static_threshold : DriftMonitor F → String → F
  static_threshold m metric =
      if str_eq metric "js_divergence"
      then m.threshold
      else if str_eq metric "mmd_score"
      then m.mmd_threshold
      else if str_eq metric "per_component_kl"
      then m.per_component_kl_threshold
      else decimal 0 0

  unfoldable pub get_threshold : DriftMonitor F → String → F
  unfolding get
  get_threshold m metric =
      if m.calibrated
      then get_or metric (static_threshold m metric) m.calibrated_thresholds
      else static_threshold m metric

  unfoldable pub is_drifted : DriftMonitor F → F → F → F → Bool
  unfolding get_threshold
  is_drifted m js_score mmd_score max_kl =
      lt (get_threshold m "js_divergence") js_score
      || lt (get_threshold m "mmd_score") mmd_score
      || lt (get_threshold m "per_component_kl") max_kl

  unfoldable pub compute_jensen_shannon_drift :
      Kernels F → DriftMonitor F → List (List F) → List (List F) → Result (F × Bool)
  unfolding is_drifted
  compute_jensen_shannon_drift k m baseline current = do
    js ← k.js baseline current
    ok (js, is_drifted m js (decimal 0 0) (decimal 0 0))

  unfoldable pub compute_mmd_drift :
      Kernels F → DriftMonitor F → List (List F) → List (List F) → Result (F × F × Bool)
  unfolding get_threshold
  compute_mmd_drift k m baseline current = do
    (score, p_value) ← k.mmd_test baseline current
    ok (score, p_value, lt p_value (decimal 5 2) || lt (get_threshold m "mmd_score") score)

  unfoldable pub compute_per_component_drift :
      Kernels F → DriftMonitor F → List (List F) → List (List F) → Result (F × F × Bool)
  unfolding get_threshold
  compute_per_component_drift k m baseline current = do
    (max_kl, mean_kl) ← k.component_kl baseline current
    ok (max_kl, mean_kl, lt (get_threshold m "per_component_kl") max_kl)

  -- Without the record that is written to the store.
  unfoldable pub compute_comprehensive_drift :
      Kernels F → DriftMonitor F → List (List F) → List (List F) → Result (ComprehensiveDrift F)
  unfolding compute_jensen_shannon_drift compute_mmd_drift compute_per_component_drift
  compute_comprehensive_drift k m baseline current = do
    (js_score, js_drifted) ← compute_jensen_shannon_drift k m baseline current
    (mmd_score, p_value, mmd_drifted) ← compute_mmd_drift k m baseline current
    (max_kl, mean_kl, pc_drifted) ← compute_per_component_drift k m baseline current
    ok (record {
      js_divergence = js_score;
      js_drifted = js_drifted;
      mmd_score = mmd_score;
      mmd_p_value = p_value;
      mmd_drifted = mmd_drifted;
      max_component_kl = max_kl;
      mean_component_kl = mean_kl;
      per_component_drifted = pc_drifted;
      is_drifted = js_drifted || mmd_drifted || pc_drifted;
    })

module _ {F : Type 0} where
  -- The embedding of a frame, when it has one that is not empty.
  abbrev pub first_embedding : Option (List (List F)) → Option (List F)
  first_embedding none = none
  first_embedding (some []) = none
  first_embedding (some (e ∷ es)) = some e

  abbrev pub or_else : Option (List F) → Option (List F) → Option (List F)
  or_else none o = o
  or_else (some e) o = some e

  abbrev pub frame_embedding : RagEvaluationFrame F → Option (List F)
  frame_embedding f =
      or_else f.query.embedding
        (or_else f.output.response_embedding (first_embedding f.context.dense_embeddings))

  -- `if embedding: vectors.append(embedding)`
  abbrev pub add_filled : Option (List F) → List (List F) → List (List F)
  add_filled none vs = vs
  add_filled (some []) vs = vs
  add_filled (some (x ∷ xs)) vs = (x ∷ xs) ∷ vs

  unfoldable pub frame_vectors : List (RagEvaluationFrame F) → List (List F)
  frame_vectors [] = []
  frame_vectors (f ∷ fs) = add_filled (frame_embedding f) (frame_vectors fs)

  abbrev have_width : ℕ → List (List F) → Bool
  have_width n [] = true
  have_width n (v ∷ vs) = length v == n && have_width n vs

  -- `np.array(vectors, dtype=float)`, which raises on rows of different lengths; `none` without rows
  unfoldable pub as_matrix : List (List F) → Result (Option (List (List F)))
  as_matrix [] = ok none
  as_matrix (v ∷ vs) = if have_width (length v) vs then ok (some (v ∷ vs)) else err value_error

  unfoldable pub collect_vector_embeddings :
      List (RagEvaluationFrame F) → Result (Option (List (List F)))
  unfolding as_matrix frame_vectors
  collect_vector_embeddings frames = as_matrix (frame_vectors frames)

  -- `vectors.shape[1]`
  abbrev width : List (List F) → ℕ
  width [] = 0
  width (v ∷ vs) = length v

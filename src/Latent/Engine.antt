-- ===== src/Latent/Engine.antt =====
-- evaluator/latent_drift/engine.py: `LatentDriftEngine`. Arrays, the PCA, the density estimates and the
-- three divergences are a parameter (`ArrayKernels`). A method that writes returns the new engine
-- beside what it returns or raises.
pub mod Tracks
pub mod Decision
use post_rag_drift_evaluator.Prelude.{
  ℕ, ◌+◌, String, concat, Bool, true, false, ◌||◌, not, ◌&&◌, Option, none, some, List, [], ◌∷◌,
  map, str_eq, if◌then◌else◌,
}
use post_rag_drift_evaluator.Float.{Float}
use post_rag_drift_evaluator.Result.{
  Result, ok, err, Error, value_error, runtime_error, type_error, ◌>>=◌,
}
use post_rag_drift_evaluator.Dict.{Dict, get, get_or}
use post_rag_drift_evaluator.Value.{
  Value, flag, num, text, items, dict, Items, nil, cons, Fields, end, field, dict_of,
}
use post_rag_drift_evaluator.Models.Records.{DriftEvent}
use post_rag_drift_evaluator.Latent.Adaptive.{AdaptiveThresholdManager, update, get_threshold}
use post_rag_drift_evaluator.Latent.Models.{LatentDriftResult}

-- Arrays of two dimensions, fitted projections, density estimates and densities. An exception of
-- numpy's linear algebra is a ValueError.
pub record ArrayKernels (F : Type 0) : Type 1 where
  pub Array : Type 0
  pub Pca : Type 0
  pub Kde : Type 0
  pub Density : Type 0
  -- `np.empty((0, 0))`
  pub empty : Array
  pub rows : Array → ℕ
  pub stack : Array → Array → Array
  -- `a[start:stop]`
  pub slice : ℕ → ℕ → Array → Array
  pub fit_pca : ℕ → Array → Result Pca
  pub n_components : Pca → ℕ
  pub variance_ratio : Pca → List F
  pub project_vectors : Pca → Array → Result Array
  pub fit_kde : Array → Result Kde
  pub build_shared_grid : Array → Array → Array
  pub evaluate_density : Kde → Array → Result Density
  -- `np.full_like(p, _EPSILON)`
  pub flat : Density → Density
  pub compute_mmd : Array → Array → Result F
  pub compute_swd : Array → Array → Result F
  pub compute_jsd : Density → Density → Result F

pub record EmbeddingBatch (F Array : Type 0) : Type 0 where
  pub vectors : Array
  -- `timestamp.timestamp()`
  pub timestamp : Option F
  pub track : String

module _ {F : Type 0} ⦃fl : Float F⦄ (k : ArrayKernels F) where
  open fl use {decimal, lt}
  open k use {Array, Pca, Kde, Density}

  pub record LatentDriftEngine : Type 0 where
    pub threshold : F
    pub metric : String
    pub pca_components : ℕ
    pub kde_sample_size : ℕ
    pub threshold_manager : Option (AdaptiveThresholdManager F)
    pub pca : Option Pca
    pub kde_baseline : Option Kde
    pub baseline_proj : Option Array

  unfoldable pub init :
      F → String → ℕ → ℕ → Option (AdaptiveThresholdManager F) → Result LatentDriftEngine
  init threshold metric pca_components kde_sample_size manager =
      if str_eq metric "mmd" || str_eq metric "swd" || str_eq metric "jsd"
      then ok (record {
        threshold = threshold;
        metric = metric;
        pca_components = pca_components;
        kde_sample_size = kde_sample_size;
        threshold_manager = manager;
        pca = none;
        kde_baseline = none;
        baseline_proj = none;
      })
      else err value_error

  abbrev pub with_density : LatentDriftEngine → Result Kde → LatentDriftEngine × Option Error
  with_density e (err x) = (e, some x)
  with_density e (ok kde) = (record e { kde_baseline = some kde }, none)

  -- `fit`, with the exception that it raises. The last assignment, for the metric that needs it.
  abbrev pub fit_density : LatentDriftEngine → Array → LatentDriftEngine × Option Error
  fit_density e proj = if str_eq e.metric "jsd" then with_density e (k.fit_kde proj) else (e, none)

  abbrev pub fit_projection :
      LatentDriftEngine → Array → Result Array → LatentDriftEngine × Option Error
  fit_projection e v (err x) = (e, some x)
  fit_projection e v (ok proj) = fit_density (record e { baseline_proj = some proj }) proj

  abbrev pub fit_with : LatentDriftEngine → Array → Result Pca → LatentDriftEngine × Option Error
  fit_with e v (err x) = (e, some x)
  fit_with e v (ok p) = fit_projection (record e { pca = some p }) v (k.project_vectors p v)

  unfoldable pub fit : Array → LatentDriftEngine → LatentDriftEngine × Option Error
  fit v e = fit_with e v (k.fit_pca e.pca_components v)

  -- A current window that has no density estimate takes a flat one.
  abbrev current_density : Density → Result Density → Result Density
  current_density p (ok q) = ok q
  current_density p (err value_error) = ok (k.flat p)
  current_density p (err x) = err x

  abbrev jsd_score : Option Kde → Array → Array → Result F
  jsd_score none b c = err type_error
  jsd_score (some kde) b c = do
    let grid = k.build_shared_grid b c
    p ← k.evaluate_density kde grid
    q ← current_density p (do current ← k.fit_kde c; k.evaluate_density current grid)
    k.compute_jsd p q

  unfoldable pub compute_metric : LatentDriftEngine → Array → Array → Result F
  compute_metric e b c =
      if str_eq e.metric "mmd"
      then k.compute_mmd b c
      else if str_eq e.metric "swd"
      then k.compute_swd b c
      else if str_eq e.metric "jsd"
      then jsd_score e.kde_baseline b c
      else err value_error

  -- The adaptive manager sees the score before its threshold is read.
  abbrev update_manager :
      F → Option (AdaptiveThresholdManager F) → Option (AdaptiveThresholdManager F)
  update_manager score none = none
  update_manager score (some m) = some (update score m)

  unfoldable pub effective_threshold : LatentDriftEngine → Result F
  unfolding get_threshold
  effective_threshold e = elim e.threshold_manager [
    | none ↦ ok e.threshold
    | some m ↦ get_threshold m
  ]

  abbrev numbers : List F → Items F
  numbers [] = nil
  numbers (x ∷ xs) = cons (num x) (numbers xs)

  abbrev is_adaptive : Option (AdaptiveThresholdManager F) → Bool
  is_adaptive none = false
  is_adaptive (some m) = true

  -- The result of a score and a threshold, on the engine whose manager has seen the score.
  unfoldable pub result_of_score :
      LatentDriftEngine → Pca → Array → Array → F → F → LatentDriftResult F
  result_of_score e p baseline current score threshold = record {
    drift_score = score;
    drift_detected = lt threshold score;
    threshold = threshold;
    n_samples_baseline = k.rows baseline;
    n_samples_current = k.rows current;
    metric_used = e.metric;
    track = "unified";
    metric_breakdown = [];
    metadata =
        ("pca_components", num (decimal (k.n_components p) 0))
        ∷ ("explained_variance_ratio", items (numbers (k.variance_ratio p)))
        ∷ ("metric", text e.metric)
        ∷ ("kde_sample_size", num (decimal e.kde_sample_size 0))
        ∷ ("adaptive_threshold", flag (is_adaptive e.threshold_manager))
        ∷ [];
  }

  abbrev is_missing : Option Kde → Bool
  is_missing none = true
  is_missing (some d) = false

  abbrev pub projected_baseline : Option Array → Array
  projected_baseline none = k.empty
  projected_baseline (some b) = b

  abbrev pub fitted : Option Pca → Result Pca
  fitted none = err runtime_error
  fitted (some p) = ok p

  -- The score of a batch, and the arrays that it compares; an engine that is not fitted raises.
  unfoldable pub score_of : LatentDriftEngine → Array → Result (Pca × Array × Array × F)
  unfolding compute_metric
  score_of e v = do
    p ← fitted e.pca
    checked ←
        (if str_eq e.metric "jsd" && is_missing e.kde_baseline then err runtime_error else ok p)
    current ← k.project_vectors p v
    let baseline = projected_baseline e.baseline_proj
    score ← compute_metric e baseline current
    ok (p, baseline, current, score)

  -- The manager has seen the score also when its threshold then raises.
  abbrev decided :
      LatentDriftEngine
      → Result (Pca × Array × Array × F)
      → LatentDriftEngine × Result (LatentDriftResult F)
  decided e (err x) = (e, err x)
  decided e (ok (p, baseline, current, score)) =
      let e' = record e { threshold_manager = update_manager score e.threshold_manager } in
      (e', do t ← effective_threshold e'; ok (result_of_score e' p baseline current score t))

  unfoldable pub compute_drift :
      Array → LatentDriftEngine → LatentDriftEngine × Result (LatentDriftResult F)
  unfolding score_of result_of_score update effective_threshold
  compute_drift v e = decided e (score_of e v)

  abbrev after_fit :
      Array → LatentDriftEngine × Option Error → LatentDriftEngine × Result (LatentDriftResult F)
  after_fit v (e, some x) = (e, err x)
  after_fit v (e, none) = compute_drift v e

  unfoldable pub fit_compute :
      Array → Array → LatentDriftEngine → LatentDriftEngine × Result (LatentDriftResult F)
  unfolding fit compute_drift
  fit_compute baseline current e = after_fit current (fit baseline e)

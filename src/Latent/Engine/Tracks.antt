-- ===== src/Latent/Engine/Tracks.antt =====
-- evaluator/latent_drift/engine.py: the comparison of the retrieval and generation tracks, and the
-- drift events that results become.
use post_rag_drift_evaluator.Prelude.{
  ℕ, ◌+◌, String, concat, true, Option, none, some, List, [], ◌∷◌, ◌++◌, if◌then◌else◌,
}
use post_rag_drift_evaluator.Float.{Float}
use post_rag_drift_evaluator.Result.{Result, ok, err, Error, ◌>>=◌}
use post_rag_drift_evaluator.Dict.{Dict, get, get_or}
use post_rag_drift_evaluator.Value.{Value, flag, num, text, Fields, end, field, dict, dict_of}
use post_rag_drift_evaluator.Models.Records.{DriftEvent}
use post_rag_drift_evaluator.Latent.Models.{LatentDriftResult}
use post_rag_drift_evaluator.Latent.Engine.{
  ArrayKernels, EmbeddingBatch, LatentDriftEngine, init, fit, compute_metric, fit_compute, fitted,
  projected_baseline,
}

pub record DualTracks (F : Type 0) : Type 0 where
  pub retrieval : LatentDriftResult F
  pub generation : LatentDriftResult F
  pub unified : LatentDriftResult F

module _ {F : Type 0} ⦃fl : Float F⦄ (k : ArrayKernels F) where
  open fl use {decimal, lt}
  open k use {Array, Pca}

  -- The scores of the three tracks, as `metric_breakdown` holds them.
  abbrev pub breakdown : F → F → F → Dict F
  breakdown ret gen uni = ("retrieval", ret) ∷ ("generation", gen) ∷ ("unified", uni) ∷ []

  abbrev pub track_result :
      LatentDriftEngine k → Pca → String → Dict F → Array → Array → F → LatentDriftResult F
  track_result e p track scores baseline current score = record {
    drift_score = score;
    drift_detected = lt e.threshold score;
    threshold = e.threshold;
    n_samples_baseline = k.rows baseline;
    n_samples_current = k.rows current;
    metric_used = e.metric;
    track = track;
    metric_breakdown = scores;
    metadata = ("pca_components", num (decimal (k.n_components p) 0)) ∷ [];
  }

  -- After the fit on both baselines.
  unfoldable pub compare_tracks :
      Array → Array → Array → Array → LatentDriftEngine k → Result (DualTracks F)
  unfolding compute_metric
  compare_tracks base_ret cur_ret base_gen cur_gen e = do
    p ← fitted k e.pca
    let base_proj = projected_baseline k e.baseline_proj
    let ret = k.rows base_ret
    let base_ret_proj = k.slice 0 ret base_proj
    let base_gen_proj = k.slice ret (ret + k.rows base_gen) base_proj
    cur_ret_proj ← k.project_vectors p cur_ret
    cur_gen_proj ← k.project_vectors p cur_gen
    ret_score ← compute_metric k e base_ret_proj cur_ret_proj
    gen_score ← compute_metric k e base_gen_proj cur_gen_proj
    let combined = k.stack cur_ret_proj cur_gen_proj
    unified_score ← compute_metric k e base_proj combined
    let scores = breakdown ret_score gen_score unified_score
    ok (record {
      retrieval = track_result e p "retrieval" scores base_ret_proj cur_ret_proj ret_score;
      generation = track_result e p "generation" scores base_gen_proj cur_gen_proj gen_score;
      unified = track_result e p "unified" scores base_proj combined unified_score;
    })

  abbrev pub after_tracks_fit :
      Array
      → Array
      → Array
      → Array
      → LatentDriftEngine k × Option Error
      → LatentDriftEngine k × Result (DualTracks F)
  after_tracks_fit base_ret cur_ret base_gen cur_gen (e, some x) = (e, err x)
  after_tracks_fit base_ret cur_ret base_gen cur_gen (e, none) =
      (e, compare_tracks base_ret cur_ret base_gen cur_gen e)

  unfoldable pub compute_dual_track_drift :
      Array
      → Array
      → Array
      → Array
      → LatentDriftEngine k
      → LatentDriftEngine k × Result (DualTracks F)
  unfolding fit compare_tracks
  compute_dual_track_drift base_ret cur_ret base_gen cur_gen e =
      after_tracks_fit base_ret cur_ret base_gen cur_gen (fit k (k.stack base_ret base_gen) e)

  abbrev breakdown_fields : Dict F → Fields F
  breakdown_fields [] = end
  breakdown_fields ((t, x) ∷ d) = field t (num x) (breakdown_fields d)

  unfoldable pub result_fields : LatentDriftResult F → Dict (Value F)
  unfolding get
  result_fields r =
      ("latent_drift", flag true)
      ∷ ("drift_score", num r.drift_score)
      ∷ ("threshold", num r.threshold)
      ∷ ("n_samples_baseline", num (decimal r.n_samples_baseline 0))
      ∷ ("n_samples_current", num (decimal r.n_samples_current 0))
      ∷ ("pca_components", get_or "pca_components" (num (decimal 0 0)) r.metadata)
      ∷ ("metric_used", text r.metric_used)
      ∷ ("track", text r.track)
      ∷ []

  -- `to_drift_event`, with the identifier that is given or drawn.
  unfoldable pub to_drift_event : String → LatentDriftResult F → LatentDriftEngine k → DriftEvent F
  unfolding result_fields
  to_drift_event event_id r e = record {
    metric_name = concat ("latent_" ∷ r.metric_used ∷ []);
    start_timestamp = decimal 0 0;
    end_timestamp = decimal 0 0;
    magnitude = r.drift_score;
    involved_run_ids = [];
    metadata =
        result_fields r
        ++ (("metric_breakdown", dict (breakdown_fields r.metric_breakdown))
            ∷ (
              "engine_config",
              dict_of (
                  ("threshold", num e.threshold)
                  ∷ ("metric", text e.metric)
                  ∷ ("pca_components", num (decimal e.pca_components 0))
                  ∷ ("kde_sample_size", num (decimal e.kde_sample_size 0))
                  ∷ []),
            )
            ∷ []);
    event_id = event_id;
  }

  unfoldable pub compute_latent_drift :
      EmbeddingBatch F Array
      → EmbeddingBatch F Array
      → F
      → String
      → ℕ
      → ℕ
      → Result (LatentDriftResult F)
  unfolding init fit_compute
  compute_latent_drift baseline current threshold metric pca_components kde_sample_size = do
    e ← init k threshold metric pca_components kde_sample_size none
    r ← (fit_compute k baseline.vectors current.vectors e).1
    ok (record r { track = baseline.track })

  abbrev seconds : Option F → F
  seconds none = decimal 0 0
  seconds (some t) = t

  -- The identifier of the event is drawn by `uuid4`.
  unfoldable pub events_of :
      String → String → EmbeddingBatch F Array → LatentDriftResult F → List (DriftEvent F)
  unfolding result_fields
  events_of uuid4 metric current r =
      if r.drift_detected
      then record {
        metric_name = concat ("latent_" ∷ metric ∷ []);
        start_timestamp = seconds current.timestamp;
        end_timestamp = seconds current.timestamp;
        magnitude = r.drift_score;
        involved_run_ids = [];
        metadata = result_fields r;
        event_id = uuid4;
      }
        ∷ []
      else []

  unfoldable pub detect_latent_drift_events :
      String
      → EmbeddingBatch F Array
      → EmbeddingBatch F Array
      → F
      → String
      → ℕ
      → ℕ
      → Result (List (DriftEvent F))
  unfolding compute_latent_drift events_of
  detect_latent_drift_events uuid4 baseline current threshold metric pca_components samples = do
    r ← compute_latent_drift baseline current threshold metric pca_components samples
    ok (events_of uuid4 metric current r)

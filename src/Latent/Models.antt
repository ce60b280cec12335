-- ===== src/Latent/Models.antt =====
-- evaluator/latent_drift/schemas.py: `LatentDriftResult`.
use post_rag_drift_evaluator.Prelude.{ℕ, String, Bool}
use post_rag_drift_evaluator.Dict.{Dict}
use post_rag_drift_evaluator.Value.{Value}

pub record LatentDriftResult (F : Type 0) : Type 0 where
  pub drift_score : F
  pub drift_detected : Bool
  pub threshold : F
  pub n_samples_baseline : ℕ
  pub n_samples_current : ℕ
  pub metric_used : String
  pub track : String
  pub metric_breakdown : Dict F
  pub metadata : Dict (Value F)

-- ===== src/Latent.antt =====
-- evaluator/latent_drift: the rolling thresholds and the stream buffers of embeddings.
pub mod Models
pub mod Adaptive
pub mod Engine
pub mod Streaming

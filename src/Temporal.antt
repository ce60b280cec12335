-- ===== src/Temporal.antt =====
-- evaluator/temporal: the series of a metric, and mean-shift drift detection over it.
pub mod Series
pub mod Detection

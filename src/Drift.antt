-- ===== src/Drift.antt =====
-- The drift of a window of frames against a baseline (evaluator/drift/, evaluator/drift_monitor.py).
pub mod Swarm
pub mod Graph
pub mod Monitor

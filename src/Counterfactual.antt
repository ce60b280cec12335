-- ===== src/Counterfactual.antt =====
-- evaluator/counterfactual: what the metric would have been without a change.
pub mod Estimator
pub mod Scenario
pub mod Simulator
